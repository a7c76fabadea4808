-- ===== src/Service.antt =====
-- src/service.rs: the message loop of `Supervisor::connect`. What the system reports in one round of
-- the loop is a `Round`; the values that a round does not reach are not read.
pub mod Invariant
pub mod Traffic
pub mod Safety
pub mod Supervise
pub mod Connect
pub mod Clean
mod SessionTests
mod Tests
use galaxybridge.Prelude.{
  ℕ, zero, suc, ◌+◌, ◌≡◌, Bool, true, false, ◌&&◌, ◌||◌, not, List, [], ◌∷◌, Option, none, some,
  Result, ok, err, Error, io, would_block, interrupted, message, message_with, ◌>>=◌, ◌>>◌, ◌==◌,
  leb, ◌%◌, if◌then◌else◌, text_eq,
}
use galaxybridge.Ipc.{Message, ready, frame, contains}
use galaxybridge.Ipc
use galaxybridge.Macos.Bpf.{permits, Layout}
use galaxybridge.Macos.Bpf
use galaxybridge.Macos.Route.{Snapshot, same_route, finds_vpn}

-- The variables of `connect`, and what it has done: the addresses it activated, the frames it gave to
-- the device and the datagrams it gave to the worker, the last one first.
pub record Connection : Type 0 where
  pub is_ready : Bool
  pub has_address : Bool
  pub gateway_failures : ℕ
  pub previous : Option Snapshot
  pub activations : List (List ℕ)
  pub written : List (List ℕ)
  pub sent : List (List ℕ)
  pub dhcp_requests : ℕ

-- One `recv`: its outcome, and that of the calls it may lead to.
pub record Receipt : Type 0 where
  pub datagram : Result (List ℕ)
  pub activated : Result (Unit {0})
  pub dhcp : Result (Unit {0})

-- The outcome of the part of the round so far.
abbrev pub Outcome : Type 0
Outcome = Connection × Result (Unit {0})

abbrev pub attempt {ℓ} : {A : Type ℓ} → Result A → Connection → (A → Outcome) → Outcome
attempt (ok a) c next = next a
attempt (err e) c next = (c, err e)

abbrev pub and_then : Outcome → (Connection → Outcome) → Outcome
and_then (c, ok u) next = next c
and_then (c, err e) next = (c, err e)

abbrev pub go_on : Connection → Outcome
go_on c = (c, ok tt)

-- The outcome of a write or a send: back pressure drops the frame.
unfoldable pub dropped : {A : Type 0} → Result A → Result (Unit {0})
unfolding contains
dropped (ok a) = ok tt
dropped (err e) = if contains e then ok tt else err e

-- `Message::Ready`, before it was seen. `Pair::activate` and `Pair::dhcp` are the two calls.
unfoldable pub start : Connection → List ℕ → Receipt → Outcome
start c mac receipt =
    let c' = record c { activations = mac ∷ c.activations } in
    attempt receipt.activated c' (λ u.
      let c'' = record c' { dhcp_requests = c.dhcp_requests + 1 } in
      attempt receipt.dhcp c'' (λ v. go_on (record c'' { is_ready = true })))

-- `Message::Frame`, after the ready message. `file_write` is the write of the device file.
unfoldable pub deliver : (List ℕ → Result ℕ) → Connection → List ℕ → Outcome
unfolding dropped
deliver file_write c bytes =
    if permits bytes
    then (record c { written = bytes ∷ c.written }, dropped (Bpf.write file_write bytes))
    else go_on c

unfoldable pub handle : (List ℕ → Result ℕ) → Connection → Receipt → Message → Outcome
handle file_write c receipt (ready mac) =
    if c.is_ready
    then (c, err (message "unexpected worker protocol state"))
    else start c mac receipt
handle file_write c receipt (frame bytes) =
    if c.is_ready
    then deliver file_write c bytes
    else (c, err (message "unexpected worker protocol state"))

-- What one `recv` leads to; `none` breaks the loop.
unfoldable pub take : (List ℕ → Result ℕ) → Connection → Receipt → Result (List ℕ) → Option Outcome
take file_write c receipt (ok bytes) =
    some (attempt (Ipc.decode bytes) c (handle file_write c receipt))
take file_write c receipt (err (io would_block)) = none
take file_write c receipt (err e) = some (c, err e)

-- The datagrams of the worker, `fuel` of them at most, until a `recv` would block.
unfoldable pub receive : ℕ → (List ℕ → Result ℕ) → Connection → List Receipt → Outcome
unfolding take
receive zero file_write c receipts = go_on c
receive (suc fuel) file_write c [] = go_on c
receive (suc fuel) file_write c (receipt ∷ receipts) =
    elim (take file_write c receipt receipt.datagram) [
      | none ↦ go_on c
      | some outcome ↦ and_then outcome (λ c'. receive fuel file_write c' receipts)
    ]

-- The frames of one read of the device. `socket_send` is the send on the worker's socket.
unfoldable pub forward : (List ℕ → Result ℕ) → Connection → List (List ℕ) → Outcome
unfolding dropped
forward socket_send c [] = go_on c
forward socket_send c (bytes ∷ frames) =
    let datagram = Ipc.encode (frame bytes) in
    let c' = record c { sent = datagram ∷ c.sent } in
    let rest = forward socket_send c frames in
    let rest' = forward socket_send c' frames in
    if permits bytes then attempt (dropped (socket_send datagram)) c' (λ u. rest') else rest

unfoldable pub read_frames : Layout → (List ℕ → Result ℕ) → Connection → Result (List ℕ) → Outcome
read_frames layout socket_send c (ok bytes) =
    if c.is_ready then attempt (Bpf.decode bytes layout) c (forward socket_send c) else go_on c
read_frames layout socket_send c (err (io would_block)) = go_on c
read_frames layout socket_send c (err (io interrupted)) = go_on c
read_frames layout socket_send c (err e) = (c, err e)

-- What the network check of a round reads: the route that DHCP gave to the interface, the default
-- route, whether the table holds a VPN route, and the outcomes of `Snapshot::apply` and `Pair::dhcp`.
pub record Check : Type 0 where
  pub phone : Option Snapshot
  pub current : Result (Option Snapshot)
  pub present : Result Bool
  pub applied : Result (Unit {0})
  pub dhcp : Result (Unit {0})

-- The route to come back to after the session, when the current one is not the session's own.
unfoldable pub remember : List ℕ → Connection → Option Snapshot → Connection
remember system c none = c
remember system c (some s) =
    if text_eq s.interface system then c else record c { previous = some s }

unfoldable pub prefer : List ℕ → Connection → Check → Snapshot → Outcome
unfolding finds_vpn same_route
prefer system c check phone = attempt check.current c (λ current.
    attempt (finds_vpn current check.present) c (λ vpn.
      let c' = remember system c current in
      let there = record c { has_address = true; gateway_failures = 0 } in
      let there' = record c' { has_address = true; gateway_failures = 0 } in
      if vpn || same_route current (some phone)
      then go_on there
      else attempt check.applied c' (λ u. go_on there')))

-- No address yet: the tenth check in a row gives up, and each third one asks again.
unfoldable pub wait_dhcp : Connection → Check → Outcome
wait_dhcp c check =
    let failures = c.gateway_failures + 1 in
    let c' = record c { has_address = false; gateway_failures = failures } in
    if leb 10 failures
    then (c', err (message "DHCP did not complete"))
    else (if failures % 3 == 0
        then (record c' { dhcp_requests = c.dhcp_requests + 1 }, check.dhcp)
        else go_on c')

unfoldable pub check_network : List ℕ → Connection → Check → Outcome
check_network system c check = elim check.phone [
  | some phone ↦ prefer system c check phone
  | none ↦ wait_dhcp c check
]

-- What `poll` says: it failed, a descriptor is closed, or what can be read.
pub data Poll : Type 0 where
  broken : Error → Poll
  closed : Poll
  readable : Bool → Bool → Poll

pub record Round : Type 0 where
  -- `Worker::poll`: the exit status, if the worker has ended.
  pub worker : Result (Option ℕ)
  -- More than ten seconds since the start.
  pub late : Bool
  pub poll : Poll
  pub receipts : List Receipt
  pub reading : Result (List ℕ)
  pub file_write : List ℕ → Result ℕ
  pub socket_send : List ℕ → Result ℕ
  -- Three seconds since the last network check.
  pub due : Bool
  pub check : Check

unfoldable pub transfer : Layout → List ℕ → Connection → Round → Bool → Bool → Outcome
transfer layout system c round from_worker from_device =
    and_then (if from_worker then receive 128 round.file_write c round.receipts else go_on c) (λ c'.
      and_then
        (if from_device then read_frames layout round.socket_send c' round.reading else go_on c')
        (λ c''.
          if c''.is_ready && round.due then check_network system c'' round.check else go_on c''))

unfoldable pub polled : Layout → List ℕ → Connection → Round → Poll → Outcome
polled layout system c round (broken (io interrupted)) = go_on c
polled layout system c round (broken e) = (c, err e)
polled layout system c round closed = (c, err (message "network transport closed"))
polled layout system c round (readable from_worker from_device) =
    transfer layout system c round from_worker from_device

-- The body of the loop of `Supervisor::connect`.
unfoldable pub step : Layout → List ℕ → Connection → Round → Outcome
step layout system c round = attempt round.worker c (elim [
  | some status ↦ (c, err (message_with "USB worker exited" (status ∷ [])))
  | none ↦
      if not c.is_ready && round.late
      then (c, err (message "USB initialization timed out"))
      else polled layout system c round round.poll
])

-- The loop, for the rounds before the stop flag is set.
unfoldable pub run : Layout → List ℕ → Connection → List Round → Outcome
run layout system c [] = go_on c
run layout system c (round ∷ rounds) =
    and_then (step layout system c round) (λ c'. run layout system c' rounds)

-- The state before the first round, for the route that was read at the start.
unfoldable pub initial : Option Snapshot → Connection
initial previous = record {
  is_ready = false;
  has_address = false;
  gateway_failures = 0;
  previous = previous;
  activations = [];
  written = [];
  sent = [];
  dhcp_requests = 0;
}
