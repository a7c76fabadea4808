-- ===== src/Service/Safety.antt =====
-- The message loop of src/service.rs keeps its invariant.
use galaxybridge.Prelude.{
  ℕ, ◌+◌, ◌<◌, ◌≡◌, inl, inr, refl, Bool, true, false, ◌&&◌, ◌||◌, not, List, [], ◌∷◌, Option, none,
  some, ok, err, io, would_block, interrupted, timed_out, no_buffers, other_kind, message,
  message_with, panic, out_of_fuel, arith, leb, ◌==◌, ◌%◌, Bool-cases, text_eq,
}
use galaxybridge.Macos.Bpf.{Layout}
use galaxybridge.Macos.Route.{Snapshot, same_route, finds_vpn}
use galaxybridge.Service.{
  Connection, Outcome, Check, remember, prefer, wait_dhcp, check_network, Poll, broken, closed,
  readable, Round, transfer, polled, step, run, initial,
}
use galaxybridge.Service.Invariant.{
  IsSafe, IsLive, Both, Good, Fine-safe, attempt-Good, and_then-Good, if-Good, option-Good,
}
use galaxybridge.Service.Traffic.{receive-Good, read_frames-Good}

remember-Both :
    (system : List ℕ) (c : Connection) (current : Option Snapshot)
    → Both c
    → Both (remember system c current)
unfolding remember
remember-Both system c none both = both
remember-Both system c (some s) (safe, live) = elim (Bool-cases (text_eq s.interface system)) [
  | inl own ↦ rw own (safe, live)
  | inr other ↦ rw other (
    record {
      written = safe.written;
      sent = safe.sent;
      activated = safe.activated;
      once = safe.once;
      failures = safe.failures;
    },
    record { quiet = live.quiet; started = live.started; patient = live.patient },
  )
]

addressed : (c : Connection) → Both c → Both (record c { has_address = true; gateway_failures = 0 })
addressed c (safe, live) = (
  record {
    written = safe.written;
    sent = safe.sent;
    activated = safe.activated;
    once = safe.once;
    failures = omega arith;
  },
  record { quiet = live.quiet; started = live.started; patient = omega arith },
)

prefer-Good :
    (system : List ℕ) (c : Connection) (check : Check) (phone : Snapshot)
    → Both c
    → Good (prefer system c check phone)
unfolding prefer
prefer-Good system c check phone both = attempt-Good check.current c _ both.0 (λ current e.
    attempt-Good (finds_vpn current check.present) c _ both.0 (λ vpn f.
      if-Good (vpn || same_route current (some phone)) _ _ (λ there. addressed c both)
        (λ other.
          let both' = remember-Both system c current both in
          attempt-Good check.applied _ _ both'.0 (λ u g. addressed _ both'))))

unaddressed :
    (c : Connection) (requests : ℕ)
    → IsSafe c
    → c.gateway_failures < 10
    → IsSafe (record c {
      has_address = false;
      gateway_failures = c.gateway_failures + 1;
      dhcp_requests = requests;
    })
unaddressed c requests safe few = record {
  written = safe.written;
  sent = safe.sent;
  activated = safe.activated;
  once = safe.once;
  failures = omega (arith, few);
}

wait_dhcp-Good : (c : Connection) (check : Check) → Both c → Good (wait_dhcp c check)
unfolding wait_dhcp
wait_dhcp-Good c check (safe, live) =
    if-Good (leb 10 (c.gateway_failures + 1)) _ _
      (λ last. unaddressed c c.dhcp_requests safe live.patient)
      (λ more.
        let few : c.gateway_failures + 1 < 10 = ground arith in
        if-Good ((c.gateway_failures + 1) % 3 == 0) _ _
          (λ third. Fine-safe _ check.dhcp (
            unaddressed c (c.dhcp_requests + 1) safe live.patient,
            record { quiet = live.quiet; started = live.started; patient = few },
          ))
          (λ other. (
            unaddressed c c.dhcp_requests safe live.patient,
            record { quiet = live.quiet; started = live.started; patient = few },
          )))

check_network-Good :
    (system : List ℕ) (c : Connection) (check : Check)
    → Both c
    → Good (check_network system c check)
unfolding check_network
check_network-Good system c check both =
    option-Good check.phone _ _ (λ e. wait_dhcp-Good c check both)
      (λ phone e. prefer-Good system c check phone both)

transfer-Good :
    (layout : Layout) (system : List ℕ) (c : Connection) (round : Round)
    (from_worker from_device : Bool)
    → Both c
    → Good (transfer layout system c round from_worker from_device)
unfolding transfer
transfer-Good layout system c round from_worker from_device both =
    and_then-Good _ _
      (if-Good from_worker _ _ (λ on. receive-Good 128 round.file_write c round.receipts both)
        (λ off. both))
      (λ c' both'.
        and_then-Good _ _
          (if-Good from_device _ _
            (λ on. read_frames-Good layout round.socket_send c' round.reading both') (λ off. both'))
          (λ c'' both''.
            if-Good (c''.is_ready && round.due) _ _
              (λ on. check_network-Good system c'' round.check both'') (λ off. both'')))

polled-Good :
    (layout : Layout) (system : List ℕ) (c : Connection) (round : Round)
    → Both c
    → Good (polled layout system c round round.poll)
unfolding polled
polled-Good layout system c round both = go round.poll
  where
    go : (p : Poll) → Good (polled layout system c round p)
    go (broken (io interrupted)) = both
    go (broken (io would_block)) = both.0
    go (broken (io timed_out)) = both.0
    go (broken (io no_buffers)) = both.0
    go (broken (io other_kind)) = both.0
    go (broken (message t)) = both.0
    go (broken (message_with t ns)) = both.0
    go (broken panic) = both.0
    go (broken out_of_fuel) = both.0
    go closed = both.0
    go (readable w d) = transfer-Good layout system c round w d both

step-Good :
    (layout : Layout) (system : List ℕ) (c : Connection) (round : Round)
    → Both c
    → Good (step layout system c round)
unfolding step
step-Good layout system c round both = attempt-Good round.worker c _ both.0 (λ status e.
    option-Good status _ _
      (λ running.
        if-Good (not c.is_ready && round.late) _ _ (λ late. both.0)
          (λ early. polled-Good layout system c round both))
      (λ code ended. both.0))

run-Good :
    (layout : Layout) (system : List ℕ) (c : Connection) (rounds : List Round)
    → Both c
    → Good (run layout system c rounds)
unfolding run
run-Good layout system c [] both = both
run-Good layout system c (round ∷ rounds) both =
    and_then-Good _ _ (step-Good layout system c round both)
      (λ c' both'. run-Good layout system c' rounds both')

initial-Both : (previous : Option Snapshot) → Both (initial previous)
unfolding initial
initial-Both previous = (
  record { written = tt; sent = tt; activated = tt; once = omega arith; failures = omega arith },
  record { quiet = λ e. (refl, refl, refl); started = λ e. absurd (cc e); patient = omega arith },
)

Good-IsSafe : (m : Outcome) → Good m → IsSafe m.0
Good-IsSafe (c, ok u) h = h.0
Good-IsSafe (c, err e) h = h

Good-IsLive : (m : Outcome) → Good m → m.1 ≡ ok tt → IsLive m.0
Good-IsLive (c, ok u) h e = h.1
Good-IsLive (c, err x) h e = absurd (cc e)

-- For any device layout, interface, former route and rounds of the message loop, whether it goes on
-- or ends with an error: all frames given to the device are permitted ones, all datagrams given to
-- the worker carry a permitted frame, at most one hardware address was activated, it has six bytes
-- and passed the address check, and at most ten network checks in a row found no address.
pub run-IsSafe :
    (layout : Layout) (system : List ℕ) (previous : Option Snapshot) (rounds : List Round)
    → IsSafe (run layout system (initial previous) rounds).0
run-IsSafe layout system previous rounds =
    Good-IsSafe _ (run-Good layout system (initial previous) rounds (initial-Both previous))

-- For any rounds after which the message loop goes on without an error: before the ready message
-- nothing was activated, written or sent, after it exactly one address was activated, and fewer
-- than ten network checks in a row found no address.
pub run-IsLive :
    (layout : Layout) (system : List ℕ) (previous : Option Snapshot) (rounds : List Round)
    → (run layout system (initial previous) rounds).1 ≡ ok tt
    → IsLive (run layout system (initial previous) rounds).0
run-IsLive layout system previous rounds =
    Good-IsLive _ (run-Good layout system (initial previous) rounds (initial-Both previous))
