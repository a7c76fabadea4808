-- ===== src/Worker.antt =====
-- src/worker.rs: the unprivileged process that speaks to the device. The two threads and the main loop
-- share only the flag `stop`, so each is a loop of its own over the turns that it takes: what a turn
-- reads of the flag, of the device and of the socket is a parameter.
pub mod Channel
pub mod Transmit
mod Tests
use galaxybridge.Prelude.{
  ℕ, zero, suc, ◌+◌, ◌≤◌, ◌≡◌, Bool, true, false, ◌||◌, not, List, [], ◌∷◌, ◌++◌, Option, none,
  some, Result, ok, err, Error, io, would_block, timed_out, message, ◌>>=◌, ◌>>◌, refuse, ok_or,
  leb, ltb, ◌==◌, length, if◌then◌else◌,
}
use galaxybridge.Ipc.{Message, ready, frame, contains}
use galaxybridge.Ipc
use galaxybridge.Rndis.Packet
use galaxybridge.Usb.Session.{Session, Script, keep_alive}

-- One turn of the receive thread: the flag at its top, the completed transfer if there is one, and
-- the flag before the frame of each index and the outcome of its `send`.
pub record Arrival : Type 0 where
  pub stopped : Bool
  pub completion : Option (Result (List ℕ))
  pub stops : ℕ → Bool
  pub sends : ℕ → Result (Unit {0})

-- The datagrams that were sent, in order, and how it ended.
abbrev pub Sent : Type 0
Sent = List (List ℕ) × Option (Result (Unit {0}))

-- A `send` of a datagram in front of the rest of the loop.
unfoldable pub after_send :
    List ℕ
    → Result (Unit {0})
    → List (List ℕ) × Result (Unit {0})
    → List (List ℕ) × Result (Unit {0})
unfolding contains
after_send datagram (ok sent) rest = (datagram ∷ rest.0, rest.1)
after_send datagram (err e) rest = if contains e then rest else ([], err e)

-- The loop over the frames of a transfer, from an index on.
unfoldable pub send_frames : Arrival → ℕ → List (List ℕ) → List (List ℕ) × Result (Unit {0})
unfolding after_send Ipc.encode
send_frames a i [] = ([], ok tt)
send_frames a i (f ∷ fs) =
    let rest = send_frames a (suc i) fs in
    if a.stops i then ([], ok tt) else after_send (Ipc.encode (frame f)) (a.sends i) rest

unfoldable pub then_receive : List (List ℕ) × Result (Unit {0}) → Sent → Sent
then_receive (datagrams, err e) rest = (datagrams, some (err e))
then_receive (datagrams, ok done) rest = (datagrams ++ rest.0, rest.1)

unfoldable pub with_frames : Arrival → Result (List (List ℕ)) → Sent → Sent
unfolding then_receive send_frames
with_frames a (err e) rest = ([], some (err e))
with_frames a (ok frames) rest = then_receive (send_frames a 0 frames) rest

unfoldable pub with_completion : Arrival → Option (Result (List ℕ)) → Sent → Sent
unfolding with_frames Packet.decode
with_completion a none rest = rest
with_completion a (some (err e)) rest = ([], some (err e))
with_completion a (some (ok buffer)) rest = with_frames a (Packet.decode buffer) rest

-- The receive thread. The outcome is `none` when the turns end before the loop does.
unfoldable pub receive : List Arrival → Sent
unfolding with_completion
receive [] = ([], none)
receive (a ∷ as') =
    let rest = receive as' in
    if a.stopped then ([], some (ok tt)) else with_completion a a.completion rest

-- One turn of the transmit thread: the flag, the datagram, and the completion of the transfer, if it
-- comes in time: its status and its length.
pub record Departure : Type 0 where
  pub stopped : Bool
  pub received : Result (List ℕ)
  pub completion : Option (Result (Unit {0}) × ℕ)

unfoldable pub completed : Option (Result (Unit {0}) × ℕ) → ℕ → Result (Unit {0})
completed none expected = err (message "USB transmit timed out")
completed (some (status, actual_len)) expected = do
  status
  refuse (not (actual_len == expected)) (message "short USB transmit completion")

-- A transfer that was submitted, and what its completion makes of the rest of the loop.
unfoldable pub after_transfer : List ℕ → Result (Unit {0}) → Sent → Sent
after_transfer out (ok done) rest = (out ∷ rest.0, rest.1)
after_transfer out (err e) rest = (out ∷ [], some (err e))

unfoldable pub with_encoded : Departure → Result (List ℕ) → Sent → Sent
unfolding after_transfer completed
with_encoded d (err e) rest = ([], some (err e))
with_encoded d (ok out) rest = after_transfer out (completed d.completion (length out)) rest

unfoldable pub with_message : ℕ → ℕ → Departure → Result Message → Sent → Sent
unfolding with_encoded Packet.encode
with_message packet_size max_transfer d (err e) rest = ([], some (err e))
with_message packet_size max_transfer d (ok (ready mac)) rest =
    ([], some (err (message "unexpected root datagram")))
with_message packet_size max_transfer d (ok (frame bytes)) rest =
    with_encoded d (Packet.encode bytes packet_size max_transfer) rest

unfoldable pub with_datagram : ℕ → ℕ → Departure → Result (List ℕ) → Sent → Sent
unfolding with_message Ipc.decode
with_datagram packet_size max_transfer d (ok bytes) rest =
    with_message packet_size max_transfer d (Ipc.decode bytes) rest
with_datagram packet_size max_transfer d (err (io would_block)) rest = rest
with_datagram packet_size max_transfer d (err (io timed_out)) rest = rest
with_datagram packet_size max_transfer d (err e) rest = ([], some (err e))

-- The transmit thread, whose transfers are what it sends.
unfoldable pub transmit : ℕ → ℕ → List Departure → Sent
unfolding with_datagram
transmit packet_size max_transfer [] = ([], none)
transmit packet_size max_transfer (d ∷ ds) =
    let rest = transmit packet_size max_transfer ds in
    if d.stopped
    then ([], some (ok tt))
    else with_datagram packet_size max_transfer d d.received rest

-- One turn of the main loop: the flag, whether the supervisor is still the parent, whether a thread
-- has ended, whether three seconds have passed, and the exchange of the keepalive.
pub record Watch : Type 0 where
  pub stopped : Bool
  pub supervised : Bool
  pub finished : Bool
  pub due : Bool
  pub script : Script

unfoldable pub checked :
    Session × Result (Unit {0}) → Option (Session × Option Error) → Option (Session × Option Error)
checked (s, ok alive) rest = rest
checked (s, err e) rest = some (s, some e)

-- The main loop: the session and the failure of a keepalive.
unfoldable pub watch : Session → List Watch → Option (Session × Option Error)
unfolding checked keep_alive
watch s [] = none
watch s (w ∷ ws) =
    let rest = watch s ws in
    let later = watch (keep_alive s w.script).0 ws in
    if w.stopped || not w.supervised || w.finished
    then some (s, none)
    else if w.due
    then checked (keep_alive s w.script) later
    else rest

-- What `run` returns, from the failure of the main loop and the results of the threads.
unfoldable pub outcome : Option Error → Result (Unit {0}) → Result (Unit {0}) → Result (Unit {0})
outcome (some e) rx tx = err e
outcome none rx tx = do rx; tx

-- The start of `run`: the user, the parent, the opened session, and the outcomes of the two time limits
-- of the socket and of the first datagram, which announces the address.
unfoldable pub start :
    ℕ
    → ℕ
    → Result Session
    → Result (Unit {0})
    → Result (Unit {0})
    → (List ℕ → Result (Unit {0}))
    → Result Session
unfolding Ipc.encode
start uid parent opened read_limit write_limit send = do
  refuse (uid == 0) (message "USB worker must not run as root")
  refuse (leb parent 1) (message "USB worker has no live supervisor")
  session ← opened
  read_limit
  write_limit
  send (Ipc.encode (ready session.mac))
  ok session
