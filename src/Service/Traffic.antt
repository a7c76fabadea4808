-- ===== src/Service/Traffic.antt =====
-- The messages of the worker and the frames of the device keep the invariant of src/service.rs.
use galaxybridge.Prelude.{
  ℕ, zero, suc, ◌+◌, ◌≡◌, refl, true, false, List, [], ◌∷◌, some, Result, ok, err, Error, io,
  would_block, interrupted, timed_out, no_buffers, other_kind, message, message_with, panic,
  out_of_fuel, arith,
}
use galaxybridge.Ipc.{Message, ready, frame, invalid_mac}
use galaxybridge.Ipc
use galaxybridge.Macos.Bpf.{permits, Layout}
use galaxybridge.Macos.Bpf
use galaxybridge.Service.{
  Connection, Receipt, Outcome, take, attempt, start, deliver, handle, receive, forward,
  read_frames,
}
use galaxybridge.Service.Invariant.{
  IsUsable, IsSafe, IsLive, Both, Good, Fine-safe, attempt-Good, and_then-Good, if-Good,
  option-Good, activated-IsSafe,
}

pub start-Good :
    (c : Connection) (mac : List ℕ) (receipt : Receipt)
    → Both c
    → c.is_ready ≡ false
    → IsUsable mac
    → Good (start c mac receipt)
unfolding start
start-Good c mac receipt (safe, live) off usable =
    let (a, w, s) = live.quiet off in
    attempt-Good receipt.activated _ _
      (activated-IsSafe c mac c.dhcp_requests c.is_ready safe a usable)
      (λ u e.
        attempt-Good receipt.dhcp _ _
          (activated-IsSafe c mac (c.dhcp_requests + 1) c.is_ready safe a usable)
          (λ v f. (
            activated-IsSafe c mac (c.dhcp_requests + 1) true safe a usable,
            record {
              quiet = λ no'. absurd (cc no');
              started = λ yes'. ground (arith, a);
              patient = live.patient;
            },
          )))

pub deliver-Good :
    (file_write : List ℕ → Result ℕ) (c : Connection) (bytes : List ℕ)
    → Both c
    → c.is_ready ≡ true
    → Good (deliver file_write c bytes)
unfolding deliver
deliver-Good file_write c bytes (safe, live) on =
    if-Good (permits bytes) _ _
      (λ p. Fine-safe _ _ (
        record {
          written = (p, safe.written);
          sent = safe.sent;
          activated = safe.activated;
          once = safe.once;
          failures = safe.failures;
        },
        record {
          quiet = λ off. absurd (cc (on, off));
          started = live.started;
          patient = live.patient;
        },
      ))
      (λ p. (safe, live))

pub handle-Good :
    (file_write : List ℕ → Result ℕ) (c : Connection) (receipt : Receipt) (bytes : List ℕ)
    (m : Message)
    → Both c
    → Ipc.decode bytes ≡ ok m
    → Good (handle file_write c receipt m)
unfolding handle
handle-Good file_write c receipt bytes (ready mac) both e =
    if-Good c.is_ready _ _ (λ on. both.0)
      (λ off. start-Good c mac receipt both off (Ipc.ready-decode bytes mac e))
handle-Good file_write c receipt bytes (frame f) both e =
    if-Good c.is_ready _ _ (λ on. deliver-Good file_write c f both on) (λ off. both.0)

pub stopped : (c : Connection) (e : Error) (m : Outcome) → Both c → (c, err e) ≡ m → Good m
stopped c e m both same = rw (← same) both.0

pub take-Good :
    (file_write : List ℕ → Result ℕ) (c : Connection) (receipt : Receipt) (r : Result (List ℕ))
    (m : Outcome)
    → Both c
    → take file_write c receipt r ≡ some m
    → Good m
unfolding take
take-Good file_write c receipt (ok bytes) m both e =
    let same : attempt (Ipc.decode bytes) c (handle file_write c receipt) ≡ m = cc e in
    rw (← same) (
      attempt-Good (Ipc.decode bytes) c _ both.0
        (λ x d. handle-Good file_write c receipt bytes x both d))
take-Good file_write c receipt (err (io would_block)) m both e = absurd (cc e)
take-Good file_write c receipt (err (io interrupted)) m both e =
    stopped c (io interrupted) m both (cc e)
take-Good file_write c receipt (err (io timed_out)) m both e =
    stopped c (io timed_out) m both (cc e)
take-Good file_write c receipt (err (io no_buffers)) m both e =
    stopped c (io no_buffers) m both (cc e)
take-Good file_write c receipt (err (io other_kind)) m both e =
    stopped c (io other_kind) m both (cc e)
take-Good file_write c receipt (err (message t)) m both e = stopped c (message t) m both (cc e)
take-Good file_write c receipt (err (message_with t ns)) m both e =
    stopped c (message_with t ns) m both (cc e)
take-Good file_write c receipt (err panic) m both e = stopped c panic m both (cc e)
take-Good file_write c receipt (err out_of_fuel) m both e = stopped c out_of_fuel m both (cc e)

pub receive-Good :
    (fuel : ℕ) (file_write : List ℕ → Result ℕ) (c : Connection) (receipts : List Receipt)
    → Both c
    → Good (receive fuel file_write c receipts)
unfolding receive
receive-Good zero file_write c receipts both = both
receive-Good (suc fuel) file_write c [] both = both
receive-Good (suc fuel) file_write c (receipt ∷ receipts) both =
    option-Good (take file_write c receipt receipt.datagram) _ _ (λ e. both)
      (λ m e.
        and_then-Good m _ (take-Good file_write c receipt receipt.datagram m both e)
          (λ c' both'. receive-Good fuel file_write c' receipts both'))

pub forward-Good :
    (socket_send : List ℕ → Result ℕ) (c : Connection) (frames : List (List ℕ))
    → Both c
    → c.is_ready ≡ true
    → Good (forward socket_send c frames)
unfolding forward
forward-Good socket_send c [] both on = both
forward-Good socket_send c (bytes ∷ frames) (safe, live) on =
    if-Good (permits bytes) _ _
      (λ p.
        let safe' : IsSafe (record c { sent = Ipc.encode (frame bytes) ∷ c.sent }) = record {
          written = safe.written;
          sent = ((bytes, refl, p), safe.sent);
          activated = safe.activated;
          once = safe.once;
          failures = safe.failures;
        } in
        let live' : IsLive (record c { sent = Ipc.encode (frame bytes) ∷ c.sent }) = record {
          quiet = λ off. absurd (cc (on, off));
          started = live.started;
          patient = live.patient;
        } in
        attempt-Good _ _ _ safe' (λ u e.
          forward-Good socket_send (record c { sent = Ipc.encode (frame bytes) ∷ c.sent }) frames
            (safe', live') on))
      (λ p. forward-Good socket_send c frames (safe, live) on)

pub read_frames-Good :
    (layout : Layout) (socket_send : List ℕ → Result ℕ) (c : Connection) (r : Result (List ℕ))
    → Both c
    → Good (read_frames layout socket_send c r)
unfolding read_frames
read_frames-Good layout socket_send c (ok bytes) both =
    if-Good c.is_ready _ _
      (λ on.
        attempt-Good (Bpf.decode bytes layout) c _ both.0
          (λ frames e. forward-Good socket_send c frames both on))
      (λ off. both)
read_frames-Good layout socket_send c (err (io would_block)) both = both
read_frames-Good layout socket_send c (err (io interrupted)) both = both
read_frames-Good layout socket_send c (err (io timed_out)) both = both.0
read_frames-Good layout socket_send c (err (io no_buffers)) both = both.0
read_frames-Good layout socket_send c (err (io other_kind)) both = both.0
read_frames-Good layout socket_send c (err (message t)) both = both.0
read_frames-Good layout socket_send c (err (message_with t ns)) both = both.0
read_frames-Good layout socket_send c (err panic) both = both.0
read_frames-Good layout socket_send c (err out_of_fuel) both = both.0
