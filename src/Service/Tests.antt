-- ===== src/Service/Tests.antt =====
-- A session of two rounds.
use galaxybridge.Prelude.{
  ◌↔◌, some, Result, ℕ, ◌≡◌, refl, ap, true, false, List, [], ◌∷◌, ◌++◌, none, ok, err, io,
  would_block, length, codes, get_range,
}
use galaxybridge.Rndis.Wire.{from_le_bytes}
use galaxybridge.Ipc
use galaxybridge.Macos.Bpf.{Layout}
use galaxybridge.Macos.Bpf
use galaxybridge.Service.{
  Connection, Receipt, Check, readable, Round, run, step, polled, transfer, receive, take, handle,
  start, deliver, dropped, read_frames, forward, check_network, wait_dhcp, initial,
}
use galaxybridge.Service.Supervise.{Turn, attend, supervise, IsStopped, supervise-repeat}
use galaxybridge.Service.Invariant.{IsSafe, IsLive}
use galaxybridge.Service.Safety.{run-IsSafe, run-IsLive}

abbrev arp_frame : List ℕ
arp_frame = 2 ∷ 0 ∷ 0 ∷ 0 ∷ 0 ∷ 1 ∷ 2 ∷ 0 ∷ 0 ∷ 0 ∷ 0 ∷ 2 ∷ 8 ∷ 6 ∷ []

abbrev layout : Layout
layout = record { capture = 8; original = 12; header = 16; alignment = 4 }

abbrev captured : List ℕ
captured =
    (0 ∷ 0 ∷ 0 ∷ 0 ∷ 0 ∷ 0 ∷ 0 ∷ 0 ∷ 14 ∷ 0 ∷ 0 ∷ 0 ∷ 14 ∷ 0 ∷ 0 ∷ 0 ∷ 18 ∷ 0 ∷ []) ++ arp_frame

abbrev received : List ℕ → Receipt
received bytes = record { datagram = ok bytes; activated = ok tt; dhcp = ok tt }

abbrev drained : Receipt
drained = record { datagram = err (io would_block); activated = ok tt; dhcp = ok tt }

abbrev no_address : Check
no_address = record {
  phone = none;
  current = ok none;
  present = ok false;
  applied = ok tt;
  dhcp = ok tt;
}

-- The worker announces its address, and one frame comes from it.
abbrev first : Round
first = record {
  worker = ok none;
  late = false;
  poll = readable true false;
  receipts = received (1 ∷ 2 ∷ 0 ∷ 0 ∷ 0 ∷ 0 ∷ 1 ∷ []) ∷ received (2 ∷ arp_frame) ∷ drained ∷ [];
  reading = ok [];
  file_write = λ bytes. ok (length bytes);
  socket_send = λ bytes. ok (length bytes);
  due = false;
  check = no_address;
}

-- One frame goes to the worker, and there is no address yet.
abbrev second : Round
second = record first { poll = readable false true; reading = ok captured; due = true }

abbrev ended : Connection
ended = record {
  is_ready = true;
  has_address = false;
  gateway_failures = 1;
  previous = none;
  activations = (2 ∷ 0 ∷ 0 ∷ 0 ∷ 0 ∷ 1 ∷ []) ∷ [];
  written = arp_frame ∷ [];
  sent = (2 ∷ arp_frame) ∷ [];
  dhcp_requests = 1;
}

runs : run layout (codes "feth4") (initial none) (first ∷ second ∷ []) ≡ (ended, ok tt)
unfolding run step polled transfer receive take handle start deliver dropped read_frames forward
    check_network wait_dhcp initial Ipc.decode Ipc.encode Ipc.invalid_mac Bpf.permits
    Bpf.is_ipv4_or_arp Bpf.write Bpf.decode Bpf.decode_loop Bpf.take_record Bpf.skip_padding
    Bpf.field get_range from_le_bytes
runs = refl

run-IsSafe_example : IsSafe (run layout (codes "feth4") (initial none) (first ∷ second ∷ [])).0
run-IsSafe_example = run-IsSafe layout (codes "feth4") none (first ∷ second ∷ [])

goes_on : (run layout (codes "feth4") (initial none) (first ∷ second ∷ [])).1 ≡ ok tt
goes_on = ap (λ m. m.1) runs

run-IsLive_example : IsLive (run layout (codes "feth4") (initial none) (first ∷ second ∷ [])).0
run-IsLive_example = run-IsLive layout (codes "feth4") none (first ∷ second ∷ []) goes_on

-- A session that fails, a turn without a device, and the stop flag in the waits after it.
abbrev turns : List Turn
turns =
    record {
      stopped = false;
      probed = ok true;
      connected = err (io would_block);
      stopped_waiting = false;
    }
    ∷ record { stopped = false; probed = ok false; connected = ok tt; stopped_waiting = true }
    ∷ []

ends_well : supervise true turns ≡ some (ok tt)
unfolding supervise attend
ends_well = refl

ends_at_once : supervise false turns ≡ some (err (io would_block))
unfolding supervise attend
ends_at_once = refl

abbrev success : Result (Unit {0})
success = ok tt

supervise-repeat_example :
    (supervise true turns ≡ some success) ↔ ((success ≡ ok tt) × IsStopped turns)
supervise-repeat_example = supervise-repeat turns success
