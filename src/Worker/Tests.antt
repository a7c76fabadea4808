-- ===== src/Worker/Tests.antt =====
-- The threads of the worker at concrete turns.
use galaxybridge.Prelude.{
  ℕ, true, false, List, [], ◌∷◌, none, some, ok, err, io, no_buffers, replicate, ◌==◌,
  if◌then◌else◌,
}
use galaxybridge.Rndis.Packet.RoundTrip.{packed}
use galaxybridge.Worker.{Arrival, receive, Departure, transmit}
use galaxybridge.Worker.Channel.{offered, IsRelayed, receive-IsRelayed}
use galaxybridge.Worker.Transmit.{requested, Carried, transmit-Carried}

abbrev small_frame : List ℕ
small_frame = replicate 14 7

-- A transfer of two frames, of which the first finds the socket full, and the stop.
abbrev arrivals : List Arrival
arrivals =
    record {
      stopped = false;
      completion = some (ok (packed (small_frame ∷ small_frame ∷ []) 0));
      stops = λ i. false;
      sends = λ i. if i == 0 then err (io no_buffers) else ok tt;
    }
    ∷ record { stopped = true; completion = none; stops = λ i. false; sends = λ i. ok tt }
    ∷ []

receive-IsRelayed_example : IsRelayed (offered arrivals) (receive arrivals).0
receive-IsRelayed_example = receive-IsRelayed arrivals

abbrev departures : List Departure
departures =
    record { stopped = false; received = ok (2 ∷ small_frame); completion = some (ok tt, 58) }
    ∷ record { stopped = true; received = ok []; completion = none }
    ∷ []

transmit-Carried_example : Carried (requested departures) (transmit 512 16384 departures)
transmit-Carried_example = transmit-Carried 512 16384 departures
