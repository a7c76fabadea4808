-- ===== src/Worker/Transmit.antt =====
-- The transmit thread of src/worker.rs: the transfers are the datagrams' frames, in order.
use galaxybridge.Prelude.{
  ℕ, ◌≡◌, refl, inl, inr, List, [], ◌∷◌, ◌++◌, none, some, Result, ok, err, Error, io, would_block,
  timed_out, interrupted, no_buffers, other_kind, message, message_with, panic, out_of_fuel,
  Bool-cases, if◌then◌else◌,
}
use galaxybridge.Ipc.{Message, ready, frame}
use galaxybridge.Ipc
use galaxybridge.Rndis.Packet
use galaxybridge.Rndis.Packet.RoundTrip.{decode-encode}
use galaxybridge.Worker.{
  Sent, Departure, after_transfer, with_encoded, with_message, with_datagram, transmit,
}

-- The datagrams that the supervisor sent up to the stop.
abbrev pub datagram_of : Result (List ℕ) → List (List ℕ)
datagram_of (ok bytes) = bytes ∷ []
datagram_of (err e) = []

abbrev pub requested : List Departure → List (List ℕ)
requested [] = []
requested (d ∷ ds) = if d.stopped then [] else datagram_of d.received ++ requested ds

-- Each transfer is a datagram's frame, which the device decodes from it, with no datagram left out, up to
-- the end or the failure of the thread.
pub data Carried : List (List ℕ) → Sent → Type 0 where
  waiting : Carried [] ([], none)
  stopped : Carried [] ([], some (ok tt))
  failed : (datagrams : List (List ℕ)) (e : Error) → Carried datagrams ([], some (err e))
  carried :
      {datagrams : List (List ℕ)} {rest : Sent} (datagram out bytes : List ℕ)
      → Ipc.decode datagram ≡ ok (frame bytes)
      → Packet.decode out ≡ ok (bytes ∷ [])
      → Carried datagrams rest
      → Carried (datagram ∷ datagrams) (out ∷ rest.0, rest.1)

after_transfer-Carried :
    (datagram out bytes : List ℕ) (r : Result (Unit {0})) (datagrams : List (List ℕ)) (rest : Sent)
    → Ipc.decode datagram ≡ ok (frame bytes)
    → Packet.decode out ≡ ok (bytes ∷ [])
    → Carried datagrams rest
    → Carried (datagram ∷ datagrams) (after_transfer out r rest)
unfolding after_transfer
after_transfer-Carried datagram out bytes (ok done) datagrams rest e f h =
    carried datagram out bytes e f h
after_transfer-Carried datagram out bytes (err x) datagrams rest e f h =
    carried datagram out bytes e f (failed datagrams x)

with_encoded-Carried :
    (d : Departure) (datagram bytes : List ℕ) (packet_size max_transfer : ℕ) (r : Result (List ℕ))
    (datagrams : List (List ℕ)) (rest : Sent)
    → Ipc.decode datagram ≡ ok (frame bytes)
    → Packet.encode bytes packet_size max_transfer ≡ r
    → Carried datagrams rest
    → Carried (datagram ∷ datagrams) (with_encoded d r rest)
unfolding with_encoded
with_encoded-Carried d datagram bytes packet_size max_transfer (err x) datagrams rest e f h =
    failed _ x
with_encoded-Carried d datagram bytes packet_size max_transfer (ok out) datagrams rest e f h =
    after_transfer-Carried datagram out bytes _ datagrams rest e
      (decode-encode bytes out packet_size max_transfer f) h

with_message-Carried :
    (d : Departure) (datagram : List ℕ) (packet_size max_transfer : ℕ) (r : Result Message)
    (datagrams : List (List ℕ)) (rest : Sent)
    → Ipc.decode datagram ≡ r
    → Carried datagrams rest
    → Carried (datagram ∷ datagrams) (with_message packet_size max_transfer d r rest)
unfolding with_message
with_message-Carried d datagram packet_size max_transfer (err x) datagrams rest e h = failed _ x
with_message-Carried d datagram packet_size max_transfer (ok (ready mac)) datagrams rest e h =
    failed _ _
with_message-Carried d datagram packet_size max_transfer (ok (frame bytes)) datagrams rest e h =
    with_encoded-Carried d datagram bytes packet_size max_transfer _ datagrams rest e refl h

with_datagram-Carried :
    (packet_size max_transfer : ℕ) (d : Departure) (r : Result (List ℕ)) (datagrams : List (List ℕ))
    (rest : Sent)
    → Carried datagrams rest
    → Carried (datagram_of r ++ datagrams) (with_datagram packet_size max_transfer d r rest)
unfolding with_datagram
with_datagram-Carried packet_size max_transfer d (ok bytes) datagrams rest h =
    with_message-Carried d bytes packet_size max_transfer _ datagrams rest refl h
with_datagram-Carried packet_size max_transfer d (err (io would_block)) datagrams rest h = h
with_datagram-Carried packet_size max_transfer d (err (io timed_out)) datagrams rest h = h
with_datagram-Carried packet_size max_transfer d (err (io interrupted)) datagrams rest h =
    failed _ _
with_datagram-Carried packet_size max_transfer d (err (io no_buffers)) datagrams rest h = failed _ _
with_datagram-Carried packet_size max_transfer d (err (io other_kind)) datagrams rest h = failed _ _
with_datagram-Carried packet_size max_transfer d (err (message t)) datagrams rest h = failed _ _
with_datagram-Carried packet_size max_transfer d (err (message_with t ns)) datagrams rest h =
    failed _ _
with_datagram-Carried packet_size max_transfer d (err panic) datagrams rest h = failed _ _
with_datagram-Carried packet_size max_transfer d (err out_of_fuel) datagrams rest h = failed _ _

-- For all turns of the transmit thread: the transfers that it submits are those of the datagrams
-- that it received up to the stop, in order and with none left out; each datagram decodes to a
-- frame, and its transfer, read as an RNDIS transfer, to that one frame. Only a failure of the
-- thread leaves datagrams behind.
pub transmit-Carried :
    (packet_size max_transfer : ℕ) (ds : List Departure)
    → Carried (requested ds) (transmit packet_size max_transfer ds)
unfolding transmit
transmit-Carried packet_size max_transfer [] = waiting
transmit-Carried packet_size max_transfer (d ∷ ds) = elim (Bool-cases d.stopped) [
  | inl stop ↦ rw stop stopped
  | inr go ↦ rw go (
      with_datagram-Carried packet_size max_transfer d d.received (requested ds) _
        (transmit-Carried packet_size max_transfer ds))
]
