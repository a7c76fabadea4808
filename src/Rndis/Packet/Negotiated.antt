-- ===== src/Rndis/Packet/Negotiated.antt =====
-- After the handshake every Ethernet frame can be sent.
use galaxybridge.Prelude.{ℕ, ◌+◌, ◌%◌, ◌≤◌, ◌<◌, ◌≡◌, refl, List, arith, ok, length, ◌*◌, ◌/◌, ap}
use native.Mathlib.Nat.{div-add-mod}
use galaxybridge.Rndis.Packet.{header, frame_limit, padded_length, encode}
use galaxybridge.Rndis.Packet.RoundTrip.{encode_iff, encoding}
use galaxybridge.Rndis.Control.Negotiation.{Negotiation}
use galaxybridge.Rndis.Control.Negotiation

multiple_of_four : (n size : ℕ) → size % 4 ≡ 0 → n % size ≡ 0 → n % 4 ≡ 0
multiple_of_four n size four whole =
    let quarter : size ≡ 4 * (size / 4) = omega arith in
    omega (arith, div-add-mod n size, ap (λ (t : ℕ). t * (n / size)) quarter)

padded_length-le : (len size : ℕ) → len ≤ 1558 → size % 4 ≡ 0 → padded_length len size ≤ 1558
padded_length-le len size h four = ground (arith, multiple_of_four len size four)

-- For an accepted answer to the initialize request, a frame of 14 to 1514 bytes and a positive USB
-- packet size that is a multiple of 4: `packet::encode` returns a transfer under the negotiated
-- bound.
pub encode-negotiated :
    (answer frame : List ℕ) (n : Negotiation) (usb_packet_size : ℕ)
    → Negotiation.parse answer ≡ ok n
    → 14 ≤ length frame
    → length frame ≤ frame_limit
    → 0 < usb_packet_size
    → usb_packet_size % 4 ≡ 0
    → (out : List ℕ) × (encode frame usb_packet_size n.max_transfer ≡ ok out)
encode-negotiated answer frame n size e lo hi positive four =
    let fits : padded_length (header + length frame) size ≤ n.max_transfer = omega (
      arith,
      padded_length-le (header + length frame) size (omega arith) four,
      Negotiation.negotiation_bounds answer n e,
    ) in
    (encoding frame size, (encode_iff frame _ size n.max_transfer).1 (lo, hi, positive, fits, refl))
