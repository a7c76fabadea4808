-- ===== src/Rndis/Packet/RoundTrip.antt =====
-- What `encode` writes, and that `decode` reads it back.
use galaxybridge.Prelude.{
  ℕ, zero, suc, ◌+◌, ◌-◌, ◌%◌, ◌≤◌, ◌<◌, ◌≡◌, refl, ◌≢◌, List, [], ◌∷◌, ◌++◌, append_assoc,
  append-nil, arith, ok, length, length-append, length-replicate, replicate, All, ◌↔◌, get_elem?,
  some, ◌*◌,
}
use galaxybridge.Rndis.Control.Message.{transfer_limit}
use galaxybridge.Rndis.Wire.{u32_at, words, u32_at-words, length-words}
use galaxybridge.Rndis.Packet.{header, frame_limit, header_words, padded_length, encode, decode}
use galaxybridge.Rndis.Packet.Grammar.{IsPacket, Transfer, padding, packet}
use galaxybridge.Rndis.Packet.Decode.{decode_iff}

-- The message without its padding.
abbrev pub packet_of : List ℕ → List ℕ
packet_of frame = words (header_words (length frame)) ++ frame

-- What is sent: the message, and one zero byte where it would end with a full USB packet.
abbrev pub encoding : List ℕ → ℕ → List ℕ
encoding frame usb_packet_size =
    packet_of frame
    ++ replicate (padded_length (header + length frame) usb_packet_size - (header + length frame)) 0

header_word :
    (frame : List ℕ) (i v : ℕ)
    → length frame ≤ frame_limit
    → get_elem? (header_words (length frame)) i ≡ some v
    → i ≤ 10
    → v ≤ header + frame_limit
    → u32_at (packet_of frame) (4 * i) ≡ ok v
header_word frame i v hi e small fits =
    u32_at-words (header_words (length frame)) frame i v e (omega arith) (omega arith)

length-packet_of : (frame : List ℕ) → length (packet_of frame) ≡ header + length frame
length-packet_of frame = omega (
  arith,
  length-append (words (header_words (length frame))) frame,
  length-words (header_words (length frame)),
)

pub packet_of-IsPacket :
    (frame : List ℕ)
    → 14 ≤ length frame
    → length frame ≤ frame_limit
    → IsPacket (packet_of frame) frame
packet_of-IsPacket frame lo hi =
    let size = length-words (header_words (length frame)) in
    let zero_at =
      λ (i : ℕ) (small : i ≤ 10) (e : get_elem? (header_words (length frame)) i ≡ some 0).
        header_word frame i 0 hi e small (omega arith) in
    record {
      before = words (header_words (length frame));
      after = [];
      shape = rw append-nil;
      kind_word = header_word frame 0 1 hi refl (omega arith) (omega arith);
      length_word =
          rw (length-packet_of frame)
            (header_word frame 1 (header + length frame) hi refl (omega arith) (omega arith));
      offset_word = rw size (header_word frame 2 36 hi refl (omega arith) (omega arith));
      size_word = header_word frame 3 (length frame) hi refl (omega arith) (omega arith);
      plain = (
        zero_at 4 (omega arith) refl,
        (
          zero_at 5 (omega arith) refl,
          (
            zero_at 6 (omega arith) refl,
            (
              zero_at 7 (omega arith) refl,
              (
                zero_at 8 (omega arith) refl,
                (zero_at 9 (omega arith) refl, (zero_at 10 (omega arith) refl, tt)),
              ),
            ),
          ),
        ),
      );
      beyond = omega arith;
      aligned = omega arith;
      frame_min = lo;
      frame_max = hi;
    }

-- For any frame, output, USB packet size and transfer bound: `packet::encode` returns the output
-- exactly when the frame has 14 to 1514 bytes, the packet size is not zero, the message with its
-- padding is within the transfer bound, and the output is the message, with one zero byte after it
-- where its length is a multiple of the packet size.
pub encode_iff :
    (frame out : List ℕ) (usb_packet_size max_transfer : ℕ)
    → (encode frame usb_packet_size max_transfer ≡ ok out) ↔ (
        (14 ≤ length frame)
        × (length frame ≤ frame_limit)
        × (0 < usb_packet_size)
        × (padded_length (header + length frame) usb_packet_size ≤ max_transfer)
        × (out ≡ encoding frame usb_packet_size))
unfolding encode
encode_iff frame out usb_packet_size max_transfer =
    (λ e. ground (arith, tail), λ h. ground (arith, tail))
  where
    fill : List ℕ
    fill =
        replicate (padded_length (header + length frame) usb_packet_size - (header + length frame))
          0

    tail : encoding frame usb_packet_size ≡ words (header_words (length frame)) ++ (frame ++ fill)
    tail = append_assoc (words (header_words (length frame))) frame fill

replicate-zero : (n : ℕ) → All {A = ℕ} (λ b. b ≡ 0) (replicate n 0)
replicate-zero zero = tt
replicate-zero (suc n) = (refl, replicate-zero n)

length-encoding :
    (frame : List ℕ) (size : ℕ)
    → length (encoding frame size) ≡ padded_length (header + length frame) size
length-encoding frame size = ground (
  arith,
  length-append (packet_of frame)
      (replicate (padded_length (header + length frame) size - (header + length frame)) 0),
  length-packet_of frame,
  length-replicate {A = ℕ} (padded_length (header + length frame) size - (header + length frame)) 0,
)

-- For any frame, USB packet size and transfer bound: when `packet::encode` returns a transfer,
-- `packet::decode` reads it back as the one frame, unchanged.
pub decode-encode :
    (frame out : List ℕ) (usb_packet_size max_transfer : ℕ)
    → encode frame usb_packet_size max_transfer ≡ ok out
    → decode out ≡ ok (frame ∷ [])
decode-encode frame out size max_transfer e =
    let (lo, hi, positive, fits, shape) = (encode_iff frame out size max_transfer).0 e in
    let room : length out ≤ transfer_limit =
      rw shape (ground (arith, length-encoding frame size)) in
    (decode_iff out (frame ∷ [])).1 (
      room,
      packet (packet_of frame) shape (packet_of-IsPacket frame lo hi) (padding (replicate-zero _)),
    )

-- For a transfer that `packet::encode` returned for a USB packet size above 1: its length is not a
-- multiple of the packet size, is within the transfer bound and within 16384, and is at most one
-- more than header and frame.
pub encode_short_packet :
    (frame out : List ℕ) (usb_packet_size max_transfer : ℕ)
    → encode frame usb_packet_size max_transfer ≡ ok out
    → 1 < usb_packet_size
    → (length out % usb_packet_size ≢ 0)
      × (length out ≤ max_transfer)
      × (length out ≤ transfer_limit)
      × (length out ≤ header + length frame + 1)
encode_short_packet frame out size max_transfer e h =
    let (lo, hi, positive, fits, shape) = (encode_iff frame out size max_transfer).0 e in
    rw shape (grind (arith, length-encoding frame size))

-- Messages packed one after another, at whatever offset each starts, then any zero bytes.
abbrev pub packed : List (List ℕ) → ℕ → List ℕ
packed [] pad = replicate pad 0
packed (frame ∷ frames) pad = packet_of frame ++ packed frames pad

packed-Transfer :
    (frames : List (List ℕ)) (pad : ℕ)
    → All (λ f. (14 ≤ length f) × (length f ≤ frame_limit)) frames
    → Transfer (packed frames pad) frames
packed-Transfer [] pad h = padding (replicate-zero pad)
packed-Transfer (frame ∷ frames) pad ((lo, hi), h) =
    packet (packet_of frame) refl (packet_of-IsPacket frame lo hi) (packed-Transfer frames pad h)

-- For frames of 14 to 1514 bytes and a number of padding bytes such that the transfer has at most
-- 16384 bytes: `packet::decode` reads the messages of the frames, packed one after another at any
-- alignment and followed by the zero bytes, as exactly these frames in order.
pub decode-packed :
    (frames : List (List ℕ)) (pad : ℕ)
    → All (λ f. (14 ≤ length f) × (length f ≤ frame_limit)) frames
    → length (packed frames pad) ≤ transfer_limit
    → decode (packed frames pad) ≡ ok frames
decode-packed frames pad h fits =
    (decode_iff (packed frames pad) frames).1 (fits, packed-Transfer frames pad h)
