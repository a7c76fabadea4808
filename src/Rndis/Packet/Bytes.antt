-- ===== src/Rndis/Packet/Bytes.antt =====
-- What `encode` of src/rndis/packet.rs writes, byte for byte.
use galaxybridge.Prelude.{
  ℕ, ◌+◌, ◌-◌, ◌%◌, ◌/◌, ◌≤◌, ◌<◌, ◌≡◌, ◌≢◌, ◌∙◌, ap, refl, List, [], ◌∷◌, ◌++◌, arith, ok, length,
  replicate, ◌↔◌, ◌⊎◌, sym,
}
use galaxybridge.Rndis.Wire.{words, to_le_bytes}
use galaxybridge.Rndis.Packet.{header_words, padded_length, encode}
use galaxybridge.Rndis.Packet.RoundTrip.{encoding, encode_iff}

-- The header of the standard before a payload of `n` bytes: the packet message, the length of the
-- message, the data offset 36, the length of the data, and seven words of zero.
abbrev pub header_bytes : ℕ → List ℕ
header_bytes n =
    (1 ∷ 0 ∷ 0 ∷ 0 ∷ [])
    ++ ((44 + n) % 256 ∷ (44 + n) / 256 ∷ 0 ∷ 0 ∷ [])
    ++ (36 ∷ 0 ∷ 0 ∷ 0 ∷ [])
    ++ (n % 256 ∷ n / 256 ∷ 0 ∷ 0 ∷ [])
    ++ replicate 28 0

-- What follows a payload of `n` bytes within a transfer of at most `limit` bytes, when the USB packets
-- have `size` bytes.
abbrev pub IsPad : ℕ → ℕ → ℕ → List ℕ → Type 0
IsPad n size limit pad =
    (((44 + n) % size ≡ 0) × (pad ≡ 0 ∷ []) × (45 + n ≤ limit))
    ⊎ (((44 + n) % size ≢ 0) × (pad ≡ []) × (44 + n ≤ limit))

-- A word below 65536 in front of others.
words-small :
    (v : ℕ) (vs : List ℕ) → v < 65536 → words (v ∷ vs) ≡ (v % 256) ∷ (v / 256) ∷ 0 ∷ 0 ∷ words vs
unfolding words to_le_bytes
words-small v vs h =
    let second : v / 256 % 256 ≡ v / 256 = omega arith in
    let third : v / 65536 % 256 ≡ 0 = omega arith in
    let fourth : v / 16777216 % 256 ≡ 0 = omega arith in rw (second, third, fourth) refl

-- The words behind the lengths.
words-fixed : words (0 ∷ 0 ∷ 0 ∷ 0 ∷ 0 ∷ 0 ∷ 0 ∷ []) ≡ replicate 28 0
unfolding words to_le_bytes
words-fixed = refl

words-header_bytes : (n : ℕ) → n ≤ 1514 → words (header_words n) ≡ header_bytes n
words-header_bytes n h =
    rw
      (
        words-small 1 _ (omega arith),
        words-small (44 + n) _ (omega arith),
        words-small 36 _ (omega arith),
        words-small n _ (omega arith),
        words-fixed,
      )
      refl

-- The zero bytes that the code adds.
abbrev fill : ℕ → ℕ → List ℕ
fill n size = replicate (padded_length (44 + n) size - (44 + n)) 0

-- What they amount to.
padding-IsPad :
    (n size limit : ℕ) (pad : List ℕ)
    → ((padded_length (44 + n) size ≤ limit) × (pad ≡ fill n size)) ↔ IsPad n size limit pad
padding-IsPad n size limit pad = (λ h. ground arith, λ h. ground arith)

encoding-header_bytes :
    (frame : List ℕ) (size : ℕ)
    → length frame ≤ 1514
    → encoding frame size ≡ header_bytes (length frame) ++ frame ++ fill (length frame) size
encoding-header_bytes frame size hi =
    ap (λ h. h ++ frame ++ fill (length frame) size) (words-header_bytes (length frame) hi)

-- For any frame, output, USB packet size and transfer bound: `packet::encode` returns the output
-- exactly when the frame has 14 to 1514 bytes, the packet size is not zero, and the output is the
-- 44 header bytes (1, 0, 0, 0; the length of header and frame, its low byte first, and 0, 0; 36, 0,
-- 0, 0; the length of the frame, its low byte first, and 0, 0; 28 zeros), then the frame, then one
-- zero byte where header and frame are a multiple of the packet size and nothing where they are
-- not, all of it within the transfer bound.
pub encode_bytes_iff :
    (frame out : List ℕ) (usb_packet_size max_transfer : ℕ)
    → (encode frame usb_packet_size max_transfer ≡ ok out) ↔ (
        (pad : List ℕ) × (14 ≤ length frame)
        × (length frame ≤ 1514)
        × (0 < usb_packet_size)
        × IsPad (length frame) usb_packet_size max_transfer pad
        × (out ≡ header_bytes (length frame) ++ frame ++ pad))
encode_bytes_iff frame out size limit = (
  λ e.
      let (lo, hi, positive, fits, shape) = (encode_iff frame out size limit).0 e in
      (
        fill (length frame) size,
        lo,
        hi,
        positive,
        (padding-IsPad (length frame) size limit _).0 (fits, refl),
        shape ∙ encoding-header_bytes frame size hi,
      ),
  λ (pad, lo, hi, positive, p, shape).
      let (fits, padded) = (padding-IsPad (length frame) size limit pad).1 p in
      (encode_iff frame out size limit).1 (
        lo,
        hi,
        positive,
        fits,
        shape
            ∙ ap (λ q. header_bytes (length frame) ++ frame ++ q) padded
            ∙ sym (encoding-header_bytes frame size hi),
      ),
)
