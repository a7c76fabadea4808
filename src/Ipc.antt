-- ===== src/Ipc.antt =====
-- src/ipc.rs: the datagrams between the supervisor and the USB worker.
mod Tests
use Prim.Native.Nat.{bit_and}
use mathlib.Core.Option.{get_or}
use mathlib.Core.List.{head?}
use galaxybridge.Prelude.{
  ℕ, ◌+◌, ◌%◌, ◌≤◌, ◌≡◌, ◌↔◌, Bool, true, false, ◌&&◌, ◌||◌, not, List, [], ◌∷◌, arith, Result, ok,
  err, message, Error, io, would_block, timed_out, interrupted, no_buffers, ◌>>◌, refuse, length,
  ◌==◌, if◌then◌else◌, within, All, IsByte, all, all-zero, zero-all, Bool-cases, inl, inr,
}
use galaxybridge.Prelude.Bits.{bit_and-0x01}
use galaxybridge.Rndis.Packet.{frame_limit}

pub data Message : Type 0 where
  ready : List ℕ → Message
  frame : List ℕ → Message

-- `mac[0] & 1 != 0 || mac == [0; 6]`
unfoldable pub invalid_mac : List ℕ → Bool
invalid_mac [] = true
invalid_mac (b ∷ bs) = not (bit_and b 1 == 0) || all (λ x. x == 0) (b ∷ bs)

unfoldable pub decode : List ℕ → Result Message
unfolding invalid_mac
decode [] = err (message "invalid worker datagram")
decode (tag ∷ body) =
    if tag == 1 && length (tag ∷ body) == 7
    then (do refuse (invalid_mac body) (message "invalid unicast MAC address"); ok (ready body))
    else (if tag == 2 && within 15 (frame_limit + 1) (length (tag ∷ body))
        then ok (frame body)
        else err (message "invalid worker datagram"))

unfoldable pub encode : Message → List ℕ
encode (ready mac) = 1 ∷ mac
encode (frame bytes) = 2 ∷ bytes

-- `Backpressure::contains`
unfoldable pub contains : Error → Bool
contains (io would_block) = true
contains (io timed_out) = true
contains (io interrupted) = true
contains (io no_buffers) = true
contains _ = false

-- A unicast hardware address: six bytes, not all zero, with the multicast bit clear.
pub record IsUnicast (mac : List ℕ) : Type 0 where
  pub six : length mac ≡ 6
  pub unicast : get_or (head? mac) 0 % 2 ≡ 0
  pub nonzero : ¬ All (λ b. b ≡ 0) mac

abbrev pub IsValid : Message → Type 0
IsValid (ready mac) = IsUnicast mac
IsValid (frame bytes) = (14 ≤ length bytes) × (length bytes ≤ frame_limit)

pub invalid_mac_lem :
    (mac : List ℕ) → All IsByte mac → length mac ≡ 6 → (invalid_mac mac ≡ false) ↔ IsUnicast mac
unfolding invalid_mac
invalid_mac_lem [] small size = absurd (omega arith)
invalid_mac_lem (b ∷ bs) small size = (
  λ e. record {
    six = size;
    unicast = ground (arith, bit_and-0x01 b small.0);
    nonzero = λ z. ground (arith, zero-all (b ∷ bs) z);
  },
  λ u. elim (Bool-cases (all (λ x. x == 0) (b ∷ bs))) [
    | inl zeros ↦ absurd (u.nonzero (all-zero (b ∷ bs) zeros))
    | inr other ↦ ground (arith, bit_and-0x01 b small.0, u.unicast)
  ],
)

decode-ready :
    (tag : ℕ) (body : List ℕ) (mac : List ℕ)
    → decode (tag ∷ body) ≡ ok (ready mac)
    → (tag ≡ 1) × (body ≡ mac) × (length mac ≡ 6) × (invalid_mac mac ≡ false)
unfolding decode
decode-ready tag body mac e = ground arith

-- A ready message carries six bytes that the address check passed.
pub ready-decode :
    (bytes mac : List ℕ)
    → decode bytes ≡ ok (ready mac)
    → (length mac ≡ 6) × (invalid_mac mac ≡ false)
ready-decode [] mac e = absurd (unfold decode in cc e)
ready-decode (tag ∷ body) mac e =
    let (t, b, six, passed) = decode-ready tag body mac e in (six, passed)

pub decode-frame :
    (tag : ℕ) (body : List ℕ) (bytes : List ℕ)
    → decode (tag ∷ body) ≡ ok (frame bytes)
    → (tag ≡ 2) × (body ≡ bytes) × (14 ≤ length bytes) × (length bytes ≤ frame_limit)
unfolding decode
decode-frame tag body bytes e = ground arith

decode_sound :
    (bytes : List ℕ) (m : Message)
    → All IsByte bytes
    → decode bytes ≡ ok m
    → IsValid m × (encode m ≡ bytes)
unfolding encode
decode_sound [] m small e = absurd (unfold decode in cc)
decode_sound (tag ∷ body) (ready mac) small e =
    let (one, same, size, valid) = decode-ready tag body mac e in
    ((invalid_mac_lem mac (rw same at small.1) size).0 valid, cc)
decode_sound (tag ∷ body) (frame bytes) small e =
    let (two, same, lo, hi) = decode-frame tag body bytes e in ((lo, hi), cc)

decode-encode : (m : Message) → All IsByte (encode m) → IsValid m → decode (encode m) ≡ ok m
unfolding decode encode
decode-encode (ready mac) small v = ground (arith, (invalid_mac_lem mac small.1 v.six).1 v, v.six)
decode-encode (frame bytes) small v = ground arith

-- A frame that the packets allow is a datagram.
pub decode-encode_frame :
    (bytes : List ℕ)
    → 14 ≤ length bytes
    → length bytes ≤ frame_limit
    → decode (encode (frame bytes)) ≡ ok (frame bytes)
unfolding decode encode
decode-encode_frame bytes lo hi = ground arith

-- For a list of bytes and a message: `Message::decode` returns the message exactly when it is a
-- valid one (a unicast hardware address of six bytes, or a frame of 14 to 1514 bytes) and the bytes
-- are its encoding.
pub datagram_iff :
    (bytes : List ℕ) (m : Message)
    → All IsByte bytes
    → (decode bytes ≡ ok m) ↔ (IsValid m × (encode m ≡ bytes))
datagram_iff bytes m small =
    (decode_sound bytes m small, λ (v, e). rw (← e) (decode-encode m (rw e small) v))
