-- ===== src/Rndis/Packet/Decode.antt =====
-- `decode` accepts the transfers of `Grammar` and no others, and its loop ends.
use galaxybridge.Prelude.{
  ℕ, zero, suc, ◌+◌, ◌-◌, ◌*◌, ◌/◌, ◌^◌, ◌≤◌, ◌<◌, ◌≡◌, refl, ap, ◌∙◌, ◌≢◌, ◌↔◌, inl, inr, false,
  List, [], ◌∷◌, ◌++◌, append_assoc, append-nil, arith, Bool-cases, Result-cases, ok, err,
  out_of_fuel, all-zero, zero-all, length, length-append, take, drop, all, All, ◌==◌, ltb,
}
use galaxybridge.Rndis.Control.Message.{transfer_limit}
use galaxybridge.Rndis.Wire.{u32_at, u32_at-append, u32_at-eq_ok, from_le_bytes}
use galaxybridge.Rndis.Packet.{
  header, frame_limit, metadata, no_metadata, take_message, decode_loop, decode,
}
use galaxybridge.Rndis.Packet.Grammar.{
  len_of, IsPacket, Transfer, padding, packet, take_message-IsPacket, take_message-packet,
}

-- Zero bytes read as the word zero.
zero_word : (n k : ℕ) (bs : List ℕ) → All (λ b. b ≡ 0) bs → from_le_bytes (take n (drop k bs)) ≡ 0
unfolding from_le_bytes
zero_word zero k bs h = refl
zero_word (suc n) zero [] h = refl
zero_word (suc n) zero (b ∷ bs) h = omega (arith, zero_word n zero bs h.1)
zero_word (suc n) (suc k) [] h = refl
zero_word (suc n) (suc k) (b ∷ bs) h = zero_word (suc n) k bs h.1

-- A message is no padding: its first word is 1.
packet-not_zero :
    (bytes msg rest frame : List ℕ)
    → bytes ≡ msg ++ rest
    → IsPacket msg frame
    → all (λ x. x == 0) bytes ≡ false
packet-not_zero bytes msg rest frame e p = elim (Bool-cases (all (λ x. x == 0) bytes)) [
  | inl zeros ↦
      let first = u32_at-append msg rest 0 1 p.kind_word (omega arith) in
      let (_, value) = u32_at-eq_ok (msg ++ rest) 0 1 first in
      absurd (omega (arith, value, rw e at (zero_word 4 0 bytes (all-zero bytes zeros))))
  | inr other ↦ other
]

IsPacket-header : (msg frame : List ℕ) → IsPacket msg frame → header + 14 ≤ length msg
IsPacket-header msg frame p = omega (
  arith,
  ap length p.shape,
  length-append p.before (frame ++ p.after),
  length-append frame p.after,
  p.beyond,
  p.frame_min,
)

decode_loop-Transfer :
    (fuel total : ℕ) (rest : List ℕ) (frames all_frames : List (List ℕ))
    → decode_loop fuel total rest frames ≡ ok all_frames
    → (more : List (List ℕ)) × (all_frames ≡ frames ++ more) × Transfer rest more
unfolding decode_loop
decode_loop-Transfer fuel total [] frames all_frames e =
    ([], ground (arith, append-nil frames), padding tt)
decode_loop-Transfer zero total (b ∷ bs) frames all_frames e = absurd (cc)
decode_loop-Transfer (suc fuel) total (b ∷ bs) frames all_frames e =
    elim (Bool-cases (all (λ x. x == 0) (b ∷ bs))) [
      | inl zeros ↦ ([], ground (arith, append-nil frames), padding (all-zero (b ∷ bs) zeros))
      | inr other ↦ elim (Result-cases (take_message (total - length (b ∷ bs)) (b ∷ bs))) [
        | inl ((frame, rest'), t) ↦
            let (msg, shape, p) = take_message-IsPacket _ (b ∷ bs) frame rest' t in
            let (more, split, tr) =
              decode_loop-Transfer fuel total rest' (frames ++ (frame ∷ [])) all_frames
                (ground arith) in
            (frame ∷ more, split ∙ append_assoc frames (frame ∷ []) more, packet msg shape p tr)
        | inr (x, t) ↦ absurd (ground arith)
      ]
    ]

decode_loop-ok :
    (fuel total : ℕ) (rest : List ℕ) (frames : List (List ℕ)) {more : List (List ℕ)}
    → Transfer rest more
    → length rest ≤ fuel
    → length rest < 2 ^ 62
    → decode_loop fuel total rest frames ≡ ok (frames ++ more)
unfolding decode_loop
decode_loop-ok fuel total [] frames (padding z) h k = ground (arith, append-nil frames)
decode_loop-ok fuel total [] frames (packet {frame = frame} msg e p t) h k =
    absurd (omega (arith, IsPacket-header msg frame p, ap length e, length-append msg _))
decode_loop-ok zero total (b ∷ bs) frames tr h k = absurd (omega arith)
decode_loop-ok (suc fuel) total (b ∷ bs) frames (padding z) h k =
    ground (arith, append-nil frames, zero-all (b ∷ bs) z)
decode_loop-ok (suc fuel) total (b ∷ bs) frames
      (packet {rest = rest} {frame = frame} {frames = more} msg e p t) h k =
    let size = ap length e ∙ length-append msg rest in
    let long = IsPacket-header msg frame p in
    let first : take_message (total - length (b ∷ bs)) (b ∷ bs) ≡ ok (frame, rest) =
      rw e (take_message-packet _ msg frame rest p (omega arith)) in
    let next =
      decode_loop-ok fuel total rest (frames ++ (frame ∷ [])) t (omega arith) (omega arith) in
    ground (
      arith,
      packet-not_zero (b ∷ bs) msg rest frame e p,
      first,
      next,
      append_assoc frames (frame ∷ []) more,
    )

-- For any bytes and frames: `packet::decode` returns the frames exactly when the transfer has at
-- most 16384 bytes and is, by the grammar of packet messages (each of type 1, as long as it says,
-- free of metadata, with an aligned payload of 14 to 1514 bytes behind its header), a sequence of
-- messages that carry these frames in order, with only zero bytes after the last.
pub decode_iff :
    (bytes : List ℕ) (frames : List (List ℕ))
    → (decode bytes ≡ ok frames) ↔ ((length bytes ≤ transfer_limit) × Transfer bytes frames)
unfolding decode
decode_iff bytes frames = (accepted, complete)
  where
    accepted : decode bytes ≡ ok frames → (length bytes ≤ transfer_limit) × Transfer bytes frames
    accepted e = elim (Bool-cases (ltb transfer_limit (length bytes))) [
      | inl over ↦ absurd (ground arith)
      | inr fits ↦
          let (more, eq, tr) =
            decode_loop-Transfer (length bytes) (length bytes) bytes [] frames (ground arith) in
          (ground arith, rw eq tr)
    ]

    complete : (length bytes ≤ transfer_limit) × Transfer bytes frames → decode bytes ≡ ok frames
    complete (fits, tr) = ground (
      arith,
      decode_loop-ok (length bytes) (length bytes) bytes [] tr (omega arith) (omega arith),
    )

u32_at-ne-out_of_fuel : (bytes : List ℕ) (k : ℕ) → u32_at bytes k ≢ err out_of_fuel
unfolding u32_at
u32_at-ne-out_of_fuel bytes k e = ground arith

no_metadata-ne-out_of_fuel : (offsets msg : List ℕ) → no_metadata offsets msg ≢ err out_of_fuel
unfolding no_metadata
no_metadata-ne-out_of_fuel [] msg e = cc
no_metadata-ne-out_of_fuel (k ∷ ks) msg e =
    ground (arith, u32_at-ne-out_of_fuel msg k, no_metadata-ne-out_of_fuel ks msg)

take_message-ne-out_of_fuel :
    (offset : ℕ) (rest : List ℕ) → take_message offset rest ≢ err out_of_fuel
unfolding take_message
take_message-ne-out_of_fuel offset rest e =
    let msg = take (len_of rest) rest in
    ground (
      arith,
      u32_at-ne-out_of_fuel rest 0,
      u32_at-ne-out_of_fuel rest 4,
      u32_at-ne-out_of_fuel msg 8,
      u32_at-ne-out_of_fuel msg 12,
      no_metadata-ne-out_of_fuel metadata msg,
    )

decode_loop-ne-out_of_fuel :
    (fuel total : ℕ) (rest : List ℕ) (frames : List (List ℕ))
    → length rest ≤ fuel
    → decode_loop fuel total rest frames ≢ err out_of_fuel
unfolding decode_loop
decode_loop-ne-out_of_fuel fuel total [] frames h e = cc
decode_loop-ne-out_of_fuel zero total (b ∷ bs) frames h e = absurd (omega arith)
decode_loop-ne-out_of_fuel (suc fuel) total (b ∷ bs) frames h e =
    elim (Result-cases (take_message (total - length (b ∷ bs)) (b ∷ bs))) [
      | inl ((frame, rest'), t) ↦
          let (msg, shape, p) = take_message-IsPacket _ (b ∷ bs) frame rest' t in
          let shorter : length rest' ≤ fuel =
            omega (arith, ap length shape, length-append msg rest', IsPacket-header msg frame p) in
          ground
            (arith, t, decode_loop-ne-out_of_fuel fuel total rest' (frames ++ (frame ∷ [])) shorter)
      | inr (x, t) ↦ ground (arith, take_message-ne-out_of_fuel (total - length (b ∷ bs)) (b ∷ bs))
    ]

-- For any bytes: `packet::decode` does not run out of fuel, so its loop ends.
pub decode-ne-out_of_fuel : (bytes : List ℕ) → decode bytes ≢ err out_of_fuel
unfolding decode
decode-ne-out_of_fuel bytes e =
    ground (arith, decode_loop-ne-out_of_fuel (length bytes) (length bytes) bytes [] (omega arith))

Transfer-bounds :
    {bytes : List ℕ} {frames : List (List ℕ)}
    → Transfer bytes frames
    → All (λ f. (14 ≤ length f) × (length f ≤ frame_limit)) frames
      × ((header + 14) * length frames ≤ length bytes)
Transfer-bounds (padding z) = (tt, omega arith)
Transfer-bounds (packet {rest = rest} {frame = frame} msg e p t) =
    let (sizes, count) = Transfer-bounds t in
    (
      ((p.frame_min, p.frame_max), sizes),
      omega (arith, ap length e, length-append msg rest, IsPacket-header msg frame p),
    )

-- Each frame that `decode` returns has 14 to 1514 bytes, and there are at most 16384 / 58 of them.
pub decode_bounds :
    (bytes : List ℕ) (frames : List (List ℕ))
    → decode bytes ≡ ok frames
    → All (λ f. (14 ≤ length f) × (length f ≤ frame_limit)) frames
      × (length frames ≤ transfer_limit / (header + 14))
decode_bounds bytes frames e =
    let (fits, tr) = (decode_iff bytes frames).0 e in
    let (sizes, count) = Transfer-bounds tr in (sizes, omega arith)
