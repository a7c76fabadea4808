-- ===== src/Macos/Bpf/Decode.antt =====
-- `Batch::decode` accepts the batches of `Records` and no others, and its loop ends.
use mathlib.Core.Option.{get_or}
use galaxybridge.Prelude.{
  ℕ, zero, suc, ◌+◌, ◌*◌, ◌/◌, ◌%◌, ◌^◌, ◌≤◌, ◌<◌, ◌≡◌, ◌≢◌, ◌↔◌, inl, inr, List, [], ◌∷◌, ◌++◌,
  some, arith, Error, ok, err, out_of_fuel, checked_add, get_range, drop, length, All, ap, ◌∙◌,
  Result-cases, Bool-cases, append_assoc, append-nil, get_range_split, length-drop, length-append,
  get_range-middle, ◌==◌,
}
use galaxybridge.Rndis.Packet.{frame_limit}
use galaxybridge.Macos.Bpf.{Layout, field, take_record, skip_padding, decode_loop, decode}
use galaxybridge.Macos.Bpf.Records.{read, IsRecord, Batch, done, last, more}

field-eq_ok :
    (bytes : List ℕ) (offset size v : ℕ) (e : Error)
    → (field bytes offset size e ≡ ok v) ↔ (read bytes offset size ≡ some v)
unfolding field
field-eq_ok bytes offset size v e = (λ x. ground arith, λ x. ground arith)

record Taken (layout : Layout) (bytes frame : List ℕ) (first size end : ℕ) : Type 0 where
  capture_word : read bytes layout.capture 4 ≡ some size
  original_word : read bytes layout.original 4 ≡ some size
  header_word : read bytes layout.header 2 ≡ some first
  header_min : layout.header + 2 ≤ first
  size_min : 14 ≤ size
  size_max : size ≤ frame_limit
  range : get_range bytes first (first + size) ≡ some frame
  end_at : end ≡ first + size

take_record-Taken :
    (layout : Layout) (bytes frame : List ℕ) (end : ℕ)
    → take_record layout bytes ≡ ok (frame, end)
    → Taken layout bytes frame
        (get_or (read bytes layout.header 2) 0)
        (get_or (read bytes layout.capture 4) 0)
        end
unfolding take_record checked_add field
take_record-Taken layout bytes frame end e = ground arith

Taken-IsRecord :
    (layout : Layout) (bytes frame : List ℕ) (first size end : ℕ)
    → Taken layout bytes frame first size end
    → IsRecord layout bytes frame end
Taken-IsRecord layout bytes frame first size end t =
    let (head, tail, shape, at, total) = get_range_split bytes first (first + size) frame t.range in
    let end_at = t.end_at in
    let size' : length frame ≡ size = omega arith in
    record {
      head = head;
      tail = tail;
      shape = shape;
      end_at = omega arith;
      capture_word = rw size' t.capture_word;
      original_word = rw size' t.original_word;
      header_word = rw at t.header_word;
      header_min = rw at t.header_min;
      frame_min = rw size' t.size_min;
      frame_max = rw size' t.size_max;
    }

take_record-IsRecord :
    (layout : Layout) (bytes frame : List ℕ) (end : ℕ)
    → take_record layout bytes ≡ ok (frame, end)
    → IsRecord layout bytes frame end
take_record-IsRecord layout bytes frame end e =
    Taken-IsRecord layout bytes frame _ _ end (take_record-Taken layout bytes frame end e)

IsRecord-size :
    (layout : Layout) (bytes frame : List ℕ) (end : ℕ)
    → IsRecord layout bytes frame end
    → (16 ≤ end) × (end ≤ length bytes)
IsRecord-size layout bytes frame end r = omega (
  arith,
  ap length r.shape,
  length-append r.head (frame ++ r.tail),
  length-append frame r.tail,
  r.end_at,
  r.header_min,
  r.frame_min,
)

take_record-record :
    (layout : Layout) (bytes frame : List ℕ) (end : ℕ)
    → IsRecord layout bytes frame end
    → length bytes < 2 ^ 62
    → take_record layout bytes ≡ ok (frame, end)
unfolding take_record checked_add field
take_record-record layout bytes frame end r small = ground (
  arith,
  IsRecord-size layout bytes frame end r,
  get_range-middle r.head frame r.tail,
  r.shape,
  r.end_at,
  r.capture_word,
  r.original_word,
  r.header_word,
)

skip_padding_lem :
    (layout : Layout) (bytes rest : List ℕ) (end : ℕ)
    → layout.alignment ≡ 4
    → skip_padding layout bytes end ≡ ok rest
    → (next : ℕ) × (end ≤ next)
      × (next < end + 4)
      × (next % 4 ≡ 0)
      × (next ≤ length bytes)
      × (rest ≡ drop next bytes)
skip_padding_lem layout bytes rest end four e = (
  (end + 3) / 4 * 4,
  omega arith,
  omega arith,
  omega arith,
  unfold skip_padding in ground arith,
  unfold skip_padding in ground arith,
)

skip_padding-ok :
    (layout : Layout) (bytes : List ℕ) (end next : ℕ)
    → layout.alignment ≡ 4
    → end ≤ next
    → next < end + 4
    → next % 4 ≡ 0
    → next ≤ length bytes
    → length bytes < 2 ^ 62
    → skip_padding layout bytes end ≡ ok (drop next bytes)
unfolding skip_padding
skip_padding-ok layout bytes end next four lo hi whole inside small =
    let at : next ≡ (end + 3) / 4 * 4 = omega arith in ground arith

module _ (layout : Layout) (four : layout.alignment ≡ 4) where
  continue :
      (bytes rest frame : List ℕ) (end : ℕ) (frames all_frames : List (List ℕ))
      → IsRecord layout bytes frame end
      → end ≢ length bytes
      → skip_padding layout bytes end ≡ ok rest
      → (found : List (List ℕ)) × (all_frames ≡ (frames ++ (frame ∷ [])) ++ found)
        × Batch layout rest found
      → (found : List (List ℕ)) × (all_frames ≡ frames ++ found) × Batch layout bytes found
  continue bytes rest frame end frames all_frames r on s (found, split, batch) =
      let (next, lo, hi, whole, inside, rest_eq) = skip_padding_lem layout bytes rest end four s in
      (
        frame ∷ found,
        split ∙ append_assoc frames (frame ∷ []) found,
        more end next r on lo hi whole inside rest_eq batch,
      )

  decode_loop-Batch :
      (fuel : ℕ) (bytes : List ℕ) (frames all_frames : List (List ℕ))
      → decode_loop fuel layout bytes frames ≡ ok all_frames
      → (found : List (List ℕ)) × (all_frames ≡ frames ++ found) × Batch layout bytes found
  unfolding decode_loop
  decode_loop-Batch fuel [] frames all_frames e = ([], ground (arith, append-nil frames), done)
  decode_loop-Batch zero (b ∷ bs) frames all_frames e = absurd (cc)
  decode_loop-Batch (suc fuel) (b ∷ bs) frames all_frames e =
      elim (Result-cases (take_record layout (b ∷ bs))) [
        | inr (x, t) ↦ absurd (ground arith)
        | inl ((frame, end), t) ↦
            let r = take_record-IsRecord layout (b ∷ bs) frame end t in
            elim (Bool-cases (end == length (b ∷ bs))) [
              | inl stop ↦
                  let e' : end ≡ length (b ∷ bs) = ground arith in
                  (frame ∷ [], ground arith, last (rw (← e') r))
              | inr on ↦ elim (Result-cases (skip_padding layout (b ∷ bs) end)) [
                | inr (x, s) ↦ absurd (ground arith)
                | inl (rest, s) ↦
                    continue (b ∷ bs) rest frame end frames all_frames r (ground arith) s (
                      decode_loop-Batch fuel rest (frames ++ (frame ∷ [])) all_frames
                        (ground arith))
              ]
            ]
      ]

  decode_loop-ok :
      (fuel : ℕ) (bytes : List ℕ) (frames : List (List ℕ)) {found : List (List ℕ)}
      → Batch layout bytes found
      → length bytes ≤ fuel
      → length bytes < 2 ^ 62
      → decode_loop fuel layout bytes frames ≡ ok (frames ++ found)
  unfolding decode_loop
  decode_loop-ok fuel [] frames done h k = ground (arith, append-nil frames)
  decode_loop-ok fuel [] frames (last {frame = frame} r) h k =
      absurd (omega (arith, IsRecord-size layout [] frame _ r))
  decode_loop-ok fuel [] frames (more {frame = frame} end next r n lo hi w i q b) h k =
      absurd (omega (arith, IsRecord-size layout [] frame end r))
  decode_loop-ok zero (b ∷ bs) frames batch h k = absurd (omega arith)
  decode_loop-ok (suc fuel) (b ∷ bs) frames (last {frame = frame} r) h k =
      ground (arith, take_record-record layout (b ∷ bs) frame _ r k)
  decode_loop-ok (suc fuel) (b ∷ bs) frames
        (more {rest = rest} {frame = frame} {frames = found} end next r n lo hi w i q batch) h k =
      let size = IsRecord-size layout (b ∷ bs) frame end r in
      let left = ap length q ∙ length-drop next (b ∷ bs) in
      let tail =
        decode_loop-ok fuel rest (frames ++ (frame ∷ [])) batch (omega arith) (omega arith) in
      ground (
        arith,
        take_record-record layout (b ∷ bs) frame end r k,
        skip_padding-ok layout (b ∷ bs) end next four lo hi w i k,
        tail,
        append_assoc frames (frame ∷ []) found,
      )

-- The layouts that the driver supports.
abbrev pub IsSupported : Layout → Type 0
IsSupported layout =
    (layout.alignment ≡ 4) × (layout.header ≤ 64) × (layout.capture ≤ 64) × (layout.original ≤ 64)

-- For any header layout, frames and read buffer of less than 2 ^ 62 bytes: `Batch::decode` returns
-- the frames exactly when the layout is a supported one and the buffer is a sequence of capture
-- records, each with equal lengths, a header that fits the layout and a frame of 14 to 1514 bytes,
-- and each beginning at the first multiple of 4 behind the one before, that carry these frames in
-- order.
pub Batch-iff :
    (layout : Layout) (bytes : List ℕ) (frames : List (List ℕ))
    → length bytes < 2 ^ 62
    → (decode bytes layout ≡ ok frames) ↔ (IsSupported layout × Batch layout bytes frames)
unfolding decode
Batch-iff layout bytes frames small = (
  λ e.
      let supported : IsSupported layout = ground arith in
      let (found, eq, batch) =
        decode_loop-Batch layout supported.0 (length bytes) bytes [] frames (ground arith) in
      (supported, rw eq batch),
  λ (supported, batch).
      ground (
        arith,
        decode_loop-ok layout supported.0 (length bytes) bytes [] batch (omega arith) small,
      ),
)

take_record-ne-out_of_fuel :
    (layout : Layout) (bytes : List ℕ) → take_record layout bytes ≢ err out_of_fuel
unfolding take_record field
take_record-ne-out_of_fuel layout bytes e = ground arith

skip_padding-ne-out_of_fuel :
    (layout : Layout) (bytes : List ℕ) (end : ℕ) → skip_padding layout bytes end ≢ err out_of_fuel
unfolding skip_padding
skip_padding-ne-out_of_fuel layout bytes end e = ground arith

decode_loop-ne-out_of_fuel :
    (layout : Layout) (fuel : ℕ) (bytes : List ℕ) (frames : List (List ℕ))
    → layout.alignment ≡ 4
    → length bytes ≤ fuel
    → decode_loop fuel layout bytes frames ≢ err out_of_fuel
unfolding decode_loop
decode_loop-ne-out_of_fuel layout fuel [] frames four h e = cc
decode_loop-ne-out_of_fuel layout zero (b ∷ bs) frames four h e = absurd (omega arith)
decode_loop-ne-out_of_fuel layout (suc fuel) (b ∷ bs) frames four h e =
    elim (Result-cases (take_record layout (b ∷ bs))) [
      | inr (x, t) ↦ ground (arith, take_record-ne-out_of_fuel layout (b ∷ bs))
      | inl ((frame, end), t) ↦ elim (Result-cases (skip_padding layout (b ∷ bs) end)) [
        | inr (x, s) ↦ ground (arith, skip_padding-ne-out_of_fuel layout (b ∷ bs) end)
        | inl (rest, s) ↦
            let (next, lo, hi, whole, inside, rest_eq) =
              skip_padding_lem layout (b ∷ bs) rest end four s in
            let size =
              IsRecord-size layout (b ∷ bs) frame end
                (take_record-IsRecord layout (b ∷ bs) frame end t) in
            let shorter : length rest ≤ fuel =
              omega (arith, ap length rest_eq, length-drop next (b ∷ bs)) in
            ground (
              arith,
              decode_loop-ne-out_of_fuel layout fuel rest (frames ++ (frame ∷ [])) four shorter,
            )
      ]
    ]

-- For any bytes and header layout: `Batch::decode` does not run out of fuel, so its loop ends.
pub batch-ne-out_of_fuel :
    (bytes : List ℕ) (layout : Layout) → decode bytes layout ≢ err out_of_fuel
unfolding decode
batch-ne-out_of_fuel bytes layout e = ground (
  arith,
  λ (four : layout.alignment ≡ 4).
      decode_loop-ne-out_of_fuel layout (length bytes) bytes [] four (omega arith),
)

Batch-bounds :
    {layout : Layout} {bytes : List ℕ} {frames : List (List ℕ)}
    → Batch layout bytes frames
    → All (λ f. (14 ≤ length f) × (length f ≤ frame_limit)) frames
      × (16 * length frames ≤ length bytes)
Batch-bounds done = (tt, omega arith)
Batch-bounds {layout} {bytes} (last {frame = frame} r) =
    (((r.frame_min, r.frame_max), tt), omega (arith, IsRecord-size layout bytes frame _ r))
Batch-bounds {layout} {bytes} (more {frame = frame} end next r n lo hi w i q batch) =
    let (sizes, count) = Batch-bounds batch in
    (
      ((r.frame_min, r.frame_max), sizes),
      omega (arith, IsRecord-size layout bytes frame end r, ap length q ∙ length-drop next bytes),
    )

-- For a header layout and a read buffer of less than 2 ^ 62 bytes from which `Batch::decode`
-- returns frames: each has 14 to 1514 bytes, and 16 times their number is at most the length of the
-- buffer.
pub batch_bounds :
    (layout : Layout) (bytes : List ℕ) (frames : List (List ℕ))
    → length bytes < 2 ^ 62
    → decode bytes layout ≡ ok frames
    → All (λ f. (14 ≤ length f) × (length f ≤ frame_limit)) frames
      × (16 * length frames ≤ length bytes)
batch_bounds layout bytes frames small e =
    Batch-bounds ((Batch-iff layout bytes frames small).0 e).1
