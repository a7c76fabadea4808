-- ===== src/Usb/Layout/Chain.antt =====
-- src/usb/layout.rs, the first loop of `Layout::parse`: the whole chain of descriptors.
use galaxybridge.Prelude.{
  ℕ, zero, suc, ◌+◌, Bool, ◌&&◌, ◌||◌, not, List, [], ◌∷◌, ◌++◌, Result, ok, err, message,
  out_of_fuel, ◌>>=◌, ◌>>◌, refuse, any, byte_at, length, take, drop, ltb, ◌==◌, if◌then◌else◌,
}

-- The least length of a descriptor of each type.
unfoldable pub least_length : ℕ → ℕ
least_length kind =
    if kind == 2 || kind == 4
    then 9
    else (if kind == 5 then 7 else (if kind == 11 then 8 else (if kind == 0x24 then 3 else 2)))

-- The interfaces of one function, from the first to below the end.
pub record Range : Type 0 where
  pub first : ℕ
  pub end : ℕ

abbrev pub overlaps : Range → Range → Bool
overlaps new old = ltb new.first old.end && ltb old.first new.end

unfoldable pub associate : List ℕ → List Range → Result (List Range)
associate descriptor associations = do
  first ← byte_at descriptor 2
  count ← byte_at descriptor 3
  let end = first + count
  refuse (first == end || ltb 256 end) (message "invalid USB interface association range")
  refuse (any (overlaps (record { first = first; end = end })) associations)
      (message "overlapping USB interface associations")
  ok (associations ++ (record { first = first; end = end } ∷ []))

-- The body of the loop: the associations so far and the descriptors that follow. `total` is the
-- length of the whole configuration.
unfoldable pub take_descriptor : ℕ → List ℕ → List Range → Result (List Range × List ℕ)
take_descriptor total rest associations = do
  refuse (ltb (length rest) 2) (message "truncated USB descriptor chain")
  size ← byte_at rest 0
  refuse (ltb size 2 || ltb (length rest) size) (message "truncated USB descriptor chain")
  let descriptor = take size rest
  kind ← byte_at descriptor 1
  refuse (ltb (length descriptor) (least_length kind) || (kind == 2 && not (length rest == total)))
      (message "invalid USB descriptor length or nested configuration")
  associations' ← (if kind == 11 then associate descriptor associations else ok associations)
  ok (associations', drop size rest)

unfoldable pub walk : ℕ → ℕ → List ℕ → List Range → Result (List Range)
walk fuel total [] associations = ok associations
walk zero total (b ∷ bs) associations = err out_of_fuel
walk (suc fuel) total (b ∷ bs) associations =
    take_descriptor total (b ∷ bs) associations >>= λ r. walk fuel total r.1 r.0
