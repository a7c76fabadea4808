-- ===== src/Usb/Layout/Total.antt =====
-- The walk over the descriptors always answers: no index is out of range, and the loop ends.
use galaxybridge.Prelude.{
  ℕ, zero, suc, ◌≤◌, ◌≡◌, ◌≢◌, refl, ap, inl, inr, List, [], ◌∷◌, arith, Result, ok, err, panic,
  out_of_fuel, byte_at, byte_at_inside, length, take, Result-cases, length-append,
}
use galaxybridge.Usb.Layout.Chain.{least_length, Range, associate, take_descriptor, walk}
use galaxybridge.Usb.Layout.Walk.{size_of, byte_at-take, take_descriptor-link}

-- The answer is a value or an error of the source.
abbrev pub Answers : {A : Type 0} → Result A → Type 0
Answers r = (r ≢ err panic) × (r ≢ err out_of_fuel)

associate-Answers : (d : List ℕ) (before : List Range) → 8 ≤ length d → Answers (associate d before)
unfolding associate
associate-Answers d before long =
    let (a, ea) = byte_at_inside d 2 (omega arith) in
    let (b, eb) = byte_at_inside d 3 (omega arith) in
    (λ e. ground (arith, ea, eb), λ e. ground (arith, ea, eb))

least_length-association : least_length 11 ≡ 8
unfolding least_length
least_length-association = refl

kind_at : (b c : ℕ) (rest : List ℕ) → 2 ≤ b → byte_at (take b (b ∷ c ∷ rest)) 1 ≡ ok c
kind_at b c rest h = byte_at-take b 1 c (b ∷ c ∷ rest) (omega arith) (unfold byte_at in refl)

take_descriptor-Answers :
    (total : ℕ) (rest : List ℕ) (before : List Range) → Answers (take_descriptor total rest before)
unfolding take_descriptor
take_descriptor-Answers total [] before = (λ e. cc, λ e. cc)
take_descriptor-Answers total (b ∷ []) before = (λ e. cc, λ e. cc)
take_descriptor-Answers total (b ∷ c ∷ rest) before =
    let size : byte_at (b ∷ c ∷ rest) 0 ≡ ok b = unfold byte_at in refl in
    let answers = λ (h : 8 ≤ length (take b (b ∷ c ∷ rest))).
      associate-Answers (take b (b ∷ c ∷ rest)) before h in
    (
      λ e. ground (
        arith,
        size,
        kind_at b c rest,
        least_length-association,
        λ (h : 8 ≤ length (take b (b ∷ c ∷ rest))). (answers h).0,
      ),
      λ e. ground (
        arith,
        size,
        kind_at b c rest,
        least_length-association,
        λ (h : 8 ≤ length (take b (b ∷ c ∷ rest))). (answers h).1,
      ),
    )

-- For any descriptor bytes, associations and fuel of at least the number of bytes: the walk over
-- the descriptors does not run out of fuel and does not index out of range.
pub walk-Answers :
    (fuel total : ℕ) (rest : List ℕ) (associations : List Range)
    → length rest ≤ fuel
    → Answers (walk fuel total rest associations)
unfolding walk
walk-Answers fuel total [] associations h = (λ e. cc, λ e. cc)
walk-Answers zero total (b ∷ bs) associations h = absurd (omega arith)
walk-Answers (suc fuel) total (b ∷ bs) associations h =
    let (no_panic, no_fuel) = take_descriptor-Answers total (b ∷ bs) associations in
    elim (Result-cases (take_descriptor total (b ∷ bs) associations)) [
      | inr (x, t) ↦ (λ e. no_panic (ground arith), λ e. no_fuel (ground arith))
      | inl ((found, rest), t) ↦
          let (shape, d) = take_descriptor-link total (b ∷ bs) associations found rest t in
          let (p, f) = walk-Answers fuel total rest found (
            omega (
              arith,
              ap length shape,
              length-append (take (size_of (b ∷ bs)) (b ∷ bs)) rest,
              d.two,
            )) in
          (λ e. p (ground arith), λ e. f (ground arith))
    ]
