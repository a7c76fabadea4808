-- ===== src/Prelude/Slices.antt =====
-- Byte slices: checked additions of `usize`, `slice::get` of a range, little-endian words.
use Prim.Native.Nat.{ℕ, zero, suc, ◌+◌, ◌-◌, ◌^◌, ◌≤◌, ◌<◌}
use mathlib.Core.Path.{ap, ◌≡◌, refl, ◌∙◌}
use mathlib.Core.List.{List, [], ◌∷◌, ◌++◌}
use mathlib.Core.Option.{Option, none, some}
use mathlib.Core.Bool.{Bool, true, false, ◌&&◌}
use mathlib.Core.Logic.{◌↔◌, inl, inr}
use native.Mathlib.Omega.{arith}
use galaxybridge.Prelude.Outcome.{Result, ok, panic, ok_or}
use galaxybridge.Prelude.Tests.{Bool-cases, ◌==◌, ltb, leb, if◌then◌else◌}
use galaxybridge.Prelude.Lists.{
  filter_by, get_elem?, all, All, length, take, drop, length-take, length-drop, length-append,
  take-append-drop, take-length_append, drop-length_append,
}

abbrev pub IsByte : ℕ → Type 0
IsByte b = b < 256

abbrev pub IsU32 : ℕ → Type 0
IsU32 v = v < 2 ^ 32

-- `usize::checked_add`, on a 64-bit target.
unfoldable pub checked_add : ℕ → ℕ → Option ℕ
checked_add a b = if ltb (a + b) (2 ^ 64) then some (a + b) else none

-- `(lo..hi).contains(&x)` with `hi` included.
abbrev pub within : ℕ → ℕ → ℕ → Bool
within lo hi x = leb lo x && leb x hi

-- `slice[i]`
unfoldable pub byte_at : List ℕ → ℕ → Result ℕ
byte_at bytes i = ok_or (get_elem? bytes i) panic

pub byte_at_inside :
    (bytes : List ℕ) (i : ℕ) → i < length bytes → (b : ℕ) × (byte_at bytes i ≡ ok b)
unfolding byte_at
byte_at_inside [] i h = absurd (omega arith)
byte_at_inside (b ∷ bs) zero h = (b, refl)
byte_at_inside (b ∷ bs) (suc i) h = byte_at_inside bs i (omega arith)

module _ {A : Type 0} where
  -- `slice.get(first..end)`
  unfoldable pub get_range : List A → ℕ → ℕ → Option (List A)
  get_range xs first end =
      if leb first end && leb end (length xs)
      then some (take (end - first) (drop first xs))
      else none

  pub get_range-eq-some :
      (xs : List A) (first end : ℕ) (ys : List A)
      → get_range xs first end ≡ some ys
      → (first ≤ end)
        × (end ≤ length xs)
        × (ys ≡ take (end - first) (drop first xs))
        × (length ys ≡ end - first)
  unfolding get_range
  get_range-eq-some xs first end ys e =
      ground (arith, length-take (end - first) (drop first xs), length-drop first xs)

  pub get_range-inside :
      (xs : List A) (first end : ℕ)
      → first ≤ end
      → end ≤ length xs
      → get_range xs first end ≡ some (take (end - first) (drop first xs))
  unfolding get_range
  get_range-inside xs first end h k = ground arith

  drop-drop : (m n : ℕ) (xs : List A) → drop n (drop m xs) ≡ drop (m + n) xs
  drop-drop zero n xs = let e : zero + n ≡ n = omega arith in rw e
  drop-drop (suc m) zero [] = let e : suc m + zero ≡ suc m = omega arith in rw e
  drop-drop (suc m) (suc n) [] = let e : suc m + suc n ≡ suc (m + suc n) = omega arith in rw e
  drop-drop (suc m) n (x ∷ xs) =
      let e : suc m + n ≡ suc (m + n) = omega arith in rw e (drop-drop m n xs)

  take-drop_split :
      (first n : ℕ) (xs : List A)
      → xs ≡ take first xs ++ (take n (drop first xs) ++ drop (first + n) xs)
  take-drop_split first n xs =
      rw (← drop-drop first n xs, take-append-drop n (drop first xs), take-append-drop first xs)

  -- A range that is there splits the slice into what is before it, the range, and what is after it.
  pub get_range_split :
      (xs : List A) (first end : ℕ) (ys : List A)
      → get_range xs first end ≡ some ys
      → (before after : List A) × (xs ≡ before ++ (ys ++ after))
        × (length before ≡ first)
        × (length ys + first ≡ end)
  get_range_split xs first end ys e =
      let (ordered, inside, content, size) = get_range-eq-some xs first end ys e in
      (
        take first xs,
        drop (first + (end - first)) xs,
        rw content (take-drop_split first (end - first) xs),
        omega (arith, length-take first xs),
        omega arith,
      )

  pub get_range-middle :
      (before ys after : List A)
      → get_range (before ++ (ys ++ after)) (length before) (length before + length ys) ≡ some ys
  get_range-middle before ys after =
      let size : length before + length ys - length before ≡ length ys = omega arith in
      let total = length-append before (ys ++ after) in
      let part = length-append ys after in
      get_range-inside (before ++ (ys ++ after)) (length before) (length before + length ys)
        (omega arith) (omega arith)
      ∙ rw (size, drop-length_append before (ys ++ after), take-length_append ys after)

pub all-zero : (bs : List ℕ) → all (λ x. x == 0) bs ≡ true → All (λ b. b ≡ 0) bs
all-zero [] h = tt
all-zero (b ∷ bs) h = ground (arith, all-zero bs)

pub zero-all : (bs : List ℕ) → All (λ b. b ≡ 0) bs → all (λ x. x == 0) bs ≡ true
zero-all [] h = refl
zero-all (b ∷ bs) h = ground (arith, zero-all bs h.1)

module _ {A : Type 0} (p : A → Bool) where
  filter_by-nil : (xs : List A) → (filter_by p xs ≡ []) ↔ All (λ x. p x ≡ false) xs
  filter_by-nil [] = (λ e. tt, λ h. refl)
  filter_by-nil (x ∷ xs) =
      (λ e. ground (arith, filter_by-nil xs), λ h. ground (arith, filter_by-nil xs))

  -- One element passes the filter: it is somewhere, and no other one passes.
  pub filter_by-one :
      (xs : List A) (x : A)
      → filter_by p xs ≡ x ∷ []
      → (before after : List A) × (xs ≡ before ++ (x ∷ after))
        × (p x ≡ true)
        × All (λ y. p y ≡ false) before
        × All (λ y. p y ≡ false) after
  filter_by-one [] x e = absurd (cc)
  filter_by-one (y ∷ xs) x e = elim (Bool-cases (p y)) [
    | inl hit ↦ ([], xs, ground arith, ground arith, tt, (filter_by-nil xs).0 (ground arith))
    | inr miss ↦
        let (before, after, shape, hit, u, v) = filter_by-one xs x (ground arith) in
        (y ∷ before, after, ap (◌∷◌ y) shape, hit, (miss, u), v)
  ]

  pub filter_by-split :
      (before after : List A) (x : A)
      → p x ≡ true
      → All (λ y. p y ≡ false) before
      → All (λ y. p y ≡ false) after
      → filter_by p (before ++ (x ∷ after)) ≡ x ∷ []
  filter_by-split [] after x hit u v = ground (arith, (filter_by-nil after).1 v)
  filter_by-split (y ∷ before) after x hit u v =
      ground (arith, filter_by-split before after x hit u.1 v)
