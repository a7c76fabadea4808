-- ===== src/Usb/Unique.antt =====
-- A list has one element of a kind: what src/usb/devices.rs asks of devices, and src/usb/layout.rs of
-- alternate settings. The kind is a proposition, beside the test that decides it.
use galaxybridge.Prelude.{
  ◌≡◌, ◌↔◌, refl, Bool, true, false, List, [], ◌∷◌, ◌++◌, All, filter_by, filter_by-one,
  filter_by-split,
}

-- Of the elements, this one is of the kind, and no one before or after it is.
abbrev pub IsUnique {ℓ} : {A : Type ℓ} → (A → Type 0) → List A → A → Type ℓ
IsUnique {A = A} P xs x =
    (before after : List A) × (xs ≡ before ++ (x ∷ after))
    × P x
    × All (λ y. ¬ P y) before
    × All (λ y. ¬ P y) after

module _ {A : Type 0} (p : A → Bool) (P : A → Type 0) (decides : (x : A) → (p x ≡ true) ↔ P x) where
  untested : (xs : List A) → All (λ x. p x ≡ false) xs ↔ All (λ x. ¬ P x) xs
  untested [] = (λ h. tt, λ h. tt)
  untested (x ∷ xs) = (
    λ (a, h). (λ m. absurd (cc (a, (decides x).1 m)), (untested xs).0 h),
    λ (a, h). (fails (λ e. a ((decides x).0 e)), (untested xs).1 h),
  )
    where
      fails : {b : Bool} → ¬ (b ≡ true) → b ≡ false
      fails {b = true} h = absurd (h refl)
      fails {b = false} h = refl

  -- The test leaves one element exactly when it is the only one of the kind.
  pub filter_by-IsUnique : (xs : List A) (x : A) → (filter_by p xs ≡ x ∷ []) ↔ IsUnique P xs x
  filter_by-IsUnique xs x = (
    λ e.
        let (before, after, shape, hit, u, v) = filter_by-one p xs x e in
        (before, after, shape, (decides x).0 hit, (untested before).0 u, (untested after).0 v),
    λ (before, after, shape, hit, u, v). rw shape (
        filter_by-split p before after x ((decides x).1 hit) ((untested before).1 u)
          ((untested after).1 v)),
  )
