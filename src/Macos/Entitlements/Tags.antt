-- ===== src/Macos/Entitlements/Tags.antt =====
-- The grammar of the entitlements, and what the steps of src/macos/worker_app.rs read of it.
use mathlib.Core.Option
use galaxybridge.Prelude.{
  ℕ, ◌≡◌, ◌⊎◌, inl, inr, refl, ◌∙◌, ap, true, List, [], ◌∷◌, ◌++◌, Option, none, some, codes,
  Bool-cases, Option-cases, all, trim_start, strip_prefix, split_once, is_whitespace, ◌==◌, ==_iff,
}
use galaxybridge.Macos.Entitlements.{
  xml_header, declaration, skip, skip_first, sandbox_key, usb_key,
}

-- A text is a tag, white space and what follows them.
pub record After (tag text rest : List ℕ) : Type 0 where
  pub white : List ℕ
  pub whole : text ≡ tag ++ (white ++ rest)
  pub blank : all is_whitespace white ≡ true

-- The same, for a tag that may be absent.
abbrev pub Perhaps : List ℕ → List ℕ → List ℕ → Type 0
Perhaps tag text rest = (text ≡ rest) ⊎ After tag text rest

-- One true boolean of a dictionary.
pub record Entry (key text rest : List ℕ) : Type 0 where
  pub behind_key : List ℕ
  pub named : After (codes "<key>" ++ (key ++ codes "</key>")) text behind_key
  pub is_true : After (codes "<true/>") behind_key rest

pub record IsPolicy (text : List ℕ) : Type 0 where
  pub declared : List ℕ
  pub headed : Perhaps xml_header text declared
  pub plist : List ℕ
  pub typed :
      Perhaps (declaration (codes "https")) declared plist
      ⊎ Perhaps (declaration (codes "http")) declared plist
  pub inside : List ℕ
  pub opened : After (codes "<plist version=\"1.0\">") plist inside
  pub first : List ℕ
  pub in_dict : After (codes "<dict>") inside first
  pub first_key : List ℕ
  pub second : List ℕ
  pub first_entry : Entry first_key first second
  pub second_key : List ℕ
  pub last : List ℕ
  pub second_entry : Entry second_key second last
  pub closed : After (codes "</dict>") last (codes "</plist>")
  pub both :
      ((first_key ≡ sandbox_key) × (second_key ≡ usb_key))
      ⊎ ((first_key ≡ usb_key) × (second_key ≡ sandbox_key))

pub strip_prefix-some : (p text rest : List ℕ) → strip_prefix p text ≡ some rest → text ≡ p ++ rest
unfolding strip_prefix
strip_prefix-some [] text rest e = cc e
strip_prefix-some (p ∷ ps) [] rest e = absurd (cc e)
strip_prefix-some (p ∷ ps) (c ∷ cs) rest e = elim (Bool-cases (p == c)) [
  | inl same ↦
      let first : p ≡ c = (==_iff p c).0 same in
      rw (first, strip_prefix-some ps cs rest (rw same at e)) refl
  | inr other ↦ absurd (cc (rw other at e))
]

-- What `trim_start` takes off.
pub record Blank (text : List ℕ) : Type 0 where
  pub white : List ℕ
  pub whole : text ≡ white ++ trim_start text
  pub blank : all is_whitespace white ≡ true

pub trim_start-Blank : (text : List ℕ) → Blank text
unfolding trim_start
trim_start-Blank [] = record { white = []; whole = refl; blank = refl }
trim_start-Blank (c ∷ cs) = elim (Bool-cases (is_whitespace c)) [
  | inl blank ↦
      let b = trim_start-Blank cs in
      record {
        white = c ∷ b.white;
        whole = rw blank (ap (◌∷◌ c) b.whole);
        blank = rw (blank, b.blank) refl;
      }
  | inr plain ↦ record { white = []; whole = rw plain refl; blank = refl }
]

pub map-some :
    {A B : Type 0} (f : A → B) (o : Option A) (b : B)
    → Option.map f o ≡ some b
    → (a : A) × (o ≡ some a) × (f a ≡ b)
map-some f none b e = absurd (cc e)
map-some f (some a) b e = (a, refl, cc e)

pub split_once-some :
    (p text : List ℕ) (r : List ℕ × List ℕ) → split_once p text ≡ some r → text ≡ r.0 ++ p ++ r.1
unfolding split_once
split_once-some p [] r e =
    let (rest, found, same) = map-some (λ x. ([], x)) (strip_prefix p []) r e in
    rw (← same) (strip_prefix-some p [] rest found)
split_once-some p (c ∷ cs) r e = elim (Option-cases (strip_prefix p (c ∷ cs))) [
  | inr (rest, found) ↦
      let same : ([], rest) ≡ r = cc (rw (found, split_once) at e) in
      rw (← same) (strip_prefix-some p (c ∷ cs) rest found)
  | inl absent ↦
      let (later, found, same) =
        map-some (λ x. (c ∷ x.0, x.1)) (split_once p cs) r (rw (absent, split_once) at e) in
      rw (← same) (ap (◌∷◌ c) (split_once-some p cs later found))
]

pub After-trimmed :
    (tag text rest : List ℕ) → strip_prefix tag text ≡ some rest → After tag text (trim_start rest)
After-trimmed tag text rest e =
    let b = trim_start-Blank rest in
    record {
      white = b.white;
      whole = strip_prefix-some tag text rest e ∙ ap (◌++◌ tag) b.whole;
      blank = b.blank;
    }

pub skip-Perhaps :
    (tag text : List ℕ) (o : Option (List ℕ))
    → strip_prefix tag text ≡ o
    → Perhaps tag text (skip o text)
unfolding skip
skip-Perhaps tag text none e = inl refl
skip-Perhaps tag text (some rest) e = inr (After-trimmed tag text rest e)

pub skip_first-Perhaps :
    (first second text : List ℕ) (o : Option (List ℕ))
    → strip_prefix first text ≡ o
    → Perhaps first text (skip_first o (strip_prefix second text) text)
      ⊎ Perhaps second text (skip_first o (strip_prefix second text) text)
unfolding skip_first
skip_first-Perhaps first second text none e = inr (skip-Perhaps second text _ refl)
skip_first-Perhaps first second text (some rest) e = inl (inr (After-trimmed first text rest e))
