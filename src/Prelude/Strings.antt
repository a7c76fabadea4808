-- ===== src/Prelude/Strings.antt =====
-- The functions of `str` that the source calls. A text is the list of its characters here, each as
-- its code point.
use Prim.Native.Nat.{ℕ, ◌+◌}
use mathlib.Core.Bool.{Bool, true, false, not, ◌||◌}
use mathlib.Core.List.{List, [], ◌∷◌, map}
use mathlib.Core.Option.{Option, none, some}
use mathlib.Core.Option
use galaxybridge.Prelude.Tests.{◌==◌, ltb, if◌then◌else◌}
use galaxybridge.Prelude.Slices.{within}
use galaxybridge.Prelude.Lists.{filter_by}

-- `char::is_whitespace`
unfoldable pub is_whitespace : ℕ → Bool
is_whitespace c =
    within 9 13 c
    || c == 0x20
    || c == 0x85
    || c == 0xa0
    || c == 0x1680
    || within 0x2000 0x200a c
    || c == 0x2028
    || c == 0x2029
    || c == 0x202f
    || c == 0x205f
    || c == 0x3000

-- `str::len`: the bytes of the UTF-8 encoding.
abbrev pub char_len : ℕ → ℕ
char_len c = if ltb c 0x80 then 1 else if ltb c 0x800 then 2 else if ltb c 0x10000 then 3 else 4

unfoldable pub text_len : List ℕ → ℕ
text_len [] = 0
text_len (c ∷ cs) = char_len c + text_len cs

unfoldable pub is_empty {ℓ} : {A : Type ℓ} → List A → Bool
is_empty [] = true
is_empty (c ∷ cs) = false

unfoldable pub trim_start : List ℕ → List ℕ
trim_start [] = []
trim_start (c ∷ cs) = let rest = trim_start cs in if is_whitespace c then rest else c ∷ cs

-- A character in front of a text of which the white space behind is gone.
unfoldable pub keep : ℕ → List ℕ → List ℕ
keep c [] = if is_whitespace c then [] else c ∷ []
keep c (x ∷ xs) = c ∷ x ∷ xs

unfoldable pub trim_end : List ℕ → List ℕ
unfolding keep
trim_end [] = []
trim_end (c ∷ cs) = keep c (trim_end cs)

unfoldable pub trim : List ℕ → List ℕ
trim text = trim_end (trim_start text)

unfoldable pub strip_prefix : List ℕ → List ℕ → Option (List ℕ)
strip_prefix [] text = some text
strip_prefix (p ∷ ps) [] = none
strip_prefix (p ∷ ps) (c ∷ cs) = let rest = strip_prefix ps cs in if p == c then rest else none

unfoldable pub strip_suffix : ℕ → List ℕ → Option (List ℕ)
strip_suffix p [] = none
strip_suffix p (c ∷ []) = if c == p then some [] else none
strip_suffix p (c ∷ d ∷ cs) = Option.map (◌∷◌ c) (strip_suffix p (d ∷ cs))

-- A character goes to the first piece of a split text.
unfoldable pub push_front : ℕ → List (List ℕ) → List (List ℕ)
push_front c [] = (c ∷ []) ∷ []
push_front c (l ∷ ls) = (c ∷ l) ∷ ls

-- `split_inclusive('\n')`
unfoldable pub split_inclusive : List ℕ → List (List ℕ)
unfolding push_front
split_inclusive [] = []
split_inclusive (c ∷ cs) =
    let rest = split_inclusive cs in if c == 10 then (10 ∷ []) ∷ rest else push_front c rest

unfoldable pub end_line : List ℕ → List ℕ
unfolding strip_suffix
end_line line = elim (strip_suffix 10 line) [
  | none ↦ line
  | some line' ↦ elim (strip_suffix 13 line') [ none ↦ line' | some line'' ↦ line'' ]
]

-- `str::lines`
unfoldable pub lines : List ℕ → List (List ℕ)
unfolding split_inclusive end_line
lines text = map end_line (split_inclusive text)

-- `str::split`, on the characters that pass the test.
unfoldable pub split : (ℕ → Bool) → List ℕ → List (List ℕ)
unfolding push_front
split p [] = [] ∷ []
split p (c ∷ cs) = let rest = split p cs in if p c then [] ∷ rest else push_front c rest

unfoldable pub split_whitespace : List ℕ → List (List ℕ)
unfolding split is_empty is_whitespace
split_whitespace text = filter_by (λ l. not (is_empty l)) (split is_whitespace text)

-- `str::split_once`: what is before the first occurrence of the pattern, and what is after it.
unfoldable pub split_once : List ℕ → List ℕ → Option (List ℕ × List ℕ)
unfolding strip_prefix
split_once pattern' [] = Option.map (λ rest. ([], rest)) (strip_prefix pattern' [])
split_once pattern' (c ∷ cs) =
    let later = Option.map (λ r. (c ∷ r.0, r.1)) (split_once pattern' cs) in
    elim (strip_prefix pattern' (c ∷ cs)) [ some rest ↦ some ([], rest) | none ↦ later ]
