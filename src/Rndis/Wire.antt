-- ===== src/Rndis/Wire.antt =====
-- src/rndis/mod.rs, module `wire`: little-endian words in byte slices.
use galaxybridge.Prelude.{
  ℕ, zero, suc, ◌+◌, ◌-◌, ◌*◌, ◌/◌, ◌%◌, ◌^◌, ◌≤◌, ◌<◌, ◌≡◌, refl, List, [], ◌∷◌, ◌++◌, some, arith,
  Result, ok, message, ◌>>=◌, ok_or, checked_add, get_range, length, get_elem?, take, drop, IsU32,
  sym, ◌∙◌, length-append, ap,
}

-- `u32::from_le_bytes`, of any number of bytes.
unfoldable pub from_le_bytes : List ℕ → ℕ
from_le_bytes [] = 0
from_le_bytes (b ∷ bs) = b + 256 * from_le_bytes bs

-- `u32::to_le_bytes`
unfoldable pub to_le_bytes : ℕ → List ℕ
to_le_bytes v = v % 256 ∷ v / 256 % 256 ∷ v / 65536 % 256 ∷ v / 16777216 % 256 ∷ []

unfoldable pub u32_at : List ℕ → ℕ → Result ℕ
unfolding checked_add get_range from_le_bytes
u32_at bytes offset = do
  end ← ok_or (checked_add offset 4) (message "offset overflow")
  word ← ok_or (get_range bytes offset end) (message "truncated word")
  ok (from_le_bytes word)

unfoldable pub words : List ℕ → List ℕ
unfolding to_le_bytes
words [] = []
words (v ∷ vs) = to_le_bytes v ++ words vs

pub from_le_bytes-to_le_bytes : (v : ℕ) → IsU32 v → from_le_bytes (to_le_bytes v) ≡ v
unfolding from_le_bytes to_le_bytes
from_le_bytes-to_le_bytes v h = omega arith

-- A read inside the slice succeeds; the value is that of the four bytes there.
pub u32_at_inside :
    (bytes : List ℕ) (offset : ℕ)
    → offset + 4 ≤ length bytes
    → offset + 4 < 2 ^ 64
    → u32_at bytes offset ≡ ok (from_le_bytes (take 4 (drop offset bytes)))
unfolding u32_at
u32_at_inside bytes offset h k = let e : offset + 4 - offset ≡ 4 = omega arith in ground (arith, e)

pub u32_at-eq_ok :
    (bytes : List ℕ) (offset v : ℕ)
    → u32_at bytes offset ≡ ok v
    → (offset + 4 ≤ length bytes) × (v ≡ from_le_bytes (take 4 (drop offset bytes)))
unfolding u32_at
u32_at-eq_ok bytes offset v h = let e : offset + 4 - offset ≡ 4 = omega arith in ground (arith, e)

-- The word at place `i` is read back from what `words` wrote.
pub read_word :
    (ws : List ℕ) (rest : List ℕ) (i v : ℕ)
    → get_elem? ws i ≡ some v
    → IsU32 v
    → from_le_bytes (take 4 (drop (4 * i) (words ws ++ rest))) ≡ v
unfolding words
read_word [] rest i v e h = cc
read_word (w ∷ ws) rest zero v e h = ground (arith, from_le_bytes-to_le_bytes w)
read_word (w ∷ ws) rest (suc i) v e h =
    let step : 4 * suc i ≡ suc (suc (suc (suc (4 * i)))) = omega arith in
    rw step (read_word ws rest i v e h)

pub length-words : (ws : List ℕ) → length (words ws) ≡ 4 * length ws
unfolding words
length-words [] = refl
length-words (w ∷ ws) = omega (arith, length-words ws)

get_elem?-lt : (ws : List ℕ) (i v : ℕ) → get_elem? ws i ≡ some v → i < length ws
get_elem?-lt [] i v e = cc
get_elem?-lt (w ∷ ws) zero v e = omega arith
get_elem?-lt (w ∷ ws) (suc i) v e = omega (arith, get_elem?-lt ws i v e)

pub u32_at-words :
    (ws rest : List ℕ) (i v : ℕ)
    → get_elem? ws i ≡ some v
    → IsU32 v
    → 4 * i + 4 < 2 ^ 64
    → u32_at (words ws ++ rest) (4 * i) ≡ ok v
u32_at-words ws rest i v e h k =
    u32_at_inside (words ws ++ rest) (4 * i)
      (omega (arith, length-append (words ws) rest, length-words ws, get_elem?-lt ws i v e)) k
    ∙ ap ok (read_word ws rest i v e h)

take-drop-append :
    (n k : ℕ) (xs ys : List ℕ) → n + k ≤ length xs → take n (drop k (xs ++ ys)) ≡ take n (drop k xs)
take-drop-append zero k xs ys h = refl
take-drop-append (suc n) zero [] ys h = absurd (omega arith)
take-drop-append (suc n) zero (x ∷ xs) ys h =
    ap (◌∷◌ x) (take-drop-append n zero xs ys (omega arith))
take-drop-append (suc n) (suc k) [] ys h = absurd (omega arith)
take-drop-append (suc n) (suc k) (x ∷ xs) ys h = take-drop-append (suc n) k xs ys (omega arith)

-- A word of the front part is a word of the whole.
pub u32_at-append :
    (msg rest : List ℕ) (k v : ℕ)
    → u32_at msg k ≡ ok v
    → k + 4 < 2 ^ 64
    → u32_at (msg ++ rest) k ≡ ok v
u32_at-append msg rest k v e h =
    let (inside, value) = u32_at-eq_ok msg k v e in
    u32_at_inside (msg ++ rest) k (omega (arith, length-append msg rest)) h
    ∙ ap ok (ap from_le_bytes (take-drop-append 4 k msg rest (omega arith)) ∙ sym value)

-- And the other way round, where the front part holds the word.
pub u32_at-front :
    (msg rest : List ℕ) (k v : ℕ)
    → u32_at (msg ++ rest) k ≡ ok v
    → k + 4 ≤ length msg
    → k + 4 < 2 ^ 64
    → u32_at msg k ≡ ok v
u32_at-front msg rest k v e inside h =
    let (_, value) = u32_at-eq_ok (msg ++ rest) k v e in
    u32_at_inside msg k inside h
    ∙ ap ok (sym (value ∙ ap from_le_bytes (take-drop-append 4 k msg rest (omega arith))))
