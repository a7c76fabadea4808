-- ===== src/Macos/Access.antt =====
-- src/macos/access.rs, `Descriptors::ceiling`: the bound below which all descriptors of the supervisor lie.
-- The limit of the process and the entries of /dev/fd are parameters.
use Prim.Native.Nat.{max}
use galaxybridge.Prelude.{
  ℕ, ◌+◌, ◌^◌, ◌≤◌, ◌<◌, ◌≡◌, List, [], ◌∷◌, Option, none, some, Result, ok, message, ◌>>=◌, ◌>>◌,
  refuse, ok_or, ltb, checked_add, parse_unsigned, bind-ok, refuse-ok, ok-injective, arith,
}

-- An entry whose name is a number raises the ceiling above it.
unfoldable pub raise : ℕ → Option ℕ → Result ℕ
raise ceiling none = ok ceiling
raise ceiling (some number) = do
  above ← ok_or (checked_add number 1) (message "descriptor limit overflow")
  ok (max ceiling above)

-- The number that an entry's name is; a name that is no UTF-8 has no text.
unfoldable pub number_of : Option (List ℕ) → Option ℕ
number_of none = none
number_of (some name) = parse_unsigned (2 ^ 64) name

unfoldable pub raise_all : ℕ → List (Result (Option (List ℕ))) → Result ℕ
unfolding raise number_of
raise_all ceiling [] = ok ceiling
raise_all ceiling (entry ∷ entries) = do
  name ← entry
  ceiling' ← raise ceiling (number_of name)
  raise_all ceiling' entries

-- `Descriptors::ceiling`
unfoldable pub ceiling : Result ℕ → Result (List (Result (Option (List ℕ)))) → Result ℕ
unfolding raise_all
ceiling limit directory = do
  rlim_cur ← limit
  entries ← directory
  bound ← raise_all (max rlim_cur 4) entries
  refuse (ltb 1_048_576 bound) (message "descriptor table exceeds the bounded worker exec policy")
  ok bound

abbrev IsBelow : ℕ → Option ℕ → Type 0
IsBelow bound none = Unit
IsBelow bound (some number) = number < bound

-- Every entry was read, and its number, if its name is one, is below the bound.
abbrev pub Covered : ℕ → List (Result (Option (List ℕ))) → Type 0
Covered bound [] = Unit
Covered bound (entry ∷ entries) =
    ((name : Option (List ℕ)) × (entry ≡ ok name) × IsBelow bound (number_of name))
    × Covered bound entries

raise_least :
    (least bound : ℕ) (number : Option ℕ)
    → raise least number ≡ ok bound
    → (least ≤ bound) × IsBelow bound number
unfolding raise checked_add
raise_least least bound none e =
    let same : least ≡ bound = ok-injective e in (omega (arith, same), tt)
raise_least least bound (some number) e =
    let (above, found, f) = bind-ok (ok_or (checked_add number 1) _) _ bound e in
    let next : above ≡ number + 1 = ground (arith, found) in
    let same : max least above ≡ bound = ok-injective f in
    (omega (arith, same), omega (arith, same, next))

IsBelow-le : (b b' : ℕ) (number : Option ℕ) → b ≤ b' → IsBelow b number → IsBelow b' number
IsBelow-le b b' none le h = tt
IsBelow-le b b' (some number) le h = omega (arith, le, h)

raise_all-Covered :
    (least bound : ℕ) (entries : List (Result (Option (List ℕ))))
    → raise_all least entries ≡ ok bound
    → (least ≤ bound) × Covered bound entries
unfolding raise_all
raise_all-Covered least bound [] e =
    let same : least ≡ bound = ok-injective e in (omega (arith, same), tt)
raise_all-Covered least bound (entry ∷ entries) e =
    let (name, read, f1) = bind-ok entry _ bound e in
    let (next, raised, f2) = bind-ok (raise least (number_of name)) _ bound f1 in
    let (le, below) = raise_least least next (number_of name) raised in
    let (le', covered) = raise_all-Covered next bound entries f2 in
    (
      omega (arith, le, le'),
      ((name, read, IsBelow-le next bound (number_of name) le' below), covered),
    )

-- For the limit of the process and the entries of the directory of open descriptors: a ceiling that
-- `Descriptors::ceiling` returns is from 4 to 1048576 and not below the limit, every entry was
-- read, and each entry whose name is a number is below the ceiling.
pub ceiling-Covered :
    (limit : ℕ) (entries : List (Result (Option (List ℕ)))) (bound : ℕ)
    → ceiling (ok limit) (ok entries) ≡ ok bound
    → (4 ≤ bound) × (bound ≤ 1_048_576) × (limit ≤ bound) × Covered bound entries
unfolding ceiling
ceiling-Covered limit entries bound e =
    let (found, raised, f1) = bind-ok (raise_all (max limit 4) entries) _ bound e in
    let (small, f2) = refuse-ok (ltb 1_048_576 found) _ _ bound f1 in
    let same : found ≡ bound = ok-injective f2 in
    let (le, covered) = raise_all-Covered (max limit 4) found entries raised in
    (
      omega (arith, le, same),
      ground (arith, small, same),
      omega (arith, le, same),
      rw (← same) covered,
    )
