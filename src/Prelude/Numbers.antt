-- ===== src/Prelude/Numbers.antt =====
-- `parse` of numbers and IPv4 addresses, and their decimal texts, as the standard library defines them.
use Prim.Native.Nat.{ℕ, zero, suc, ◌+◌, ◌-◌, ◌*◌, ◌/◌, ◌%◌}
use mathlib.Core.Bool.{◌&&◌, ◌||◌}
use mathlib.Core.List.{List, [], ◌∷◌}
use mathlib.Core.Option.{Option, none, some}
use galaxybridge.Prelude.Tests.{◌==◌, ltb, if◌then◌else◌}
use galaxybridge.Prelude.Lists.{length, all}
use galaxybridge.Prelude.Text.{is_digit}
use galaxybridge.Prelude.Strings.{split}

unfoldable pub digits_value : ℕ → List ℕ → ℕ
digits_value acc [] = acc
digits_value acc (c ∷ cs) = digits_value (acc * 10 + (c - 48)) cs

-- One digit at least, and a value below the bound.
unfoldable pub parse_digits : ℕ → List ℕ → Option ℕ
unfolding digits_value
parse_digits bound [] = none
parse_digits bound (c ∷ cs) =
    if all is_digit (c ∷ cs) && ltb (digits_value 0 (c ∷ cs)) bound
    then some (digits_value 0 (c ∷ cs))
    else none

-- `parse::<u32>` and `parse::<u64>`, for the bounds 2 ^ 32 and 2 ^ 64: a plus sign may stand in front.
unfoldable pub parse_unsigned : ℕ → List ℕ → Option ℕ
unfolding parse_digits
parse_unsigned bound [] = none
parse_unsigned bound (c ∷ cs) =
    if c == 43 then parse_digits bound cs else parse_digits bound (c ∷ cs)

-- A number of one to three digits below 256, with no zero in front of other digits.
unfoldable pub parse_octet : List ℕ → Option ℕ
unfolding parse_digits
parse_octet [] = none
parse_octet (c ∷ []) = parse_digits 256 (c ∷ [])
parse_octet (c ∷ d ∷ cs) =
    if c == 48 || ltb 1 (length cs) then none else parse_digits 256 (c ∷ d ∷ cs)

unfoldable pub join_octets : Option ℕ → Option ℕ → Option ℕ → Option ℕ → Option ℕ
join_octets (some a) (some b) (some c) (some d) = some (((a * 256 + b) * 256 + c) * 256 + d)
join_octets _ _ _ _ = none

unfoldable pub join_pieces : List (List ℕ) → Option ℕ
unfolding join_octets parse_octet
join_pieces (a ∷ b ∷ c ∷ d ∷ []) =
    join_octets (parse_octet a) (parse_octet b) (parse_octet c) (parse_octet d)
join_pieces _ = none

-- `parse::<Ipv4Addr>`, as the 32-bit number.
unfoldable pub parse_ipv4 : List ℕ → Option ℕ
unfolding join_pieces split
parse_ipv4 text = join_pieces (split (λ c. c == 46) text)

-- `to_string`, on fuel for the digits.
unfoldable pub to_digits : ℕ → ℕ → List ℕ → List ℕ
to_digits zero n out = out
to_digits (suc fuel) n out =
    let rest = to_digits fuel (n / 10) ((48 + n % 10) ∷ out) in
    if ltb n 10 then (48 + n) ∷ out else rest

-- Twenty digits are enough for 64 bits.
unfoldable pub to_decimal : ℕ → List ℕ
unfolding to_digits
to_decimal n = to_digits 20 n []
