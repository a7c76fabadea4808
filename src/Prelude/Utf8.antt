-- ===== src/Prelude/Utf8.antt =====
-- `std::str::from_utf8`: the characters of well-formed UTF-8.
use Prim.Native.Nat.{ℕ, ◌+◌, ◌-◌, ◌*◌, ◌<◌}
use mathlib.Core.Path.{◌≡◌, refl}
use mathlib.Core.Bool.{not}
use mathlib.Core.List.{List, [], ◌∷◌}
use mathlib.Core.Option.{Option, none, some}
use mathlib.Core.Option
use native.Mathlib.Omega.{arith}
use galaxybridge.Prelude.Tests.{◌==◌, ltb, if◌then◌else◌}
use galaxybridge.Prelude.Lists.{All}
use galaxybridge.Prelude.Slices.{within}

-- Within a character `missing` bytes are to come, of which the next is from `low` to `high`, and
-- `value` is what was read of it.
pub record Pending : Type 0 where
  pub missing : ℕ
  pub value : ℕ
  pub low : ℕ
  pub high : ℕ

-- The first byte of a character of more than one byte.
unfoldable pub lead : ℕ → Option Pending
lead b =
    if within 0xc2 0xdf b
    then some (record { missing = 1; value = b - 0xc0; low = 0x80; high = 0xbf })
    else if b == 0xe0
    then some (record { missing = 2; value = 0; low = 0xa0; high = 0xbf })
    else if b == 0xed
    then some (record { missing = 2; value = 13; low = 0x80; high = 0x9f })
    else if within 0xe1 0xef b
    then some (record { missing = 2; value = b - 0xe0; low = 0x80; high = 0xbf })
    else if b == 0xf0
    then some (record { missing = 3; value = 0; low = 0x90; high = 0xbf })
    else if b == 0xf4
    then some (record { missing = 3; value = 4; low = 0x80; high = 0x8f })
    else if within 0xf1 0xf3 b
    then some (record { missing = 3; value = b - 0xf0; low = 0x80; high = 0xbf })
    else none

-- One byte: the character that it completes, and what is pending behind it. Between characters
-- nothing is pending.
unfoldable pub take_byte : Option Pending → ℕ → Option (Option ℕ × Option Pending)
unfolding lead
take_byte none b =
    if ltb b 0x80 then some (some b, none) else Option.map (λ p. (none, some p)) (lead b)
take_byte (some p) b =
    let value = p.value * 64 + (b - 0x80) in
    if not (within p.low p.high b)
    then none
    else if ltb p.missing 2
    then some (some value, none)
    else some
        (none, some (record { missing = p.missing - 1; value = value; low = 0x80; high = 0xbf }))

unfoldable pub emit : Option ℕ → List ℕ → List ℕ
emit none cs = cs
emit (some c) cs = c ∷ cs

unfoldable pub decode_utf8 : Option Pending → List ℕ → Option (List ℕ)
unfolding take_byte emit
decode_utf8 none [] = some []
decode_utf8 (some p) [] = none
decode_utf8 pending (b ∷ bs) = elim (take_byte pending b) [
  | none ↦ none
  | some (c, pending') ↦ Option.map (emit c) (decode_utf8 pending' bs)
]

unfoldable pub from_utf8 : List ℕ → Option (List ℕ)
unfolding decode_utf8
from_utf8 bytes = decode_utf8 none bytes

-- ASCII bytes are their own characters.
pub from_utf8_ascii : (bytes : List ℕ) → All (λ b. b < 128) bytes → from_utf8 bytes ≡ some bytes
unfolding from_utf8
from_utf8_ascii [] h = refl
from_utf8_ascii (b ∷ bs) (lt, h) = ground (arith, from_utf8_ascii bs h)
