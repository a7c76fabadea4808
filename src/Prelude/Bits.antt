-- ===== src/Prelude/Bits.antt =====
-- Masks on one byte as arithmetic; each is a table of 256 entries, checked by evaluation.
use Prim.Native.Nat.{ℕ, zero, suc, ◌*◌, ◌/◌, ◌%◌, ◌<◌, bit_and}
use mathlib.Core.Path.{◌≡◌, refl}
use mathlib.Core.Bool.{Bool, true, ◌&&◌}
use native.Mathlib.Omega.{arith}
use galaxybridge.Prelude.Tests.{◌==◌}

agree : (ℕ → ℕ) → (ℕ → ℕ) → ℕ → Bool
agree f g zero = true
agree f g (suc n) = f n == g n && agree f g n

agree_lem : (f g : ℕ → ℕ) (n : ℕ) → agree f g n ≡ true → (x : ℕ) → x < n → f x ≡ g x
unfolding agree
agree_lem f g zero e x h = absurd (omega arith)
agree_lem f g (suc n) e x h = ground (arith, agree_lem f g n (ground arith) x)

pub bit_and-0x01 : (b : ℕ) → b < 256 → bit_and b 0x01 ≡ b % 2
unfolding agree
bit_and-0x01 = agree_lem _ _ 256 refl

pub bit_and-0x0f : (b : ℕ) → b < 256 → bit_and b 0x0f ≡ b % 16
unfolding agree
bit_and-0x0f = agree_lem _ _ 256 refl

pub bit_and-0x70 : (b : ℕ) → b < 256 → bit_and b 0x70 ≡ b / 16 % 8 * 16
unfolding agree
bit_and-0x70 = agree_lem _ _ 256 refl

pub bit_and-0x80 : (b : ℕ) → b < 256 → bit_and b 0x80 ≡ b / 128 * 128
unfolding agree
bit_and-0x80 = agree_lem _ _ 256 refl
