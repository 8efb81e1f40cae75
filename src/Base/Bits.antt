-- ===== src/Base/Bits.antt =====
-- `|` of a number of zero low bits and a smaller one is their sum.
use Prim.Native.Nat.{
  ℕ, zero, suc, ◌+◌, ◌*◌, ◌/◌, ◌%◌, ◌≤◌, ◌<◌, max, bit_or, digits, bit_or-bitwise,
}
use mathlib.Core.Path.{◌≡◌, refl}
use native.Mathlib.Omega.{arith}

or_digits : ℕ → ℕ → ℕ → ℕ
or_digits n a b = digits (λ b. b) max n a b

or_digits_fuel : (n m a b : ℕ) → a ≤ n → a ≤ m → or_digits n a b ≡ or_digits m a b
unfolding or_digits
or_digits_fuel zero zero a b p q = refl
or_digits_fuel zero (suc m) zero b p q = refl
or_digits_fuel zero (suc m) (suc a) b p q = absurd (omega arith)
or_digits_fuel (suc n) zero zero b p q = refl
or_digits_fuel (suc n) zero (suc a) b p q = absurd (omega arith)
or_digits_fuel (suc n) (suc m) zero b p q = refl
or_digits_fuel (suc n) (suc m) (suc a) b p q =
    omega (arith, or_digits_fuel n m (suc a / 2) (b / 2) (omega arith) (omega arith))

zero-bit_or : (b : ℕ) → bit_or 0 b ≡ b
zero-bit_or b = bit_or-bitwise 0 b

bit_or_step : (a b : ℕ) → bit_or a b ≡ bit_or (a / 2) (b / 2) * 2 + max (a % 2) (b % 2)
unfolding or_digits
bit_or_step zero b = omega (arith, zero-bit_or b, zero-bit_or (b / 2))
bit_or_step (suc a) b = omega (
  arith,
  bit_or-bitwise (suc a) b,
  bit_or-bitwise (suc a / 2) (b / 2),
  or_digits_fuel a (suc a / 2) (suc a / 2) (b / 2) (omega arith) (omega arith),
)

bit_or-zero_fuel : (n a b : ℕ) → a ≤ n → b ≡ 0 → bit_or a b ≡ a
bit_or-zero_fuel n zero b h e = omega (arith, zero-bit_or b)
bit_or-zero_fuel zero (suc a) b h e = absurd (omega arith)
bit_or-zero_fuel (suc n) (suc a) b h e = omega (
  arith,
  bit_or_step (suc a) b,
  bit_or-zero_fuel n (suc a / 2) (b / 2) (omega arith) (omega arith),
)

-- An even number takes the other's lowest bit.
bit_or_even : (a half b : ℕ) → a ≡ half * 2 → bit_or a b ≡ bit_or half (b / 2) * 2 + b % 2
bit_or_even a half b e =
    let e' : a / 2 ≡ half = omega arith in rw (← e') (omega (arith, bit_or_step a b))

pub bit_or_byte : (hi lo : ℕ) → lo < 256 → bit_or (hi * 256) lo ≡ hi * 256 + lo
bit_or_byte hi lo h = omega (
  arith,
  bit_or_even (hi * 256) (hi * 128) lo (omega arith),
  bit_or_even (hi * 128) (hi * 64) (lo / 2) (omega arith),
  bit_or_even (hi * 64) (hi * 32) (lo / 2 / 2) (omega arith),
  bit_or_even (hi * 32) (hi * 16) (lo / 2 / 2 / 2) (omega arith),
  bit_or_even (hi * 16) (hi * 8) (lo / 2 / 2 / 2 / 2) (omega arith),
  bit_or_even (hi * 8) (hi * 4) (lo / 2 / 2 / 2 / 2 / 2) (omega arith),
  bit_or_even (hi * 4) (hi * 2) (lo / 2 / 2 / 2 / 2 / 2 / 2) (omega arith),
  bit_or_even (hi * 2) hi (lo / 2 / 2 / 2 / 2 / 2 / 2 / 2) (omega arith),
  bit_or-zero_fuel hi hi (lo / 2 / 2 / 2 / 2 / 2 / 2 / 2 / 2) (omega arith) (omega arith),
)
