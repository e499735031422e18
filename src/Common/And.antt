-- ===== src/Common/And.antt =====
-- `&` with a low mask of ones is a remainder.
use Prim.Native.Nat.{ℕ, zero, suc, ◌+◌, ◌*◌, ◌/◌, ◌%◌, min, digits, bit_and, bit_and-bitwise}
use mathlib.Core.Path.{◌≡◌, refl, ◌∙◌}
use native.Mathlib.Omega.{arith}
use load_forge.Common.Digits.{lowest_digit}

and_lowest : (x y : ℕ) → min (x % 2) (y % 2) + 2 * bit_and (x / 2) (y / 2) ≡ bit_and x y
and_lowest zero b = omega (arith, bit_and-bitwise 0 b, bit_and-bitwise 0 (b / 2))
and_lowest (suc a) b = omega (
  arith,
  lowest_digit (λ y. 0) min a b,
  bit_and-bitwise (suc a) b,
  bit_and-bitwise (suc a / 2) (b / 2),
)

no_digits : (budget a : ℕ) → digits (λ y. 0) min budget a 0 ≡ 0
no_digits zero zero = refl
no_digits zero (suc a) = refl
no_digits (suc budget) zero = refl
no_digits (suc budget) (suc a) = omega (arith, no_digits budget (suc a / 2))

and_nothing : (a : ℕ) → bit_and a 0 ≡ 0
and_nothing a = bit_and-bitwise a 0 ∙ no_digits a a

pub low_bit : (a : ℕ) → bit_and a 1 ≡ a % 2
low_bit a = omega (arith, and_lowest a 1, and_nothing (a / 2))

low_nibble : (a : ℕ) → bit_and a 15 ≡ a % 16
low_nibble a = omega (
  arith,
  and_lowest a 15,
  and_lowest (a / 2) 7,
  and_lowest (a / 2 / 2) 3,
  low_bit (a / 2 / 2 / 2),
)

pub low_byte : (a : ℕ) → bit_and a 0xFF ≡ a % 256
low_byte a = omega (
  arith,
  and_lowest a 255,
  and_lowest (a / 2) 127,
  and_lowest (a / 2 / 2) 63,
  and_lowest (a / 2 / 2 / 2) 31,
  low_nibble (a / 2 / 2 / 2 / 2),
)
