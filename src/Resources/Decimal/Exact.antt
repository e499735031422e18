-- ===== src/Resources/Decimal/Exact.antt =====
-- resources/decimal.cpp: the reader of decimals against the plain definition of what they stand for.
use load_forge.Common.{
  ℕ, ◌+◌, ◌-◌, ◌*◌, ◌^◌, ◌≤◌, ◌<◌, ◌≡◌, refl, List, [], ◌∷◌, Bool, true, ◌&&◌, ltb, if◌then◌else◌,
  Option, none, some, arith,
}
use load_forge.Core.Numbers.{value_from, is_digit}
use load_forge.Resources.Decimal.{decimal_from, parse_decimal}

abbrev pub all_digits : List ℕ → Bool
all_digits [] = true
all_digits (c ∷ text) = is_digit c && all_digits text

grown : (text : List ℕ) (value : ℕ) → value ≤ value_from value text
unfolding value_from
grown [] value = omega arith
grown (c ∷ text) value = omega (arith, grown text (value * 10 + (c - b'0')))

-- The plain definition: digits alone, and a value of 64 bits.
abbrev pub decimal : ℕ → List ℕ → Option ℕ
decimal value text =
    if all_digits text && ltb (value_from value text) (2 ^ 64)
    then some (value_from value text)
    else none

decimal_from-decimal :
    (text : List ℕ) (value : ℕ) → value < 2 ^ 64 → decimal_from value text ≡ decimal value text
unfolding decimal_from value_from is_digit
decimal_from-decimal [] value fits = ground (arith, fits)
decimal_from-decimal (c ∷ text) value fits = ground (
  arith,
  decimal_from-decimal text (value * 10 + (c - b'0')),
  grown text (value * 10 + (c - b'0')),
)

abbrev pub plain_decimal : List ℕ → Option ℕ
plain_decimal [] = none
plain_decimal (c ∷ text) = decimal 0 (c ∷ text)

-- A decimal is read exactly when it is one digit or more and nothing else and what the digits stand for, however many
-- they are, is a value of 64 bits; and then that is what is read.
pub parse_decimal-plain_decimal : (text : List ℕ) → parse_decimal text ≡ plain_decimal text
unfolding parse_decimal
parse_decimal-plain_decimal [] = refl
parse_decimal-plain_decimal (c ∷ text) = decimal_from-decimal (c ∷ text) 0 (omega arith)
