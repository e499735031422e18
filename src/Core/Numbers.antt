-- ===== src/Core/Numbers.antt =====
-- core/parse_number.cpp: a value split into its number and its unit, with the decimal numbers that
-- std::from_chars reads and std::to_string writes.
pub mod Decimal
use load_forge.Common.{
  ℕ, zero, suc, ◌+◌, ◌-◌, ◌*◌, ◌/◌, ◌%◌, ◌^◌, List, [], ◌∷◌, ◌++◌, length, Bool, true, false, ◌&&◌,
  ◌||◌, not, ltb, leb, ◌==◌, if◌then◌else◌, Outcome, ok, err,
}

pub data ParseError : Type 0 where
  empty invalid_number missing_unit unknown_unit negative_value out_of_range : ParseError

pub record NumberAndSuffix : Type 0 where
  pub value : ℕ
  pub suffix : List ℕ

unfoldable pub is_space : ℕ → Bool
is_space c = (c == b' ') || (c == b'\t')

unfoldable pub trim_front : List ℕ → List ℕ
trim_front [] = []
trim_front (c ∷ text) = if is_space c then trim_front text else c ∷ text

unfoldable pub keep_front : ℕ → List ℕ → List ℕ
keep_front c [] = if is_space c then [] else c ∷ []
keep_front c (d ∷ text) = c ∷ d ∷ text

unfoldable pub trim_back : List ℕ → List ℕ
trim_back [] = []
trim_back (c ∷ text) = keep_front c (trim_back text)

unfoldable pub trim : List ℕ → List ℕ
trim text = trim_back (trim_front text)

unfoldable pub is_digit : ℕ → Bool
is_digit c = leb b'0' c && leb c b'9'

-- The digits that a text begins with, and what stands behind them.
unfoldable pub leading_digits : List ℕ → List ℕ × List ℕ
leading_digits [] = ([], [])
leading_digits (c ∷ text) =
    let (digits, rest) = leading_digits text in
    if is_digit c then (c ∷ digits, rest) else ([], c ∷ text)

unfoldable pub value_from : ℕ → List ℕ → ℕ
value_from value [] = value
value_from value (digit ∷ digits) = value_from (value * 10 + (digit - b'0')) digits

-- `std::from_chars` of a uint64_t, with the text that it stopped at.
unfoldable pub from_chars : List ℕ → Outcome NumberAndSuffix ParseError
from_chars text =
    let (digits, rest) = leading_digits text in
    if length digits == 0
    then err invalid_number
    else if leb (2 ^ 64) (value_from 0 digits)
    then err out_of_range
    else ok (record { value = value_from 0 digits; suffix = rest })

unfoldable pub split_trimmed : List ℕ → Outcome NumberAndSuffix ParseError
split_trimmed [] = err empty
split_trimmed (c ∷ text) = if c == b'-' then err negative_value else from_chars (c ∷ text)

unfoldable pub split_number_and_suffix : List ℕ → Outcome NumberAndSuffix ParseError
split_number_and_suffix text = split_trimmed (trim text)

-- `std::to_string`: the digits of a number before `rest`, on fuel for as many digits.
unfoldable pub digits_before : ℕ → ℕ → List ℕ → List ℕ
digits_before zero n rest = rest
digits_before (suc fuel) n rest = elim (ltb n 10) [
  | true ↦ (b'0' + n) ∷ rest
  | false ↦ digits_before fuel (n / 10) ((b'0' + n % 10) ∷ rest)
]

-- A uint64_t has twenty digits at most.
unfoldable pub to_decimal : ℕ → List ℕ
to_decimal n = digits_before 20 n []

-- `==` of two texts.
unfoldable pub is_text : List ℕ → List ℕ → Bool
is_text [] [] = true
is_text [] (d ∷ ds) = false
is_text (c ∷ cs) [] = false
is_text (c ∷ cs) (d ∷ ds) = (c == d) && is_text cs ds
