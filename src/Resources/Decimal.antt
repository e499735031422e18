-- ===== src/Resources/Decimal.antt =====
-- resources/decimal.cpp, and the cutting of texts that the readers of src/resources share.
pub mod Exact
use load_forge.Common.{
  ℕ, suc, ◌+◌, ◌-◌, ◌*◌, ◌/◌, ◌^◌, List, [], ◌∷◌, Bool, true, false, ◌||◌, ltb, ◌==◌, if◌then◌else◌,
  Option, none, some,
}

abbrev pub uint64_max : ℕ
uint64_max = 2 ^ 64 - 1

unfoldable pub decimal_from : (value : ℕ) → List ℕ → Option ℕ
decimal_from value [] = some value
decimal_from value (c ∷ text) =
    let digit = c - b'0' in
    let rest = decimal_from (value * 10 + digit) text in
    if ltb c b'0' || ltb b'9' c
    then none
    else if ltb ((uint64_max - digit) / 10) value
    then none
    else rest

unfoldable pub parse_decimal : List ℕ → Option ℕ
parse_decimal [] = none
parse_decimal (c ∷ text) = decimal_from 0 (c ∷ text)

-- `starts_with`, and what is behind the prefix.
unfoldable pub after_prefix : List ℕ → List ℕ → Option (List ℕ)
after_prefix [] text = some text
after_prefix (p ∷ prefix) [] = none
after_prefix (p ∷ prefix) (c ∷ text) =
    let rest = after_prefix prefix text in if p == c then rest else none

unfoldable pub add_front : ℕ → List (List ℕ) → List (List ℕ)
add_front c [] = (c ∷ []) ∷ []
add_front c (field ∷ fields) = (c ∷ field) ∷ fields

-- The parts of a text between the places of a character, found one after the other.
unfoldable pub split_on : ℕ → List ℕ → List (List ℕ)
split_on separator [] = [] ∷ []
split_on separator (c ∷ text) =
    let rest = split_on separator text in if c == separator then [] ∷ rest else add_front c rest
