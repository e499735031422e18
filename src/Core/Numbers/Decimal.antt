-- ===== src/Core/Numbers/Decimal.antt =====
-- core/parse_number.cpp: a number that is written in decimal, with a unit behind it, is split again.
use load_forge.Common.{
  ℕ, zero, suc, ◌+◌, ◌/◌, ◌%◌, ◌^◌, ◌≤◌, ◌<◌, ◌≡◌, refl, sym, ap, ◌∙◌, List, [], ◌∷◌, ◌++◌, true,
  false, ltb, ◌==◌, All, ok, arith, Bool-cases, inl, inr, ltb→lt, subst,
}
use load_forge.Core.Numbers.{
  is_space, trim_front, trim_back, keep_front, trim, is_digit, leading_digits, value_from,
  from_chars, split_trimmed, split_number_and_suffix, digits_before, to_decimal,
}

abbrev pub IsDigit : ℕ → Type 0
IsDigit c = (48 ≤ c) × (c ≤ 57)

-- The digits of a number before others are a number, of at least one digit.
digits_before-IsDigit :
    (fuel n : ℕ) (rest : List ℕ) → All IsDigit rest → All IsDigit (digits_before fuel n rest)
unfolding digits_before
digits_before-IsDigit zero n rest h = h
digits_before-IsDigit (suc fuel) n rest h = elim (Bool-cases (ltb n 10)) [
  | inl one ↦ rw (one, digits_before) ((omega arith, omega (arith, ltb→lt n 10 one)), h)
  | inr more ↦
      rw (more, digits_before)
        (digits_before-IsDigit fuel (n / 10) ((48 + n % 10) ∷ rest) ((omega arith, omega arith), h))
]

value_from-digits_before :
    (fuel n : ℕ) (rest : List ℕ)
    → n < 10 ^ fuel
    → value_from 0 (digits_before fuel n rest) ≡ value_from n rest
unfolding digits_before
value_from-digits_before zero n rest h = ap (λ v. value_from v rest) (omega arith)
value_from-digits_before (suc fuel) n rest h = elim (Bool-cases (ltb n 10)) [
  | inl one ↦
      rw (one, digits_before) (unfold value_from in ap (λ v. value_from v rest) (omega arith))
  | inr more ↦
      rw (more, digits_before)
        (value_from-digits_before fuel (n / 10) ((48 + n % 10) ∷ rest) (omega arith)
          ∙ (unfold value_from in ap (λ v. value_from v rest) (omega arith)))
]

abbrev IsFront : List ℕ → Type 0
IsFront text = (c : ℕ) × (more : List ℕ) × (text ≡ c ∷ more)

digits_before-IsFront : (fuel n x : ℕ) (rest : List ℕ) → IsFront (digits_before fuel n (x ∷ rest))
unfolding digits_before
digits_before-IsFront zero n x rest = (x, rest, refl)
digits_before-IsFront (suc fuel) n x rest = elim (Bool-cases (ltb n 10)) [
  | inl one ↦ rw (one, digits_before) (48 + n, x ∷ rest, refl)
  | inr more ↦
      rw (more, digits_before) (digits_before-IsFront fuel (n / 10) (48 + n % 10) (x ∷ rest))
]

to_decimal-IsFront : (n : ℕ) → IsFront (to_decimal n)
unfolding to_decimal digits_before
to_decimal-IsFront n = elim (Bool-cases (ltb n 10)) [
  | inl one ↦ rw (one, digits_before) (48 + n, [], refl)
  | inr more ↦ rw (more, digits_before) (digits_before-IsFront 19 (n / 10) (48 + n % 10) [])
]

pub to_decimal-IsDigit : (n : ℕ) → All IsDigit (to_decimal n)
unfolding to_decimal
to_decimal-IsDigit n = digits_before-IsDigit 20 n [] tt

pub value_from-to_decimal : (n : ℕ) → n < 2 ^ 64 → value_from 0 (to_decimal n) ≡ n
unfolding to_decimal
value_from-to_decimal n fits =
    value_from-digits_before 20 n [] (omega arith) ∙ (unfold value_from in refl)

is_digit-true : (d : ℕ) → IsDigit d → is_digit d ≡ true
unfolding is_digit
is_digit-true d (low, high) = ground arith

pub leading_digits-append :
    (digits : List ℕ) (c : ℕ) (rest : List ℕ)
    → All IsDigit digits
    → is_digit c ≡ false
    → leading_digits (digits ++ c ∷ rest) ≡ (digits, c ∷ rest)
unfolding leading_digits
leading_digits-append [] c rest h stop = rw (stop, leading_digits) refl
leading_digits-append (d ∷ digits) c rest (d_fits, h) stop =
    rw (is_digit-true d d_fits, leading_digits)
      (ap (λ (l : List ℕ × List ℕ). (d ∷ l.0, l.1)) (leading_digits-append digits c rest h stop))

-- Text that ends without a space is kept.
trim_back-append :
    (xs : List ℕ) (c : ℕ) (ys : List ℕ)
    → trim_back (c ∷ ys) ≡ c ∷ ys
    → trim_back (xs ++ c ∷ ys) ≡ xs ++ c ∷ ys
unfolding trim_back keep_front
trim_back-append [] c ys h = h
trim_back-append (x ∷ []) c ys h = ap (keep_front x) h
trim_back-append (x ∷ y ∷ xs) c ys h = ap (keep_front x) (trim_back-append (y ∷ xs) c ys h)

digit_begins : (d : ℕ) → IsDigit d → (is_space d ≡ false) × ((d == b'-') ≡ false)
unfolding is_space
digit_begins d (low, high) = (ground arith, ground arith)

module _ (d : ℕ) (ds : List ℕ) (c : ℕ) (rest : List ℕ) (digits : All IsDigit (d ∷ ds))
    (stop : is_digit c ≡ false) where
  trim-digits : trim_back (c ∷ rest) ≡ c ∷ rest → trim (d ∷ (ds ++ c ∷ rest)) ≡ d ∷ (ds ++ c ∷ rest)
  unfolding trim trim_front
  trim-digits ends =
      rw ((digit_begins d digits.0).0, trim_front) (trim_back-append (d ∷ ds) c rest ends)

  from_chars-digits :
      value_from 0 (d ∷ ds) < 2 ^ 64
      → from_chars (d ∷ (ds ++ c ∷ rest))
        ≡ ok (record { value = value_from 0 (d ∷ ds); suffix = c ∷ rest })
  unfolding from_chars
  from_chars-digits fits =
      rw (leading_digits-append (d ∷ ds) c rest digits stop, from_chars) (ground arith)

  split-digits :
      trim_back (c ∷ rest) ≡ c ∷ rest
      → value_from 0 (d ∷ ds) < 2 ^ 64
      → split_number_and_suffix (d ∷ (ds ++ c ∷ rest))
        ≡ ok (record { value = value_from 0 (d ∷ ds); suffix = c ∷ rest })
  unfolding split_number_and_suffix split_trimmed
  split-digits ends fits =
      ap split_trimmed (trim-digits ends)
      ∙ rw ((digit_begins d digits.0).1, split_trimmed) (from_chars-digits fits)

-- A uint64_t with a unit behind it, whose first character is no digit and whose last is no space, is
-- split into the two.
pub split-to_decimal :
    (n : ℕ) (c : ℕ) (rest : List ℕ)
    → n < 2 ^ 64
    → is_digit c ≡ false
    → trim_back (c ∷ rest) ≡ c ∷ rest
    → split_number_and_suffix (to_decimal n ++ c ∷ rest)
      ≡ ok (record { value = n; suffix = c ∷ rest })
split-to_decimal n c rest fits stop ends =
    let (d, ds, text) = to_decimal-IsFront n in
    let digits : All IsDigit (d ∷ ds) = subst (All IsDigit) text (to_decimal-IsDigit n) in
    let value : value_from 0 (d ∷ ds) ≡ n =
      ap (value_from 0) (sym text) ∙ value_from-to_decimal n fits in
    ap (λ l. split_number_and_suffix (l ++ c ∷ rest)) text
    ∙ split-digits d ds c rest digits stop ends (omega (arith, value, fits))
    ∙ ap (λ v. ok (record { value = v; suffix = c ∷ rest })) value
