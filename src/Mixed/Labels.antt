-- ===== src/Mixed/Labels.antt =====
-- workloads/mixed/schedule.cpp: `bounded`, and the labels of steps, which hold the number of the step.
use load_forge.Common.{
  ℕ, zero, suc, ◌+◌, ◌-◌, ◌/◌, ◌%◌, ◌^◌, ◌≤◌, ◌<◌, ◌≡◌, refl, sym, ap, subst, ◌∙◌, List, [], ◌∷◌,
  ◌++◌, length, length-append, take, take_all, drop, true, false, ltb, Bool-cases, inl, inr, ltb→le,
  length-take, arith,
}
use load_forge.Journal.Format.{max_label_bytes}
use load_forge.Core.Numbers.{leading_digits, value_from, digits_before, to_decimal, is_digit}
use load_forge.Core.Numbers.Decimal.{
  to_decimal-IsDigit, value_from-to_decimal, leading_digits-append,
}
use load_forge.Telemetry.Sample.{same_name}

unfoldable pub bounded : List ℕ → List ℕ
bounded label = take max_label_bytes label

-- The label of step `number`: a letter, the number, a space and a name.
unfoldable pub label : (letter number : ℕ) → (name : List ℕ) → List ℕ
unfolding bounded
label letter number name = bounded (letter ∷ (to_decimal number ++ b' ' ∷ name))

fewer_digits_k : (k n : ℕ) → n < 10 ^ suc k → 10 ≤ n → 1 ≤ k
fewer_digits_k zero n small big = absurd (omega (arith, small, big))
fewer_digits_k (suc k) n small big = omega arith

fewer_digits : (k n : ℕ) → n < 10 ^ suc k → 10 ≤ n → n / 10 < 10 ^ suc (k - 1)
fewer_digits zero n small big = absurd (omega (arith, small, big))
fewer_digits (suc k) n small big =
    let less : n / 10 < 10 ^ suc k = omega (arith, small) in
    subst (λ (m : ℕ). n / 10 < 10 ^ suc m) (omega arith) less

digits_before-length :
    (fuel k n : ℕ) (rest : List ℕ)
    → n < 10 ^ suc k
    → length (digits_before fuel n rest) ≤ suc k + length rest
unfolding digits_before
digits_before-length zero k n rest small = omega arith
digits_before-length (suc fuel) k n rest small = elim (Bool-cases (ltb n 10)) [
  | inl one ↦ rw (one, digits_before) (omega arith)
  | inr more ↦
      let fewer : n / 10 < 10 ^ suc (k - 1) = fewer_digits k n small (ltb→le n 10 more) in
      rw (more, digits_before)
        (omega (
          arith,
          digits_before-length fuel (k - 1) (n / 10) ((b'0' + n % 10) ∷ rest) fewer,
          fewer_digits_k k n small (ltb→le n 10 more),
        ))
]

pub to_decimal-length : (k n : ℕ) → n < 10 ^ suc k → length (to_decimal n) ≤ suc k
unfolding to_decimal
to_decimal-length k n small = omega (arith, digits_before-length 20 k n [] small)

pub bounded-length : (text : List ℕ) → length (bounded text) ≤ max_label_bytes
unfolding bounded
bounded-length text = omega (arith, length-take max_label_bytes text)

-- What a label is numbered.
abbrev number_in : List ℕ → ℕ
number_in text = value_from 0 (leading_digits (drop 1 text)).0

pub number_in-label :
    (letter number : ℕ) (name : List ℕ)
    → number < 10 ^ 6
    → length name ≤ 50
    → number_in (label letter number name) ≡ number
unfolding label bounded
number_in-label letter number name small short =
    ap number_in (
      take_all max_label_bytes (letter ∷ (to_decimal number ++ b' ' ∷ name)) (
        omega (
          arith,
          length-append (to_decimal number) (b' ' ∷ name),
          to_decimal-length 5 number small,
          short,
        )))
    ∙ ap (λ (l : List ℕ × List ℕ). value_from 0 l.0)
        (leading_digits-append (to_decimal number) b' ' name (to_decimal-IsDigit number)
          (unfold is_digit in refl))
    ∙ value_from-to_decimal number (omega (arith, small))

same_name-eq : (a b : List ℕ) → same_name a b ≡ true → a ≡ b
unfolding same_name
same_name-eq [] [] e = refl
same_name-eq [] (y ∷ b) e = cc
same_name-eq (x ∷ a) [] e = cc
same_name-eq (x ∷ a) (y ∷ b) e = ground (arith, same_name-eq a b)

-- Labels with different numbers are different.
pub label_differs :
    (letter i j : ℕ) (one other : List ℕ)
    → i < 10 ^ 6
    → j < i
    → length one ≤ 50
    → length other ≤ 50
    → same_name (label letter i one) (label letter j other) ≡ false
label_differs letter i j one other small before short_one short_other =
    elim (Bool-cases (same_name (label letter i one) (label letter j other))) [
      | inl same ↦ absurd (
          omega (
            arith,
            before,
            sym (number_in-label letter i one small short_one)
                ∙ ap number_in (same_name-eq (label letter i one) (label letter j other) same)
                ∙ number_in-label letter j other (omega (arith, small, before)) short_other,
          ))
      | inr differ ↦ differ
    ]
