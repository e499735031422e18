-- ===== src/Common/Digits.antt =====
-- The native bit operations are one recursion on binary digits with a budget. What the budget is does
-- not matter once it covers the left operand, which gives one equation for the lowest digit.
use Prim.Native.Nat.{ℕ, zero, suc, ◌+◌, ◌-◌, ◌*◌, ◌/◌, ◌%◌, ◌≤◌, digits}
use mathlib.Core.Path.{◌≡◌, refl, ap, ◌∙◌}
use native.Mathlib.Omega.{arith}

module _ (past : ℕ → ℕ) (combine : ℕ → ℕ → ℕ) where
  abbrev spend : ℕ → ℕ → ℕ → ℕ
  spend budget a b = digits past combine budget a b

  one_more : (budget a b : ℕ) → a ≤ budget → spend (suc budget) a b ≡ spend budget a b
  one_more zero zero b covered = refl
  one_more (suc budget) zero b covered = refl
  one_more zero (suc a) b covered = absurd (omega arith)
  one_more (suc budget) (suc a) b covered =
      omega (arith, one_more budget (suc a / 2) (b / 2) (omega arith))

  surplus : (extra a b : ℕ) → spend (a + extra) a b ≡ spend a a b
  surplus zero a b = ap (λ (budget : ℕ). spend budget a b) (omega arith)
  surplus (suc extra) a b =
      let grown : a + suc extra ≡ suc (a + extra) = omega arith in
      ap (λ (budget : ℕ). spend budget a b) grown
      ∙ one_more (a + extra) a b (omega arith)
      ∙ surplus extra a b

  pub lowest_digit :
      (a b : ℕ)
      → spend (suc a) (suc a) b
        ≡ spend (suc a / 2) (suc a / 2) (b / 2) * 2 + combine (suc a % 2) (b % 2)
  lowest_digit a b =
      let half_and_rest : a ≡ suc a / 2 + (a - suc a / 2) = omega arith in
      omega (
        arith,
        ap (λ (budget : ℕ). spend budget (suc a / 2) (b / 2)) half_and_rest,
        surplus (a - suc a / 2) (suc a / 2) (b / 2),
      )
