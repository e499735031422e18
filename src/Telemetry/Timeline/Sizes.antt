-- ===== src/Telemetry/Timeline/Sizes.antt =====
-- The capacity that a run asks of its timeline.
use load_forge.Common.{
  ℕ, zero, suc, ◌-◌, ◌*◌, ◌^◌, ◌≡◌, min, ltb, Bool-cases, inl, inr, arith, ltb→lt, ltb→le, ap, ◌∙◌,
}
use native.Mathlib.Nat.{mul-le-mul_right}
use load_forge.Telemetry.Timeline.{saturating_multiply, run_capacity}

saturating_multiply_lem : (a b : ℕ) → saturating_multiply a b ≡ min (a * b) (2 ^ 64 - 1)
unfolding saturating_multiply
saturating_multiply_lem a b = ground arith

saturated : (p s : ℕ) → min (min p (2 ^ 64 - 1) * s) (2 ^ 64 - 1) ≡ min (p * s) (2 ^ 64 - 1)
saturated p zero = omega arith
saturated p (suc s) = elim (Bool-cases (ltb p (2 ^ 64))) [
  | inl below ↦
      let same : min p (2 ^ 64 - 1) ≡ p = omega (arith, ltb→lt p (2 ^ 64) below) in
      ap (λ (t : ℕ). min (t * suc s) (2 ^ 64 - 1)) same
  | inr past ↦
      let full : min p (2 ^ 64 - 1) ≡ 2 ^ 64 - 1 = omega (arith, ltb→le p (2 ^ 64) past) in
      ap (λ (t : ℕ). min (t * suc s) (2 ^ 64 - 1)) full
      ∙ omega (arith, ltb→le p (2 ^ 64) past, mul-le-mul_right (suc s) (ltb→le p (2 ^ 64) past))
]

-- The points of a run are the product of its seconds, its rounds a second and its series, and where
-- that is past the largest size_t the largest size_t: no product wraps.
pub run_capacity_lem :
    (seconds hertz series : ℕ)
    → run_capacity seconds hertz series ≡ min (seconds * hertz * series) (2 ^ 64 - 1)
unfolding run_capacity
run_capacity_lem seconds hertz series =
    saturating_multiply_lem (saturating_multiply seconds hertz) series
    ∙ ap (λ (t : ℕ). min (t * series) (2 ^ 64 - 1)) (saturating_multiply_lem seconds hertz)
    ∙ saturated (seconds * hertz) series
