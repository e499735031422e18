-- ===== src/Worker/Duty.antt =====
-- worker/duty.cpp: the square wave of a duty. A clock reading, an epoch and a period are int64_t
-- values; the period is a valid command's, so it is positive and kept as a natural number, and so is
-- what a wave computes. `into` is how far past the epoch the clock reads.
use load_forge.Common.{
  ℕ, ◌+◌, ◌-◌, ◌*◌, ◌/◌, ◌%◌, ◌^◌, ◌≤◌, ◌<◌, ◌≡◌, ap, ◌∙◌, Bool, true, false, ltb, subst, sym,
  if◌then◌else◌, arith,
}
use load_forge.Common.Int.{ℤ, pos_part, neg_part}
use native.Mathlib.Nat.{mod-lt, mod-eq_of_lt, div-add-mod, mul-le-mul_left, mod-add-mod}

pub record SetDuty : Type 0 where
  pub busy_permille : ℕ
  pub period_ns : ℕ

-- The products are of uint64_t, and wrap.
unfoldable pub busy_ns : SetDuty → ℕ
busy_ns duty =
    let whole = duty.period_ns / 1000 * duty.busy_permille % 2 ^ 64 in
    let rest = duty.period_ns % 1000 * duty.busy_permille % 2 ^ 64 / 1000 in (whole + rest) % 2 ^ 64

unfoldable pub idle_ns : SetDuty → ℕ
unfolding busy_ns
idle_ns duty = duty.period_ns - busy_ns duty

pub record DutyClock : Type 0 where
  pub duty : SetDuty
  pub epoch_ns : ℤ

-- `set`, whatever the clock was.
abbrev pub set_clock : SetDuty → ℤ → DutyClock
set_clock duty now_ns = record { duty = duty; epoch_ns = now_ns }

pub record Position : Type 0 where
  pub busy : Bool
  pub remaining_ns : ℕ

-- `max(now - epoch, 0)`.
abbrev pub since : ℤ → ℤ → ℕ
since now_ns epoch_ns =
    (pos_part now_ns + neg_part epoch_ns) - (neg_part now_ns + pos_part epoch_ns)

-- The position in the wave `into` nanoseconds past the start of a period.
unfoldable pub position : ℕ → ℕ → ℕ → Position
position busy period into =
    if ltb into busy
    then record { busy = true; remaining_ns = busy - into }
    else record { busy = false; remaining_ns = period - into }

unfoldable pub at : DutyClock → ℤ → Position
unfolding position
at clock now_ns =
    position (busy_ns clock.duty) clock.duty.period_ns
      (since now_ns clock.epoch_ns % clock.duty.period_ns)

-- The rules of worker/control.hpp on a duty, with the period in an int64_t.
pub record IsDuty (duty : SetDuty) : Type 0 where
  pub some_busy : 1 ≤ duty.busy_permille
  pub at_most_all : duty.busy_permille ≤ 1000
  pub some_period : 0 < duty.period_ns
  pub period_fits : duty.period_ns < 2 ^ 63

rounded_down : (p b : ℕ) → p / 1000 * b + p % 1000 * b / 1000 ≡ p * b / 1000
rounded_down p b = omega (arith, split)
  where
    split : p * b ≡ 1000 * (p / 1000 * b) + p % 1000 * b
    split = ap (λ t. t * b) (sym (div-add-mod p 1000)) ∙ omega arith

busy_fits : (p b : ℕ) → b ≤ 1000 → p * b / 1000 ≤ p
busy_fits p b small = omega (arith, mul-le-mul_left p small)

-- No product wraps: the busy part of a valid duty's period is busy_permille thousandths of the
-- period, rounded down, it is at most the period, and with the idle part it makes the period.
pub busy_ns-idle_ns :
    (duty : SetDuty)
    → IsDuty duty
    → (busy_ns duty ≡ duty.period_ns * duty.busy_permille / 1000)
      × (busy_ns duty ≤ duty.period_ns)
      × (busy_ns duty + idle_ns duty ≡ duty.period_ns)
unfolding busy_ns idle_ns
busy_ns-idle_ns duty valid = (is_busy, omega (arith, is_busy, small), omega (arith, is_busy, small))
  where
    p : ℕ
    p = duty.period_ns

    b : ℕ
    b = duty.busy_permille

    small : p * b / 1000 ≤ p
    small = busy_fits p b valid.at_most_all

    whole : p / 1000 * b ≤ p / 1000 * 1000
    whole = mul-le-mul_left (p / 1000) valid.at_most_all

    rest : p % 1000 * b ≤ p % 1000 * 1000
    rest = mul-le-mul_left (p % 1000) valid.at_most_all

    is_busy : busy_ns duty ≡ p * b / 1000
    is_busy = omega (arith, whole, rest, small, rounded_down p b, valid.period_fits)

later_into : (t d p : ℕ) → 0 < p → d < p - t % p → (t + d) % p ≡ t % p + d
later_into t d p positive near = sym (mod-add-mod t p d) ∙ mod-eq_of_lt (omega arith)

position_later :
    (busy period into passed : ℕ)
    → busy ≤ period
    → into < period
    → passed < (position busy period into).remaining_ns
    → (passed < period - into)
      × ((position busy period (into + passed)).busy ≡ (position busy period into).busy)
      × ((position busy period (into + passed)).remaining_ns + passed
          ≡ (position busy period into).remaining_ns)
      × ((position busy period into).remaining_ns ≤ period)
unfolding position
position_later busy period into passed small inside early = ground arith

-- While less than the remaining time has passed, a valid duty's wave stays in the part that it was
-- in, and what remains is less by the time that passed; what remains is never more than the period.
pub at_later :
    (clock : DutyClock) (now_ns later_ns : ℤ) (passed : ℕ)
    → IsDuty clock.duty
    → since later_ns clock.epoch_ns ≡ since now_ns clock.epoch_ns + passed
    → passed < (at clock now_ns).remaining_ns
    → ((at clock later_ns).busy ≡ (at clock now_ns).busy)
      × ((at clock later_ns).remaining_ns + passed ≡ (at clock now_ns).remaining_ns)
      × ((at clock now_ns).remaining_ns ≤ clock.duty.period_ns)
unfolding at
at_later clock now_ns later_ns passed valid ahead early =
    subst
      (λ into.
        ((position busy p into).busy ≡ (position busy p now).busy)
        × ((position busy p into).remaining_ns + passed ≡ (position busy p now).remaining_ns)
        × ((position busy p now).remaining_ns ≤ p))
      (sym (ap (λ t. t % p) ahead ∙ later_into t passed p valid.some_period stays.0))
      (stays.1, stays.2, stays.3)
  where
    p : ℕ
    p = clock.duty.period_ns

    busy : ℕ
    busy = busy_ns clock.duty

    t : ℕ
    t = since now_ns clock.epoch_ns

    now : ℕ
    now = t % p

    stays :
        (passed < p - now)
        × ((position busy p (now + passed)).busy ≡ (position busy p now).busy)
        × ((position busy p (now + passed)).remaining_ns + passed
            ≡ (position busy p now).remaining_ns)
        × ((position busy p now).remaining_ns ≤ p)
    stays =
        position_later busy p now passed (busy_ns-idle_ns clock.duty valid).1
          (mod-lt t valid.some_period) early
