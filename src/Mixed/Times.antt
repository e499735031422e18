-- ===== src/Mixed/Times.antt =====
-- workloads/mixed/cycling.cpp and mixed.cpp: when the steps of a made schedule are.
use native.Mathlib.Nat.{le-div_iff_mul-le}
use load_forge.Common.{
  ℕ, ◌+◌, ◌-◌, ◌*◌, ◌/◌, ◌≤◌, ◌<◌, ◌≡◌, ◌↔◌, List, length, get_elem?, false, Option, none, some,
  arith,
}
use load_forge.Common.Int.{ℤ, pos, negsuc, leb_ℤ}
use load_forge.Mixed.{Step}
use load_forge.Mixed.Cycling.{count_of}

abbrev pub time_of : Option Step → ℤ
time_of none = pos 0
time_of (some step) = step.at_ns

-- The steps are at the multiples of `every_ns` from the `first` on, in order, and there is one for each of those multiples
-- that is less than the duration and for no other.
abbrev pub AreTimed : (first : ℕ) → (every_ns duration_ns : ℤ) → List Step → Type 0
AreTimed first every_ns duration_ns steps =
    ((i : ℕ) (step : Step)
      → get_elem? steps i ≡ some step
      → step.at_ns ≡ pos ((first + i) * count_of every_ns))
    × ((i : ℕ) → (i < length steps) ↔ ((first + i) * count_of every_ns < count_of duration_ns))

pub count_of-positive : (a : ℤ) → leb_ℤ a (pos 0) ≡ false → 0 < count_of a
count_of-positive (pos n) e = ground arith
count_of-positive (negsuc n) e = ground arith

-- The multiples of a length that are less than a duration are those up to a quotient.
pub multiples-below :
    (i every duration : ℕ)
    → 0 < every
    → 0 < duration
    → (i ≤ (duration - 1) / every) ↔ (i * every < duration)
multiples-below i every duration some_length some_time =
    let at_most = le-div_iff_mul-le {k = every} {x = i} {y = duration - 1} some_length in
    (λ few. omega (arith, at_most.0 few, some_time), λ before. at_most.1 (omega (arith, before)))
