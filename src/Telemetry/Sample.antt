-- ===== src/Telemetry/Sample.antt =====
-- telemetry/sample.hpp: metrics, readings and how far a counter advanced. A string is the list of its
-- bytes, a double its bits. What an Unavailable says is not modelled.
use load_forge.Common.{
  ℕ, ◌+◌, ◌-◌, ◌*◌, ◌%◌, ◌^◌, ◌≤◌, ◌<◌, ◌≡◌, List, [], ◌∷◌, Bool, true, false, ◌&&◌, ltb, ◌==◌,
  if◌then◌else◌, Option, none, some, arith, ◌⊎◌, inl, inr, Bool-cases, ltb→lt, ltb→le,
}
use native.Mathlib.Nat.{mod-lt, mod-eq_of_lt, mod-eq-sub-mod}

pub data Kind : Type 0 where
  gauge_kind counter_kind : Kind

pub data Scope : Type 0 where
  machine cpu_package core cpu numa_node memory_controller dimm device : Scope

-- The enumerator's number, which the comparison of scopes compares.
unfoldable pub scope_number : Scope → ℕ
scope_number machine = 0
scope_number cpu_package = 1
scope_number core = 2
scope_number cpu = 3
scope_number numa_node = 4
scope_number memory_controller = 5
scope_number dimm = 6
scope_number device = 7

-- `unit` is the enumerator's number: nothing here reads it.
pub record Metric : Type 0 where
  pub name : List ℕ
  pub unit : ℕ
  pub kind : Kind
  pub scope : Scope
  pub scope_index : ℕ
  pub modulus : Option ℕ
  pub provider : List ℕ

unfoldable pub same_name : List ℕ → List ℕ → Bool
same_name [] [] = true
same_name (a ∷ lhs) (b ∷ rhs) = (a == b) && same_name lhs rhs
same_name _ _ = false

unfoldable pub same_series : Metric → Metric → Bool
unfolding same_name scope_number
same_series lhs rhs =
    same_name lhs.name rhs.name
    && (scope_number lhs.scope == scope_number rhs.scope)
    && (lhs.scope_index == rhs.scope_index)

pub data Reading : Type 0 where
  unavailable : Reading
  gauge : (value : ℕ) → Reading
  counter : (raw : ℕ) → Reading

-- The subtractions are of uint64_t, and wrap.
unfoldable pub counter_delta : (previous current : ℕ) → Option ℕ → ℕ
counter_delta previous current none = (current + 2 ^ 64 - previous) % 2 ^ 64
counter_delta previous current (some modulus) =
    if ltb current previous
    then ((modulus + 2 ^ 64 - previous) % 2 ^ 64 + current) % 2 ^ 64
    else (current + 2 ^ 64 - previous) % 2 ^ 64

unfoldable pub counter_advance : (previous current : ℕ) → Option ℕ → Option ℕ
unfolding counter_delta
counter_advance previous current none =
    if ltb current previous then none else some (counter_delta previous current none)
counter_advance previous current (some modulus) =
    some (counter_delta previous current (some modulus))

wrapped_advance :
    (previous current steps modulus : ℕ)
    → modulus < 2 ^ 64
    → previous < modulus
    → (current ≡ previous + steps) ⊎ (current + modulus ≡ previous + steps)
    → current < modulus
    → steps < modulus
    → counter_advance previous current (some modulus) ≡ some steps
unfolding counter_advance counter_delta
wrapped_advance previous current steps modulus fits inside (inl ahead) below less = ground arith
wrapped_advance previous current steps modulus fits inside (inr around) below less = ground arith

around_or_ahead :
    (sum modulus : ℕ) → sum < 2 * modulus → (sum % modulus ≡ sum) ⊎ (sum % modulus + modulus ≡ sum)
around_or_ahead sum modulus twice = elim (Bool-cases (ltb sum modulus)) [
  | inl below ↦ inl (mod-eq_of_lt (ltb→lt sum modulus below))
  | inr past ↦
      let least : modulus ≤ sum = ltb→le sum modulus past in
      let rest : (sum - modulus) % modulus ≡ sum - modulus = mod-eq_of_lt (omega (arith, least)) in
      inr (omega (arith, mod-eq-sub-mod least, rest, least))
]

-- A reading below its modulus that advances by less than the modulus, in one wrap at most, is found to
-- have advanced by just that; without a modulus so is one that does not go down, and one that
-- does is not known.
pub counter_advance_lem :
    (previous steps modulus : ℕ)
    → modulus < 2 ^ 64
    → previous < modulus
    → steps < modulus
    → (counter_advance previous ((previous + steps) % modulus) (some modulus) ≡ some steps)
      × (previous + steps < 2 ^ 64 → counter_advance previous (previous + steps) none ≡ some steps)
      × (0 < steps → counter_advance (previous + steps) previous none ≡ none)
unfolding counter_advance counter_delta
counter_advance_lem previous steps modulus fits inside less = (
  wrapped_advance previous ((previous + steps) % modulus) steps modulus fits inside
      (around_or_ahead (previous + steps) modulus (omega arith))
      (mod-lt (previous + steps) (omega arith)) less,
  ground arith,
  ground arith,
)
