-- ===== src/Mixed/Rotation/Picks.antt =====
-- workloads/mixed/mixed.cpp: what the workers of one rotation are given.
use load_forge.Common.{
  ℕ, zero, suc, ◌+◌, ◌-◌, ◌/◌, ◌%◌, ◌^◌, ◌≤◌, ◌<◌, ◌≡◌, ◌≢◌, sym, ◌∙◌, List, [], ◌∷◌, length, All,
  true, ltb, leb, ◌==◌, if◌then◌else◌, Bool-cases, inl, inr, ltb→le, ltb→lt, ◌⊎◌, leb→le, arith,
}
use native.Mathlib.Nat.{add-mod-mod, mod-eq-sub-mod, mod-eq_of_lt}
use load_forge.Mixed.Rotation.{
  RosterEntry, MixedOptions, compute, memory, Intensity, Kind, compute_heavy, memory_heavy, halves,
  mixed, joined, move, same_intensity, classify, pool_of, narrowed, entry_at, pool_or, pick,
  assignment, move_every, draw, picking, spread_of,
}
use load_forge.Mixed.Rotation.Make.{usable_of, where_to, all_placements, placement_at}
use load_forge.Worker.Control.Types.{rebind, is_valid, is_valid_name}

-- What a roster promises: a workload's name, and a footprint that is not empty.
abbrev pub IsEntry : RosterEntry → Type 0
IsEntry entry = (is_valid_name entry.name ≡ true) × (0 < entry.min_footprint_bytes)

module _ (P : RosterEntry → Type 0) where
  pool_of-All :
      (wanted : Intensity) (usable : List RosterEntry)
      → All P usable
      → All P (pool_of usable wanted)
  unfolding pool_of
  pool_of-All wanted [] all = tt
  pool_of-All wanted (entry ∷ usable) (first, all) =
      elim (Bool-cases (same_intensity (classify entry.name) wanted)) [
        | inl one ↦ rw (one, pool_of) (first, pool_of-All wanted usable all)
        | inr other ↦ rw (other, pool_of) (pool_of-All wanted usable all)
      ]

  narrowed-All :
      (kind : Kind) (usable : List RosterEntry) (slot : ℕ)
      → All P usable
      → All P (narrowed kind usable slot)
  unfolding narrowed
  narrowed-All compute_heavy usable slot all = pool_of-All compute usable all
  narrowed-All memory_heavy usable slot all = pool_of-All memory usable all
  narrowed-All halves usable slot all =
      pool_of-All (if slot % 2 == 0 then compute else memory) usable all
  narrowed-All mixed usable slot all = tt
  narrowed-All joined usable slot all = tt
  narrowed-All move usable slot all = tt

  pool_or-All :
      (pool usable : List RosterEntry) → All P pool → All P usable → All P (pool_or pool usable)
  unfolding pool_or
  pool_or-All [] usable none_there all = all
  pool_or-All (entry ∷ pool) usable some_there all = some_there

  pool_or-length :
      (pool usable : List RosterEntry) → 0 < length usable → 0 < length (pool_or pool usable)
  unfolding pool_or
  pool_or-length [] usable some_there = some_there
  pool_or-length (entry ∷ pool) usable some_there = omega arith

  entry_at-All :
      (unsaid : RosterEntry) (pool : List RosterEntry) (i : ℕ)
      → i < length pool
      → All P pool
      → P (entry_at unsaid pool i)
  unfolding entry_at
  entry_at-All unsaid [] i within all = absurd (omega (arith, within))
  entry_at-All unsaid (entry ∷ pool) zero within (first, all) = first
  entry_at-All unsaid (entry ∷ pool) (suc i) within (first, all) =
      entry_at-All unsaid pool i (omega (arith, within)) all

  -- Every pick is one of the roster's entries that the options can use.
  pub pick-All :
      (unsaid : RosterEntry) (kind : Kind) (usable : List RosterEntry) (seed rotation slot : ℕ)
      → 0 < length usable
      → All P usable
      → P (pick unsaid kind usable seed rotation slot)
  unfolding pick
  pick-All unsaid kind usable seed rotation slot some_there all =
      let pool = pool_or (narrowed kind usable slot) usable in
      let size : 0 < length pool = pool_or-length (narrowed kind usable slot) usable some_there in
      entry_at-All unsaid pool
        ((draw seed rotation 0 picking + spread_of kind slot) % 2 ^ 64 % length pool)
        (grind (arith, size))
        (pool_or-All (narrowed kind usable slot) usable (narrowed-All kind usable slot all) all)

  pub usable_of-All :
      (roster : List RosterEntry) (footprint_bytes : ℕ)
      → All P roster
      → All
          (λ entry. P entry × (entry.min_footprint_bytes ≤ footprint_bytes))
          (usable_of roster footprint_bytes)
  unfolding usable_of
  usable_of-All [] footprint_bytes all = tt
  usable_of-All (entry ∷ roster) footprint_bytes (first, all) =
      elim (Bool-cases (leb entry.min_footprint_bytes footprint_bytes)) [
        | inl fits ↦
            rw (fits, usable_of)
              ((first, leb→le _ _ fits), usable_of-All roster footprint_bytes all)
        | inr large ↦ rw (large, usable_of) (usable_of-All roster footprint_bytes all)
      ]

-- The footprint of a switch is never below what the entry accepts, nor above the options'.
pub assignment-footprint :
    (entry : RosterEntry) (options : MixedOptions) (rotation slot : ℕ)
    → entry.min_footprint_bytes ≤ options.footprint_bytes
    → (entry.min_footprint_bytes ≤ (assignment entry options rotation slot).footprint_bytes)
      × ((assignment entry options rotation slot).footprint_bytes ≤ options.footprint_bytes)
unfolding assignment
assignment-footprint entry options rotation slot fits = (ground arith, ground arith)

pub placement_at-valid :
    (placements : List (List ℕ)) (i : ℕ)
    → i < length placements
    → all_placements placements ≡ true
    → is_valid (record { sequence = 0; command = rebind (placement_at placements i) }) ≡ true
unfolding all_placements placement_at
placement_at-valid [] i within valid = absurd (omega (arith, within))
placement_at-valid (cpus ∷ placements) zero within valid = ground arith
placement_at-valid (cpus ∷ placements) (suc i) within valid =
    placement_at-valid placements i (omega (arith, within)) (ground (arith, valid))

shift_below :
    (a k n : ℕ) → a < n → k < n → ((a + k) % n ≡ a + k) ⊎ (((a + k) % n ≡ a + k - n) × (n ≤ a + k))
shift_below a k n small less = elim (Bool-cases (ltb (a + k) n)) [
  | inl within ↦ inl (mod-eq_of_lt (ltb→lt (a + k) n within))
  | inr past ↦
      let over = ltb→le (a + k) n past in
      inr (mod-eq-sub-mod over ∙ mod-eq_of_lt (omega (arith, small, less, over)), over)
]

shift-injective : (a b k n : ℕ) → a < n → b < n → (a + k) % n ≡ (b + k) % n → a ≡ b
shift-injective a b k n small less same =
    let rest : k % n < n = grind (arith, small) in
    let same_rest : (a + k % n) % n ≡ (b + k % n) % n =
      add-mod-mod a k n ∙ same ∙ sym (add-mod-mod b k n) in
    elim (shift_below a (k % n) n small rest) [
      | inl one ↦ elim (shift_below b (k % n) n less rest) [
        | inl other ↦ omega (arith, sym one ∙ same_rest ∙ other)
        | inr (other, over) ↦ absurd (omega (arith, sym one ∙ same_rest ∙ other, over, less))
      ]
      | inr (one, past) ↦ elim (shift_below b (k % n) n less rest) [
        | inl other ↦ absurd (omega (arith, sym one ∙ same_rest ∙ other, past, small))
        | inr (other, over) ↦ omega (arith, sym one ∙ same_rest ∙ other, past, over)
      ]
    ]

-- A move gives no two of as many workers as there are sets of CPUs, or fewer, one set.
pub where_to-ne :
    (options : MixedOptions) (rotation one other : ℕ)
    → one < length options.placements
    → other < length options.placements
    → one ≢ other
    → where_to options rotation one ≢ where_to options rotation other
unfolding where_to
where_to-ne options rotation one other in_one in_other differ same = differ (
    shift-injective one other (rotation / move_every) (length options.placements) in_one in_other
      same)
