-- ===== src/Controller/Plan/Slots.antt =====
-- controller/plan.cpp: which of the CPUs a worker's threads are given.
use load_forge.Common.{
  ℕ, zero, suc, ◌+◌, ◌*◌, ◌%◌, ◌^◌, ◌≤◌, ◌<◌, ◌≡◌, refl, sym, ap, ap₂, ◌∙◌, min, List, [], ◌∷◌,
  length, take, drop, arith,
}
use native.Mathlib.Nat.{mod-eq_of_lt}
use load_forge.Controller.Plan.{cpu_at, assign_from, assign_cpus}

-- The list from an index on begins with the CPU at the index.
drop-cpu_at : (all : List ℕ) (i : ℕ) → i < length all → drop i all ≡ cpu_at all i ∷ drop (suc i) all
unfolding cpu_at
drop-cpu_at [] i within = absurd (omega (arith, within))
drop-cpu_at (cpu ∷ all) zero within = refl
drop-cpu_at (cpu ∷ all) (suc i) within = drop-cpu_at all i (omega (arith, within))

assign_from-take :
    (all : List ℕ) (start left index : ℕ)
    → start + index + left ≤ length all
    → assign_from all start left index ≡ take left (drop (start + index) all)
unfolding assign_from
assign_from-take all start zero index within = refl
assign_from-take all start (suc left) index within =
    ap (λ i. cpu_at all i ∷ assign_from all start left (suc index))
      (mod-eq_of_lt (omega (arith, within)))
    ∙ ap (λ l. cpu_at all (start + index) ∷ l)
        (assign_from-take all start left (suc index) (omega (arith, within)))
    ∙ ap (λ i. cpu_at all (start + index) ∷ take left (drop i all)) {y = suc (start + index)}
        (omega arith)
    ∙ ap (take (suc left)) (sym (drop-cpu_at all (start + index) (omega (arith, within))))

-- Where the CPUs suffice for the slots up to this one, the threads of a slot are given the next as many of the list, behind
-- those of the slots before it.
pub assign_cpus-take :
    (slot threads : ℕ) (all : List ℕ)
    → slot * threads + threads ≤ length all
    → length all < 2 ^ 64
    → 0 < threads
    → assign_cpus slot threads all ≡ take threads (drop (slot * threads) all)
unfolding assign_cpus
assign_cpus-take slot threads [] within fits some_threads =
    absurd (omega (arith, within, some_threads))
assign_cpus-take slot threads (cpu ∷ all) within fits some_threads =
    let first = slot * threads in
    let below : first < length (cpu ∷ all) = omega (arith, within, some_threads) in
    let wrapped : first % 2 ^ 64 ≡ first = mod-eq_of_lt (omega (arith, below, fits)) in
    let start : first % 2 ^ 64 % length (cpu ∷ all) ≡ first =
      ap (λ (n : ℕ). n % length (cpu ∷ all)) wrapped ∙ mod-eq_of_lt below in
    let count : min threads (length (cpu ∷ all)) ≡ threads = omega (arith, within) in
    ap₂ (λ s n. assign_from (cpu ∷ all) s n 0) start count
    ∙ assign_from-take (cpu ∷ all) first threads 0 (omega (arith, within))
    ∙ ap (λ i. take threads (drop i (cpu ∷ all))) {y = first} (omega arith)
