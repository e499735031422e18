-- ===== src/Controller/Memory/Peaks.antt =====
-- controller/safety.cpp: a schedule whose peak is below a ceiling keeps below it.
use load_forge.Common.{
  ℕ, ◌+◌, ◌-◌, ◌≤◌, ◌<◌, ◌≡◌, refl, ap, ◌∙◌, List, [], ◌∷◌, All, ltb, if◌then◌else◌, none, arith,
  Bool-cases, inl, inr, ltb→lt, ltb→le,
}
use load_forge.Mixed.{Step}
use load_forge.Controller.Memory.{
  uint64_max, add_held, sum, Peak, hold_workers, raise, peak_over, peak_of,
}

-- What the workers hold together, without a bound on the number.
unfoldable pub together : List ℕ → ℕ
together [] = 0
together (each ∷ held) = each + together held

-- What each of them holds, at the start and after every step.
unfoldable pub over_steps : List ℕ → List Step → List (List ℕ)
over_steps held [] = held ∷ []
over_steps held (step ∷ steps) = held ∷ over_steps (hold_workers held step.workers) steps

full_stays : (held : List ℕ) → add_held uint64_max held ≡ uint64_max
unfolding add_held
full_stays [] = refl
full_stays (each ∷ held) = ap (λ total. add_held total held) next ∙ full_stays held
  where
    next :
        (if ltb (uint64_max - uint64_max) each then uint64_max else uint64_max + each) ≡ uint64_max
    next = ground arith

add_held-cons :
    (total each : ℕ) (held : List ℕ) (after : ℕ)
    → (if ltb (uint64_max - total) each then uint64_max else total + each) ≡ after
    → add_held total (each ∷ held) ≡ add_held after held
unfolding add_held
add_held-cons total each held after e = ap (λ next. add_held next held) e

-- A total below the largest uint64_t is the exact one.
add_held-together :
    (held : List ℕ) (total : ℕ)
    → total ≤ uint64_max
    → add_held total held < uint64_max
    → add_held total held ≡ total + together held
unfolding together
add_held-together [] total small below = unfold add_held in omega arith
add_held-together (each ∷ held) total small below =
    elim (Bool-cases (ltb (uint64_max - total) each)) [
      | inl past ↦
          let full : add_held total (each ∷ held) ≡ uint64_max =
            add_held-cons total each held uint64_max (rw past refl) ∙ full_stays held in
          absurd (omega (arith, full, below))
      | inr within ↦
          let added : add_held total (each ∷ held) ≡ add_held (total + each) held =
            add_held-cons total each held (total + each) (rw within refl) in
          let fits : total + each ≤ uint64_max =
            omega (arith, small, ltb→le (uint64_max - total) each within) in
          added
          ∙ add_held-together held (total + each) fits (omega (arith, added, below))
          ∙ omega arith
    ]

raise-le :
    (peak : Peak) (now : ℕ) (phase : List ℕ)
    → (peak.bytes ≤ (raise peak now phase).bytes) × (now ≤ (raise peak now phase).bytes)
unfolding raise
raise-le peak now phase = elim (Bool-cases (ltb peak.bytes now)) [
  | inl more ↦ rw (more, raise) (omega (arith, ltb→lt peak.bytes now more), omega arith)
  | inr less ↦ rw (less, raise) (omega arith, ltb→le peak.bytes now less)
]

peak_over-le :
    (steps : List Step) (held : List ℕ) (peak : Peak)
    → peak.bytes ≤ (peak_over peak held steps).bytes
unfolding peak_over
peak_over-le [] held peak = omega arith
peak_over-le (step ∷ steps) held peak =
    let after : List ℕ = hold_workers held step.workers in
    omega (
      arith,
      (raise-le peak (sum after) step.phase).0,
      peak_over-le steps after (raise peak (sum after) step.phase),
    )

sum_below :
    (held : List ℕ) (ceiling : ℕ)
    → sum held ≤ ceiling
    → ceiling < uint64_max
    → together held ≤ ceiling
unfolding sum
sum_below held ceiling small fits =
    omega (arith, add_held-together held 0 (omega arith) (omega (arith, small, fits)), small)

below_over :
    (steps : List Step) (held : List ℕ) (peak : Peak) (ceiling : ℕ)
    → ceiling < uint64_max
    → sum held ≤ peak.bytes
    → (peak_over peak held steps).bytes ≤ ceiling
    → All (λ each. together each ≤ ceiling) (over_steps held steps)
unfolding peak_over over_steps
below_over [] held peak ceiling fits starts below =
    (sum_below held ceiling (omega (arith, starts, below)) fits, tt)
below_over (step ∷ steps) held peak ceiling fits starts below =
    let after : List ℕ = hold_workers held step.workers in
    let up : Peak = raise peak (sum after) step.phase in
    (
      sum_below held ceiling
          (omega (
            arith,
            starts,
            (raise-le peak (sum after) step.phase).0,
            peak_over-le steps after up,
            below,
          ))
          fits,
      below_over steps after up ceiling fits (raise-le peak (sum after) step.phase).1 below,
    )

-- Where the peak of a schedule is at most a ceiling below the largest uint64_t, the workers together hold
-- no more than that at the start and after every step, as exact numbers: no total has wrapped around.
pub peak_of-le :
    (steps : List Step) (held : List ℕ) (ceiling : ℕ)
    → ceiling < uint64_max
    → (peak_of steps held).bytes ≤ ceiling
    → All (λ each. together each ≤ ceiling) (over_steps held steps)
unfolding peak_of
peak_of-le steps held ceiling fits below =
    below_over steps held (record { bytes = sum held; at_phase = none }) ceiling fits (omega arith)
      below
