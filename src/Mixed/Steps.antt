-- ===== src/Mixed/Steps.antt =====
-- workloads/mixed/schedule.cpp: when its rules accept one step more.
use load_forge.Common.{
  ℕ, suc, ◌^◌, ◌≤◌, ◌<◌, ◌≡◌, List, [], ◌∷◌, ◌++◌, length, false, Option, none, some, Outcome, ok,
  err, arith,
}
use load_forge.Common.Int.{ℤ, pos, ltb_ℤ}
use load_forge.Core.Numbers.{to_decimal}
use load_forge.Journal.Format.{max_label_bytes}
use load_forge.Mixed.{
  Step, Schedule, Problem, problem, start_problem, unless, commands_problem, has_label,
  steps_problem,
}
use load_forge.Mixed.Labels.{bounded-length, label, label_differs}

-- No label of those seen is the one of a later level.
abbrev pub IsNew : (letter level : ℕ) → List (List ℕ) → Type 0
IsNew letter level seen =
    (i : ℕ) (name : List ℕ)
    → level ≤ i
    → i < 10 ^ 6
    → length name ≤ 50
    → has_label (label letter i name) seen ≡ false

pub label-IsNew :
    (letter level : ℕ) (name : List ℕ) (seen : List (List ℕ))
    → length name ≤ 50
    → IsNew letter level seen
    → IsNew letter (suc level) (label letter level name ∷ seen)
unfolding has_label
label-IsNew letter level name seen short new i other later small short_other =
    rw (label_differs letter i level other name small later short_other short)
      (new i other (omega arith) small short_other)

pub unless-none :
    (first rest : Option Problem) → first ≡ none → rest ≡ none → unless first rest ≡ none
unfolding unless
unless-none none rest e later = later
unless-none (some bad) rest e later = cc

pub step-accepted :
    (seen : List (List ℕ)) (before : ℤ) (workers : ℕ) (step : Step) (steps : List Step)
    → has_label step.phase seen ≡ false
    → ltb_ℤ step.at_ns before ≡ false
    → length step.phase ≤ max_label_bytes
    → length step.workload ≤ max_label_bytes
    → commands_problem step.phase workers step.workers ≡ none
    → steps_problem (step.phase ∷ seen) step.at_ns workers steps ≡ none
    → steps_problem seen before workers (step ∷ steps) ≡ none
unfolding steps_problem
step-accepted seen before workers step steps new after short named fine later = ground (
  arith,
  unless-none (commands_problem step.phase workers step.workers)
      (steps_problem (step.phase ∷ seen) step.at_ns workers steps) fine later,
)

pub problem-none :
    (schedule : Schedule) (workers : ℕ)
    → schedule.workers ≡ workers
    → length schedule.start ≡ workers
    → length schedule.phase ≤ max_label_bytes
    → length schedule.workload ≤ max_label_bytes
    → start_problem 0 schedule.start ≡ none
    → steps_problem [] (pos 0) workers schedule.steps ≡ none
    → problem schedule workers ≡ none
unfolding problem
problem-none schedule workers planned started phase workload starts steps = ground (
  arith,
  unless-none (start_problem 0 schedule.start) (steps_problem [] (pos 0) workers schedule.steps)
      starts steps,
)

pub label-length :
    (letter number : ℕ) (name : List ℕ) → length (label letter number name) ≤ max_label_bytes
unfolding label
label-length letter number name = bounded-length (letter ∷ (to_decimal number ++ b' ' ∷ name))

abbrev pub Keeps : {A E : Type 0} → (A → Type 0) → Outcome A E → Type 0
Keeps P (ok a) = P a
Keeps P (err e) = Unit {0}
