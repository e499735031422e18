-- ===== src/Mixed/Cycling/Accepted.antt =====
-- workloads/mixed/cycling.cpp: the rules of workloads/mixed/schedule.cpp accept the schedules that it makes.
use load_forge.Common.{
  ℕ, zero, suc, ◌+◌, ◌-◌, ◌∙◌, sym, get_elem?, some, ◌*◌, ◌/◌, ◌^◌, ◌≤◌, ◌<◌, ◌≡◌, refl, ap, List,
  [], ◌∷◌, length, replicate, true, false, ◌||◌, ltb, ◌==◌, none, ok, subst, arith, Bool-cases, inl,
  inr, ltb→le, le→ltb, ==_refl,
}
use load_forge.Common.Int.{ℤ, pos, ltb_ℤ, leb_ℤ}
use load_forge.Common.Texts.{codes}
use load_forge.Journal.Format.{max_label_bytes}
use load_forge.Mixed.{Step, Schedule, start_problem, has_label, steps_problem, problem}
use load_forge.Mixed.Cycling.{
  CycleKind, load, cores, CyclingOptions, max_steps, max_commands, describe, State, running,
  command_workers, wanted_at, name_at, count_of, workload_of, levels_of, steps_from, make_cycling,
}
use load_forge.Mixed.Cycling.Levels.{AreReached, steps_from-AreReached}
use load_forge.Mixed.Labels.{label}
use load_forge.Mixed.Steps.{IsNew, label-IsNew, step-accepted, label-length, Keeps}
use load_forge.Mixed.Times.{time_of, AreTimed, count_of-positive, multiples-below}
use load_forge.Mixed.Cycling.Commands.{
  command_workers-accepted, command_workers-length, wanted_at-le, name_at-length,
}

workload_of-length : (kind : CycleKind) → length (workload_of kind) ≤ max_label_bytes
unfolding workload_of describe
workload_of-length load = omega arith
workload_of-length cores = omega arith

module _ (options : CyclingOptions) (some_there : 0 < options.workers)
    (few : options.workers ≤ max_commands) (positive : ltb_ℤ (pos 0) options.period_ns ≡ true) where
  steps_from-accepted :
      (left level before : ℕ) (seen : List (List ℕ)) (states : List State)
      → level + left ≤ 10 ^ 6
      → before ≤ level * count_of options.dwell_ns
      → length states ≤ options.workers
      → IsNew b'c' level seen
      → steps_problem seen (pos before) options.workers (steps_from options left level states)
        ≡ none
  unfolding steps_from
  steps_from-accepted zero level before seen states bound after within new =
      unfold steps_problem in refl
  steps_from-accepted (suc left) level before seen states bound after within new =
      let wanted = wanted_at options.kind options.workers level in
      let name = name_at options.kind options.workers level in
      let short = name_at-length options.kind options.workers level some_there few in
      let done = command_workers wanted options.period_ns 0 states in
      step-accepted seen (pos before) options.workers
        (record {
          at_ns = pos (level * count_of options.dwell_ns);
          phase = label b'c' level name;
          workload = workload_of options.kind;
          workers = done.0;
        })
        (steps_from options left (suc level) done.1)
        (new level name (omega arith) (omega (arith, bound)) short) (ground (arith, after))
        (label-length b'c' level name) (workload_of-length options.kind)
        (command_workers-accepted (label b'c' level name) options.workers wanted options.period_ns
          (wanted_at-le options.kind options.workers level) positive states 0
          (omega (arith, within)))
        (steps_from-accepted left (suc level) (level * count_of options.dwell_ns)
          (label b'c' level name ∷ seen) done.1 (omega (arith, bound)) (grind arith)
          (omega (arith, command_workers-length wanted options.period_ns states 0, within))
          (label-IsNew b'c' level name seen short new))

length-replicate : (n : ℕ) (state : State) → length (replicate n state) ≡ n
length-replicate zero state = refl
length-replicate (suc n) state = ap suc (length-replicate n state)

-- The schedule that the options make, once they were accepted.
abbrev made : CyclingOptions → Schedule
made options = record {
  workers = options.workers;
  start = [];
  phase = codes "run";
  workload = workload_of options.kind;
  steps = steps_from options (levels_of options) 0 (replicate options.workers running);
}

made-accepted :
    (options : CyclingOptions)
    → 0 < options.workers
    → options.workers ≤ max_commands
    → ltb_ℤ (pos 0) options.period_ns ≡ true
    → levels_of options ≤ max_steps
    → problem (made options) options.workers ≡ none
unfolding problem start_problem
made-accepted options some_there few positive levels =
    let fine =
      steps_from-accepted options some_there few positive (levels_of options) 0 0 []
        (replicate options.workers running) (omega (arith, levels)) (omega arith)
        (omega (arith, length-replicate options.workers running))
        (λ i name later small short. unfold has_label in refl) in
    rw
      (
        ==_refl options.workers,
        le→ltb max_label_bytes (length (workload_of options.kind))
            (workload_of-length options.kind),
      )
      fine

steps_from-length :
    (options : CyclingOptions) (left level : ℕ) (states : List State)
    → length (steps_from options left level states) ≡ left
unfolding steps_from
steps_from-length options zero level states = refl
steps_from-length options (suc left) level states = ap suc (
    steps_from-length options left (suc level)
      (command_workers (wanted_at options.kind options.workers level) options.period_ns 0 states).1)

steps_from-at :
    (options : CyclingOptions) (left level : ℕ) (states : List State) (i : ℕ) (step : Step)
    → get_elem? (steps_from options left level states) i ≡ some step
    → step.at_ns ≡ pos ((level + i) * count_of options.dwell_ns)
unfolding steps_from
steps_from-at options zero level states i step there = cc
steps_from-at options (suc left) level states zero step there =
    ap time_of (sym there) ∙ ap (λ n. pos (n * count_of options.dwell_ns)) (omega arith)
steps_from-at options (suc left) level states (suc i) step there =
    steps_from-at options left (suc level)
      (command_workers (wanted_at options.kind options.workers level) options.period_ns 0 states).1
      i step there
    ∙ ap (λ n. pos (n * count_of options.dwell_ns)) (omega arith)

made-AreTimed :
    (options : CyclingOptions)
    → 0 < count_of options.dwell_ns
    → 0 < count_of options.duration_ns
    → AreTimed 0 options.dwell_ns options.duration_ns (made options).steps
unfolding levels_of
made-AreTimed options some_dwell some_time =
    let few : length (made options).steps
        ≡ (count_of options.duration_ns - 1) / count_of options.dwell_ns + 1 =
      steps_from-length options (levels_of options) 0 (replicate options.workers running) in
    (
      steps_from-at options (levels_of options) 0 (replicate options.workers running),
      λ i.
          let below =
            multiples-below (0 + i) (count_of options.dwell_ns) (count_of options.duration_ns)
              some_dwell some_time in
          (
            λ early. below.0 (omega (arith, few, early)),
            λ early. omega (arith, few, below.1 early),
          ),
    )

abbrev pub IsCycle : CyclingOptions → Schedule → Type 0
IsCycle options schedule =
    (problem schedule options.workers ≡ none)
    × AreTimed 0 options.dwell_ns options.duration_ns schedule.steps
    × AreReached options 0 (replicate options.workers running) schedule.steps

few_enough :
    (options : CyclingOptions)
    → ltb (max_commands / levels_of options) options.workers ≡ false
    → options.workers ≤ max_commands
unfolding levels_of
few_enough options few =
    let h = ltb→le (max_commands / levels_of options) options.workers few in grind (arith, h)

period_positive :
    (a b c : ℤ)
    → (leb_ℤ a (pos 0) || leb_ℤ b (pos 0) || leb_ℤ c (pos 0)) ≡ false
    → ltb_ℤ (pos 0) c ≡ true
period_positive a b c e = ground arith

make_cycling-IsCycle_kept :
    (options : CyclingOptions) → Keeps (IsCycle options) (make_cycling options)
unfolding make_cycling
make_cycling-IsCycle_kept options = elim (Bool-cases (options.workers == 0)) [
  | inl nobody ↦ rw (nobody, make_cycling) tt
  | inr some_there ↦
      elim (Bool-cases (
        leb_ℤ options.duration_ns (pos 0)
        || leb_ℤ options.dwell_ns (pos 0)
        || leb_ℤ options.period_ns (pos 0))) [
          | inl negative ↦ rw (some_there, negative, make_cycling) tt
          | inr positive ↦ elim (Bool-cases (ltb max_steps (levels_of options))) [
            | inl long ↦ rw (some_there, positive, long, make_cycling) tt
            | inr short ↦
                elim (Bool-cases (ltb (max_commands / levels_of options) options.workers)) [
                  | inl many ↦ rw (some_there, positive, short, many, make_cycling) tt
                  | inr few ↦
                      rw (some_there, positive, short, few, make_cycling)
                        (
                          made-accepted options (ground (arith, some_there))
                              (few_enough options few)
                              (period_positive options.duration_ns options.dwell_ns
                                options.period_ns positive)
                              (ltb→le max_steps (levels_of options) short),
                          made-AreTimed options
                              (count_of-positive options.dwell_ns (ground (arith, positive)))
                              (count_of-positive options.duration_ns (ground (arith, positive))),
                          steps_from-AreReached options (levels_of options) 0
                              (replicate options.workers running),
                        )
                ]
          ]
        ]
]

-- The rules accept every schedule of thermal and power cycling that the options make. Its steps are at
-- the multiples of the dwell, from 0 on and in order, one for each that is less than the duration and
-- no other. If the workers start running continuously and obey their commands, each step leaves every
-- worker at its level, paused or with the level's share.
pub make_cycling-IsCycle :
    (options : CyclingOptions) (schedule : Schedule)
    → make_cycling options ≡ ok schedule
    → IsCycle options schedule
make_cycling-IsCycle options schedule e =
    subst (Keeps (IsCycle options)) e (make_cycling-IsCycle_kept options)
