-- ===== src/Mixed/Rotation/Accepted.antt =====
-- workloads/mixed/mixed.cpp: the rules of workloads/mixed/schedule.cpp accept the schedules that it makes.
use load_forge.Common.{
  ℕ, zero, suc, ◌+◌, ◌-◌, ◌/◌, some, get_elem?, ◌*◌, ◌%◌, ◌^◌, ◌≤◌, ◌<◌, ◌≡◌, refl, sym, ap, ◌∙◌,
  List, [], ◌∷◌, length, true, false, ◌&&◌, not, ◌==◌, none, ok, subst, All, arith, Bool-cases, inl,
  inr, Option-cases,
}
use load_forge.Common.Int.{pos, leb_ℤ}
use load_forge.Journal.Format.{max_label_bytes}
use load_forge.Mixed.{Step, Schedule, commands_problem, has_label, steps_problem, problem}
use load_forge.Mixed.Cycling.{max_steps, count_of}
use load_forge.Mixed.Rotation.{
  RosterEntry, MixedOptions, Kind, mixed, move, name_of, plan_at, Switch, assignment, pick,
  move_every,
}
use load_forge.Mixed.Rotation.Make.{
  phase_of, label_of, rebinds, changes_of, commands_of, step_of, rotations_of, rotations_from,
  rotating, make_mixed, refusal_of, usable_of, all_placements,
}
use load_forge.Mixed.Rotation.Picks.{IsEntry, pick-All, usable_of-All, assignment-footprint}
use load_forge.Mixed.Steps.{IsNew, label-IsNew, step-accepted, label-length, problem-none, Keeps}
use load_forge.Mixed.Times.{time_of, AreTimed, count_of-positive, multiples-below}
use load_forge.Mixed.Rotation.Commands.{
  name_of-length, label_of-length, IsValid, one_each-accepted, IsChange, as_command-IsValid,
  rebinds-IsValid, rebinds-length, starts_of-accepted, starts_of-length,
}

step_of-at :
    (unsaid : RosterEntry) (usable : List RosterEntry) (options : MixedOptions) (rotation : ℕ)
    (current : List ℕ)
    → (step_of unsaid usable options rotation current).0.at_ns
      ≡ pos (rotation * count_of options.rotation_ns)
unfolding step_of
step_of-at unsaid usable options rotation current = ground arith

module _ (unsaid : RosterEntry) (usable : List RosterEntry) (options : MixedOptions)
    (some_usable : 0 < length usable)
    (fit : All
      (λ entry. IsEntry entry × (entry.min_footprint_bytes ≤ options.footprint_bytes))
      usable) where
  changes_of-IsChange :
      (kind : Kind) (rotation left slot : ℕ)
      → All IsChange (changes_of unsaid usable options kind rotation left slot)
  unfolding changes_of
  changes_of-IsChange kind rotation zero slot = tt
  changes_of-IsChange kind rotation (suc left) slot =
      let entry = pick unsaid kind usable options.seed rotation slot in
      let (good, fits) =
        pick-All (λ e. IsEntry e × (e.min_footprint_bytes ≤ options.footprint_bytes)) unsaid kind
          usable options.seed rotation slot some_usable fit in
      (
        (
          unfold assignment in good.0,
          omega (arith, good.1, (assignment-footprint entry options rotation slot fits).0),
        ),
        changes_of-IsChange kind rotation left (suc slot),
      )

  changes_of-length :
      (kind : Kind) (rotation left slot : ℕ)
      → length (changes_of unsaid usable options kind rotation left slot) ≡ left
  unfolding changes_of
  changes_of-length kind rotation zero slot = refl
  changes_of-length kind rotation (suc left) slot =
      ap suc (changes_of-length kind rotation left (suc slot))

  commands_of-IsValid :
      (changes : List Switch)
      → All IsChange changes
      → All IsValid (commands_of unsaid usable options changes)
  unfolding commands_of
  commands_of-IsValid [] all = tt
  commands_of-IsValid (change ∷ changes) (first, all) =
      (as_command-IsValid change first, commands_of-IsValid changes all)

  commands_of-length :
      (changes : List Switch) → length (commands_of unsaid usable options changes) ≡ length changes
  unfolding commands_of
  commands_of-length [] = refl
  commands_of-length (change ∷ changes) = ap suc (commands_of-length changes)

  -- A step of a rotation: its time, its label, and commands that the rules accept.
  abbrev IsRotation : ℕ → Step × List ℕ → Type 0
  IsRotation rotation (step, after) =
      (step.at_ns ≡ pos (rotation * count_of options.rotation_ns))
      × ((kind : Kind) × (step.phase ≡ phase_of rotation kind))
      × (length step.workload ≤ max_label_bytes)
      × (commands_problem step.phase options.workers step.workers ≡ none)
      × (length after ≤ max_label_bytes)

  module _ (placed : all_placements options.placements ≡ true) where
    step_of-IsRotation :
        (rotation : ℕ) (current : List ℕ)
        → length current ≤ max_label_bytes
        → IsRotation rotation (step_of unsaid usable options rotation current)
    unfolding step_of
    step_of-IsRotation rotation current short =
        elim (Bool-cases (not (length options.placements == 0) && (rotation % move_every == 0))) [
          | inl moves ↦
              rw (moves, step_of)
                (
                  refl,
                  (move, refl),
                  short,
                  one_each-accepted (phase_of rotation move) options.workers 0
                      (rebinds options rotation options.workers 0)
                      (rebinds-IsValid options placed rotation options.workers 0
                        (ground (arith, moves)))
                      (omega (arith, rebinds-length options placed rotation options.workers 0)),
                  short,
                )
          | inr stays ↦
              let kind = plan_at (rotation % 5) in
              let changes = changes_of unsaid usable options kind rotation options.workers 0 in
              rw (stays, step_of)
                (
                  refl,
                  (kind, refl),
                  label_of-length changes,
                  one_each-accepted (phase_of rotation kind) options.workers 0
                      (commands_of unsaid usable options changes)
                      (commands_of-IsValid changes
                        (changes_of-IsChange kind rotation options.workers 0))
                      (omega (
                        arith,
                        commands_of-length changes,
                        changes_of-length kind rotation options.workers 0,
                      )),
                  label_of-length changes,
                )
        ]

    rotations_from-accepted :
        (left rotation before : ℕ) (seen : List (List ℕ)) (current : List ℕ)
        → rotation + left ≤ 10 ^ 6
        → before ≤ rotation * count_of options.rotation_ns
        → length current ≤ max_label_bytes
        → IsNew b'r' rotation seen
        → steps_problem seen
            (pos before)
            options.workers
            (rotations_from unsaid usable options left rotation current)
          ≡ none
    unfolding rotations_from
    rotations_from-accepted zero rotation before seen current bound after short new =
        unfold steps_problem in refl
    rotations_from-accepted (suc left) rotation before seen current bound after short new =
        let made = step_of unsaid usable options rotation current in
        let (at, (kind, phase), named, fine, next) = step_of-IsRotation rotation current short in
        step-accepted seen (pos before) options.workers made.0
          (rotations_from unsaid usable options left (suc rotation) made.1)
          (subst (λ l. has_label l seen ≡ false) (sym phase)
            (unfold phase_of in
              new rotation (name_of kind) (omega arith) (omega (arith, bound))
                (name_of-length kind)))
          (rw at (ground (arith, after)))
          (subst (λ l. length l ≤ max_label_bytes) (sym phase)
            (unfold phase_of in label-length b'r' rotation (name_of kind)))
          named fine
          (subst
            (λ l.
              steps_problem (l ∷ seen) made.0.at_ns options.workers
                (rotations_from unsaid usable options left (suc rotation) made.1)
              ≡ none)
            (sym phase)
            (subst
              (λ t.
                steps_problem (phase_of rotation kind ∷ seen) t options.workers
                  (rotations_from unsaid usable options left (suc rotation) made.1)
                ≡ none)
              (sym at)
              (rotations_from-accepted left (suc rotation) (rotation * count_of options.rotation_ns)
                (phase_of rotation kind ∷ seen) made.1 (omega (arith, bound)) (grind arith) next
                (unfold phase_of in
                  label-IsNew b'r' rotation (name_of kind) seen (name_of-length kind) new))))

    rotations_from-length :
        (left rotation : ℕ) (current : List ℕ)
        → length (rotations_from unsaid usable options left rotation current) ≡ left
    unfolding rotations_from
    rotations_from-length zero rotation current = refl
    rotations_from-length (suc left) rotation current = ap suc (
        rotations_from-length left (suc rotation)
          (step_of unsaid usable options rotation current).1)

    rotating-accepted :
        rotations_of options ≤ max_steps
        → problem (rotating unsaid usable options) options.workers ≡ none
    unfolding rotating
    rotating-accepted few =
        let first = changes_of unsaid usable options mixed 0 options.workers 0 in
        problem-none (rotating unsaid usable options) options.workers refl
          (starts_of-length first ∙ changes_of-length mixed 0 options.workers 0)
          (unfold phase_of in label-length b'r' 0 (name_of mixed)) (label_of-length first)
          (starts_of-accepted 0 first (changes_of-IsChange mixed 0 options.workers 0))
          (rotations_from-accepted (rotations_of options) 1 0 [] (label_of first)
            (omega (arith, few)) (omega arith) (label_of-length first)
            (λ i name later small short. unfold has_label in refl))

    rotations_from-at :
        (left rotation : ℕ) (current : List ℕ) (i : ℕ) (step : Step)
        → get_elem? (rotations_from unsaid usable options left rotation current) i ≡ some step
        → step.at_ns ≡ pos ((rotation + i) * count_of options.rotation_ns)
    unfolding rotations_from
    rotations_from-at zero rotation current i step there = cc
    rotations_from-at (suc left) rotation current zero step there =
        ap time_of (sym there)
        ∙ step_of-at unsaid usable options rotation current
        ∙ ap (λ n. pos (n * count_of options.rotation_ns)) (omega arith)
    rotations_from-at (suc left) rotation current (suc i) step there =
        rotations_from-at left (suc rotation) (step_of unsaid usable options rotation current).1 i
          step there
        ∙ ap (λ n. pos (n * count_of options.rotation_ns)) (omega arith)

    rotating-length : length (rotating unsaid usable options).start ≡ options.workers
    unfolding rotating
    rotating-length =
        let first = changes_of unsaid usable options mixed 0 options.workers 0 in
        starts_of-length first ∙ changes_of-length mixed 0 options.workers 0

    rotating-AreTimed :
        0 < count_of options.rotation_ns
        → 0 < count_of options.duration_ns
        → AreTimed 1 options.rotation_ns options.duration_ns (rotating unsaid usable options).steps
    unfolding rotating rotations_of
    rotating-AreTimed some_rotation some_time =
        let first = label_of (changes_of unsaid usable options mixed 0 options.workers 0) in
        let few : length (rotating unsaid usable options).steps
            ≡ (count_of options.duration_ns - 1) / count_of options.rotation_ns =
          rotations_from-length (rotations_of options) 1 first in
        (
          rotations_from-at (rotations_of options) 1 first,
          λ i.
              let below =
                multiples-below (1 + i) (count_of options.rotation_ns)
                  (count_of options.duration_ns) some_rotation some_time in
              (
                λ early. below.0 (omega (arith, few, early)),
                λ early. omega (arith, few, below.1 early),
              ),
        )

refusal_of-none :
    (options : MixedOptions)
    → refusal_of options ≡ none
    → (rotations_of options ≤ max_steps)
      × (all_placements options.placements ≡ true)
      × (leb_ℤ options.rotation_ns (pos 0) ≡ false)
      × (leb_ℤ options.duration_ns (pos 0) ≡ false)
unfolding refusal_of
refusal_of-none options e = (ground arith, ground arith, ground arith, ground arith)

abbrev pub IsMix : MixedOptions → Schedule → Type 0
IsMix options schedule =
    (problem schedule options.workers ≡ none)
    × (length schedule.start ≡ options.workers)
    × AreTimed 1 options.rotation_ns options.duration_ns schedule.steps

module _ (unsaid : RosterEntry) (roster : List RosterEntry) (options : MixedOptions)
    (good : All IsEntry roster) where
  make_mixed-kept : Keeps (IsMix options) (make_mixed unsaid roster options)
  unfolding make_mixed
  make_mixed-kept = elim (Option-cases (refusal_of options)) [
    | inr (refused, e) ↦ rw (e, make_mixed) tt
    | inl accepted ↦
        let usable = usable_of roster options.footprint_bytes in
        let (few, placed, some_rotation, some_time) = refusal_of-none options accepted in
        let fit = usable_of-All IsEntry roster options.footprint_bytes good in
        elim (Bool-cases (length usable == 0)) [
          | inl nothing ↦ rw (accepted, nothing, make_mixed) tt
          | inr some_there ↦
              let there : 0 < length usable = ground (arith, some_there) in
              rw (accepted, some_there, make_mixed)
                (
                  rotating-accepted unsaid usable options there fit placed few,
                  rotating-length unsaid usable options there fit placed,
                  rotating-AreTimed unsaid usable options there fit placed
                      (count_of-positive options.rotation_ns some_rotation)
                      (count_of-positive options.duration_ns some_time),
                )
        ]
  ]

  -- The rules accept every rotating schedule that is made of a roster of named workloads, none of
  -- which accepts an empty footprint. It starts each worker with a workload, and its steps are at the
  -- multiples of the rotation, from the first on and in order, one for each that is less than the
  -- duration and no other.
  pub make_mixed-IsMix :
      (schedule : Schedule)
      → make_mixed unsaid roster options ≡ ok schedule
      → IsMix options schedule
  make_mixed-IsMix schedule e = subst (Keeps (IsMix options)) e make_mixed-kept
