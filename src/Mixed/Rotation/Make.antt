-- ===== src/Mixed/Rotation/Make.antt =====
-- workloads/mixed/mixed.cpp: the steps of a rotating schedule, and the schedule.
use load_forge.Common.{
  ℕ, zero, suc, ◌+◌, ◌-◌, ◌*◌, ◌/◌, ◌%◌, List, [], ◌∷◌, ◌++◌, length, Bool, true, false, ◌&&◌, ◌||◌,
  not, ltb, leb, ◌==◌, if◌then◌else◌, Option, none, some, Outcome, ok, err,
}
use load_forge.Common.Int.{pos, leb_ℤ}
use load_forge.Mixed.{WorkerCommands, Step, Start, Schedule}
use load_forge.Mixed.Cycling.{max_steps, max_commands, count_of}
use load_forge.Mixed.Labels.{bounded, label}
use load_forge.Telemetry.Sample.{same_name}
use load_forge.Worker.Control.Types.{Command, rebind, switch, is_valid}
use load_forge.Mixed.Rotation.{
  Kind, MixedOptions, RosterEntry, Switch, assignment, mixed, move, move_every, name_of, pick,
  plan_at,
}

-- `<` of two texts.
unfoldable pub comes_before : List ℕ → List ℕ → Bool
comes_before a [] = false
comes_before [] (y ∷ b) = true
comes_before (x ∷ a) (y ∷ b) = ltb x y || ((x == y) && comes_before a b)

unfoldable pub insert_name : List ℕ → List (List ℕ) → List (List ℕ)
insert_name name [] = name ∷ []
insert_name name (other ∷ names) =
    let rest = insert_name name names in
    if comes_before other name then other ∷ rest else name ∷ other ∷ names

-- std::ranges::sort of the names.
unfoldable pub sort_names : List Switch → List (List ℕ)
sort_names [] = []
sort_names (change ∷ changes) = insert_name change.workload (sort_names changes)

-- std::ranges::unique: the first of equal neighbours stays.
unfoldable pub unique_after : List ℕ → List (List ℕ) → List (List ℕ)
unique_after before [] = []
unique_after before (name ∷ names) =
    let rest = unique_after name names in if same_name name before then rest else name ∷ rest

unfoldable pub unique_names : List (List ℕ) → List (List ℕ)
unique_names [] = []
unique_names (name ∷ names) = name ∷ unique_after name names

unfoldable pub join_names : (text : List ℕ) → List (List ℕ) → List ℕ
join_names text [] = text
join_names text (name ∷ names) =
    join_names (if length text == 0 then name else text ++ b'+' ∷ name) names

unfoldable pub label_of : List Switch → List ℕ
label_of changes = bounded (join_names [] (unique_names (sort_names changes)))

unfoldable pub phase_of : (rotation : ℕ) → Kind → List ℕ
phase_of rotation kind = label b'r' rotation (name_of kind)

unfoldable pub rotations_of : MixedOptions → ℕ
rotations_of options = (count_of options.duration_ns - 1) / count_of options.rotation_ns

-- Why the options make no schedule: a constructor for each text, with the numbers that it prints.
pub data MixedRefusal : Type 0 where
  no_workers not_positive no_footprint one_placement bad_placement : MixedRefusal
  too_many_steps : (rotation_ms duration_ms : ℕ) → MixedRefusal
  too_many_commands : (workers rotations : ℕ) → MixedRefusal
  nothing_fits : (footprint_bytes : ℕ) → MixedRefusal

unfoldable pub all_placements : List (List ℕ) → Bool
all_placements [] = true
all_placements (cpus ∷ placements) =
    is_valid (record { sequence = 0; command = rebind cpus }) && all_placements placements

unfoldable pub refusal_of : MixedOptions → Option MixedRefusal
refusal_of options =
    if options.workers == 0
    then some no_workers
    else if leb_ℤ options.duration_ns (pos 0) || leb_ℤ options.rotation_ns (pos 0)
    then some not_positive
    else if options.footprint_bytes == 0
    then some no_footprint
    else if ltb max_steps (rotations_of options)
    then some (
        too_many_steps (count_of options.rotation_ns / 1000000)
          (count_of options.duration_ns / 1000000))
    else if ltb (max_commands / (rotations_of options + 1)) options.workers
    then some (too_many_commands options.workers (rotations_of options))
    else if length options.placements == 1
    then some one_placement
    else if all_placements options.placements
    then none
    else some bad_placement

unfoldable pub usable_of : List RosterEntry → (footprint_bytes : ℕ) → List RosterEntry
usable_of [] footprint_bytes = []
usable_of (entry ∷ roster) footprint_bytes =
    let usable = usable_of roster footprint_bytes in
    if leb entry.min_footprint_bytes footprint_bytes then entry ∷ usable else usable

unfoldable pub placement_at : List (List ℕ) → ℕ → List ℕ
placement_at [] i = []
placement_at (cpus ∷ placements) zero = cpus
placement_at (cpus ∷ placements) (suc i) = placement_at placements i

unfoldable pub as_command : Switch → Command
as_command change =
    switch change.workload change.seed change.footprint_bytes change.decomposition change.duty

-- Worker `slot`, and those after it, each with one command.
unfoldable pub one_each : (slot : ℕ) → List Command → List WorkerCommands
one_each slot [] = []
one_each slot (command ∷ commands) =
    record { slot = slot; commands = command ∷ [] } ∷ one_each (suc slot) commands

unfoldable pub where_to : MixedOptions → (rotation slot : ℕ) → ℕ
where_to options rotation slot = (slot + rotation / move_every) % length options.placements

-- The rebinds of a move, for the `left` workers from `slot` on.
unfoldable pub rebinds : MixedOptions → (rotation left slot : ℕ) → List Command
rebinds options rotation zero slot = []
rebinds options rotation (suc left) slot =
    rebind (placement_at options.placements (where_to options rotation slot))
    ∷ rebinds options rotation left (suc slot)

module _ (unsaid : RosterEntry) (usable : List RosterEntry) (options : MixedOptions) where
  unfoldable pub changes_of : Kind → (rotation left slot : ℕ) → List Switch
  changes_of kind rotation zero slot = []
  changes_of kind rotation (suc left) slot =
      assignment (pick unsaid kind usable options.seed rotation slot) options rotation slot
      ∷ changes_of kind rotation left (suc slot)

  unfoldable pub commands_of : List Switch → List Command
  commands_of [] = []
  commands_of (change ∷ changes) = as_command change ∷ commands_of changes

  -- `step_of`, and the label of what the machine is doing after it.
  unfoldable pub step_of : (rotation : ℕ) → (current : List ℕ) → Step × List ℕ
  step_of rotation current =
      let at_ns = pos (rotation * count_of options.rotation_ns) in
      if not (length options.placements == 0) && (rotation % move_every == 0)
      then (
        record {
          at_ns = at_ns;
          phase = phase_of rotation move;
          workload = current;
          workers = one_each 0 (rebinds options rotation options.workers 0);
        },
        current,
      )
      else let kind = plan_at (rotation % 5) in
        let changes = changes_of kind rotation options.workers 0 in
        (
          record {
            at_ns = at_ns;
            phase = phase_of rotation kind;
            workload = label_of changes;
            workers = one_each 0 (commands_of changes);
          },
          label_of changes,
        )

  -- The loop over the rotations from `rotation` on, for the `left` that remain.
  unfoldable pub rotations_from : (left rotation : ℕ) → (current : List ℕ) → List Step
  rotations_from zero rotation current = []
  rotations_from (suc left) rotation current =
      let (step, after) = step_of rotation current in
      step ∷ rotations_from left (suc rotation) after

unfoldable pub starts_of : List Switch → List Start
starts_of [] = []
starts_of (change ∷ changes) =
    record { workload = change.workload; footprint_bytes = change.footprint_bytes }
    ∷ starts_of changes

module _ (unsaid : RosterEntry) where
  unfoldable pub rotating : List RosterEntry → MixedOptions → Schedule
  rotating usable options =
      let first = changes_of unsaid usable options mixed 0 options.workers 0 in
      record {
        workers = options.workers;
        start = starts_of first;
        phase = phase_of 0 mixed;
        workload = label_of first;
        steps = rotations_from unsaid usable options (rotations_of options) 1 (label_of first);
      }

  unfoldable pub make_mixed : List RosterEntry → MixedOptions → Outcome Schedule MixedRefusal
  make_mixed roster options = elim (refusal_of options) [
    | some refused ↦ err refused
    | none ↦
        let usable = usable_of roster options.footprint_bytes in
        if length usable == 0
        then err (nothing_fits options.footprint_bytes)
        else ok (rotating usable options)
  ]
