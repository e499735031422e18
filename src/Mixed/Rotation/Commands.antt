-- ===== src/Mixed/Rotation/Commands.antt =====
-- workloads/mixed/mixed.cpp: the commands and the starts of a rotation, which keep their rules.
use load_forge.Common.{
  ℕ, zero, suc, ◌+◌, ◌≤◌, ◌<◌, ◌≡◌, refl, ap, List, [], ◌∷◌, length, true, none, All, arith,
}
use load_forge.Journal.Format.{max_label_bytes}
use load_forge.Mixed.{unless, start_problem, sent_problem, commands_problem}
use load_forge.Mixed.Labels.{bounded-length}
use load_forge.Mixed.Rotation.{
  MixedOptions, Kind, mixed, compute_heavy, memory_heavy, halves, joined, move, name_of, Switch,
}
use load_forge.Mixed.Rotation.Make.{
  label_of, join_names, unique_names, sort_names, as_command, one_each, where_to, rebinds,
  starts_of, all_placements,
}
use load_forge.Mixed.Rotation.Picks.{placement_at-valid}
use load_forge.Worker.Control.Types.{Command, is_valid, is_valid_command, is_valid_name}

pub name_of-length : (kind : Kind) → length (name_of kind) ≤ 50
unfolding name_of
name_of-length compute_heavy = omega arith
name_of-length memory_heavy = omega arith
name_of-length halves = omega arith
name_of-length mixed = omega arith
name_of-length joined = omega arith
name_of-length move = omega arith

pub label_of-length : (changes : List Switch) → length (label_of changes) ≤ max_label_bytes
unfolding label_of
label_of-length changes = bounded-length (join_names [] (unique_names (sort_names changes)))

abbrev pub IsValid : Command → Type 0
IsValid command = is_valid (record { sequence = 0; command = command }) ≡ true

pub one_each-accepted :
    (phase : List ℕ) (workers slot : ℕ) (commands : List Command)
    → All IsValid commands
    → slot + length commands ≤ workers
    → commands_problem phase workers (one_each slot commands) ≡ none
unfolding one_each commands_problem unless sent_problem
one_each-accepted phase workers slot [] valid within = refl
one_each-accepted phase workers slot (command ∷ commands) (first, valid) within = ground (
  arith,
  first,
  one_each-accepted phase workers (suc slot) commands valid (omega (arith, within)),
)

-- A switch that a worker's decoder does not refuse.
abbrev pub IsChange : Switch → Type 0
IsChange change = (is_valid_name change.workload ≡ true) × (0 < change.footprint_bytes)

pub as_command-IsValid : (change : Switch) → IsChange change → IsValid (as_command change)
unfolding as_command is_valid_command
as_command-IsValid change (named, some_bytes) = rw named (ground (arith, some_bytes))

module _ (options : MixedOptions) (placed : all_placements options.placements ≡ true) where
  pub rebinds-IsValid :
      (rotation left slot : ℕ)
      → 0 < length options.placements
      → All IsValid (rebinds options rotation left slot)
  unfolding rebinds
  rebinds-IsValid rotation zero slot some_there = tt
  rebinds-IsValid rotation (suc left) slot some_there = (
    placement_at-valid options.placements (where_to options rotation slot)
        (unfold where_to in grind (arith, some_there)) placed,
    rebinds-IsValid rotation left (suc slot) some_there,
  )

  pub rebinds-length : (rotation left slot : ℕ) → length (rebinds options rotation left slot) ≡ left
  unfolding rebinds
  rebinds-length rotation zero slot = refl
  rebinds-length rotation (suc left) slot = ap suc (rebinds-length rotation left (suc slot))

pub starts_of-accepted :
    (slot : ℕ) (changes : List Switch)
    → All IsChange changes
    → start_problem slot (starts_of changes) ≡ none
unfolding start_problem starts_of
starts_of-accepted slot [] all = refl
starts_of-accepted slot (change ∷ changes) ((named, some_bytes), all) =
    rw named (ground (arith, some_bytes, starts_of-accepted (suc slot) changes all))

pub starts_of-length : (changes : List Switch) → length (starts_of changes) ≡ length changes
unfolding starts_of
starts_of-length [] = refl
starts_of-length (change ∷ changes) = ap suc (starts_of-length changes)
