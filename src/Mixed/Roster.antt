-- ===== src/Mixed/Roster.antt =====
-- workloads/mixed/roster.cpp: the workloads of a registry, each with the least footprint of some that it accepts.
-- Whether the registry makes a workload at a footprint is a parameter.
pub mod Least
use load_forge.Common.{
  ℕ, zero, suc, ◌*◌, ◌/◌, ◌^◌, List, [], ◌∷◌, Bool, ltb, leb, if◌then◌else◌, Option, none, some,
}
use load_forge.Mixed.Rotation.{RosterEntry}

abbrev pub least_footprint : ℕ
least_footprint = 64 * 2 ^ 10

module _ (creatable : List ℕ → ℕ → Bool) (ceiling_bytes : ℕ) where
  -- The loop over the footprints of one workload, on fuel: each is twice the one before.
  unfoldable pub accepted_from : (fuel : ℕ) → (name : List ℕ) → (footprint : ℕ) → Option ℕ
  accepted_from zero name footprint = none
  accepted_from (suc fuel) name footprint =
      let rest = accepted_from fuel name (footprint * 2) in
      if leb footprint ceiling_bytes
      then if creatable name footprint
        then some footprint
        else if ltb (ceiling_bytes / 2) footprint
        then none
        else rest
      else none

  unfoldable pub with_entry : (name : List ℕ) → Option ℕ → List RosterEntry → List RosterEntry
  with_entry name none roster = roster
  with_entry name (some footprint) roster =
      record { name = name; min_footprint_bytes = footprint } ∷ roster

  -- A uint64_t is doubled sixty-four times at most.
  unfoldable pub roster_of : (names : List (List ℕ)) → List RosterEntry
  roster_of [] = []
  roster_of (name ∷ names) =
      with_entry name (accepted_from 64 name least_footprint) (roster_of names)
