-- ===== src/Examples/Mixes.antt =====
-- The theorems about the makers of schedules at small options.
use load_forge.Common.{ℕ, ◌*◌, ◌≡◌, refl, List, [], ◌∷◌, Bool, true, leb, ok, replicate, arith}
use load_forge.Common.Int.{pos}
use load_forge.Common.Texts.{codes}
use load_forge.Mixed.{Schedule}
use load_forge.Mixed.Cycling.{
  CyclingOptions, cores, running, levels_of, workload_of, steps_from, make_cycling,
}
use load_forge.Mixed.Cycling.Accepted.{IsCycle, make_cycling-IsCycle}
use load_forge.Mixed.Roster.{roster_of, accepted_from, with_entry}
use load_forge.Mixed.Roster.Least.{make_mixed-roster_of}
use load_forge.Mixed.Rotation.{RosterEntry, MixedOptions}
use load_forge.Mixed.Rotation.Make.{
  make_mixed, rotating, refusal_of, rotations_of, usable_of, all_placements,
}
use load_forge.Mixed.Rotation.Accepted.{IsMix}
use load_forge.Worker.Control.Types.{is_valid_command, is_valid_name, cpus_are_valid}

abbrev three_workers : CyclingOptions
three_workers = record {
  kind = cores;
  workers = 3;
  duration_ns = pos 10;
  dwell_ns = pos 3;
  period_ns = pos 5;
}

abbrev cycle : Schedule
cycle = record {
  workers = 3;
  start = [];
  phase = codes "run";
  workload = workload_of cores;
  steps = steps_from three_workers (levels_of three_workers) 0 (replicate 3 running);
}

cycles : make_cycling three_workers ≡ ok cycle
unfolding make_cycling levels_of
cycles = refl

make_cycling-IsCycle_example : IsCycle three_workers cycle
make_cycling-IsCycle_example = make_cycling-IsCycle three_workers cycle cycles

-- A registry that makes each workload from 128 KiB on.
abbrev from_128_kib : List ℕ → ℕ → Bool
from_128_kib name footprint = leb (128 * 1024) footprint

abbrev two_names : List (List ℕ)
two_names = codes "fft" ∷ codes "sort" ∷ []

-- Five rotations after the start, of which the third is a move.
abbrev four_workers : MixedOptions
four_workers = record {
  workers = 4;
  seed = 1;
  duration_ns = pos 60;
  rotation_ns = pos 11;
  footprint_bytes = 300000;
  placements = (0 ∷ []) ∷ (1 ∷ []) ∷ (2 ∷ []) ∷ (3 ∷ []) ∷ [];
  duty = record { oracle_period = 1; integrity_period = 1 };
}

abbrev unsaid : RosterEntry
unsaid = record { name = []; min_footprint_bytes = 0 }

abbrev rotation : Schedule
rotation =
    rotating unsaid (usable_of (roster_of from_128_kib 1000000 two_names) 300000) four_workers

rotates : make_mixed unsaid (roster_of from_128_kib 1000000 two_names) four_workers ≡ ok rotation
unfolding make_mixed refusal_of rotations_of all_placements usable_of roster_of with_entry
    accepted_from is_valid_command cpus_are_valid
rotates = refl

names_valid : (is_valid_name (codes "fft") ≡ true) × (is_valid_name (codes "sort") ≡ true)
unfolding is_valid_name
names_valid = (refl, refl)

make_mixed-roster_of_example : IsMix four_workers rotation
make_mixed-roster_of_example =
    make_mixed-roster_of from_128_kib 1000000 unsaid two_names four_workers rotation (omega arith)
      (names_valid.0, (names_valid.1, tt)) rotates
