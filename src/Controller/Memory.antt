-- ===== src/Controller/Memory.antt =====
-- controller/safety.cpp: the most that the workers hold at once over a schedule.
pub mod Peaks
use load_forge.Common.{
  ℕ, ◌+◌, ◌-◌, ◌^◌, List, [], ◌∷◌, length, set, Bool, true, false, ltb, if◌then◌else◌, Option, none,
  some,
}
use load_forge.Worker.Control.Types.{Command, switch}
use load_forge.Mixed.{WorkerCommands, Step}

abbrev pub uint64_max : ℕ
uint64_max = 2 ^ 64 - 1

-- The loop of `sum`, from the total so far.
unfoldable pub add_held : ℕ → List ℕ → ℕ
add_held total [] = total
add_held total (each ∷ held) =
    add_held (if ltb (uint64_max - total) each then uint64_max else total + each) held

unfoldable pub sum : List ℕ → ℕ
sum held = add_held 0 held

-- The bytes, and the phase of the step where they are first held, none for the start.
pub record Peak : Type 0 where
  pub bytes : ℕ
  pub at_phase : Option (List ℕ)

-- `get_if` of a Switch: its footprint.
unfoldable pub footprint_of : Command → Option ℕ
footprint_of (switch workload seed footprint_bytes decomposition duty) = some footprint_bytes
footprint_of other = none

unfoldable pub hold : List ℕ → ℕ → Option ℕ → List ℕ
hold held slot none = held
hold held slot (some footprint_bytes) =
    if ltb slot (length held) then set held slot footprint_bytes else held

unfoldable pub hold_commands : List ℕ → ℕ → List Command → List ℕ
hold_commands held slot [] = held
hold_commands held slot (command ∷ commands) =
    hold_commands (hold held slot (footprint_of command)) slot commands

unfoldable pub hold_workers : List ℕ → List WorkerCommands → List ℕ
hold_workers held [] = held
hold_workers held (each ∷ workers) =
    hold_workers (hold_commands held each.slot each.commands) workers

unfoldable pub raise : Peak → ℕ → List ℕ → Peak
raise peak now phase =
    if ltb peak.bytes now then record { bytes = now; at_phase = some phase } else peak

unfoldable pub peak_over : Peak → List ℕ → List Step → Peak
peak_over peak held [] = peak
peak_over peak held (step ∷ steps) =
    let after = hold_workers held step.workers in
    peak_over (raise peak (sum after) step.phase) after steps

unfoldable pub peak_of : List Step → List ℕ → Peak
peak_of steps held = peak_over (record { bytes = sum held; at_phase = none }) held steps
