-- ===== src/Mixed/Rotation.antt =====
-- workloads/mixed/mixed.cpp: the schedules in which roles rotate among the workers.
pub mod Make
pub mod Picks
pub mod Commands
pub mod Accepted
use load_forge.Common.{
  ℕ, zero, suc, ◌+◌, ◌-◌, ◌*◌, ◌/◌, ◌%◌, ◌^◌, bit_and, bit_xor, List, [], ◌∷◌, ◌++◌, length, Bool,
  true, false, ◌&&◌, ◌||◌, not, ltb, leb, ◌==◌, if◌then◌else◌, Option, none, some, Outcome, ok, err,
}
use load_forge.Common.Int.{ℤ, pos, leb_ℤ}
use load_forge.Common.Texts.{codes}
use load_forge.Mixed.{WorkerCommands, Step, Start, Schedule}
use load_forge.Mixed.Cycling.{max_steps, max_commands, count_of}
use load_forge.Mixed.Labels.{bounded, label}
use load_forge.Telemetry.Sample.{same_name}
use load_forge.Worker.Control.Types.{Command, DutyCycle, rebind, switch, is_valid}

pub record RosterEntry : Type 0 where
  pub name : List ℕ
  pub min_footprint_bytes : ℕ

pub data Intensity : Type 0 where
  compute memory balanced : Intensity

pub record MixedOptions : Type 0 where
  pub workers : ℕ
  pub seed : ℕ
  pub duration_ns : ℤ
  pub rotation_ns : ℤ
  pub footprint_bytes : ℕ
  pub placements : List (List ℕ)
  pub duty : DutyCycle

unfoldable pub mix : ℕ → ℕ
mix value =
    let a = (value + 0x9E3779B97F4A7C15) % 2 ^ 64 in
    let b = bit_xor a (a / 2 ^ 30) * 0xBF58476D1CE4E5B9 % 2 ^ 64 in
    let c = bit_xor b (b / 2 ^ 27) * 0x94D049BB133111EB % 2 ^ 64 in bit_xor c (c / 2 ^ 31)

pub data Purpose : Type 0 where
  picking seeding sizing : Purpose

unfoldable pub purpose_number : Purpose → ℕ
purpose_number picking = 1
purpose_number seeding = 2
purpose_number sizing = 3

unfoldable pub draw : (seed rotation slot : ℕ) → Purpose → ℕ
unfolding mix purpose_number
draw seed rotation slot purpose = mix (
    (seed + mix ((rotation + mix ((slot + mix (purpose_number purpose)) % 2 ^ 64)) % 2 ^ 64))
    % 2 ^ 64)

pub data Kind : Type 0 where
  compute_heavy memory_heavy halves mixed joined move : Kind

unfoldable pub name_of : Kind → List ℕ
name_of compute_heavy = codes "compute-heavy"
name_of memory_heavy = codes "memory-heavy"
name_of halves = codes "balanced"
name_of mixed = codes "mixed"
name_of joined = codes "all-join"
name_of move = codes "move"

-- kPlan, at an index below five.
unfoldable pub plan_at : ℕ → Kind
plan_at zero = mixed
plan_at (suc zero) = compute_heavy
plan_at (suc (suc zero)) = memory_heavy
plan_at (suc (suc (suc zero))) = halves
plan_at (suc (suc (suc (suc i)))) = joined

abbrev pub move_every : ℕ
move_every = 3

unfoldable pub has_name : List ℕ → List (List ℕ) → Bool
has_name name [] = false
has_name name (other ∷ names) = same_name other name || has_name name names

unfoldable pub classify : List ℕ → Intensity
classify workload =
    if has_name workload (
      codes "dense_linear"
      ∷ codes "fft"
      ∷ codes "monte_carlo"
      ∷ codes "particles"
      ∷ codes "raytrace"
      ∷ [])
    then compute
    else if has_name workload (
        codes "adaptive_mesh"
        ∷ codes "graph"
        ∷ codes "sort"
        ∷ codes "sparse"
        ∷ codes "stencil"
        ∷ [])
    then memory
    else balanced

unfoldable pub same_intensity : Intensity → Intensity → Bool
same_intensity compute compute = true
same_intensity memory memory = true
same_intensity balanced balanced = true
same_intensity _ _ = false

unfoldable pub pool_of : List RosterEntry → Intensity → List RosterEntry
pool_of [] wanted = []
pool_of (entry ∷ usable) wanted =
    let pool = pool_of usable wanted in
    if same_intensity (classify entry.name) wanted then entry ∷ pool else pool

unfoldable pub narrowed : Kind → List RosterEntry → (slot : ℕ) → List RosterEntry
narrowed compute_heavy usable slot = pool_of usable compute
narrowed memory_heavy usable slot = pool_of usable memory
narrowed halves usable slot = pool_of usable (if slot % 2 == 0 then compute else memory)
narrowed mixed usable slot = []
narrowed joined usable slot = []
narrowed move usable slot = []

unfoldable pub spread_of : Kind → (slot : ℕ) → ℕ
spread_of joined slot = 0
spread_of _ slot = slot

-- An entry of a pool; the index is below its size, and past the end nothing is said of what is read.
unfoldable pub entry_at : RosterEntry → List RosterEntry → ℕ → RosterEntry
entry_at unsaid [] i = unsaid
entry_at unsaid (entry ∷ pool) zero = entry
entry_at unsaid (entry ∷ pool) (suc i) = entry_at unsaid pool i

-- `narrowed.empty() ? usable : narrowed`.
unfoldable pub pool_or : List RosterEntry → List RosterEntry → List RosterEntry
pool_or [] usable = usable
pool_or (entry ∷ pool) usable = entry ∷ pool

module _ (unsaid : RosterEntry) where
  unfoldable pub pick : Kind → List RosterEntry → (seed rotation slot : ℕ) → RosterEntry
  pick kind usable seed rotation slot =
      let pool = pool_or (narrowed kind usable slot) usable in
      entry_at unsaid pool
        ((draw seed rotation 0 picking + spread_of kind slot) % 2 ^ 64 % length pool)

pub record Switch : Type 0 where
  pub workload : List ℕ
  pub seed : ℕ
  pub footprint_bytes : ℕ
  pub decomposition : ℕ
  pub duty : DutyCycle

unfoldable pub assignment : RosterEntry → MixedOptions → (rotation slot : ℕ) → Switch
assignment entry options rotation slot =
    let half = not (bit_and (draw options.seed rotation slot sizing) 1 == 0) in
    let size = if half then options.footprint_bytes / 2 else options.footprint_bytes in
    record {
      workload = entry.name;
      seed = draw options.seed rotation slot seeding;
      footprint_bytes =
          if ltb size entry.min_footprint_bytes then options.footprint_bytes else size;
      decomposition = 0;
      duty = options.duty;
    }
