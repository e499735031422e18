-- ===== src/Mixed/Cycling.antt =====
-- workloads/mixed/cycling.cpp: the schedules of thermal and power cycling.
pub mod Levels
pub mod Commands
pub mod Accepted
use load_forge.Common.{
  ℕ, zero, suc, ◌+◌, ◌-◌, ◌*◌, ◌/◌, ◌%◌, max, List, [], ◌∷◌, ◌++◌, length, replicate, Bool, true,
  false, ◌||◌, not, ltb, leb, ◌==◌, if◌then◌else◌, Outcome, ok, err,
}
use load_forge.Common.Int.{ℤ, pos, negsuc, leb_ℤ}
use load_forge.Common.Texts.{codes}
use load_forge.Core.Numbers.{to_decimal}
use load_forge.Mixed.{WorkerCommands, Step, Schedule}
use load_forge.Mixed.Labels.{label}
use load_forge.Worker.Control.Types.{Command, pause, resume, set_duty}

pub data CycleKind : Type 0 where
  load cores : CycleKind

pub record CyclingOptions : Type 0 where
  pub kind : CycleKind
  pub workers : ℕ
  pub duration_ns : ℤ
  pub dwell_ns : ℤ
  pub period_ns : ℤ

-- Why the options make no schedule: a constructor for each text, with the numbers that it prints.
pub data CyclingRefusal : Type 0 where
  no_workers not_positive : CyclingRefusal
  too_many_steps : (dwell_ms duration_ms : ℕ) → CyclingRefusal
  too_many_commands : (workers levels : ℕ) → CyclingRefusal

abbrev pub max_steps : ℕ
max_steps = 100000

abbrev pub max_commands : ℕ
max_commands = 4000000

unfoldable pub describe : CycleKind → List ℕ
describe load = codes "load"
describe cores = codes "cores"

pub record LoadLevel : Type 0 where
  pub busy_permille : ℕ
  pub name : List ℕ

-- kLoadLevels, at an index below four.
unfoldable pub load_level : ℕ → LoadLevel
load_level zero = record { busy_permille = 0; name = codes "idle" }
load_level (suc zero) = record { busy_permille = 1000; name = codes "heavy" }
load_level (suc (suc zero)) = record { busy_permille = 500; name = codes "moderate" }
load_level (suc (suc (suc i))) = record { busy_permille = 1000; name = codes "heavy" }

-- kCoreLevels, at an index below five.
unfoldable pub core_level : ℕ → ℕ
core_level zero = 125
core_level (suc zero) = 500
core_level (suc (suc zero)) = 1000
core_level (suc (suc (suc zero))) = 250
core_level (suc (suc (suc (suc i)))) = 1000

pub record State : Type 0 where
  pub paused : Bool
  pub busy_permille : ℕ

-- `std::vector<State> states(options.workers)` holds this one.
abbrev pub running : State
running = record { paused = false; busy_permille = 1000 }

abbrev when : Bool → Command → List Command
when true command = command ∷ []
when false command = []

unfoldable pub towards_load : State → (busy_permille : ℕ) → (period_ns : ℤ) → List Command × State
towards_load state busy_permille period_ns =
    if busy_permille == 0
    then (when (not state.paused) pause, record state { paused = true })
    else (
      when state.paused resume
          ++ when (not (state.busy_permille == busy_permille)) (set_duty busy_permille period_ns),
      record { paused = false; busy_permille = busy_permille },
    )

-- What the level asks of a worker.
unfoldable pub wanted_of : CycleKind → (busy_permille working slot : ℕ) → ℕ
wanted_of load busy_permille working slot = busy_permille
wanted_of cores busy_permille working slot = if ltb slot working then 1000 else 0

-- A worker with no command is left out of the step.
unfoldable pub commanded : (slot : ℕ) → List Command → List WorkerCommands → List WorkerCommands
commanded slot [] rest = rest
commanded slot (command ∷ commands) rest =
    record { slot = slot; commands = command ∷ commands } ∷ rest

-- The loop over the workers from `slot` on.
unfoldable pub command_workers :
    (wanted : ℕ → ℕ) → (period_ns : ℤ) → (slot : ℕ) → List State → List WorkerCommands × List State
command_workers wanted period_ns slot [] = ([], [])
command_workers wanted period_ns slot (state ∷ states) =
    let (commands, after) = towards_load state (wanted slot) period_ns in
    let (rest, others) = command_workers wanted period_ns (suc slot) states in
    (commanded slot commands rest, after ∷ others)

-- How many of the workers the level of a cores cycle leaves at work.
unfoldable pub working_at : (workers level : ℕ) → ℕ
working_at workers level = max 1 (workers * core_level (level % 5) / 1000)

unfoldable pub wanted_at : CycleKind → (workers level : ℕ) → ℕ → ℕ
wanted_at load workers level slot =
    wanted_of load (load_level (level % 4)).busy_permille workers slot
wanted_at cores workers level slot = wanted_of cores 1000 (working_at workers level) slot

unfoldable pub name_at : CycleKind → (workers level : ℕ) → List ℕ
name_at load workers level = (load_level (level % 4)).name
name_at cores workers level =
    to_decimal (working_at workers level) ++ (codes " of " ++ to_decimal workers)

-- The count of a positive time; a schedule is made of no other.
abbrev pub count_of : ℤ → ℕ
count_of (pos n) = n
count_of (negsuc n) = 0

unfoldable pub workload_of : CycleKind → List ℕ
workload_of kind = codes "cycling " ++ describe kind

-- The loop over the levels from `level` on, for the `left` that remain.
unfoldable pub steps_from : CyclingOptions → (left level : ℕ) → List State → List Step
steps_from options zero level states = []
steps_from options (suc left) level states =
    let (workers, after) =
      command_workers (wanted_at options.kind options.workers level) options.period_ns 0 states in
    record {
      at_ns = pos (level * count_of options.dwell_ns);
      phase = label b'c' level (name_at options.kind options.workers level);
      workload = workload_of options.kind;
      workers = workers;
    }
    ∷ steps_from options left (suc level) after

unfoldable pub levels_of : CyclingOptions → ℕ
levels_of options = (count_of options.duration_ns - 1) / count_of options.dwell_ns + 1

unfoldable pub make_cycling : CyclingOptions → Outcome Schedule CyclingRefusal
make_cycling options =
    if options.workers == 0
    then err no_workers
    else if leb_ℤ options.duration_ns (pos 0)
        || leb_ℤ options.dwell_ns (pos 0)
        || leb_ℤ options.period_ns (pos 0)
    then err not_positive
    else if ltb max_steps (levels_of options)
    then err (
        too_many_steps (count_of options.dwell_ns / 1000000)
          (count_of options.duration_ns / 1000000))
    else if ltb (max_commands / levels_of options) options.workers
    then err (too_many_commands options.workers (levels_of options))
    else ok (record {
      workers = options.workers;
      start = [];
      phase = codes "run";
      workload = workload_of options.kind;
      steps = steps_from options (levels_of options) 0 (replicate options.workers running);
    })
