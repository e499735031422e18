-- ===== src/Mixed/Accepted.antt =====
-- What a schedule that the rules of workloads/mixed/schedule.cpp accept promises the workers.
use load_forge.Common.{ℕ, ◌≤◌, ◌<◌, ◌≡◌, List, [], ◌∷◌, length, true, All, none, arith}
use load_forge.Common.Int.{ℤ, pos, ◌≤ℤ◌}
use load_forge.Journal.Format.{max_label_bytes}
use load_forge.Mixed.{
  WorkerCommands, Step, Schedule, unless, sent_problem, commands_problem, steps_problem, problem,
}
use load_forge.Worker.Control.Types.{Command, is_valid}

-- A command that a worker's decoder does not refuse.
abbrev pub IsSent : Command → Type 0
IsSent command = is_valid (record { sequence = 0; command = command }) ≡ true

abbrev pub IsFor : ℕ → WorkerCommands → Type 0
IsFor workers each = (each.slot < workers) × All IsSent each.commands

-- Steps in order from a time on, each with labels that the journal takes and commands for the workers.
abbrev pub AreSteps : ℕ → ℤ → List Step → Type 0
AreSteps workers before [] = Unit {0}
AreSteps workers before (step ∷ steps) =
    (before ≤ℤ step.at_ns)
    × (length step.phase ≤ max_label_bytes)
    × (length step.workload ≤ max_label_bytes)
    × All (IsFor workers) step.workers
    × AreSteps workers step.at_ns steps

sent :
    (phase : List ℕ) (slot : ℕ) (commands : List Command)
    → sent_problem phase slot commands ≡ none
    → All IsSent commands
unfolding sent_problem
sent phase slot [] fine = tt
sent phase slot (command ∷ commands) fine = ground (arith, sent phase slot commands)

commanded :
    (phase : List ℕ) (workers : ℕ) (each : List WorkerCommands)
    → commands_problem phase workers each ≡ none
    → All (IsFor workers) each
unfolding commands_problem unless
commanded phase workers [] fine = tt
commanded phase workers (each ∷ more) fine =
    ground (arith, sent phase each.slot each.commands, commanded phase workers more)

stepped :
    (seen : List (List ℕ)) (before : ℤ) (workers : ℕ) (steps : List Step)
    → steps_problem seen before workers steps ≡ none
    → AreSteps workers before steps
unfolding steps_problem unless
stepped seen before workers [] fine = tt
stepped seen before workers (step ∷ steps) fine = ground (
  arith,
  commanded step.phase workers step.workers,
  stepped (step.phase ∷ seen) step.at_ns workers steps,
)

-- A schedule that has no problem is for as many workers as the run has; its steps start at 0 or later
-- and never go back in time, their labels fit the journal's entries, and every command is for a
-- worker of the run and keeps the rules of its kind.
pub problem-AreSteps :
    (schedule : Schedule) (workers : ℕ)
    → problem schedule workers ≡ none
    → (schedule.workers ≡ workers) × AreSteps workers (pos 0) schedule.steps
unfolding problem unless
problem-AreSteps schedule workers fine = ground (arith, stepped [] (pos 0) workers schedule.steps)
