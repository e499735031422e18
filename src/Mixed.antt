-- ===== src/Mixed.antt =====
-- workloads/mixed/schedule.cpp: the rules on a schedule, which says what each worker is sent and when.
-- A problem is a constructor for each of the code's texts, with the numbers that it prints.
pub mod Accepted
pub mod Labels
pub mod Steps
pub mod Times
pub mod Cycling
pub mod Rotation
pub mod Roster
use load_forge.Common.{
  ℕ, suc, ◌+◌, ◌≡◌, List, [], ◌∷◌, length, Bool, true, false, ◌&&◌, ◌||◌, not, ltb, leb, ◌==◌,
  if◌then◌else◌, Option, none, some,
}
use load_forge.Common.Int.{ℤ, pos, ltb_ℤ}
use load_forge.Journal.Format.{max_label_bytes}
use load_forge.Telemetry.Sample.{same_name}
use load_forge.Worker.Control.Types.{Command, ControlMessage, is_valid, is_valid_name}

pub record WorkerCommands : Type 0 where
  pub slot : ℕ
  pub commands : List Command

pub record Step : Type 0 where
  pub at_ns : ℤ
  pub phase : List ℕ
  pub workload : List ℕ
  pub workers : List WorkerCommands

pub record Start : Type 0 where
  pub workload : List ℕ
  pub footprint_bytes : ℕ

pub record Schedule : Type 0 where
  pub workers : ℕ
  pub start : List Start
  pub phase : List ℕ
  pub workload : List ℕ
  pub steps : List Step

pub data Problem : Type 0 where
  other_workers : (planned run : ℕ) → Problem
  starts_missing first_label_too_long : Problem
  bad_start : (slot : ℕ) → Problem
  label_repeated not_after label_too_long : (phase : List ℕ) → Problem
  no_such_worker breaks_rules : (phase : List ℕ) → (slot : ℕ) → Problem

-- `if (auto bad = first; bad.has_value()) return bad;`, and what follows it.
unfoldable pub unless : Option Problem → Option Problem → Option Problem
unless none rest = rest
unless (some bad) rest = some bad

-- The loop of start_problem, from slot `slot` on.
unfoldable pub start_problem : ℕ → List Start → Option Problem
start_problem slot [] = none
start_problem slot (start ∷ starts) =
    let rest = start_problem (suc slot) starts in
    if not (is_valid_name start.workload) || (start.footprint_bytes == 0)
    then some (bad_start slot)
    else rest

unfoldable pub sent_problem : List ℕ → ℕ → List Command → Option Problem
sent_problem phase slot [] = none
sent_problem phase slot (command ∷ commands) =
    let rest = sent_problem phase slot commands in
    if not (is_valid (record { sequence = 0; command = command }))
    then some (breaks_rules phase slot)
    else rest

unfoldable pub commands_problem : List ℕ → ℕ → List WorkerCommands → Option Problem
unfolding unless sent_problem
commands_problem phase workers [] = none
commands_problem phase workers (each ∷ more) =
    let rest = commands_problem phase workers more in
    if leb workers each.slot
    then some (no_such_worker phase each.slot)
    else unless (sent_problem phase each.slot each.commands) rest

-- Whether the set of the labels seen holds one.
unfoldable pub has_label : List ℕ → List (List ℕ) → Bool
has_label label [] = false
has_label label (other ∷ seen) = same_name label other || has_label label seen

-- The loop over the steps, with the labels seen and the time of the step before.
unfoldable pub steps_problem : List (List ℕ) → ℤ → ℕ → List Step → Option Problem
unfolding has_label unless commands_problem
steps_problem seen before workers [] = none
steps_problem seen before workers (step ∷ steps) =
    let rest = steps_problem (step.phase ∷ seen) step.at_ns workers steps in
    if has_label step.phase seen
    then some (label_repeated step.phase)
    else if ltb_ℤ step.at_ns before
    then some (not_after step.phase)
    else if ltb max_label_bytes (length step.phase) || ltb max_label_bytes (length step.workload)
    then some (label_too_long step.phase)
    else unless (commands_problem step.phase workers step.workers) rest

unfoldable pub problem : Schedule → ℕ → Option Problem
unfolding unless start_problem steps_problem
problem schedule workers =
    if not (schedule.workers == workers)
    then some (other_workers schedule.workers workers)
    else if not (length schedule.start == 0) && not (length schedule.start == workers)
    then some starts_missing
    else if ltb max_label_bytes (length schedule.phase)
        || ltb max_label_bytes (length schedule.workload)
    then some first_label_too_long
    else unless (start_problem 0 schedule.start) (steps_problem [] (pos 0) workers schedule.steps)
