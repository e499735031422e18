-- ===== src/Mixed/Cycling/Commands.antt =====
-- workloads/mixed/cycling.cpp: the commands of a level, which keep their rules, and its name.
use load_forge.Common.{
  ℕ, zero, suc, ◌+◌, ◌*◌, ◌/◌, ◌%◌, ◌^◌, ◌≤◌, ◌<◌, ◌≡◌, refl, ap, List, [], ◌∷◌, ◌++◌, length,
  length-append, true, none, arith,
}
use load_forge.Common.Int.{ℤ, pos, ltb_ℤ}
use load_forge.Common.Texts.{codes}
use load_forge.Core.Numbers.{to_decimal}
use load_forge.Mixed.{WorkerCommands, unless, sent_problem, commands_problem}
use load_forge.Mixed.Cycling.{
  CycleKind, load, cores, max_commands, load_level, core_level, State, towards_load, commanded,
  command_workers, wanted_of, wanted_at, working_at, name_at,
}
use load_forge.Mixed.Labels.{to_decimal-length}
use load_forge.Worker.Control.Types.{Command, is_valid_command}

pub towards_load-sent :
    (phase : List ℕ) (slot : ℕ) (state : State) (busy_permille : ℕ) (period_ns : ℤ)
    → busy_permille ≤ 1000
    → ltb_ℤ (pos 0) period_ns ≡ true
    → sent_problem phase slot (towards_load state busy_permille period_ns).0 ≡ none
unfolding towards_load sent_problem is_valid_command
towards_load-sent phase slot state busy_permille period_ns share positive = ground arith

pub commanded-accepted :
    (phase : List ℕ) (workers slot : ℕ) (commands : List Command) (rest : List WorkerCommands)
    → slot < workers
    → sent_problem phase slot commands ≡ none
    → commands_problem phase workers rest ≡ none
    → commands_problem phase workers (commanded slot commands rest) ≡ none
unfolding commanded commands_problem unless
commanded-accepted phase workers slot [] rest there fine later = later
commanded-accepted phase workers slot (command ∷ commands) rest there fine later = ground arith

pub command_workers-accepted :
    (phase : List ℕ) (workers : ℕ) (wanted : ℕ → ℕ) (period_ns : ℤ)
    → ((slot : ℕ) → wanted slot ≤ 1000)
    → ltb_ℤ (pos 0) period_ns ≡ true
    → (states : List State) (slot : ℕ) → slot + length states ≤ workers
    → commands_problem phase workers (command_workers wanted period_ns slot states).0 ≡ none
unfolding command_workers
command_workers-accepted phase workers wanted period_ns shares positive [] slot within =
    unfold commands_problem in refl
command_workers-accepted phase workers wanted period_ns shares positive (state ∷ states) slot
      within =
    commanded-accepted phase workers slot (towards_load state (wanted slot) period_ns).0
      (command_workers wanted period_ns (suc slot) states).0 (omega (arith, within))
      (towards_load-sent phase slot state (wanted slot) period_ns (shares slot) positive)
      (command_workers-accepted phase workers wanted period_ns shares positive states (suc slot)
        (omega (arith, within)))

pub command_workers-length :
    (wanted : ℕ → ℕ) (period_ns : ℤ) (states : List State) (slot : ℕ)
    → length (command_workers wanted period_ns slot states).1 ≡ length states
unfolding command_workers
command_workers-length wanted period_ns [] slot = refl
command_workers-length wanted period_ns (state ∷ states) slot =
    ap suc (command_workers-length wanted period_ns states (suc slot))

pub load_level-le :
    (i : ℕ) → ((load_level i).busy_permille ≤ 1000) × (length (load_level i).name ≤ 50)
unfolding load_level
load_level-le zero = (omega arith, omega arith)
load_level-le (suc zero) = (omega arith, omega arith)
load_level-le (suc (suc zero)) = (omega arith, omega arith)
load_level-le (suc (suc (suc i))) = (omega arith, omega arith)

pub core_level-le : (i : ℕ) → core_level i ≤ 1000
unfolding core_level
core_level-le zero = omega arith
core_level-le (suc zero) = omega arith
core_level-le (suc (suc zero)) = omega arith
core_level-le (suc (suc (suc zero))) = omega arith
core_level-le (suc (suc (suc (suc i)))) = omega arith

pub wanted_at-le :
    (kind : CycleKind) (workers level slot : ℕ) → wanted_at kind workers level slot ≤ 1000
unfolding wanted_at wanted_of
wanted_at-le load workers level slot = (load_level-le (level % 4)).0
wanted_at-le cores workers level slot = ground arith

pub working_at-le :
    (workers level : ℕ) → 0 < workers → workers ≤ max_commands → working_at workers level < 10 ^ 8
unfolding working_at
working_at-le workers level some_there few =
    let share : workers * core_level (level % 5) / 1000 ≤ workers =
      grind (arith, core_level-le (level % 5)) in
    omega (arith, share, few)

pub name_at-length :
    (kind : CycleKind) (workers level : ℕ)
    → 0 < workers
    → workers ≤ max_commands
    → length (name_at kind workers level) ≤ 50
unfolding name_at
name_at-length load workers level some_there few = (load_level-le (level % 4)).1
name_at-length cores workers level some_there few = omega (
  arith,
  length-append (to_decimal (working_at workers level)) (codes " of " ++ to_decimal workers),
  to_decimal-length 7 (working_at workers level) (working_at-le workers level some_there few),
  to_decimal-length 7 workers (omega (arith, few)),
)
