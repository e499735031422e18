-- ===== src/Mixed/Cycling/Levels.antt =====
-- workloads/mixed/cycling.cpp: what the workers are doing at each level, by what the commands of worker/control.hpp
-- ask of them.
use load_forge.Common.{
  ℕ, zero, suc, ◌+◌, ◌≡◌, ◌≢◌, refl, sym, ap, ◌∙◌, List, [], ◌∷◌, ◌++◌, append_assoc, length,
  length-append, get_elem?, some, Bool, true, false, ◌==◌, subst, arith, Bool-cases, inl, inr,
  ==_iff,
}
use load_forge.Common.Int.{ℤ}
use load_forge.Mixed.{WorkerCommands, Step}
use load_forge.Mixed.Cycling.{
  CyclingOptions, State, towards_load, commanded, command_workers, wanted_at, steps_from,
}
use load_forge.Worker.Control.Types.{Command, stop, pause, resume, set_duty, rebind, switch}

-- What a command makes of a worker's state.
abbrev pub obey : State → Command → State
obey state stop = state
obey state pause = record state { paused = true }
obey state resume = record state { paused = false }
obey state (set_duty busy_permille period_ns) = record state { busy_permille = busy_permille }
obey state (rebind cpus) = state
obey state (switch workload seed footprint_bytes decomposition duty) = state

abbrev pub obey_all : State → List Command → State
obey_all state [] = state
obey_all state (command ∷ commands) = obey_all (obey state command) commands

-- A worker at a level: paused if nothing is to be busy, and otherwise running with that share.
abbrev pub IsAt : ℕ → State → Type 0
IsAt busy_permille state =
    (busy_permille ≡ 0 → state.paused ≡ true)
    × (busy_permille ≢ 0 → (state.paused ≡ false) × (state.busy_permille ≡ busy_permille))

obeyed :
    (paused : Bool) (busy busy_permille : ℕ) (period_ns : ℤ)
    → let state : State = record { paused = paused; busy_permille = busy } in
      obey_all state (towards_load state busy_permille period_ns).0
      ≡ (towards_load state busy_permille period_ns).1
unfolding towards_load
obeyed true busy busy_permille period_ns = ground arith
obeyed false busy busy_permille period_ns = ground arith

stays :
    (state : State) (busy_permille : ℕ) (period_ns : ℤ)
    → IsAt busy_permille state
    → (towards_load state busy_permille period_ns).0 ≡ []
unfolding towards_load
stays state busy_permille period_ns (idle, runs) = elim (Bool-cases (busy_permille == 0)) [
  | inl none_busy ↦ let e = idle ((==_iff busy_permille 0).0 none_busy) in ground (arith, e)
  | inr some_busy ↦ let e = runs (λ z. ground (arith, z, some_busy)) in ground (arith, e.0, e.1)
]

-- The commands towards a level bring a worker to it, and to the state that the schedule notes for it; a worker that is
-- there is sent none.
pub towards_load_lem :
    (state : State) (busy_permille : ℕ) (period_ns : ℤ)
    → (obey_all state (towards_load state busy_permille period_ns).0
        ≡ (towards_load state busy_permille period_ns).1)
      × IsAt busy_permille (towards_load state busy_permille period_ns).1
      × (IsAt busy_permille state → (towards_load state busy_permille period_ns).0 ≡ [])
unfolding towards_load
towards_load_lem state busy_permille period_ns = (
  obeyed state.paused state.busy_permille busy_permille period_ns,
  (λ idle. ground arith, λ busy. (ground arith, ground arith)),
  stays state busy_permille period_ns,
)

abbrev pub update_at : ℕ → (State → State) → List State → List State
update_at i f [] = []
update_at zero f (state ∷ states) = f state ∷ states
update_at (suc i) f (state ∷ states) = state ∷ update_at i f states

-- The workers' states after a step's commands.
abbrev pub follow : List State → List WorkerCommands → List State
follow states [] = states
follow states (each ∷ more) =
    follow (update_at each.slot (λ state. obey_all state each.commands) states) more

update_at-append :
    (f : State → State) (before : List State) (state : State) (states : List State)
    → update_at (length before) f (before ++ state ∷ states) ≡ before ++ f state ∷ states
update_at-append f [] state states = refl
update_at-append f (x ∷ before) state states = ap (◌∷◌ x) (update_at-append f before state states)

follow-commanded :
    (before : List State) (state : State) (states : List State) (commands : List Command)
    (rest : List WorkerCommands)
    → follow (before ++ state ∷ states) (commanded (length before) commands rest)
      ≡ follow (before ++ obey_all state commands ∷ states) rest
unfolding commanded
follow-commanded before state states [] rest = refl
follow-commanded before state states (command ∷ commands) rest =
    ap (λ l. follow l rest)
      (update_at-append (λ s. obey_all s (command ∷ commands)) before state states)

moved_to : (a b : State) → some a ≡ some b → a ≡ b
moved_to a b e = cc

module _ (wanted : ℕ → ℕ) (period_ns : ℤ) where
  follow-command_workers :
      (states before : List State)
      → follow (before ++ states) (command_workers wanted period_ns (length before) states).0
        ≡ before ++ (command_workers wanted period_ns (length before) states).1
  unfolding command_workers
  follow-command_workers [] before = refl
  follow-command_workers (state ∷ states) before =
      let moved = towards_load state (wanted (length before)) period_ns in
      let later = command_workers wanted period_ns (suc (length before)) states in
      follow-commanded before state states moved.0 later.0
      ∙ ap (λ s. follow (before ++ s ∷ states) later.0)
          (towards_load_lem state (wanted (length before)) period_ns).0
      ∙ ap (λ l. follow l later.0) (sym (append_assoc before (moved.1 ∷ []) states))
      ∙ subst
          (λ n.
            follow ((before ++ moved.1 ∷ []) ++ states)
              (command_workers wanted period_ns n states).0
            ≡ (before ++ moved.1 ∷ []) ++ (command_workers wanted period_ns n states).1)
          (length-append before (moved.1 ∷ []) ∙ omega arith)
          (follow-command_workers states (before ++ moved.1 ∷ []))
      ∙ append_assoc before (moved.1 ∷ []) later.1

  command_workers-IsAt :
      (states : List State) (slot i : ℕ) (state : State)
      → get_elem? (command_workers wanted period_ns slot states).1 i ≡ some state
      → IsAt (wanted (slot + i)) state
  unfolding command_workers
  command_workers-IsAt [] slot i state there = cc
  command_workers-IsAt (first ∷ states) slot zero state there =
      let moved = towards_load first (wanted slot) period_ns in
      subst (λ n. IsAt (wanted n) state) (omega arith)
        (subst (IsAt (wanted slot)) (moved_to moved.1 state there)
          (towards_load_lem first (wanted slot) period_ns).1)
  command_workers-IsAt (first ∷ states) slot (suc i) state there =
      subst (λ n. IsAt (wanted n) state) (omega arith)
        (command_workers-IsAt states (suc slot) i state there)

-- After each of the steps, from level `level` on, every worker is at its level.
abbrev pub AreReached : CyclingOptions → (level : ℕ) → List State → List Step → Type 0
AreReached options level states [] = Unit {0}
AreReached options level states (step ∷ steps) =
    ((slot : ℕ) (state : State)
      → get_elem? (follow states step.workers) slot ≡ some state
      → IsAt (wanted_at options.kind options.workers level slot) state)
    × AreReached options (suc level) (follow states step.workers) steps

pub steps_from-AreReached :
    (options : CyclingOptions) (left level : ℕ) (states : List State)
    → AreReached options level states (steps_from options left level states)
unfolding steps_from
steps_from-AreReached options zero level states = tt
steps_from-AreReached options (suc left) level states =
    let wanted = wanted_at options.kind options.workers level in
    let followed = follow-command_workers wanted options.period_ns states [] in
    (
      λ slot state there.
          subst (λ n. IsAt (wanted n) state) (omega arith)
            (command_workers-IsAt wanted options.period_ns states 0 slot state
              (ap (λ l. get_elem? l slot) (sym followed) ∙ there)),
      subst
          (λ l. AreReached options (suc level) l (
            steps_from options left (suc level)
              (command_workers wanted options.period_ns 0 states).1))
          (sym followed)
          (steps_from-AreReached options left (suc level)
            (command_workers wanted options.period_ns 0 states).1),
    )
