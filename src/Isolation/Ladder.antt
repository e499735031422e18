-- ===== src/Isolation/Ladder.antt =====
-- What the report of verification/isolation/ladder.cpp rests on.
use load_forge.Common.{
  ℕ, ◌≡◌, ◌↔◌, ◌⊎◌, List, [], ◌∷◌, ◌++◌, map, Bool, true, false, ◌==◌, if◌then◌else◌, arith,
}
use load_forge.Isolation.{
  Rung, same_core, other_core, single_thread, RerunRequest, RerunOutcome, Placement, Answer, yes,
  unknown, Answers, derive_finding, confidence_of, high, Step, answer_of, is_yes, Climbed, climb,
  climb_same_core, climb_other_core, climb_single_thread, climb_all, isolate,
}

unfoldable pub is_rung : Rung → Rung → Bool
is_rung same_core same_core = true
is_rung other_core other_core = true
is_rung single_thread single_thread = true
is_rung _ _ = false

-- The answer of the first step on a rung, unknown where the steps have none.
unfoldable pub answer_on : Rung → List Step → Answer
unfolding answer_of is_rung
answer_on rung [] = unknown
answer_on rung (step ∷ steps) =
    if is_rung rung step.request.rung then answer_of step.outcome else answer_on rung steps

-- The requests that a placement allows, in the ladder's order.
unfoldable pub requests_of : Placement → (again : Bool) → List RerunRequest
requests_of placement again =
    record { rung = same_core; cpu = placement.cpu; threads = placement.threads }
    ∷ (if again then elsewhere placement.other_cores ++ alone else [])
  where
    elsewhere : List ℕ → List RerunRequest
    elsewhere [] = []
    elsewhere (cpu ∷ _) = record { rung = other_core; cpu = cpu; threads = placement.threads } ∷ []

    alone : List RerunRequest
    alone =
        if placement.threads == 1
        then []
        else record { rung = single_thread; cpu = placement.cpu; threads = 1 } ∷ []

derive_finding-high :
    (answers : Answers)
    → (confidence_of (derive_finding answers) ≡ high) ↔ (
        (answers.on_same_core ≡ yes)
        × (answers.on_other_core ≡ yes)
        × (answers.on_single_thread ≡ yes))
unfolding derive_finding confidence_of
derive_finding-high answers = ground arith

module _ {S : Type 0} {WrongResult : Type 0}
    (rerun : WrongResult → RerunRequest → S → S × RerunOutcome) (finding : WrongResult)
    (placement : Placement) (state : S) where
  IsAnswered : Climbed S → Type 0
  IsAnswered climbed =
      (climbed.answers.on_same_core ≡ answer_on same_core climbed.steps)
      × (climbed.answers.on_other_core ≡ answer_on other_core climbed.steps)
      × (climbed.answers.on_single_thread ≡ (
          if placement.threads == 1
          then answer_on same_core climbed.steps
          else answer_on single_thread climbed.steps))
      × (map (λ (step : Step). step.request) climbed.steps
          ≡ requests_of placement (is_yes climbed.answers.on_same_core))

  climb_all-IsAnswered : IsAnswered (climb_all rerun finding placement state)
  unfolding climb_all climb_same_core climb_other_core climb_single_thread climb answer_of
      IsAnswered answer_on is_rung requests_of
  climb_all-IsAnswered = ground arith

  -- The report's answers are what its steps found on each rung, the same-core answer standing for the
  -- single-thread one where the unit ran one thread, and the steps are the requests of the
  -- placement: the same core alone unless that reproduced, then the first other core if there is
  -- one, and a single thread if there were more.
  pub isolate-answers :
      (((isolate rerun finding placement state).1.answers.on_same_core)
        ≡ answer_on same_core (isolate rerun finding placement state).1.steps)
      × ((isolate rerun finding placement state).1.answers.on_other_core
          ≡ answer_on other_core (isolate rerun finding placement state).1.steps)
      × ((isolate rerun finding placement state).1.answers.on_single_thread ≡ (
          if placement.threads == 1
          then answer_on same_core (isolate rerun finding placement state).1.steps
          else answer_on single_thread (isolate rerun finding placement state).1.steps))
      × (map (λ (step : Step). step.request) (isolate rerun finding placement state).1.steps
          ≡ requests_of placement
              (is_yes (isolate rerun finding placement state).1.answers.on_same_core))
  unfolding isolate IsAnswered
  isolate-answers = climb_all-IsAnswered

  -- Confidence is high exactly when the unit came out wrong again on its own core, on another core and,
  -- where it ran several threads, on a single thread.
  pub isolate-high : ((isolate rerun finding placement state).1.confidence ≡ high) ↔ (
      (answer_on same_core (isolate rerun finding placement state).1.steps ≡ yes)
      × (answer_on other_core (isolate rerun finding placement state).1.steps ≡ yes)
      × ((placement.threads ≡ 1)
          ⊎ (answer_on single_thread (isolate rerun finding placement state).1.steps ≡ yes)))
  unfolding isolate IsAnswered
  isolate-high = ground (
    arith,
    climb_all-IsAnswered,
    derive_finding-high (climb_all rerun finding placement state).answers,
  )
