-- ===== src/Isolation.antt =====
-- verification/isolation.hpp and verification/isolation/ladder.cpp: the ladder of re-runs by which a
-- wrong result is isolated. The re-runner starts workers: it is a function of a state of its own,
-- which a run of the ladder passes along. A finding that is re-run is any type `WrongResult`.
pub mod Ladder
use load_forge.Common.{ℕ, ◌≡◌, List, [], ◌∷◌, ◌++◌, Bool, true, false, ◌==◌, if◌then◌else◌}

pub data Rung : Type 0 where
  same_core other_core single_thread : Rung

pub record RerunRequest : Type 0 where
  pub rung : Rung
  pub cpu : ℕ
  pub threads : ℕ

pub data RerunOutcome : Type 0 where
  reproduced clean not_performed : RerunOutcome

pub record Placement : Type 0 where
  pub cpu : ℕ
  pub threads : ℕ
  pub other_cores : List ℕ

pub data Answer : Type 0 where
  yes no unknown : Answer

pub record Answers : Type 0 where
  pub on_same_core : Answer
  pub on_other_core : Answer
  pub on_single_thread : Answer

pub data Finding : Type 0 where
  non_reproducible_transient core_local not_core_local : Finding
  concurrency_dependent reproducible_unlocated inconclusive : Finding

pub data Confidence : Type 0 where
  low medium high : Confidence

-- The comparisons in their order, each rule below the one above it.
unfoldable pub derive_finding : Answers → Finding
derive_finding answers = by_same_core answers.on_same_core
  where
    by_other_core : Answer → Finding
    by_other_core no = core_local
    by_other_core yes = not_core_local
    by_other_core unknown = reproducible_unlocated

    by_single_thread : Answer → Finding
    by_single_thread no = concurrency_dependent
    by_single_thread unknown = inconclusive
    by_single_thread yes = by_other_core answers.on_other_core

    by_same_core : Answer → Finding
    by_same_core unknown = inconclusive
    by_same_core no = non_reproducible_transient
    by_same_core yes = by_single_thread answers.on_single_thread

unfoldable pub confidence_of : Finding → Confidence
confidence_of not_core_local = high
confidence_of core_local = medium
confidence_of reproducible_unlocated = medium
confidence_of _ = low

pub record Step : Type 0 where
  pub request : RerunRequest
  pub outcome : RerunOutcome

pub record IsolationReport : Type 0 where
  pub steps : List Step
  pub answers : Answers
  pub finding : Finding
  pub confidence : Confidence

unfoldable pub answer_of : RerunOutcome → Answer
answer_of reproduced = yes
answer_of clean = no
answer_of not_performed = unknown

abbrev pub is_yes : Answer → Bool
is_yes yes = true
is_yes _ = false

-- The re-runner's state, the steps pushed so far and the answers, which the ladder carries.
pub record Climbed (S : Type 0) : Type 0 where
  pub after : S
  pub steps : List Step
  pub answers : Answers

abbrev no_answers : Answers
no_answers = record { on_same_core = unknown; on_other_core = unknown; on_single_thread = unknown }

module _ {S : Type 0} {WrongResult : Type 0}
    (rerun : WrongResult → RerunRequest → S → S × RerunOutcome) where
  -- One step: the re-run is made, then the step is pushed and its answer returned.
  unfoldable pub climb : WrongResult → RerunRequest → S → S × Step × Answer
  unfolding answer_of
  climb finding request state =
      let ran = rerun finding request state in
      (ran.0, record { request = request; outcome = ran.1 }, answer_of ran.1)

  unfoldable pub climb_same_core : WrongResult → Placement → S → Climbed S
  unfolding climb
  climb_same_core finding placement state =
      let step =
        climb finding
          (record { rung = same_core; cpu = placement.cpu; threads = placement.threads }) state in
      record {
        after = step.0;
        steps = step.1 ∷ [];
        answers = record {
          on_same_core = step.2;
          on_other_core = unknown;
          on_single_thread = if placement.threads == 1 then step.2 else unknown;
        };
      }

  unfoldable pub climb_other_core : WrongResult → Placement → Climbed S → Climbed S
  unfolding climb
  climb_other_core finding placement climbed = try_first placement.other_cores
    where
      try_first : List ℕ → Climbed S
      try_first [] = climbed
      try_first (cpu ∷ _) =
          let step =
            climb finding (record { rung = other_core; cpu = cpu; threads = placement.threads })
              climbed.after in
          record {
            after = step.0;
            steps = climbed.steps ++ (step.1 ∷ []);
            answers = record climbed.answers { on_other_core = step.2 };
          }

  unfoldable pub climb_single_thread : WrongResult → Placement → Climbed S → Climbed S
  unfolding climb
  climb_single_thread finding placement climbed =
      if placement.threads == 1
      then climbed
      else (let step =
            climb finding (record { rung = single_thread; cpu = placement.cpu; threads = 1 })
              climbed.after in
          record {
            after = step.0;
            steps = climbed.steps ++ (step.1 ∷ []);
            answers = record climbed.answers { on_single_thread = step.2 };
          })

  unfoldable pub climb_all : WrongResult → Placement → S → Climbed S
  unfolding climb_same_core climb_other_core climb_single_thread
  climb_all finding placement state =
      let first = climb_same_core finding placement state in
      if is_yes first.answers.on_same_core
      then climb_single_thread finding placement (climb_other_core finding placement first)
      else first

  unfoldable pub isolate : WrongResult → Placement → S → S × IsolationReport
  unfolding climb_all derive_finding confidence_of
  isolate finding placement state =
      let climbed = climb_all finding placement state in
      let found = derive_finding climbed.answers in
      (
        climbed.after,
        record {
          steps = climbed.steps;
          answers = climbed.answers;
          finding = found;
          confidence = confidence_of found;
        },
      )
