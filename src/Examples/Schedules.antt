-- ===== src/Examples/Schedules.antt =====
-- The theorem about schedules at a concrete one.
use load_forge.Common.{◌≡◌, refl, List, [], ◌∷◌, none}
use load_forge.Common.Int.{pos}
use load_forge.Mixed.{
  Schedule, Step, problem, unless, start_problem, steps_problem, has_label, commands_problem,
  sent_problem,
}
use load_forge.Mixed.Accepted.{AreSteps, problem-AreSteps}
use load_forge.Worker.Control.Types.{pause, resume, is_valid_command}
use load_forge.Telemetry.Sample.{same_name}

-- Two workers: the second pauses at 5 and goes on at 9.
abbrev two_steps : List Step
two_steps =
    record {
      at_ns = pos 5;
      phase = b'a' ∷ [];
      workload = b'x' ∷ [];
      workers = record { slot = 1; commands = pause ∷ [] } ∷ [];
    }
    ∷ record {
      at_ns = pos 9;
      phase = b'b' ∷ [];
      workload = b'x' ∷ [];
      workers = record { slot = 1; commands = resume ∷ [] } ∷ [];
    }
    ∷ []

abbrev pausing : Schedule
pausing = record { workers = 2; start = []; phase = []; workload = b'x' ∷ []; steps = two_steps }

pausing_accepted : problem pausing 2 ≡ none
unfolding problem unless start_problem steps_problem has_label commands_problem sent_problem
    is_valid_command same_name
pausing_accepted = refl

problem-AreSteps_example : (pausing.workers ≡ 2) × AreSteps 2 (pos 0) two_steps
problem-AreSteps_example = problem-AreSteps pausing 2 pausing_accepted
