-- ===== src/Examples/Verdicts.antt =====
-- The theorems about fates and isolation at concrete inputs.
use load_forge.Common.{
  ℕ, ◌+◌, ◌/◌, ◌%◌, ◌≡◌, ◌↔◌, ◌⊎◌, refl, [], ◌∷◌, true, false, ◌==◌, not, ◌&&◌, some, none,
  if◌then◌else◌,
}
use load_forge.Platform.ExitStatus.{WaitMacros, exited, termination, code, signal}
use load_forge.Controller.Supervision.{
  Evidence, classify, classify_signal, attempted, is_clean, oom_killed, timed_out,
  stopped_by_controller, oom_candidate,
}
use load_forge.Controller.Supervision.Fates.{
  classify-is_clean, classify-oom_killed, classify-by_controller, IsByController,
}
use load_forge.Isolation.{
  same_core, other_core, single_thread, RerunRequest, RerunOutcome, reproduced, clean, Placement,
  yes, high, isolate, IsolationReport,
}
use load_forge.Isolation.Ladder.{answer_on, isolate-high}

-- The macros as glibc defines them.
abbrev glibc : WaitMacros
glibc = record {
  wifexited = λ raw. raw % 128 == 0;
  wifsignaled = λ raw. not (raw % 128 == 0) && not (raw % 128 == 127);
  wifstopped = λ raw. raw % 256 == 127;
  wifcontinued = λ raw. raw == 65535;
  wcoredump = λ raw. raw / 128 % 2 == 1;
  wexitstatus = λ raw. raw / 256 % 256;
  wtermsig = λ raw. raw % 128;
  wstopsig = λ raw. raw / 256 % 256;
}

-- A worker that a SIGKILL ended, which the controller had not sent.
abbrev killed_worker : Evidence
killed_worker = record {
  status = 9;
  signal_attempted = none;
  stale_when_signalled = false;
  finished_seen = false;
  channel_corrupt = false;
  channel_truncated = false;
  oom_kill_recorded = true;
  oom_inconclusive = false;
}

classify-is_clean_example : (is_clean (classify glibc killed_worker) ≡ true) ↔ (
    (killed_worker.channel_corrupt ≡ false)
    × (termination glibc 9 ≡ exited)
    × (code glibc 9 ≡ 0)
    × (killed_worker.finished_seen ≡ true)
    × (killed_worker.channel_truncated ≡ false))
classify-is_clean_example = classify-is_clean glibc killed_worker

classify-oom_killed_example :
    (classify glibc killed_worker ≡ oom_killed)
    ↔ ((oom_candidate glibc killed_worker ≡ true) × (killed_worker.oom_kill_recorded ≡ true))
classify-oom_killed_example = classify-oom_killed glibc killed_worker

-- A stale worker that the controller's SIGKILL ended.
abbrev stale_worker : Evidence
stale_worker = record killed_worker {
  signal_attempted = some 9;
  stale_when_signalled = true;
  oom_kill_recorded = false;
}

classify-by_controller_example :
    ((classify glibc stale_worker ≡ timed_out)
      ↔ (IsByController glibc stale_worker × (stale_worker.stale_when_signalled ≡ true)))
    × ((classify glibc stale_worker ≡ stopped_by_controller)
        ↔ (IsByController glibc stale_worker × (stale_worker.stale_when_signalled ≡ false)))
classify-by_controller_example = classify-by_controller glibc stale_worker

stale_timed_out : classify glibc stale_worker ≡ timed_out
unfolding classify classify_signal attempted termination signal
stale_timed_out = refl

-- A re-runner that finds the unit wrong on CPU 4 alone, and counts its re-runs.
abbrev only_cpu_4 : ℕ → RerunRequest → ℕ → ℕ × RerunOutcome
only_cpu_4 finding request runs = (runs + 1, if request.cpu == 4 then reproduced else clean)

abbrev on_cpu_4 : Placement
on_cpu_4 = record { cpu = 4; threads = 2; other_cores = 6 ∷ 8 ∷ [] }

abbrev report_4 : IsolationReport
report_4 = (isolate only_cpu_4 17 on_cpu_4 0).1

isolate-high_example : (report_4.confidence ≡ high) ↔ (
    (answer_on same_core report_4.steps ≡ yes)
    × (answer_on other_core report_4.steps ≡ yes)
    × ((on_cpu_4.threads ≡ 1) ⊎ (answer_on single_thread report_4.steps ≡ yes)))
isolate-high_example = isolate-high only_cpu_4 17 on_cpu_4 0
