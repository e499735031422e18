-- ===== src/Controller/Supervision/Fates.antt =====
-- What the fates of controller/supervision.cpp require of the evidence.
use load_forge.Common.{
  not, ◌&&◌, ℕ, ◌≤◌, ◌≡◌, refl, ap, sym, ◌↔◌, true, false, ◌+◌, arith, some, Outcome, ok, err,
}
use load_forge.Platform.ExitStatus.{
  WaitMacros, exited, signalled, termination, code, signal, sigkill, is_success, is_exited,
  killed_by_sigkill, is_signalled,
}
use load_forge.Controller.Supervision.{
  oom_killed, stopped_by_controller, timed_out, Evidence, classify, classify_exit, classify_signal,
  attempted, is_fault_signal, oom_candidate, judge_oom_kills, judge_counts, is_clean,
}

module _ (os : WaitMacros) (evidence : Evidence) where
  -- A worker is counted as clean exactly when its channel is not corrupt, it exited with code 0, its
  -- finished record arrived and its stream did not end inside a frame.
  pub classify-is_clean : (is_clean (classify os evidence) ≡ true) ↔ (
      (evidence.channel_corrupt ≡ false)
      × (termination os evidence.status ≡ exited)
      × (code os evidence.status ≡ 0)
      × (evidence.finished_seen ≡ true)
      × (evidence.channel_truncated ≡ false))
  unfolding classify classify_exit classify_signal is_clean
  classify-is_clean = ground arith

  -- A worker counts as killed by the OOM killer exactly when it died of a SIGKILL on a channel that is
  -- not corrupt and the kernel's count covers its death, whatever the controller had attempted.
  pub classify-oom_killed :
      (classify os evidence ≡ oom_killed)
      ↔ ((oom_candidate os evidence ≡ true) × (evidence.oom_kill_recorded ≡ true))
  unfolding classify classify_exit classify_signal oom_candidate is_signalled attempted
      is_fault_signal
  classify-oom_killed = ground arith

  -- What a death that is put down to the controller needs: a channel that is not corrupt, a death of the very signal
  -- that the controller attempted, and where that is a SIGKILL a kernel's count that neither covers it nor is
  -- inconclusive.
  abbrev pub IsByController : Type 0
  IsByController =
      (evidence.channel_corrupt ≡ false)
      × (termination os evidence.status ≡ signalled)
      × (evidence.signal_attempted ≡ some (signal os evidence.status))
      × ((signal os evidence.status ≡ sigkill)
          → (evidence.oom_kill_recorded ≡ false) × (evidence.oom_inconclusive ≡ false))

  -- A worker counts as timed out exactly when its death is put down to the controller and its heartbeat was stale at that
  -- signal, and as stopped by the controller exactly when its death is put down to it and the heartbeat was not stale: its
  -- channel is not corrupt, it died of the very signal that the controller attempted, and where that is a SIGKILL, the
  -- kernel's count neither covers the death nor is inconclusive.
  pub classify-by_controller :
      ((classify os evidence ≡ timed_out)
        ↔ (IsByController × (evidence.stale_when_signalled ≡ true)))
      × ((classify os evidence ≡ stopped_by_controller)
          ↔ (IsByController × (evidence.stale_when_signalled ≡ false)))
  unfolding classify classify_exit classify_signal attempted is_fault_signal
  classify-by_controller = (ground arith, ground arith)

-- The exit-status decoder's own questions agree with supervision: a worker counted as clean exited
-- with success, and the OOM killer's candidates are the workers that a SIGKILL ended on a channel
-- that is not corrupt.
pub classify-is_success :
    (os : WaitMacros) (evidence : Evidence)
    → (is_clean (classify os evidence) ≡ true → is_success os evidence.status ≡ true)
      × (oom_candidate os evidence
          ≡ not evidence.channel_corrupt && killed_by_sigkill os evidence.status)
unfolding is_success is_exited oom_candidate killed_by_sigkill is_signalled
classify-is_success os evidence =
    ((λ clean. ground (arith, (classify-is_clean os evidence).0 clean)), ground arith)

module _ {Text : Type 0} where
  judge_counts_lem :
      (first last candidates : ℕ) (scope : Text)
      → 1 ≤ candidates
      → (((judge_counts first last candidates scope).attributed ≡ true)
          ↔ (first + candidates ≤ last))
        × (((judge_counts first last candidates scope).ruled_out ≡ true) ↔ (first ≡ last))
  unfolding judge_counts
  judge_counts_lem first last candidates scope some_candidate = ground arith

  -- With one candidate at least, a run's SIGKILLs are put down to the OOM killer exactly when the count
  -- was read at both ends and rose by as many as there are candidates or more, and an OOM kill is
  -- ruled out exactly when the count was read at both ends and is the same.
  pub judge_oom_kills_lem :
      (before after : Outcome ℕ Text) (candidates : ℕ) (scope : Text)
      → 1 ≤ candidates
      → (((judge_oom_kills before after candidates scope).attributed ≡ true) ↔ (
          (first : ℕ) × (last : ℕ) × (before ≡ ok first)
          × (after ≡ ok last)
          × (first + candidates ≤ last)))
        × (((judge_oom_kills before after candidates scope).ruled_out ≡ true)
            ↔ ((count : ℕ) × (before ≡ ok count) × (after ≡ ok count)))
  unfolding judge_oom_kills
  judge_oom_kills_lem (err before) after candidates scope some_candidate = ground arith
  judge_oom_kills_lem (ok first) (err after) candidates scope some_candidate = ground arith
  judge_oom_kills_lem (ok first) (ok last) candidates scope some_candidate = (
    (λ up. (first, last, refl, refl, counts.0.0 up), λ up. counts.0.1 (rose up)),
    (λ still. (first, refl, ap ok (sym (counts.1.0 still))), λ still. counts.1.1 (same still)),
  )
    where
      counts :
          (((judge_counts first last candidates scope).attributed ≡ true)
            ↔ (first + candidates ≤ last))
          × (((judge_counts first last candidates scope).ruled_out ≡ true) ↔ (first ≡ last))
      counts = judge_counts_lem first last candidates scope some_candidate

      rose :
          ((a : ℕ) × (b : ℕ) × (◌≡◌ {A = Outcome ℕ Text} (ok first) (ok a))
            × (◌≡◌ {A = Outcome ℕ Text} (ok last) (ok b))
            × (a + candidates ≤ b))
          → first + candidates ≤ last
      rose up = ground (arith, up)

      same :
          ((a : ℕ) × (◌≡◌ {A = Outcome ℕ Text} (ok first) (ok a))
            × (◌≡◌ {A = Outcome ℕ Text} (ok last) (ok a)))
          → first ≡ last
      same still = ground (arith, still)
