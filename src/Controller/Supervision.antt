-- ===== src/Controller/Supervision.antt =====
-- controller/supervision.cpp: what a worker's end is classified as, and what the kernel's count of
-- OOM kills explains. The words of a note are a constructor each, with the numbers that they print.
pub mod Fates
use load_forge.Common.{
  ℕ, ◌+◌, ◌-◌, ◌≡◌, Bool, true, false, ◌&&◌, ◌||◌, not, ltb, leb, ◌==◌, if◌then◌else◌, Option, none,
  some, Outcome, ok, err,
}
use load_forge.Platform.ExitStatus.{
  WaitMacros, Termination, exited, signalled, termination, code, signal, sigkill, is_signalled,
}

pub data WorkerFate : Type 0 where
  completed worker_error startup_failed controller_lost_reported fault killed oom_killed :
      WorkerFate
  stopped_by_controller timed_out channel_corrupted truncated_evidence unclassified : WorkerFate

unfoldable pub is_clean : WorkerFate → Bool
is_clean completed = true
is_clean _ = false

-- SIGSEGV, SIGBUS, SIGABRT, SIGILL, SIGFPE and SIGTRAP, with their numbers on Linux.
unfoldable pub is_fault_signal : ℕ → Bool
is_fault_signal signal =
    (signal == 11)
    || (signal == 7)
    || (signal == 6)
    || (signal == 4)
    || (signal == 8)
    || (signal == 5)

-- `status` is the wait status's word.
pub record Evidence : Type 0 where
  pub status : ℕ
  pub signal_attempted : Option ℕ
  pub stale_when_signalled : Bool
  pub finished_seen : Bool
  pub channel_corrupt : Bool
  pub channel_truncated : Bool
  pub oom_kill_recorded : Bool
  pub oom_inconclusive : Bool

abbrev pub first_launcher_code : ℕ
first_launcher_code = 120

abbrev pub last_launcher_code : ℕ
last_launcher_code = 123

abbrev pub controller_lost_code : ℕ
controller_lost_code = 124

abbrev pub bad_arguments_code : ℕ
bad_arguments_code = 125

unfoldable pub classify_exit : WaitMacros → Evidence → WorkerFate
classify_exit os evidence =
    let code = code os evidence.status in
    if code == 0
    then (if evidence.finished_seen && not evidence.channel_truncated
        then completed
        else truncated_evidence)
    else if (leb first_launcher_code code && leb code last_launcher_code)
        || (code == bad_arguments_code)
    then startup_failed
    else if code == controller_lost_code
    then controller_lost_reported
    else worker_error

-- `signal_attempted.has_value() && *signal_attempted == signal`.
unfoldable pub attempted : Evidence → ℕ → Bool
attempted evidence signal = matches evidence.signal_attempted
  where
    matches : Option ℕ → Bool
    matches none = false
    matches (some sent) = sent == signal

unfoldable pub classify_signal : WaitMacros → Evidence → WorkerFate
unfolding attempted is_fault_signal
classify_signal os evidence =
    let signal = signal os evidence.status in
    if attempted evidence signal
    then (if (signal == sigkill) && evidence.oom_kill_recorded
        then oom_killed
        else if (signal == sigkill) && evidence.oom_inconclusive
        then killed
        else if evidence.stale_when_signalled
        then timed_out
        else stopped_by_controller)
    else if is_fault_signal signal
    then fault
    else if (signal == sigkill) && evidence.oom_kill_recorded
    then oom_killed
    else killed

unfoldable pub classify : WaitMacros → Evidence → WorkerFate
unfolding classify_exit classify_signal
classify os evidence =
    if evidence.channel_corrupt then channel_corrupted else by_end (termination os evidence.status)
  where
    by_end : Termination → WorkerFate
    by_end exited = classify_exit os evidence
    by_end signalled = classify_signal os evidence
    by_end _ = unclassified

unfoldable pub oom_candidate : WaitMacros → Evidence → Bool
oom_candidate os evidence =
    if evidence.channel_corrupt || not (is_signalled (termination os evidence.status))
    then false
    else signal os evidence.status == sigkill

-- What the note says; `scope` is the caller's words for the cgroup.
pub data OomNote (Text : Type 0) : Type 0 where
  unread_before unread_after : Text → OomNote Text
  went_down : (scope : Text) → (first last : ℕ) → OomNote Text
  counted_none : (scope : Text) → OomNote Text
  counted_fewer : (scope : Text) → (counted candidates : ℕ) → OomNote Text
  found : (scope : Text) → (counted candidates : ℕ) → OomNote Text

pub record OomFinding (Text : Type 0) : Type 0 where
  pub attributed : Bool
  pub note : OomNote Text
  pub ruled_out : Bool

module _ {Text : Type 0} where
  unfoldable pub judge_counts : (first last candidates : ℕ) → Text → OomFinding Text
  judge_counts first last candidates scope =
      let counted = last - first in
      if ltb last first
      then record { attributed = false; note = went_down scope first last; ruled_out = false }
      else if counted == 0
      then record { attributed = false; note = counted_none scope; ruled_out = true }
      else if ltb counted candidates
      then record {
        attributed = false;
        note = counted_fewer scope counted candidates;
        ruled_out = false;
      }
      else record { attributed = true; note = found scope counted candidates; ruled_out = false }

  unfoldable pub judge_oom_kills :
      (before after : Outcome ℕ Text) (candidates : ℕ) → Text → OomFinding Text
  unfolding judge_counts
  judge_oom_kills (err before) _ candidates scope = record {
    attributed = false;
    note = unread_before before;
    ruled_out = false;
  }
  judge_oom_kills (ok first) (err after) candidates scope = record {
    attributed = false;
    note = unread_after after;
    ruled_out = false;
  }
  judge_oom_kills (ok first) (ok last) candidates scope = judge_counts first last candidates scope
