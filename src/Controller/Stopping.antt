-- ===== src/Controller/Stopping.antt =====
-- controller/safety.cpp and the calls of it in controller/orchestration.cpp: how a worker is stopped. The
-- answers of has_exited and send_signal are arguments; a worker is what of Tracked its stop reads.
pub mod Order
pub mod Escalation
use load_forge.Common.{
  ℕ, ◌+◌, List, [], ◌∷◌, Bool, true, false, ◌&&◌, ◌||◌, not, leb, ◌==◌, if◌then◌else◌, Option, none,
  some, Outcome, ok, err,
}
use load_forge.Platform.ExitStatus.{sigkill}

pub data StopStep : Type 0 where
  running requested terminated killed : StopStep

pub record Grace : Type 0 where
  pub stop_ns : ℕ
  pub kill_ns : ℕ

-- The number of a SIGTERM, and of the error of a process that is gone, on Linux.
abbrev pub sigterm : ℕ
sigterm = 15

abbrev pub esrch : ℕ
esrch = 3

-- The waited time is the step's grace at least when `now_ns` is the two together at least.
unfoldable pub escalation_due : StopStep → (since_ns now_ns : ℕ) → Grace → Option ℕ
escalation_due running since_ns now_ns grace = none
escalation_due requested since_ns now_ns grace =
    if leb (since_ns + grace.stop_ns) now_ns then some sigterm else none
escalation_due terminated since_ns now_ns grace =
    if leb (since_ns + grace.kill_ns) now_ns then some sigkill else none
escalation_due killed since_ns now_ns grace = none

unfoldable pub step_after : ℕ → StopStep
step_after signal = if signal == sigkill then killed else terminated

pub record Tracked : Type 0 where
  pub step : StopStep
  pub step_since_ns : ℕ
  pub reaped : Bool
  pub signal_attempted : Option ℕ
  pub stale_when_signalled : Bool

-- What the system says when a worker is to be signalled; an error is its number.
pub record Answers : Type 0 where
  pub has_exited : Outcome Bool ℕ
  pub send_signal : Outcome (Unit {0}) ℕ

unfoldable pub signalled : Tracked → (signal now_ns : ℕ) → (stale : Bool) → Tracked
signalled worker signal now_ns stale = record worker {
  step = step_after signal;
  step_since_ns = now_ns;
  signal_attempted = some signal;
  stale_when_signalled = stale;
}

unfoldable pub send_alive :
    Tracked → (signal now_ns : ℕ) → (stale : Bool) → Outcome (Unit {0}) ℕ → Outcome Tracked ℕ
send_alive worker signal now_ns stale (ok done) = ok (signalled worker signal now_ns stale)
send_alive worker signal now_ns stale (err number) =
    if number == esrch then ok worker else err number

unfoldable pub send : Answers → Tracked → (signal now_ns : ℕ) → (stale : Bool) → Outcome Tracked ℕ
send answers worker signal now_ns stale = elim answers.has_exited [
  | err number ↦ err number
  | ok true ↦ ok worker
  | ok false ↦ send_alive worker signal now_ns stale answers.send_signal
]

unfoldable pub send_due : Answers → Tracked → (now_ns : ℕ) → Option ℕ → Outcome Tracked ℕ
send_due answers worker now_ns none = ok worker
send_due answers worker now_ns (some signal) =
    send answers worker signal now_ns worker.stale_when_signalled

unfoldable pub is_before_signals : StopStep → Bool
is_before_signals running = true
is_before_signals requested = true
is_before_signals terminated = false
is_before_signals killed = false

-- `watch`, from the judgement of the worker's beat on.
unfoldable pub watch : Grace → Answers → Tracked → (now_ns : ℕ) → (stale : Bool) → Outcome Tracked ℕ
watch grace answers worker now_ns stale =
    if stale && is_before_signals worker.step
    then send answers worker sigterm now_ns true
    else send_due answers worker now_ns
        (escalation_due worker.step worker.step_since_ns now_ns grace)

unfoldable pub is_running : StopStep → Bool
is_running running = true
is_running requested = false
is_running terminated = false
is_running killed = false

-- What `request_stop` does with one worker, whose Stop was written.
unfoldable pub request_stop : Tracked → (now_ns : ℕ) → Tracked
request_stop worker now_ns =
    if worker.reaped || not (is_running worker.step)
    then worker
    else record worker { step = requested; step_since_ns = now_ns }

unfoldable pub is_killed : StopStep → Bool
is_killed running = false
is_killed requested = false
is_killed terminated = false
is_killed killed = true

-- What `kill_for_signal` does with one worker.
unfoldable pub kill_for_signal : Answers → Tracked → (now_ns : ℕ) → Outcome Tracked ℕ
kill_for_signal answers worker now_ns =
    if worker.reaped || is_killed worker.step
    then ok worker
    else send answers worker sigkill now_ns false
