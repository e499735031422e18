-- ===== src/Controller/Stopping/Order.antt =====
-- controller/safety.cpp and controller/orchestration.cpp: the order of the steps of a stop.
use load_forge.Common.{
  ℕ, ◌+◌, ◌≤◌, ◌≡◌, refl, Bool, true, false, ◌||◌, leb, ◌==◌, Option, none, some, Outcome, ok, err,
  arith, Bool-cases, inl, inr, subst,
}
use load_forge.Platform.ExitStatus.{sigkill}
use load_forge.Controller.Stopping.{
  StopStep, running, requested, terminated, killed, Grace, sigterm, esrch, escalation_due,
  step_after, Tracked, Answers, signalled, send_alive, send, send_due, is_before_signals, watch,
  is_running, request_stop, is_killed, kill_for_signal,
}

abbrev pub rank : StopStep → ℕ
rank running = 0
rank requested = 1
rank terminated = 2
rank killed = 3

-- The signal that was sent last is the one of the worker's step, and none before the first signal.
abbrev pub IsTracked : Tracked → Type 0
IsTracked worker = worker.signal_attempted ≡ elim worker.step [
  | running ↦ none
  | requested ↦ none
  | terminated ↦ some sigterm
  | killed ↦ some sigkill
]

-- The moves that a run makes with a worker.
pub data Moves (grace : Grace) : Tracked → Tracked → Type 0 where
  stop : (worker : Tracked) (now_ns : ℕ) → Moves grace worker (request_stop worker now_ns)
  tick :
      (worker after : Tracked) (answers : Answers) (now_ns : ℕ) (stale : Bool)
      → watch grace answers worker now_ns stale ≡ ok after
      → Moves grace worker after
  insist :
      (worker after : Tracked) (answers : Answers) (now_ns : ℕ)
      → kill_for_signal answers worker now_ns ≡ ok after
      → Moves grace worker after

pub data Reaches (grace : Grace) (start : Tracked) : Tracked → Type 0 where
  here : Reaches grace start start
  later :
      {worker after : Tracked}
      → Reaches grace start worker
      → Moves grace worker after
      → Reaches grace start after

abbrev Keeps : Tracked → Outcome Tracked ℕ → Type 0
Keeps worker (ok after) = IsTracked after × (rank worker.step ≤ rank after.step)
Keeps worker (err number) = Unit {0}

send_alive-Keeps :
    (worker : Tracked) (signal now_ns : ℕ) (stale : Bool) (answer : Outcome (Unit {0}) ℕ)
    → IsTracked worker
    → IsTracked (signalled worker signal now_ns stale)
    → rank worker.step ≤ rank (step_after signal)
    → Keeps worker (send_alive worker signal now_ns stale answer)
unfolding send_alive signalled
send_alive-Keeps worker signal now_ns stale (ok done) tracked sent up = (sent, up)
send_alive-Keeps worker signal now_ns stale (err number) tracked sent up =
    elim (Bool-cases (number == esrch)) [
      | inl gone ↦ rw (gone, send_alive) (tracked, omega arith)
      | inr other ↦ rw (other, send_alive) tt
    ]

send-Keeps :
    (has_exited : Outcome Bool ℕ) (send_signal : Outcome (Unit {0}) ℕ) (worker : Tracked)
    (signal now_ns : ℕ) (stale : Bool)
    → IsTracked worker
    → IsTracked (signalled worker signal now_ns stale)
    → rank worker.step ≤ rank (step_after signal)
    → Keeps worker (
        send
          (record { has_exited = has_exited; send_signal = send_signal })
          worker
          signal
          now_ns
          stale)
unfolding send
send-Keeps (err number) send_signal worker signal now_ns stale tracked sent up = tt
send-Keeps (ok true) send_signal worker signal now_ns stale tracked sent up = (tracked, omega arith)
send-Keeps (ok false) send_signal worker signal now_ns stale tracked sent up =
    send_alive-Keeps worker signal now_ns stale send_signal tracked sent up

term_due-Keeps :
    (answers : Answers) (worker : Tracked) (now_ns : ℕ) (stale : Bool)
    → IsTracked worker
    → rank worker.step ≤ 2
    → Keeps worker (send answers worker sigterm now_ns stale)
unfolding signalled step_after
term_due-Keeps answers worker now_ns stale tracked below =
    send-Keeps answers.has_exited answers.send_signal worker sigterm now_ns stale tracked refl below

kill_due-Keeps :
    (answers : Answers) (worker : Tracked) (now_ns : ℕ) (stale : Bool)
    → IsTracked worker
    → rank worker.step ≤ 3
    → Keeps worker (send answers worker sigkill now_ns stale)
unfolding signalled step_after
kill_due-Keeps answers worker now_ns stale tracked below =
    send-Keeps answers.has_exited answers.send_signal worker sigkill now_ns stale tracked refl below

rank-le : (step : StopStep) → rank step ≤ 3
rank-le running = omega arith
rank-le requested = omega arith
rank-le terminated = omega arith
rank-le killed = omega arith

-- A worker by its fields.
abbrev pub tracked_at : StopStep → ℕ → Bool → Option ℕ → Bool → Tracked
tracked_at step since_ns reaped attempted stale = record {
  step = step;
  step_since_ns = since_ns;
  reaped = reaped;
  signal_attempted = attempted;
  stale_when_signalled = stale;
}

abbrev idle_answers : Answers
idle_answers = record { has_exited = ok true; send_signal = ok tt }

module _ (grace : Grace) (answers : Answers) (since_ns : ℕ) (reaped : Bool) (attempted : Option ℕ)
    (was_stale : Bool) (now_ns : ℕ) where
  kill_if_due :
      IsTracked (tracked_at terminated since_ns reaped attempted was_stale)
      → Keeps (tracked_at terminated since_ns reaped attempted was_stale) (
          send_due answers
            (tracked_at terminated since_ns reaped attempted was_stale)
            now_ns
            (escalation_due terminated since_ns now_ns grace))
  unfolding send_due escalation_due
  kill_if_due tracked = elim (Bool-cases (leb (since_ns + grace.kill_ns) now_ns)) [
    | inl due ↦
        rw (due, escalation_due, send_due)
          (kill_due-Keeps answers _ now_ns was_stale tracked (omega arith))
    | inr early ↦ rw (early, escalation_due, send_due) (tracked, omega arith)
  ]

  watch-Keeps :
      (step : StopStep) (stale : Bool)
      → IsTracked (tracked_at step since_ns reaped attempted was_stale)
      → Keeps
          (tracked_at step since_ns reaped attempted was_stale)
          (watch grace answers (tracked_at step since_ns reaped attempted was_stale) now_ns stale)
  unfolding watch is_before_signals send_due escalation_due
  watch-Keeps running true tracked = term_due-Keeps answers _ now_ns true tracked (omega arith)
  watch-Keeps running false tracked = (tracked, omega arith)
  watch-Keeps requested true tracked = term_due-Keeps answers _ now_ns true tracked (omega arith)
  watch-Keeps requested false tracked = elim (Bool-cases (leb (since_ns + grace.stop_ns) now_ns)) [
    | inl due ↦
        rw (due, watch, send_due) (term_due-Keeps answers _ now_ns was_stale tracked (omega arith))
    | inr early ↦ rw (early, watch, send_due) (tracked, omega arith)
  ]
  watch-Keeps terminated true tracked = kill_if_due tracked
  watch-Keeps terminated false tracked = kill_if_due tracked
  watch-Keeps killed true tracked = (tracked, omega arith)
  watch-Keeps killed false tracked = (tracked, omega arith)

  kill_for_signal-Keeps :
      (step : StopStep)
      → IsTracked (tracked_at step since_ns reaped attempted was_stale)
      → Keeps
          (tracked_at step since_ns reaped attempted was_stale)
          (kill_for_signal answers (tracked_at step since_ns reaped attempted was_stale) now_ns)
  unfolding kill_for_signal is_killed
  kill_for_signal-Keeps step tracked = elim (Bool-cases (reaped || is_killed step)) [
    | inl past ↦ rw (past, kill_for_signal) (tracked, omega arith)
    | inr alive ↦
        rw (alive, kill_for_signal) (kill_due-Keeps answers _ now_ns false tracked (rank-le step))
  ]

  request_stop-Keeps :
      (step : StopStep)
      → IsTracked (tracked_at step since_ns reaped attempted was_stale)
      → Keeps
          (tracked_at step since_ns reaped attempted was_stale)
          (ok (request_stop (tracked_at step since_ns reaped attempted was_stale) now_ns))
  unfolding request_stop is_running
  request_stop-Keeps running tracked = elim (Bool-cases reaped) [
    | inl over ↦ rw (over, request_stop) (tracked, omega arith)
    | inr live ↦ rw (live, request_stop) (tracked, omega arith)
  ]
  request_stop-Keeps requested tracked = elim (Bool-cases reaped) [
    | inl over ↦ rw (over, request_stop) (tracked, omega arith)
    | inr live ↦ rw (live, request_stop) (tracked, omega arith)
  ]
  request_stop-Keeps terminated tracked = elim (Bool-cases reaped) [
    | inl over ↦ rw (over, request_stop) (tracked, omega arith)
    | inr live ↦ rw (live, request_stop) (tracked, omega arith)
  ]
  request_stop-Keeps killed tracked = elim (Bool-cases reaped) [
    | inl over ↦ rw (over, request_stop) (tracked, omega arith)
    | inr live ↦ rw (live, request_stop) (tracked, omega arith)
  ]

Moves-IsTracked :
    {grace : Grace} {worker after : Tracked}
    → Moves grace worker after
    → IsTracked worker
    → IsTracked after × (rank worker.step ≤ rank after.step)
Moves-IsTracked {grace} (stop worker now_ns) tracked =
    request_stop-Keeps grace idle_answers worker.step_since_ns worker.reaped worker.signal_attempted
      worker.stale_when_signalled now_ns worker.step tracked
Moves-IsTracked {grace} (tick worker after answers now_ns stale e) tracked =
    subst (Keeps worker) e (
      watch-Keeps grace answers worker.step_since_ns worker.reaped worker.signal_attempted
        worker.stale_when_signalled now_ns worker.step stale tracked)
Moves-IsTracked {grace} (insist worker after answers now_ns e) tracked = subst (Keeps worker) e (
    kill_for_signal-Keeps grace answers worker.step_since_ns worker.reaped worker.signal_attempted
      worker.stale_when_signalled now_ns worker.step tracked)

-- Whatever the run does with a worker, and whatever the system answers, the steps of its stop never go
-- back, and the signal that the report puts down to the controller is the one of the step it has
-- reached: SIGTERM once terminated, SIGKILL once killed, and none before.
pub Reaches-IsTracked :
    (grace : Grace) (start worker : Tracked)
    → IsTracked start
    → Reaches grace start worker
    → IsTracked worker × (rank start.step ≤ rank worker.step)
Reaches-IsTracked grace start worker tracked here = (tracked, omega arith)
Reaches-IsTracked grace start worker tracked (later before move) =
    let (between, up) = Reaches-IsTracked grace start _ tracked before in
    let (after, more) = Moves-IsTracked move between in (after, omega (arith, up, more))
