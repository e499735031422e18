-- ===== src/Controller/Stopping/Escalation.antt =====
-- controller/safety.cpp and controller/orchestration.cpp: a stop ends in the signal that cannot be ignored.
use load_forge.Common.{
  ℕ, ◌+◌, ◌≤◌, ◌≡◌, refl, ap, ◌∙◌, List, [], ◌∷◌, ◌++◌, All, Bool, true, false, leb, Option,
  Outcome, ok, err, arith, Bool-cases, inl, inr, le→leb,
}
use load_forge.Controller.Stopping.{
  StopStep, running, requested, terminated, killed, Grace, escalation_due, step_after, Tracked,
  Answers, signalled, send_alive, send, send_due, is_before_signals, watch,
}
use load_forge.Controller.Stopping.Order.{rank, tracked_at}

-- The system's answers for a worker that is there.
abbrev alive : Answers
alive = record { has_exited = ok false; send_signal = ok tt }

abbrev kept : Tracked → Outcome Tracked ℕ → Tracked
kept worker (ok after) = after
kept worker (err number) = worker

-- The worker after the ticks at these times, each with the judgement of its beat.
unfoldable pub after_ticks : Grace → Tracked → List (ℕ × Bool) → Tracked
after_ticks grace worker [] = worker
after_ticks grace worker ((now_ns, stale) ∷ ticks) =
    after_ticks grace (kept worker (watch grace alive worker now_ns stale)) ticks

after_ticks-append :
    (grace : Grace) (worker : Tracked) (first second : List (ℕ × Bool))
    → after_ticks grace worker (first ++ second)
      ≡ after_ticks grace (after_ticks grace worker first) second
unfolding after_ticks
after_ticks-append grace worker [] second = refl
after_ticks-append grace worker ((now_ns, stale) ∷ first) second =
    after_ticks-append grace (kept worker (watch grace alive worker now_ns stale)) first second

-- Signalled by the time `until`, and asked to stop at `since` before that.
abbrev IsPast : ℕ → Tracked → Type 0
IsPast until worker =
    (2 ≤ rank worker.step) × (worker.step ≡ terminated → worker.step_since_ns ≤ until)

abbrev IsAsked : ℕ → ℕ → Tracked → Type 0
IsAsked since until worker =
    (1 ≤ rank worker.step)
    × (worker.step ≡ requested → worker.step_since_ns ≡ since)
    × (worker.step ≡ terminated → worker.step_since_ns ≤ until)

module _ (grace : Grace) (reaped : Bool) (attempted : Option ℕ) (was_stale : Bool) where
  abbrev ticked : StopStep → ℕ → ℕ → Bool → Tracked
  ticked step since_ns now_ns stale =
      kept (tracked_at step since_ns reaped attempted was_stale)
        (watch grace alive (tracked_at step since_ns reaped attempted was_stale) now_ns stale)

  kill_keeps :
      {since until : ℕ} (since_ns now_ns : ℕ)
      → IsAsked since until (tracked_at terminated since_ns reaped attempted was_stale)
      → IsAsked since until (ticked terminated since_ns now_ns false)
  unfolding watch is_before_signals send_due escalation_due send send_alive signalled step_after
  kill_keeps since_ns now_ns asked = elim (Bool-cases (leb (since_ns + grace.kill_ns) now_ns)) [
    | inl due ↦ rw (due, watch, send_due) (omega arith, λ e. cc, λ e. cc)
    | inr early ↦ rw (early, watch, send_due) asked
  ]

  -- A worker that was asked stays asked, and is signalled once its grace is over.
  IsAsked-tick :
      (step : StopStep) (since_ns since until now_ns : ℕ) (stale : Bool)
      → now_ns ≤ until
      → IsAsked since until (tracked_at step since_ns reaped attempted was_stale)
      → IsAsked since until (ticked step since_ns now_ns stale)
  unfolding watch is_before_signals send_due escalation_due send send_alive signalled step_after
  IsAsked-tick running since_ns since until now_ns stale soon asked =
      absurd (omega (arith, asked.0))
  IsAsked-tick requested since_ns since until now_ns true soon asked =
      (omega arith, λ e. cc, λ e. soon)
  IsAsked-tick requested since_ns since until now_ns false soon asked =
      elim (Bool-cases (leb (since_ns + grace.stop_ns) now_ns)) [
        | inl due ↦ rw (due, watch, send_due) (omega arith, λ e. cc, λ e. soon)
        | inr early ↦ rw (early, watch, send_due) asked
      ]
  IsAsked-tick terminated since_ns since until now_ns true soon asked =
      kill_keeps since_ns now_ns asked
  IsAsked-tick terminated since_ns since until now_ns false soon asked =
      kill_keeps since_ns now_ns asked
  IsAsked-tick killed since_ns since until now_ns true soon asked = asked
  IsAsked-tick killed since_ns since until now_ns false soon asked = asked

  kill_stays :
      {until : ℕ} (since_ns now_ns : ℕ)
      → IsPast until (tracked_at terminated since_ns reaped attempted was_stale)
      → IsPast until (ticked terminated since_ns now_ns false)
  unfolding watch is_before_signals send_due escalation_due send send_alive signalled step_after
  kill_stays since_ns now_ns past = elim (Bool-cases (leb (since_ns + grace.kill_ns) now_ns)) [
    | inl due ↦ rw (due, watch, send_due) (omega arith, λ e. cc)
    | inr early ↦ rw (early, watch, send_due) past
  ]

  IsPast-tick :
      (step : StopStep) (since_ns until now_ns : ℕ) (stale : Bool)
      → IsPast until (tracked_at step since_ns reaped attempted was_stale)
      → IsPast until (ticked step since_ns now_ns stale)
  unfolding watch is_before_signals send_due escalation_due send send_alive signalled step_after
  IsPast-tick running since_ns until now_ns stale past = absurd (omega (arith, past.0))
  IsPast-tick requested since_ns until now_ns stale past = absurd (omega (arith, past.0))
  IsPast-tick terminated since_ns until now_ns true past = kill_stays since_ns now_ns past
  IsPast-tick terminated since_ns until now_ns false past = kill_stays since_ns now_ns past
  IsPast-tick killed since_ns until now_ns true past = past
  IsPast-tick killed since_ns until now_ns false past = past

  due_tick :
      (step : StopStep) (since_ns since now_ns : ℕ) (stale : Bool)
      → since + grace.stop_ns ≤ now_ns
      → IsAsked since now_ns (tracked_at step since_ns reaped attempted was_stale)
      → IsPast now_ns (ticked step since_ns now_ns stale)
  unfolding watch is_before_signals send_due escalation_due send send_alive signalled step_after
  due_tick running since_ns since now_ns stale over asked = absurd (omega (arith, asked.0))
  due_tick requested since_ns since now_ns true over asked = (omega arith, λ e. omega arith)
  due_tick requested since_ns since now_ns false over asked =
      let due : leb (since_ns + grace.stop_ns) now_ns ≡ true =
        le→leb (since_ns + grace.stop_ns) now_ns (omega (arith, over, asked.1 refl)) in
      rw (due, watch, send_due) (omega arith, λ e. omega arith)
  due_tick terminated since_ns since now_ns stale over asked =
      IsPast-tick terminated since_ns now_ns now_ns stale (omega arith, asked.2)
  due_tick killed since_ns since now_ns stale over asked =
      IsPast-tick killed since_ns now_ns now_ns stale (omega arith, asked.2)

  kill_now :
      (since_ns until now_ns : ℕ)
      → until + grace.kill_ns ≤ now_ns
      → IsPast until (tracked_at terminated since_ns reaped attempted was_stale)
      → (ticked terminated since_ns now_ns false).step ≡ killed
  unfolding watch is_before_signals send_due escalation_due send send_alive signalled step_after
  kill_now since_ns until now_ns over past =
      let due : leb (since_ns + grace.kill_ns) now_ns ≡ true =
        le→leb (since_ns + grace.kill_ns) now_ns (omega (arith, over, past.1 refl)) in
      rw (due, watch, send_due) refl

  last_tick :
      (step : StopStep) (since_ns until now_ns : ℕ) (stale : Bool)
      → until + grace.kill_ns ≤ now_ns
      → IsPast until (tracked_at step since_ns reaped attempted was_stale)
      → (ticked step since_ns now_ns stale).step ≡ killed
  unfolding watch is_before_signals send_due escalation_due send send_alive signalled step_after
  last_tick running since_ns until now_ns stale over past = absurd (omega (arith, past.0))
  last_tick requested since_ns until now_ns stale over past = absurd (omega (arith, past.0))
  last_tick terminated since_ns until now_ns true over past =
      kill_now since_ns until now_ns over past
  last_tick terminated since_ns until now_ns false over past =
      kill_now since_ns until now_ns over past
  last_tick killed since_ns until now_ns true over past = refl
  last_tick killed since_ns until now_ns false over past = refl

module _ (grace : Grace) where
  IsAsked-after_ticks :
      (since until : ℕ) (ticks : List (ℕ × Bool)) (worker : Tracked)
      → All (λ tick. tick.0 ≤ until) ticks
      → IsAsked since until worker
      → IsAsked since until (after_ticks grace worker ticks)
  unfolding after_ticks
  IsAsked-after_ticks since until [] worker soon asked = asked
  IsAsked-after_ticks since until ((now_ns, stale) ∷ ticks) worker (now_soon, soon) asked =
      IsAsked-after_ticks since until ticks (kept worker (watch grace alive worker now_ns stale))
        soon
        (IsAsked-tick grace worker.reaped worker.signal_attempted worker.stale_when_signalled
          worker.step worker.step_since_ns since until now_ns stale now_soon asked)

  IsPast-after_ticks :
      (until : ℕ) (ticks : List (ℕ × Bool)) (worker : Tracked)
      → IsPast until worker
      → IsPast until (after_ticks grace worker ticks)
  unfolding after_ticks
  IsPast-after_ticks until [] worker past = past
  IsPast-after_ticks until ((now_ns, stale) ∷ ticks) worker past =
      IsPast-after_ticks until ticks (kept worker (watch grace alive worker now_ns stale)) (
        IsPast-tick grace worker.reaped worker.signal_attempted worker.stale_when_signalled
          worker.step worker.step_since_ns until now_ns stale past)

  -- A worker that was asked to stop and does not exit is killed: some tick at the time `term_ns`, when the
  -- grace of the request is over, and some later one at the time `kill_ns`, when that of the SIGTERM is over
  -- too, are enough, whatever the other ticks are and whatever the beats say.
  pub after_ticks_killed :
      (worker : Tracked) (before between : List (ℕ × Bool)) (term_ns kill_ns : ℕ)
      (term_stale kill_stale : Bool)
      → worker.step ≡ requested
      → All (λ tick. tick.0 ≤ term_ns) before
      → worker.step_since_ns + grace.stop_ns ≤ term_ns
      → term_ns + grace.kill_ns ≤ kill_ns
      → (after_ticks grace worker
          (before ++ (term_ns, term_stale) ∷ (between ++ (kill_ns, kill_stale) ∷ []))).step
        ≡ killed
  unfolding after_ticks
  after_ticks_killed worker before between term_ns kill_ns term_stale kill_stale asked soon over
        end =
      let start : IsAsked worker.step_since_ns term_ns worker =
        (omega (arith, ap rank asked), λ e. refl, λ e. cc) in
      let first : Tracked = after_ticks grace worker before in
      let waiting : IsAsked worker.step_since_ns term_ns first =
        IsAsked-after_ticks worker.step_since_ns term_ns before worker soon start in
      let second : Tracked = kept first (watch grace alive first term_ns term_stale) in
      let past : IsPast term_ns second =
        due_tick grace first.reaped first.signal_attempted first.stale_when_signalled first.step
          first.step_since_ns worker.step_since_ns term_ns term_stale over waiting in
      let third : Tracked = after_ticks grace second between in
      let past_still : IsPast term_ns third = IsPast-after_ticks term_ns between second past in
      ap (λ w. w.step)
        (after_ticks-append grace worker before
          ((term_ns, term_stale) ∷ (between ++ (kill_ns, kill_stale) ∷ [])))
      ∙ ap (λ w. w.step) (after_ticks-append grace second between ((kill_ns, kill_stale) ∷ []))
      ∙ last_tick grace third.reaped third.signal_attempted third.stale_when_signalled third.step
          third.step_since_ns term_ns kill_ns kill_stale end past_still
