-- ===== src/Worker/Scheduler/Watching.antt =====
-- worker/scheduler.cpp: a controller that stopped is noticed, and one that beats is not given up.
use load_forge.Common.{
  ℕ, suc, refl, err, [], ◌∷◌, ◌≤◌, ◌+◌, ◌*◌, ◌^◌, ◌<◌, ◌≡◌, ap, ◌∙◌, List, length, get_elem?, ltb,
  if◌then◌else◌, Option, none, some, Outcome, ok, arith,
}
use load_forge.Worker.Heartbeat.{
  Heartbeat, fresh_slot, memory_after, observe, RegionFault, torn, liveness,
}
use load_forge.Worker.Heartbeat.Still.{observe_still}
use load_forge.Worker.Scheduler.{
  StopReason, controller_stale, controller_unreadable, ControllerWatch, gone, is_gone,
}

beat_aged :
    (beat : Heartbeat) (running_ns elapsed_ns : ℕ) (watch : ControllerWatch)
    → (gone (ok (some beat)) running_ns elapsed_ns watch).0 ≡ (
        if ltb (beat.timestamp_ns + watch.stale_after_ns) running_ns
        then some controller_stale
        else none)
unfolding gone is_gone liveness
beat_aged beat running_ns elapsed_ns watch = ground arith

-- What the ticks of a watch answer, one after the other, that all observe a slot alike. A tick is its two times: the one
-- of the clock that runs only while the machine does, and the one since the session began.
abbrev pub answers :
    Outcome (Option Heartbeat) RegionFault
    → List (ℕ × ℕ)
    → ControllerWatch
    → List (Option StopReason)
answers observed [] watch = []
answers observed ((running_ns, elapsed_ns) ∷ ticks) watch =
    (gone observed running_ns elapsed_ns watch).0
    ∷ answers observed ticks (gone observed running_ns elapsed_ns watch).1

-- That reason at each tick that is later than a moment, and at no other.
abbrev pub past : (moment_ns : ℕ) → StopReason → List (ℕ × ℕ) → List (Option StopReason)
past moment_ns reason [] = []
past moment_ns reason ((running_ns, elapsed_ns) ∷ ticks) =
    (if ltb moment_ns running_ns then some reason else none) ∷ past moment_ns reason ticks

answers-beat :
    (beat : Heartbeat) (ticks : List (ℕ × ℕ)) (watch : ControllerWatch)
    → answers (ok (some beat)) ticks watch
      ≡ past (beat.timestamp_ns + watch.stale_after_ns) controller_stale ticks
unfolding gone
answers-beat beat [] watch = refl
answers-beat beat ((running_ns, elapsed_ns) ∷ ticks) watch =
    ap
      (λ first. first ∷ answers (ok (some beat)) ticks (record watch { last_read_ns = running_ns }))
      (beat_aged beat running_ns elapsed_ns watch)
    ∙ ap
        (λ rest.
          (if ltb (beat.timestamp_ns + watch.stale_after_ns) running_ns
            then some controller_stale
            else none)
          ∷ rest)
        (answers-beat beat ticks (record watch { last_read_ns = running_ns }))

answers-unreadable :
    (fault : RegionFault) (ticks : List (ℕ × ℕ)) (watch : ControllerWatch)
    → answers (err fault) ticks watch
      ≡ past (watch.last_read_ns + watch.stale_after_ns) controller_unreadable ticks
unfolding gone
answers-unreadable fault [] watch = refl
answers-unreadable fault ((running_ns, elapsed_ns) ∷ ticks) watch =
    ap
      (λ rest.
        (if ltb (watch.last_read_ns + watch.stale_after_ns) running_ns
          then some controller_unreadable
          else none)
        ∷ rest)
      (answers-unreadable fault ticks watch)

-- The controller publishes its beats in the first slot, and died after `6 * n` or `6 * n + k` stores.
module _ (beats : List Heartbeat) (workers : ℕ) (fits : 2 * length beats < 2 ^ 64)
    (watch : ControllerWatch) where
  abbrev pub told : ℕ → Outcome (Option Heartbeat) RegionFault
  told stores = observe (memory_after fresh_slot beats) (λ i. stores) workers 0

  -- A controller that stopped after a beat is given up, as stale, at the ticks that are later than
  -- that beat by more than the allowance, and at no other. One that stopped while it wrote a beat,
  -- after a look that found its slot at rest, is given up, as unreadable, at the ticks that are later
  -- than that look by more than the allowance, and at no other.
  pub gone_stopped :
      (n k m rested_ns rested_elapsed_ns : ℕ) (beat : Heartbeat) (ticks : List (ℕ × ℕ))
      → n < length beats
      → get_elem? beats n ≡ some beat
      → 0 < k
      → k < 6
      → m ≤ n
      → (answers (told (6 * suc n)) ticks watch
          ≡ past (beat.timestamp_ns + watch.stale_after_ns) controller_stale ticks)
        × (answers
              (told (6 * n + k))
              ticks
              (gone (told (6 * m)) rested_ns rested_elapsed_ns watch).1
            ≡ past (rested_ns + watch.stale_after_ns) controller_unreadable ticks)
  unfolding gone
  gone_stopped n k m rested_ns rested_elapsed_ns beat ticks published found some_made not_all
        earlier =
      let still = observe_still beats workers 0 (omega arith) fits in
      let at_rest = still.0 (suc n) (omega (arith, published)) ∙ ap (λ o. ok o) found in
      let looked = still.0 m (omega (arith, published, earlier)) in
      let halfway = still.2 n k published some_made not_all in
      (
        ap (λ o. answers o ticks watch) at_rest ∙ answers-beat beat ticks watch,
        ap (λ o. answers (told (6 * n + k)) ticks (gone o rested_ns rested_elapsed_ns watch).1)
              looked
            ∙ ap (λ o. answers o ticks (record watch { last_read_ns = rested_ns })) halfway
            ∙ answers-unreadable torn ticks (record watch { last_read_ns = rested_ns }),
      )
