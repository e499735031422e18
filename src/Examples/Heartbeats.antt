-- ===== src/Examples/Heartbeats.antt =====
-- The theorems about a heartbeat's slot at a writer of two beats.
use load_forge.Common.{
  length, suc, get_elem?, ℕ, ◌+◌, ◌*◌, ◌≤◌, ◌<◌, ◌≡◌, refl, List, [], ◌∷◌, min, some, ok, err,
  arith, if◌then◌else◌, ltb, ◌^◌,
}
use load_forge.Worker.Heartbeat.{
  Heartbeat, Slot, fresh_slot, store, store_all, publish_stores, publish, writes, memory_after,
  sample_is_consistent, attempt, observe_from, observe, torn,
}
use load_forge.Worker.Heartbeat.Samples.{IsTrue, observe-IsTrue}
use load_forge.Worker.Heartbeat.Still.{last_of, stalled, observe_still}
use load_forge.Worker.Scheduler.{ControllerWatch, controller_stale, controller_unreadable, gone}
use load_forge.Worker.Scheduler.Watching.{told, answers, past, gone_stopped}

abbrev first_beat : Heartbeat
first_beat = record { timestamp_ns = 100; progress = 1; phase = 0; pid = 42 }

abbrev second_beat : Heartbeat
second_beat = record { timestamp_ns = 200; progress = 2; phase = 0; pid = 42 }

abbrev two_beats : List Heartbeat
two_beats = first_beat ∷ second_beat ∷ []

-- The reader begins after the third store, and is as fast as the writer.
abbrev alongside : ℕ → ℕ
alongside i = min (i + 3) 12

second_sampled : observe (memory_after fresh_slot two_beats) alongside 3 1 ≡ ok (some second_beat)
unfolding observe observe_from attempt sample_is_consistent memory_after writes publish
    publish_stores store_all store
second_sampled = refl

observe-IsTrue_example : IsTrue two_beats alongside (some second_beat)
observe-IsTrue_example =
    observe-IsTrue two_beats alongside (λ i. omega arith) (omega arith)
      (λ i j before. omega (arith, before)) 3 1 (some second_beat) second_sampled

abbrev two_beats_seen : ℕ → Slot
two_beats_seen now = memory_after fresh_slot two_beats now

observe_still_example :
    ((n : ℕ) → n ≤ 2 → observe two_beats_seen (λ i. 6 * n) 3 1 ≡ ok (last_of two_beats n))
    × ((n k rounds : ℕ)
        → n < 2
        → 0 < k
        → k < 6
        → observe two_beats_seen (stalled two_beats_seen (6 * n + k) (6 * suc n) rounds) 3 1
          ≡ (if ltb rounds 64 then ok (get_elem? two_beats n) else err torn))
    × ((n k : ℕ) → n < 2 → 0 < k → k < 6 → observe two_beats_seen (λ i. 6 * n + k) 3 1 ≡ err torn)
observe_still_example = observe_still two_beats 3 1 (omega arith) (omega arith)

fits : 2 * length two_beats < 2 ^ 64
fits = omega arith

abbrev patient : ControllerWatch
patient = record { stale_after_ns = 50; last_read_ns = 0 }

-- The ticks at 240, 260 and 261 of the clock.
abbrev ticks : List (ℕ × ℕ)
ticks = (240, 240) ∷ (260, 260) ∷ (261, 261) ∷ []

-- The last look that found the slot at rest was at 210.
gone_stopped_example :
    (answers (told two_beats 3 fits patient (6 * suc 1)) ticks patient
      ≡ past (200 + 50) controller_stale ticks)
    × (answers
          (told two_beats 3 fits patient (6 * 1 + 2))
          ticks
          (gone (told two_beats 3 fits patient (6 * 1)) 210 210 patient).1
        ≡ past (210 + 50) controller_unreadable ticks)
gone_stopped_example =
    gone_stopped two_beats 3 fits patient 1 2 1 210 210 second_beat ticks (omega arith) refl
      (omega arith) (omega arith) (omega arith)
