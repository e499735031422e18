-- ===== src/Worker/Heartbeat/Memory.antt =====
-- worker/ipc/heartbeat.cpp: a slot after any number of its writer's stores.
use load_forge.Common.{
  ℕ, zero, suc, ◌+◌, ◌*◌, ◌/◌, ◌%◌, ◌^◌, ◌≤◌, ◌<◌, ◌≡◌, refl, sym, ap, ◌∙◌, List, [], ◌∷◌, length,
  get_elem?, min, some, arith,
}
use load_forge.Worker.Heartbeat.{
  Heartbeat, Slot, store, store_all, publish_stores, publish, writes, memory_after,
}

-- The fields of a slot, as a beat.
abbrev pub beat_of : Slot → Heartbeat
beat_of slot = record {
  timestamp_ns = slot.timestamp_ns;
  progress = slot.progress;
  phase = slot.phase;
  pid = slot.pid;
}

publish-fields : (slot : Slot) (beat : Heartbeat) → beat_of (publish slot beat) ≡ beat
unfolding publish publish_stores store_all store
publish-fields slot beat = refl

publish-sequence :
    (slot : Slot) (beat : Heartbeat)
    → slot.sequence + 2 < 2 ^ 64
    → (publish slot beat).sequence ≡ slot.sequence + 2
unfolding publish publish_stores store_all store
publish-sequence slot beat fits = omega arith

-- The first stores of the first beat, and then those of the others.
memory_after-first :
    (slot : Slot) (beat : Heartbeat) (beats : List Heartbeat) (n : ℕ)
    → memory_after slot (beat ∷ beats) (suc (suc (suc (suc (suc (suc n))))))
      ≡ memory_after (publish slot beat) beats n
unfolding memory_after writes publish publish_stores store_all
memory_after-first slot beat beats n = refl

memory_after-zero : (slot : Slot) (beats : List Heartbeat) → memory_after slot beats 0 ≡ slot
unfolding memory_after store_all
memory_after-zero slot beats = refl

-- What the sequence has grown by.
abbrev pub steps : ℕ → ℕ
steps n = 2 * (n / 6) + min 1 (n % 6)

pub memory_after-sequence :
    (slot : Slot) (beats : List Heartbeat) (n : ℕ)
    → n ≤ 6 * length beats
    → slot.sequence + 2 * length beats < 2 ^ 64
    → (memory_after slot beats n).sequence ≡ slot.sequence + steps n
unfolding memory_after writes publish_stores store_all store publish
memory_after-sequence slot [] zero within fits = omega arith
memory_after-sequence slot [] (suc n) within fits = absurd (omega (arith, within))
memory_after-sequence slot (beat ∷ beats) zero within fits = omega arith
memory_after-sequence slot (beat ∷ beats) (suc zero) within fits = omega arith
memory_after-sequence slot (beat ∷ beats) (suc (suc zero)) within fits = omega arith
memory_after-sequence slot (beat ∷ beats) (suc (suc (suc zero))) within fits = omega arith
memory_after-sequence slot (beat ∷ beats) (suc (suc (suc (suc zero)))) within fits = omega arith
memory_after-sequence slot (beat ∷ beats) (suc (suc (suc (suc (suc zero))))) within fits =
    omega arith
memory_after-sequence slot (beat ∷ beats) (suc (suc (suc (suc (suc (suc n)))))) within fits =
    omega (
      arith,
      memory_after-sequence (publish slot beat) beats n (omega (arith, within))
          (omega (arith, publish-sequence slot beat (omega (arith, fits)), fits)),
      publish-sequence slot beat (omega (arith, fits)),
    )

-- After the stores of `n` beats and one more, the slot holds that beat.
pub memory_after-beat :
    (slot : Slot) (beats : List Heartbeat) (n : ℕ)
    → n < length beats
    → get_elem? beats n ≡ some (beat_of (memory_after slot beats (6 * suc n)))
memory_after-beat slot [] n within = absurd (omega (arith, within))
memory_after-beat slot (beat ∷ beats) zero within =
    ap (λ fields. some fields) (sym (publish-fields slot beat))
    ∙ ap (λ after. some (beat_of after)) (sym (memory_after-zero (publish slot beat) beats))
    ∙ ap (λ after. some (beat_of after)) (sym (memory_after-first slot beat beats 0))
memory_after-beat slot (beat ∷ beats) (suc n) within =
    memory_after-beat (publish slot beat) beats n (omega (arith, within))
    ∙ ap (λ after. some (beat_of after)) (sym (memory_after-first slot beat beats (6 * suc n)))
    ∙ ap (λ k. some (beat_of (memory_after slot (beat ∷ beats) k))) (omega arith)
