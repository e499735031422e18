-- ===== src/Worker/Heartbeat/Still.antt =====
-- worker/ipc/heartbeat.cpp: what a reader is told of a slot that its writer has left alone, at rest or halfway.
use load_forge.Common.{
  ℕ, zero, suc, ◌+◌, ◌*◌, ◌%◌, ◌^◌, ◌≤◌, ◌<◌, ◌≡◌, ◌≢◌, refl, sym, ap, ◌∙◌, List, length, get_elem?,
  false, subst, ltb, if◌then◌else◌, leb, Option, none, some, ok, err, arith,
}
use load_forge.Common.And.{low_bit}
use load_forge.Worker.Heartbeat.{
  Heartbeat, Slot, fresh_slot, memory_after, sample_is_consistent, never_published, retry, sampled,
  torn, max_torn_retries, attempt, observe_from, observe,
}
use load_forge.Worker.Heartbeat.Memory.{beat_of, memory_after-sequence, memory_after-beat, steps}

module _ (memory : ℕ → Slot) (now : ℕ) where
  abbrev still : ℕ → ℕ
  still i = now

  attempt_odd : (first : ℕ) → (memory now).sequence % 2 ≡ 1 → attempt memory still first ≡ retry
  unfolding attempt sample_is_consistent
  attempt_odd first odd = ground (arith, low_bit (memory now).sequence)

  observe_from_odd :
      (left first : ℕ)
      → (memory now).sequence % 2 ≡ 1
      → observe_from memory still left first ≡ err torn
  unfolding observe_from
  observe_from_odd zero first odd = refl
  observe_from_odd (suc left) first odd =
      rw (attempt_odd first odd, observe_from) (observe_from_odd left (first + 6) odd)

  attempt_even :
      (first : ℕ)
      → (memory now).sequence ≢ 0
      → (memory now).sequence % 2 ≡ 0
      → attempt memory still first ≡ sampled (beat_of (memory now))
  unfolding attempt sample_is_consistent
  attempt_even first moved even = ground (arith, low_bit (memory now).sequence)

  attempt_zero :
      (first : ℕ) → (memory now).sequence ≡ 0 → attempt memory still first ≡ never_published
  unfolding attempt
  attempt_zero first e = ground arith

  observe_from_even :
      (left first : ℕ)
      → (memory now).sequence ≢ 0
      → (memory now).sequence % 2 ≡ 0
      → observe_from memory still (suc left) first ≡ ok (some (beat_of (memory now)))
  unfolding observe_from
  observe_from_even left first moved even = rw (attempt_even first moved even, observe_from) refl

  observe_from_zero :
      (left first : ℕ)
      → (memory now).sequence ≡ 0
      → observe_from memory still (suc left) first ≡ ok none
  unfolding observe_from
  observe_from_zero left first e = rw (attempt_zero first e, observe_from) refl

attempt_begun :
    (memory : ℕ → Slot) (stores_before : ℕ → ℕ) (now first : ℕ)
    → stores_before first ≡ now
    → (memory now).sequence % 2 ≡ 1
    → attempt memory stores_before first ≡ retry
unfolding attempt sample_is_consistent
attempt_begun memory stores_before now first at odd =
    let odd_there = subst (λ i. (memory i).sequence % 2 ≡ 1) (sym at) odd in
    ground (arith, low_bit (memory (stores_before first)).sequence, odd_there)

-- A round whose loads all find the slot at rest in one state.
attempt_steady :
    (memory : ℕ → Slot) (stores_before : ℕ → ℕ) (now first : ℕ)
    → ((j : ℕ) → stores_before (first + j) ≡ now)
    → stores_before first ≡ now
    → (memory now).sequence ≢ 0
    → (memory now).sequence % 2 ≡ 0
    → attempt memory stores_before first ≡ sampled (beat_of (memory now))
unfolding attempt sample_is_consistent
attempt_steady memory stores_before now first at at_first moved even =
    let first_load = ap (λ i. (memory i).sequence) at_first in
    let timestamp = ap (λ i. (memory i).timestamp_ns) (at 1) in
    let progressed_to = ap (λ i. (memory i).progress) (at 2) in
    let phase = ap (λ i. (memory i).phase) (at 3) in
    let pid = ap (λ i. (memory i).pid) (at 4) in
    let last_load = ap (λ i. (memory i).sequence) (at 5) in
    ground (
      arith,
      low_bit (memory (stores_before first)).sequence,
      first_load,
      timestamp,
      progressed_to,
      phase,
      pid,
      last_load,
    )

-- A slot that is left halfway, at `halfway` stores, while `rounds` rounds of a reader load it, and is at rest, at `rest`
-- stores, from then on.
module _ (memory : ℕ → Slot) (halfway rest rounds : ℕ) where
  abbrev pub stalled : ℕ → ℕ
  stalled i = if ltb i (6 * rounds) then halfway else rest

  stalled_still : (i : ℕ) → i < 6 * rounds → stalled i ≡ halfway
  stalled_still i early = ground (arith, early)

  stalled_rest : (i : ℕ) → 6 * rounds ≤ i → stalled i ≡ rest
  stalled_rest i late = ground (arith, late)

  attempt_early :
      (first : ℕ)
      → first < 6 * rounds
      → (memory halfway).sequence % 2 ≡ 1
      → attempt memory stalled first ≡ retry
  attempt_early first early odd =
      attempt_begun memory stalled halfway first (stalled_still first early) odd

  attempt_late :
      (first : ℕ)
      → 6 * rounds ≤ first
      → (memory rest).sequence ≢ 0
      → (memory rest).sequence % 2 ≡ 0
      → attempt memory stalled first ≡ sampled (beat_of (memory rest))
  attempt_late first late moved even =
      attempt_steady memory stalled rest first (λ j. stalled_rest (first + j) (omega (arith, late)))
        (stalled_rest first late) moved even

  observe_from-stalled :
      (left more first : ℕ)
      → first + 6 * more ≡ 6 * rounds
      → (memory halfway).sequence % 2 ≡ 1
      → (memory rest).sequence ≢ 0
      → (memory rest).sequence % 2 ≡ 0
      → observe_from memory stalled left first
        ≡ (if ltb more left then ok (some (beat_of (memory rest))) else err torn)
  unfolding observe_from
  observe_from-stalled zero more first at odd moved even = ground arith
  observe_from-stalled (suc left) zero first at odd moved even =
      rw (attempt_late first (omega (arith, at)) moved even, observe_from) (ground arith)
  observe_from-stalled (suc left) (suc more) first at odd moved even =
      let rest_of = observe_from-stalled left more (first + 6) (omega (arith, at)) odd moved even in
      rw (attempt_early first (omega (arith, at)) odd, observe_from) (ground (arith, rest_of))

-- The last of the first `n` beats.
abbrev pub last_of : List Heartbeat → ℕ → Option Heartbeat
last_of beats zero = none
last_of beats (suc n) = get_elem? beats n

module _ (beats : List Heartbeat) (workers slot : ℕ) (there : slot ≤ workers)
    (fits : 2 * length beats < 2 ^ 64) where
  abbrev seen : ℕ → Slot
  seen now = memory_after fresh_slot beats now

  seen-sequence : (now : ℕ) → now ≤ 6 * length beats → (seen now).sequence ≡ steps now
  seen-sequence now within =
      memory_after-sequence fresh_slot beats now within (omega (arith, fits)) ∙ omega arith

  in_range : leb (workers + 1) slot ≡ false
  in_range = ground (arith, there)

  observe-rest :
      (n : ℕ) → n ≤ length beats → observe seen (λ i. 6 * n) workers slot ≡ ok (last_of beats n)
  unfolding observe
  observe-rest zero published =
      rw
        (
          in_range,
          observe_from_zero seen (6 * zero) 63 0
              (seen-sequence (6 * zero) (omega arith) ∙ omega arith),
        )
        refl
  observe-rest (suc n) published =
      let grown = seen-sequence (6 * suc n) (omega (arith, published)) in
      rw
        (
          in_range,
          observe_from_even seen (6 * suc n) 63 0 (λ none_there. omega (arith, grown, none_there))
              (omega (arith, grown)),
        )
        (ap (λ found. ok found) (sym (memory_after-beat fresh_slot beats n published)))

  observe-midway :
      (n k : ℕ)
      → n < length beats
      → 0 < k
      → k < 6
      → observe seen (λ i. 6 * n + k) workers slot ≡ err torn
  unfolding observe
  observe-midway n k started some_made not_all = rw in_range (
      observe_from_odd seen (6 * n + k) max_torn_retries 0 (
        omega
          (arith, seen-sequence (6 * n + k) (omega (arith, started, not_all)), some_made, not_all)))

  observe-stalled :
      (n k rounds : ℕ)
      → n < length beats
      → 0 < k
      → k < 6
      → observe seen (stalled seen (6 * n + k) (6 * suc n) rounds) workers slot
        ≡ (if ltb rounds 64 then ok (get_elem? beats n) else err torn)
  unfolding observe
  observe-stalled n k rounds started some_made not_all =
      let grown = seen-sequence (6 * suc n) (omega (arith, started)) in
      let halfway = seen-sequence (6 * n + k) (omega (arith, started, not_all)) in
      rw in_range (
        observe_from-stalled seen (6 * n + k) (6 * suc n) rounds max_torn_retries rounds 0
          (omega arith) (omega (arith, halfway, some_made, not_all))
          (λ none_there. omega (arith, grown, none_there)) (omega (arith, grown))
        ∙ ap (λ found. if ltb rounds 64 then ok found else err torn)
            (sym (memory_after-beat fresh_slot beats n started)))

  -- A reader of a slot that exists, whose writer makes no store meanwhile, is told the beat that was published last, or
  -- that none was. A writer that stops between two stores of a publication, and makes the others at once when the reader
  -- has loaded it for so many rounds, lets the reader have that beat if those are fewer than sixty-four, and otherwise the
  -- slot is told to be torn; so it is where the writer never goes on.
  pub observe_still :
      ((n : ℕ) → n ≤ length beats → observe seen (λ i. 6 * n) workers slot ≡ ok (last_of beats n))
      × ((n k rounds : ℕ)
          → n < length beats
          → 0 < k
          → k < 6
          → observe seen (stalled seen (6 * n + k) (6 * suc n) rounds) workers slot
            ≡ (if ltb rounds 64 then ok (get_elem? beats n) else err torn))
      × ((n k : ℕ)
          → n < length beats
          → 0 < k
          → k < 6
          → observe seen (λ i. 6 * n + k) workers slot ≡ err torn)
  observe_still = (observe-rest, observe-stalled, observe-midway)
