-- ===== src/Worker/Heartbeat/Samples.antt =====
-- worker/ipc/heartbeat.cpp: what a reader is told of a slot that its writer is writing.
use load_forge.Common.{
  ℕ, zero, suc, ◌+◌, ◌-◌, ◌*◌, ◌/◌, ◌%◌, ◌^◌, ◌≤◌, ◌<◌, ◌≡◌, refl, sym, ap, ◌∙◌, List, length,
  get_elem?, true, leb, ◌==◌, Option, none, some, Outcome, ok, err, arith, Bool-cases, inl, inr,
  subst, ==_iff, ◌≢◌,
}
use load_forge.Common.And.{low_bit}
use load_forge.Worker.Heartbeat.{
  Heartbeat, Slot, fresh_slot, memory_after, sample_is_consistent, Attempt, never_published, retry,
  sampled, RegionFault, max_torn_retries, attempt, observe_from, observe, load,
}
use load_forge.Worker.Heartbeat.Memory.{memory_after-sequence, memory_after-beat, steps}

consistent-even :
    (before after : ℕ)
    → sample_is_consistent before after ≡ true
    → (before % 2 ≡ 0) × (before ≡ after)
unfolding sample_is_consistent
consistent-even before after e = (ground (arith, low_bit before, e), ground (arith, e))

at_rest :
    (a b : ℕ)
    → steps a ≢ 0
    → steps a % 2 ≡ 0
    → steps a ≡ steps b
    → (n : ℕ) × (a ≡ 6 * suc n) × (b ≡ 6 * suc n)
at_rest a b moved even same =
    let whole : a % 6 ≡ 0 = grind (arith, even) in
    (a / 6 - 1, omega (arith, whole, moved), omega (arith, whole, moved, same))

never_stored : (a : ℕ) → steps a ≡ 0 → a ≡ 0
never_stored a e = omega (arith, e)

module _ (beats : List Heartbeat) (stores_before : ℕ → ℕ) where
  abbrev seen : ℕ → Slot
  seen n = memory_after fresh_slot beats n

  -- The moments at which a sample is accepted: the writer had published `n` beats and one more, and no
  -- store of the next was made.
  abbrev pub IsLatest : Heartbeat → Type 0
  IsLatest beat =
      (i : ℕ) × (n : ℕ) × (stores_before i ≡ 6 * suc n) × (get_elem? beats n ≡ some beat)

  abbrev pub IsUnwritten : Type 0
  IsUnwritten = (i : ℕ) × (stores_before i ≡ 0)

  abbrev pub IsTrue : Option Heartbeat → Type 0
  IsTrue none = IsUnwritten
  IsTrue (some beat) = IsLatest beat

  abbrev IsAttempt : Attempt → Type 0
  IsAttempt never_published = IsUnwritten
  IsAttempt (sampled beat) = IsLatest beat
  IsAttempt retry = Unit {0}

  abbrev Tells : Outcome (Option Heartbeat) RegionFault → Type 0
  Tells (ok found) = IsTrue found
  Tells (err fault) = Unit {0}

  module _ (within : (i : ℕ) → stores_before i ≤ 6 * length beats)
      (fits : 2 * length beats < 2 ^ 64)
      (in_order : (i j : ℕ) → i ≤ j → stores_before i ≤ stores_before j) where
    load-sequence : (i : ℕ) → (load seen stores_before i).sequence ≡ steps (stores_before i)
    load-sequence i =
        memory_after-sequence fresh_slot beats (stores_before i) (within i) (omega (arith, fits))
        ∙ omega arith

    -- The loads of an accepted round were all made at one moment, at which no write was in progress.
    same_moment :
        (first : ℕ)
        → (load seen stores_before first).sequence ≢ 0
        → (load seen stores_before first).sequence % 2 ≡ 0
        → (load seen stores_before first).sequence ≡ (load seen stores_before (first + 5)).sequence
        → (n : ℕ) × (n < length beats) × ((k : ℕ) → k ≤ 5 → stores_before (first + k) ≡ 6 * suc n)
    same_moment first some_there even same =
        let (n, at_first, at_last) =
          at_rest (stores_before first) (stores_before (first + 5))
            (λ none_there. some_there (load-sequence first ∙ none_there))
            (ap (λ (s : ℕ). s % 2) (sym (load-sequence first)) ∙ even)
            (sym (load-sequence first) ∙ same ∙ load-sequence (first + 5)) in
        (
          n,
          omega (arith, within first, at_first),
          λ k small. omega (
            arith,
            at_first,
            at_last,
            in_order first (first + k) (omega arith),
            in_order (first + k) (first + 5) (omega (arith, small)),
          ),
        )

    sampled-IsLatest :
        (first : ℕ)
        → (load seen stores_before first).sequence ≢ 0
        → sample_is_consistent
            (load seen stores_before first).sequence
            (load seen stores_before (first + 5)).sequence
          ≡ true
        → IsLatest (record {
          timestamp_ns = (load seen stores_before (first + 1)).timestamp_ns;
          progress = (load seen stores_before (first + 2)).progress;
          phase = (load seen stores_before (first + 3)).phase;
          pid = (load seen stores_before (first + 4)).pid;
        })
    sampled-IsLatest first some_there accepted =
        let (even, same) = consistent-even _ _ accepted in
        let (n, there, at) = same_moment first some_there even same in
        (
          first,
          n,
          ap stores_before (omega arith) ∙ at 0 (omega arith),
          memory_after-beat fresh_slot beats n there
              ∙ rw (at 1 (omega arith), at 2 (omega arith), at 3 (omega arith), at 4 (omega arith))
                  refl,
        )

    attempt-IsAttempt : (first : ℕ) → IsAttempt (attempt seen stores_before first)
    unfolding attempt
    attempt-IsAttempt first = elim (Bool-cases ((load seen stores_before first).sequence == 0)) [
      | inl none_there ↦
          rw (none_there, attempt)
            (
              first,
              never_stored (stores_before first)
                  (sym (load-sequence first) ∙ (==_iff _ _).0 none_there),
            )
      | inr some_there ↦
          elim (Bool-cases (
            sample_is_consistent (load seen stores_before first).sequence
              (load seen stores_before (first + 5)).sequence)) [
                | inl accepted ↦
                    rw (some_there, accepted, attempt)
                      (sampled-IsLatest first (λ e. ground (arith, some_there, e)) accepted)
                | inr refused ↦ rw (some_there, refused, attempt) tt
              ]
    ]

    observe_from-Tells : (left first : ℕ) → Tells (observe_from seen stores_before left first)
    unfolding observe_from
    observe_from-Tells zero first = tt
    observe_from-Tells (suc left) first =
        go (attempt seen stores_before first) (attempt-IsAttempt first)
          (observe_from-Tells left (first + 6))
      where
        go :
            (found : Attempt)
            → IsAttempt found
            → Tells (observe_from seen stores_before left (first + 6))
            → Tells (elim found [
              | never_published ↦ ok none
              | sampled beat ↦ ok (some beat)
              | retry ↦ observe_from seen stores_before left (first + 6)
            ])
        go never_published is later = is
        go (sampled beat) is later = is
        go retry is later = later

    -- However the loads of a reader fall between the stores of the slot's writer, the beat that it is told is one
    -- that was published whole, the last one at the moment of one of its loads, and it is told that none was published
    -- only if none was at the moment of a load.
    pub observe-IsTrue :
        (workers slot : ℕ) (found : Option Heartbeat)
        → observe seen stores_before workers slot ≡ ok found
        → IsTrue found
    unfolding observe
    observe-IsTrue workers slot found e = elim (Bool-cases (leb (workers + 1) slot)) [
      | inl out_of_range ↦ let refused = rw (out_of_range, observe) at e in cc
      | inr in_range ↦
          subst Tells (rw (in_range, observe) at e) (observe_from-Tells max_torn_retries 0)
    ]
