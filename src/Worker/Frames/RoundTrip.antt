-- ===== src/Worker/Frames/RoundTrip.antt =====
-- The tally and memory-lock frames of worker/frames.cpp: what one side decodes is what the other
-- encoded, and nothing but an encoding of a sound lock is decoded as one.
use load_forge.Common.{
  ℕ, ◌*◌, ◌^◌, ◌≤◌, ◌<◌, ◌≡◌, refl, sym, ap, ◌∙◌, List, [], ◌∷◌, length, take, Bool, true, false,
  ◌&&◌, not, ltb, ◌==◌, Bool-cases, Option-cases, some, ltb→lt, ltb→le, take_all, if◌then◌else◌,
  Outcome, ok, err, min, All, arith, length-append, drop-append, length-take, le→ltb, ◌⊎◌, inl, inr,
}
use load_forge.Common.Bits.{put, put_from, length-put_from, get-put}
use load_forge.Worker.Frames.{
  Tally, max_memory_detail_bytes, counters_of, put_counters, encode_tally, get_counters, tally_of,
  decode_tally, LockPolicy, required, attempted, none_wanted, LockOutcome, locked, not_locked,
  fell_back, MemoryLock, encode_memory, decode_memory, decode_policy, decode_outcome,
  detail_not_expected, decode_detail, policy_of, outcome_of, policy_number, outcome_number,
  FrameError,
}

abbrev IsU64 : ℕ → Type 0
IsU64 v = v < 2 ^ 64

length-put_counters : (counters : List ℕ) → length (put_counters counters) ≡ length counters * 8
unfolding put_counters
length-put_counters [] = refl
length-put_counters (counter ∷ counters) =
    length-append (put 8 counter) (put_counters counters)
    ∙ omega (arith, length-put_from 0 8 counter, length-put_counters counters)

get-put_counters :
    (counters : List ℕ)
    → All IsU64 counters
    → get_counters (length counters) (put_counters counters) ≡ counters
unfolding put_counters get_counters put_from
get-put_counters [] fits = refl
get-put_counters (counter ∷ counters) fits = rw (
  get-put 8 counter (put_counters counters) fits.0,
  drop-append (put 8 counter) (put_counters counters),
  get-put_counters counters fits.1,
)

-- Decoding the frame of a tally whose counters are 64-bit values gives the tally.
pub decode_tally-encode_tally :
    (tally : Tally) → All IsU64 (counters_of tally) → decode_tally (encode_tally tally) ≡ ok tally
unfolding decode_tally encode_tally tally_of
decode_tally-encode_tally tally fits =
    rw (length-put_counters (counters_of tally))
      (ap (λ counters. ok (tally_of counters)) (get-put_counters (counters_of tally) fits))

-- A lock's detail is empty unless the outcome is the refusal that it tells of.
abbrev pub IsMemoryLock : MemoryLock → Type 0
IsMemoryLock lock = (lock.detail ≡ []) ⊎ (lock.outcome ≡ fell_back)

take-min : {A : Type 0} (n : ℕ) (xs : List A) → take (min (length xs) n) xs ≡ take n xs
take-min n xs = elim (Bool-cases (ltb n (length xs))) [
  | inl longer ↦
      let all_asked : min (length xs) n ≡ n = omega (arith, ltb→lt n (length xs) longer) in
      ap (λ m. take m xs) all_asked
  | inr shorter ↦
      let all_there : min (length xs) n ≡ length xs = omega (arith, ltb→le n (length xs) shorter) in
      ap (λ m. take m xs) all_there
      ∙ take_all (length xs) xs (omega arith)
      ∙ sym (take_all n xs (ltb→le n (length xs) shorter))
]

decode_policy-policy_number :
    (policy : LockPolicy) (outcome : ℕ) (detail : List ℕ)
    → decode_policy (policy_number policy) outcome detail ≡ decode_outcome policy outcome detail
unfolding decode_policy policy_of policy_number
decode_policy-policy_number required outcome detail = refl
decode_policy-policy_number attempted outcome detail = refl
decode_policy-policy_number none_wanted outcome detail = refl

decode_outcome-outcome_number :
    (policy : LockPolicy) (outcome : LockOutcome) (detail : List ℕ)
    → decode_outcome policy (outcome_number outcome) detail ≡ decode_detail policy outcome detail
unfolding decode_outcome outcome_of outcome_number
decode_outcome-outcome_number policy locked detail = refl
decode_outcome-outcome_number policy not_locked detail = refl
decode_outcome-outcome_number policy fell_back detail = refl

decode_detail-ok :
    (policy : LockPolicy) (outcome : LockOutcome) (detail : List ℕ)
    → length detail ≤ max_memory_detail_bytes
    → (detail ≡ []) ⊎ (outcome ≡ fell_back)
    → decode_detail policy outcome detail
      ≡ ok record { policy = policy; outcome = outcome; detail = detail }
unfolding decode_detail
decode_detail-ok policy outcome detail small (inl none_given) = rw (none_given)
decode_detail-ok policy outcome detail small (inr refused) =
    rw (refused, le→ltb max_memory_detail_bytes (length detail) small) (last (length detail == 0))
  where
    last :
        (b : Bool)
        → ◌≡◌ {A = Outcome MemoryLock FrameError}
            (if not b && false
              then err detail_not_expected
              else ok record { policy = policy; outcome = fell_back; detail = detail })
            (ok record { policy = policy; outcome = fell_back; detail = detail })
    last true = refl
    last false = refl

-- Decoding the frame of a lock whose detail is empty unless the kernel refused the lock gives the
-- lock, its detail cut to its first max_memory_detail_bytes bytes.
pub decode_memory-encode_memory :
    (lock : MemoryLock)
    → IsMemoryLock lock
    → decode_memory (encode_memory lock)
      ≡ ok record {
        policy = lock.policy;
        outcome = lock.outcome;
        detail = take max_memory_detail_bytes lock.detail;
      }
unfolding decode_memory encode_memory
decode_memory-encode_memory lock sound = rw (take-min max_memory_detail_bytes lock.detail) (
    decode_policy-policy_number lock.policy (outcome_number lock.outcome) kept
    ∙ decode_outcome-outcome_number lock.policy lock.outcome kept
    ∙ decode_detail-ok lock.policy lock.outcome kept
        (omega (arith, length-take max_memory_detail_bytes lock.detail)) (still sound))
  where
    kept : List ℕ
    kept = take max_memory_detail_bytes lock.detail

    still : IsMemoryLock lock → (kept ≡ []) ⊎ (lock.outcome ≡ fell_back)
    still (inl none_given) = inl (ap (take max_memory_detail_bytes) none_given)
    still (inr refused) = inr refused

decode_detail-inverse :
    (policy : LockPolicy) (outcome : LockOutcome) (detail : List ℕ) (lock : MemoryLock)
    → decode_detail policy outcome detail ≡ ok lock
    → (lock ≡ record { policy = policy; outcome = outcome; detail = detail })
      × ((detail ≡ []) ⊎ (outcome ≡ fell_back))
      × (length detail ≤ max_memory_detail_bytes)
unfolding decode_detail
decode_detail-inverse policy outcome [] lock decoded = (ground (arith), inl refl, omega arith)
decode_detail-inverse policy locked (byte ∷ detail) lock decoded = ground (arith)
decode_detail-inverse policy not_locked (byte ∷ detail) lock decoded = ground (arith)
decode_detail-inverse policy fell_back (byte ∷ detail) lock decoded = ground (arith)

abbrev IsRecordOf : ℕ → ℕ → List ℕ → MemoryLock → Type 0
IsRecordOf policy outcome detail lock =
    (policy_number lock.policy ≡ policy)
    × (outcome_number lock.outcome ≡ outcome)
    × (lock.detail ≡ detail)
    × IsMemoryLock lock
    × (length lock.detail ≤ max_memory_detail_bytes)

outcome_of-inverse :
    (byte : ℕ) (outcome : LockOutcome)
    → outcome_of byte ≡ some outcome
    → outcome_number outcome ≡ byte
unfolding outcome_of outcome_number
outcome_of-inverse byte outcome found = ground arith

policy_of-inverse :
    (byte : ℕ) (policy : LockPolicy) → policy_of byte ≡ some policy → policy_number policy ≡ byte
unfolding policy_of policy_number
policy_of-inverse byte policy found = ground arith

decode_outcome-inverse :
    (policy : LockPolicy) (outcome : ℕ) (detail : List ℕ) (lock : MemoryLock)
    → decode_outcome policy outcome detail ≡ ok lock
    → IsRecordOf (policy_number policy) outcome detail lock
unfolding decode_outcome
decode_outcome-inverse policy outcome detail lock decoded =
    elim (Option-cases (outcome_of outcome)) [
      | inl absent ↦ ground arith
      | inr found ↦ ground (
        arith,
        outcome_of-inverse outcome found.0 found.1,
        decode_detail-inverse policy found.0 detail lock,
      )
    ]

decode_policy-inverse :
    (policy outcome : ℕ) (detail : List ℕ) (lock : MemoryLock)
    → decode_policy policy outcome detail ≡ ok lock
    → IsRecordOf policy outcome detail lock
unfolding decode_policy
decode_policy-inverse policy outcome detail lock decoded = elim (Option-cases (policy_of policy)) [
  | inl absent ↦ ground arith
  | inr found ↦ ground (
    arith,
    policy_of-inverse policy found.0 found.1,
    decode_outcome-inverse found.0 outcome detail lock,
  )
]

encodes :
    (version policy outcome : ℕ) (detail : List ℕ) (lock : MemoryLock)
    → (version == 1) ≡ true
    → IsRecordOf policy outcome detail lock
    → (encode_memory lock ≡ version ∷ policy ∷ outcome ∷ detail)
      × IsMemoryLock lock
      × (length lock.detail ≤ max_memory_detail_bytes)
unfolding encode_memory
encodes version policy outcome detail lock known is = (
  rw
      (
        take-min max_memory_detail_bytes lock.detail,
        take_all max_memory_detail_bytes lock.detail is.4,
        is.0,
        is.1,
        is.2,
      )
      (ap (λ v. v ∷ policy ∷ outcome ∷ detail) one),
  is.3,
  is.4,
)
  where
    one : 1 ≡ version
    one = ground arith

-- What decodes as a lock is the frame that encodes that lock, its detail is empty unless the kernel
-- refused the lock, and it is at most max_memory_detail_bytes long.
pub decode_memory-IsMemoryLock :
    (bytes : List ℕ) (lock : MemoryLock)
    → decode_memory bytes ≡ ok lock
    → (encode_memory lock ≡ bytes)
      × IsMemoryLock lock
      × (length lock.detail ≤ max_memory_detail_bytes)
unfolding decode_memory encode_memory
decode_memory-IsMemoryLock [] lock decoded = ground arith
decode_memory-IsMemoryLock (version ∷ []) lock decoded = ground arith
decode_memory-IsMemoryLock (version ∷ policy ∷ []) lock decoded = ground arith
decode_memory-IsMemoryLock (version ∷ policy ∷ outcome ∷ detail) lock decoded =
    elim (Bool-cases (version == 1)) [
      | inl known ↦
          encodes version policy outcome detail lock known
            (decode_policy-inverse policy outcome detail lock (simp known at decoded))
      | inr unknown ↦ ground arith
    ]
