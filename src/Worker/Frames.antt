-- ===== src/Worker/Frames.antt =====
-- worker/frames.cpp: the tally and the memory-lock frames. The words of a refusal are a constructor
-- each, with the numbers that they print.
pub mod RoundTrip
use load_forge.Common.{
  ℕ, zero, suc, ◌+◌, ◌-◌, ◌*◌, ◌%◌, ◌^◌, List, [], ◌∷◌, ◌++◌, length, take, drop, Bool, ◌&&◌, not,
  true, false, ltb, ◌==◌, if◌then◌else◌, Outcome, ok, err, min, Option, none, some,
}
use load_forge.Common.Bits.{put, get}

-- verification::Tally: seven uint64_t counters.
pub record Tally : Type 0 where
  pub units_computed : ℕ
  pub oracle_checked : ℕ
  pub oracle_blocks : ℕ
  pub oracle_failed : ℕ
  pub oracle_not_performed : ℕ
  pub integrity_checked : ℕ
  pub integrity_failed : ℕ

abbrev pub tally_frame_bytes : ℕ
tally_frame_bytes = 57

abbrev pub max_memory_detail_bytes : ℕ
max_memory_detail_bytes = 1024

-- Both kTallyFormatVersion and kMemoryFormatVersion.
abbrev pub format_version : ℕ
format_version = 1

abbrev pub counters_of : Tally → List ℕ
counters_of tally =
    tally.units_computed ∷ tally.oracle_checked ∷ tally.oracle_blocks ∷ tally.oracle_failed
    ∷ tally.oracle_not_performed ∷ tally.integrity_checked ∷ tally.integrity_failed ∷ []

unfoldable pub put_counters : List ℕ → List ℕ
put_counters [] = []
put_counters (counter ∷ counters) = put 8 counter ++ put_counters counters

unfoldable pub encode_tally : Tally → List ℕ
unfolding put_counters
encode_tally tally = format_version ∷ put_counters (counters_of tally)

pub data FrameError : Type 0 where
  tally_size memory_size : ℕ → FrameError
  tally_version memory_version : ℕ → FrameError
  unknown_policy unknown_outcome : ℕ → FrameError
  detail_too_long : ℕ → FrameError
  detail_not_expected : FrameError

-- The cursor's walk over `count` counters.
unfoldable pub get_counters : ℕ → List ℕ → List ℕ
get_counters zero cursor = []
get_counters (suc count) cursor = get 8 cursor ∷ get_counters count (drop 8 cursor)

-- The counters by position, as the array of pointers to fields takes them.
unfoldable pub tally_of : List ℕ → Tally
tally_of (a ∷ b ∷ c ∷ d ∷ e ∷ f ∷ g ∷ _) = record {
  units_computed = a;
  oracle_checked = b;
  oracle_blocks = c;
  oracle_failed = d;
  oracle_not_performed = e;
  integrity_checked = f;
  integrity_failed = g;
}
tally_of _ = record {
  units_computed = 0;
  oracle_checked = 0;
  oracle_blocks = 0;
  oracle_failed = 0;
  oracle_not_performed = 0;
  integrity_checked = 0;
  integrity_failed = 0;
}

-- `bytes.front()` of bytes that are not empty.
abbrev front : List ℕ → ℕ
front [] = 0
front (byte ∷ bytes) = byte

unfoldable pub decode_tally : List ℕ → Outcome Tally FrameError
unfolding get_counters tally_of
decode_tally bytes =
    if not (length bytes == tally_frame_bytes)
    then err (tally_size (length bytes))
    else if not (front bytes == format_version)
    then err (tally_version (front bytes))
    else ok (tally_of (get_counters 7 (drop 1 bytes)))

pub data LockPolicy : Type 0 where
  required attempted none_wanted : LockPolicy

pub data LockOutcome : Type 0 where
  locked not_locked fell_back : LockOutcome

-- The numbers of the enums, kRequire, kTry, kNone and kLocked, kNotLocked, kFellBack.
unfoldable pub policy_number : LockPolicy → ℕ
policy_number required = 0
policy_number attempted = 1
policy_number none_wanted = 2

unfoldable pub outcome_number : LockOutcome → ℕ
outcome_number locked = 0
outcome_number not_locked = 1
outcome_number fell_back = 2

unfoldable pub policy_of : ℕ → Option LockPolicy
policy_of policy =
    if policy == 0
    then some required
    else if policy == 1
    then some attempted
    else if policy == 2
    then some none_wanted
    else none

unfoldable pub outcome_of : ℕ → Option LockOutcome
outcome_of outcome =
    if outcome == 0
    then some locked
    else if outcome == 1
    then some not_locked
    else if outcome == 2
    then some fell_back
    else none

pub record MemoryLock : Type 0 where
  pub policy : LockPolicy
  pub outcome : LockOutcome
  pub detail : List ℕ

unfoldable pub encode_memory : MemoryLock → List ℕ
unfolding policy_number outcome_number
encode_memory lock =
    format_version
    ∷ policy_number lock.policy
    ∷ outcome_number lock.outcome
    ∷ take (min (length lock.detail) max_memory_detail_bytes) lock.detail

abbrev pub is_fell_back : LockOutcome → Bool
is_fell_back fell_back = true
is_fell_back _ = false

-- The rules on the detail, the bytes past the header.
unfoldable pub decode_detail : LockPolicy → LockOutcome → List ℕ → Outcome MemoryLock FrameError
decode_detail policy outcome detail =
    if ltb max_memory_detail_bytes (length detail)
    then err (detail_too_long (length detail))
    else if not (length detail == 0) && not (is_fell_back outcome)
    then err detail_not_expected
    else ok record { policy = policy; outcome = outcome; detail = detail }

unfoldable pub decode_outcome : LockPolicy → ℕ → List ℕ → Outcome MemoryLock FrameError
unfolding outcome_of decode_detail
decode_outcome policy byte detail = with_outcome (outcome_of byte)
  where
    with_outcome : Option LockOutcome → Outcome MemoryLock FrameError
    with_outcome none = err (unknown_outcome byte)
    with_outcome (some outcome) = decode_detail policy outcome detail

unfoldable pub decode_policy : ℕ → ℕ → List ℕ → Outcome MemoryLock FrameError
unfolding policy_of decode_outcome
decode_policy byte outcome detail = with_policy (policy_of byte)
  where
    with_policy : Option LockPolicy → Outcome MemoryLock FrameError
    with_policy none = err (unknown_policy byte)
    with_policy (some policy) = decode_outcome policy outcome detail

unfoldable pub decode_memory : List ℕ → Outcome MemoryLock FrameError
unfolding decode_policy
decode_memory (version ∷ policy ∷ outcome ∷ detail) =
    if not (version == format_version)
    then err (memory_version version)
    else decode_policy policy outcome detail
decode_memory bytes = err (memory_size (length bytes))
