-- ===== src/Worker/Heartbeat.antt =====
-- worker/ipc/heartbeat.hpp and worker/ipc/heartbeat.cpp: the slots of the heartbeat region, each with one
-- writer and any number of readers. A store or a load of one word is a step. The fences are not modelled:
-- a load sees the stores that were made before it, in their order, which is what they are there for.
pub mod Memory
pub mod Samples
pub mod Still
use load_forge.Common.{
  ℕ, zero, suc, ◌+◌, ◌%◌, ◌^◌, List, [], ◌∷◌, ◌++◌, take, Bool, true, false, ◌&&◌, ltb, leb, ◌==◌,
  if◌then◌else◌, Option, none, some, Outcome, ok, err, bit_and,
}

pub record Heartbeat : Type 0 where
  pub timestamp_ns : ℕ
  pub progress : ℕ
  pub phase : ℕ
  pub pid : ℕ

pub data RegionFault : Type 0 where
  refused_by_kernel wrong_magic wrong_version wrong_slot_count wrong_slot_bytes : RegionFault
  too_many_workers slot_out_of_range torn : RegionFault

pub record Slot : Type 0 where
  pub sequence : ℕ
  pub timestamp_ns : ℕ
  pub progress : ℕ
  pub phase : ℕ
  pub pid : ℕ

-- A slot of a fresh region: a memory file is filled with zeros.
abbrev pub fresh_slot : Slot
fresh_slot = record { sequence = 0; timestamp_ns = 0; progress = 0; phase = 0; pid = 0 }

pub data Store : Type 0 where
  set_sequence set_timestamp_ns set_progress set_phase set_pid : ℕ → Store

unfoldable pub store : Slot → Store → Slot
store slot (set_sequence value) = record slot { sequence = value }
store slot (set_timestamp_ns value) = record slot { timestamp_ns = value }
store slot (set_progress value) = record slot { progress = value }
store slot (set_phase value) = record slot { phase = value }
store slot (set_pid value) = record slot { pid = value }

unfoldable pub store_all : Slot → List Store → Slot
store_all slot [] = slot
store_all slot (each ∷ stores) = store_all (store slot each) stores

-- The stores of `publish` to a slot in which it finds the sequence `found`.
unfoldable pub publish_stores : (found : ℕ) → Heartbeat → List Store
publish_stores found beat =
    let writing = (found + 1) % 2 ^ 64 in
    set_sequence writing
    ∷ set_timestamp_ns beat.timestamp_ns
    ∷ set_progress beat.progress
    ∷ set_phase beat.phase
    ∷ set_pid beat.pid
    ∷ set_sequence ((writing + 1) % 2 ^ 64)
    ∷ []

unfoldable pub publish : Slot → Heartbeat → Slot
publish slot beat = store_all slot (publish_stores slot.sequence beat)

-- All the stores of a writer that publishes one beat after the other.
unfoldable pub writes : Slot → List Heartbeat → List Store
writes slot [] = []
writes slot (beat ∷ beats) = publish_stores slot.sequence beat ++ writes (publish slot beat) beats

-- The slot after so many of its writer's stores.
unfoldable pub memory_after : Slot → List Heartbeat → ℕ → Slot
memory_after slot beats n = store_all slot (take n (writes slot beats))

unfoldable pub sample_is_consistent : (before after : ℕ) → Bool
sample_is_consistent before after = (bit_and before 1 == 0) && (before == after)

pub data Attempt : Type 0 where
  never_published retry : Attempt
  sampled : Heartbeat → Attempt

abbrev pub max_torn_retries : ℕ
max_torn_retries = 64

-- The loads of a reader: the memory, and how many stores were made before each of them.
module _ (memory : ℕ → Slot) (stores_before : ℕ → ℕ) where
  abbrev pub load : ℕ → Slot
  load i = memory (stores_before i)

  -- One round of `observe`, whose loads are those from `first` on.
  unfoldable pub attempt : ℕ → Attempt
  attempt first =
      if (load first).sequence == 0
      then never_published
      else if sample_is_consistent (load first).sequence (load (first + 5)).sequence
      then sampled (record {
        timestamp_ns = (load (first + 1)).timestamp_ns;
        progress = (load (first + 2)).progress;
        phase = (load (first + 3)).phase;
        pid = (load (first + 4)).pid;
      })
      else retry

  unfoldable pub observe_from : (left first : ℕ) → Outcome (Option Heartbeat) RegionFault
  observe_from zero first = err torn
  observe_from (suc left) first = elim (attempt first) [
    | never_published ↦ ok none
    | sampled beat ↦ ok (some beat)
    | retry ↦ observe_from left (first + 6)
  ]

  -- `observe` of a slot of a region for `workers`.
  unfoldable pub observe : (workers slot : ℕ) → Outcome (Option Heartbeat) RegionFault
  observe workers slot =
      if leb (workers + 1) slot then err slot_out_of_range else observe_from max_torn_retries 0

pub data Liveness : Type 0 where
  never_beat is_fresh is_stale : Liveness

-- The age is more than `stale_after_ns` when `now_ns` is more than the timestamp and that together.
unfoldable pub liveness : Option Heartbeat → (now_ns stale_after_ns : ℕ) → Liveness
liveness none now_ns stale_after_ns = never_beat
liveness (some beat) now_ns stale_after_ns =
    if ltb (beat.timestamp_ns + stale_after_ns) now_ns then is_stale else is_fresh

unfoldable pub progressed : (earlier later : Heartbeat) → Bool
progressed earlier later = ltb earlier.progress later.progress
