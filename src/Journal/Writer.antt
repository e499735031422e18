-- ===== src/Journal/Writer.antt =====
-- controller/journal/journal.cpp: the writer over a storage, and the replay of one. The storage is
-- the interface of controller/journal/journal.hpp, with what its comment promises as laws.
pub mod Sound
pub mod Closing
use load_forge.Common.{
  ℕ, ◌+◌, ◌≤◌, ◌<◌, ◌≡◌, List, [], ◌∷◌, ◌++◌, length, take, Bool, true, false, ◌||◌, ltb, ◌==◌,
  if◌then◌else◌, Outcome, ok, err,
}
use load_forge.Journal.Format.{
  Entry, Replay, max_label_bytes, frame, encode_entry, terminator_payload,
}
use load_forge.Journal.Scan.{scan}
use load_forge.Common.{Option, none, some}

pub data JournalFault : Type 0 where
  storage too_large not_empty closed : JournalFault

abbrev pub Answer : Type 0
Answer = Outcome (Unit {0}) JournalFault

pub record Storage (S : Type 0) : Type 0 where
  pub append : S → List ℕ → Answer × S
  pub sync : S → Answer × S
  pub read_all : S → Outcome (List ℕ) JournalFault

-- Append-only: a failed append may have added a prefix of the bytes, and syncing adds none.
pub record IsStorage {S : Type 0} (disk : Storage S) : Type 0 where
  pub contents : S → List ℕ
  pub append_done :
      (s : S) (bytes : List ℕ)
      → (disk.append s bytes).0 ≡ ok tt
      → contents (disk.append s bytes).1 ≡ contents s ++ bytes
  pub append_failed :
      (s : S) (bytes : List ℕ) (fault : JournalFault)
      → (disk.append s bytes).0 ≡ err fault
      → (n : ℕ) × (contents (disk.append s bytes).1 ≡ contents s ++ take n bytes)
  pub sync_keeps : (s : S) → contents (disk.sync s).1 ≡ contents s
  pub read_all_contents : (s : S) (bytes : List ℕ) → disk.read_all s ≡ ok bytes → bytes ≡ contents s

-- The class FormatWriter, with the state of the storage that it points to.
pub record Writer (S : Type 0) : Type 0 where
  pub stored : S
  pub is_closed : Bool

module _ {S : Type 0} (disk : Storage S) where
  abbrev keep_answer : Bool → Answer × S → Answer × Writer S
  keep_answer closed_now (answer, s) = (answer, record { stored = s; is_closed = closed_now })

  unfoldable pub append : Writer S → Entry → Answer × Writer S
  append writer entry =
      if writer.is_closed
      then (err closed, writer)
      else if ltb max_label_bytes (length entry.phase)
          || ltb max_label_bytes (length entry.workload)
      then (err too_large, writer)
      else keep_answer false (disk.append writer.stored (frame (encode_entry entry)))

  unfoldable pub sync : Writer S → Answer × Writer S
  sync writer =
      if writer.is_closed then (err closed, writer) else keep_answer false (disk.sync writer.stored)

  unfoldable pub finish : Answer × S → Answer × Writer S
  finish (err fault, s) = (err fault, record { stored = s; is_closed = false })
  finish (ok _, s) = keep_answer true (disk.sync s)

  unfoldable pub close : Writer S → Answer × Writer S
  unfolding finish
  close writer =
      if writer.is_closed
      then (err closed, writer)
      else finish (disk.append writer.stored (frame terminator_payload))

  unfoldable pub open_writer : S → Outcome (Writer S) JournalFault
  open_writer s = elim (disk.read_all s) [
    | err fault ↦ err fault
    | ok bytes ↦
        if length bytes == 0 then ok (record { stored = s; is_closed = false }) else err not_empty
  ]

  unfoldable pub replay : S → Outcome (Option Replay) JournalFault
  replay s = elim (disk.read_all s) [ err fault ↦ err fault | ok bytes ↦ ok (scan bytes) ]
