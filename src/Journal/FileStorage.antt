-- ===== src/Journal/FileStorage.antt =====
-- controller/journal/file_storage.cpp: a journal's storage over a file, and the file operations that it calls.
pub mod Files
pub mod Reading
pub mod Refines
use load_forge.Common.{
  ℕ, zero, suc, List, [], ◌∷◌, ◌++◌, length, drop, Bool, true, false, Option, none, some, Outcome,
  ok, err,
}
use load_forge.Journal.Writer.{Answer, JournalFault, storage, Storage}
use load_forge.Worker.Channel.Source.{
  SyscallError, interrupted, failed, call_error, nothing_written, try_again, Sent, after_write,
}

pub data Mode : Type 0 where
  append read directory : Mode

-- controller/journal/file_ops.hpp: each call acts on the state of the file system, and may fail. A read answers the
-- bytes that it put in a chunk of the given size, and none at the end of the file.
pub record FileOps (S : Type 0) : Type 0 where
  pub open_file : List ℕ → Mode → S → Outcome ℕ SyscallError × S
  pub write : (fd : ℕ) → List ℕ → S → Outcome ℕ SyscallError × S
  pub read : (fd size : ℕ) → S → Outcome (List ℕ) SyscallError × S
  pub fsync : (fd : ℕ) → S → Outcome (Unit {0}) SyscallError × S
  pub lock : (fd : ℕ) → S → Outcome (Unit {0}) SyscallError × S
  pub close : (fd : ℕ) → S → Outcome (Unit {0}) SyscallError × S

abbrev pub max_consecutive_interrupts : ℕ
max_consecutive_interrupts = 128

abbrev pub read_chunk_bytes : ℕ
read_chunk_bytes = 4096

abbrev pub retry_interrupted :
    {S A : Type 0} → (S → Outcome A SyscallError × S) → S → Outcome A SyscallError × S
retry_interrupted call s = try_again call max_consecutive_interrupts s

-- The directory that holds a path, which std::filesystem finds; it is "." for a bare name.
module _ {S : Type 0} (ops : FileOps S) (directory_of : List ℕ → List ℕ) where
  unfoldable pub first_failure :
      Outcome (Unit {0}) SyscallError
      → Outcome (Unit {0}) SyscallError × S
      → Outcome (Unit {0}) SyscallError × S
  first_failure (err cause) (closed, s) = (err cause, s)
  first_failure (ok _) (closed, s) = (closed, s)

  unfoldable pub sync_then_close : (fd : ℕ) → S → Outcome (Unit {0}) SyscallError × S
  sync_then_close fd s =
      let (synced, s') = retry_interrupted (ops.fsync fd) s in
      first_failure synced (ops.close fd s')

  unfoldable pub sync_opened : Outcome ℕ SyscallError × S → Outcome (Unit {0}) SyscallError × S
  sync_opened (err cause, s) = (err cause, s)
  sync_opened (ok fd, s) = sync_then_close fd s

  unfoldable pub sync_directory : List ℕ → S → Outcome (Unit {0}) SyscallError × S
  sync_directory path s = sync_opened (ops.open_file (directory_of path) Mode.directory s)

  unfoldable pub keep_open :
      (fd : ℕ) → Outcome (Unit {0}) SyscallError × S → Outcome ℕ JournalFault × S
  keep_open fd (err cause, s) = (err storage, (ops.close fd s).1)
  keep_open fd (ok _, s) = (ok fd, s)

  unfoldable pub made_durable : List ℕ → Outcome ℕ SyscallError × S → Outcome ℕ JournalFault × S
  made_durable path (err cause, s) = (err storage, s)
  made_durable path (ok fd, s) = keep_open fd (sync_directory path s)

  -- The descriptor of an opened storage.
  unfoldable pub open_storage : List ℕ → S → Outcome ℕ JournalFault × S
  open_storage path s = made_durable path (ops.open_file path Mode.append s)

unfoldable pub storage_fault : {A : Type 0} → Outcome A SyscallError → Outcome A JournalFault
storage_fault (ok a) = ok a
storage_fault (err cause) = err storage

unfoldable pub answer_of : Sent → Answer
answer_of (ok _) = ok tt
answer_of (err cause) = err storage

-- An interrupted close has closed the descriptor.
unfoldable pub close_answer : Outcome (Unit {0}) SyscallError → Answer
close_answer (ok _) = ok tt
close_answer (err interrupted) = ok tt
close_answer (err (failed number)) = err storage

-- What reading to the end came to: `none` if the fuel ran out.
abbrev pub Got : Type 0 → Type 0
Got S = Option (Outcome (List ℕ) SyscallError × S)

module _ {S : Type 0} (ops : FileOps S) (path : List ℕ) (fd : ℕ) where
  -- The loop of `append`, on fuel: every round but the last writes at least one byte.
  unfoldable pub append_all : ℕ → List ℕ → S → Sent × S
  append_all fuel [] s = (ok tt, s)
  append_all zero (byte ∷ bytes) s = (ok tt, s)
  append_all (suc fuel) (byte ∷ bytes) s =
      after_write (append_all fuel) bytes (retry_interrupted (ops.write fd (byte ∷ bytes)) s)

  unfoldable pub append_bytes : List ℕ → S → Answer × S
  append_bytes bytes s = let (sent, s') = append_all (length bytes) bytes s in (answer_of sent, s')

  unfoldable pub sync_file : S → Answer × S
  sync_file s = let (synced, s') = retry_interrupted (ops.fsync fd) s in (storage_fault synced, s')

  unfoldable pub lock_file : S → Outcome (Unit {0}) SyscallError × S
  lock_file s = retry_interrupted (ops.lock fd) s

  unfoldable pub close_file : S → Answer × S
  close_file s = let (closed, s') = ops.close fd s in (close_answer closed, s')

  unfoldable pub after_read :
      (List ℕ → S → Got S) → (whole : List ℕ) → Outcome (List ℕ) SyscallError × S → Got S
  after_read again whole (err cause, s) = some (err cause, s)
  after_read again whole (ok [], s) = some (ok whole, s)
  after_read again whole (ok (byte ∷ bytes), s) = again (whole ++ byte ∷ bytes) s

  -- The loop of `read_all`, on fuel: every round but the last reads at least one byte.
  unfoldable pub read_to_end : (from fuel : ℕ) → (whole : List ℕ) → S → Got S
  read_to_end from zero whole s = none
  read_to_end from (suc fuel) whole s =
      after_read (read_to_end from fuel) whole
        (retry_interrupted (ops.read from read_chunk_bytes) s)

  unfoldable pub read_answer :
      (whole : List ℕ) → Outcome (Unit {0}) SyscallError × S → Outcome (List ℕ) JournalFault × S
  read_answer whole (ok _, s) = (ok whole, s)
  read_answer whole (err cause, s) = (err storage, s)

  unfoldable pub finish_read : (from : ℕ) → Got S → Option (Outcome (List ℕ) JournalFault × S)
  finish_read from none = none
  finish_read from (some (err cause, s)) = some (err storage, (ops.close from s).1)
  finish_read from (some (ok whole, s)) = some (read_answer whole (ops.close from s))

  unfoldable pub read_opened :
      (fuel : ℕ) → Outcome ℕ SyscallError × S → Option (Outcome (List ℕ) JournalFault × S)
  read_opened fuel (err cause, s) = some (err storage, s)
  read_opened fuel (ok from, s) = finish_read from (read_to_end from fuel [] s)

  unfoldable pub read_whole : (fuel : ℕ) → S → Option (Outcome (List ℕ) JournalFault × S)
  read_whole fuel s = read_opened fuel (ops.open_file path Mode.read s)

  -- The interface of a storage has no state after a read; out of fuel, it answers a fault.
  unfoldable pub answer_read :
      Option (Outcome (List ℕ) JournalFault × S) → Outcome (List ℕ) JournalFault
  answer_read none = err storage
  answer_read (some (answer, s)) = answer

  unfoldable pub file_storage : (fuel : ℕ) → Storage S
  file_storage fuel = record {
    append = λ s bytes. append_bytes bytes s;
    sync = sync_file;
    read_all = λ s. answer_read (read_whole fuel s);
  }
