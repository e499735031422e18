-- ===== src/Journal/FileStorage/Refines.antt =====
-- controller/journal/file_storage.cpp: the storage over a file keeps the storage's contract.
use load_forge.Common.{
  ℕ, zero, suc, ◌≤◌, ◌≡◌, refl, sym, ◌∙◌, List, [], ◌∷◌, ◌++◌, length, take, append-nil, Option,
  none, some, Outcome, ok, err, arith,
}
use load_forge.Journal.Writer.{JournalFault, IsStorage}
use load_forge.Worker.Channel.Source.{
  SyscallError, interrupted, failed, try_again, unless_interrupted, Sent,
}
use load_forge.Worker.Channel.Sends.{
  IsSink, IsSent, try_again-IsWrite, after_write-IsSent, sent_whole, sent_part,
}
use load_forge.Journal.FileStorage.{
  FileOps, max_consecutive_interrupts, append_all, append_bytes, answer_of, sync_file, answer_read,
  read_whole, file_storage,
}
use load_forge.Journal.FileStorage.Files.{IsFile}
use load_forge.Journal.FileStorage.Reading.{IsWhole, read_whole-IsWhole}

module _ {S : Type 0} (ops : FileOps S) (path : List ℕ) (fd : ℕ) (file : IsFile ops path fd) where
  open file use {contents, writes, fsyncs}

  sink : IsSink (ops.write fd)
  sink = record { written = contents; writes = writes }

  append_all-IsSent :
      (fuel : ℕ) (bytes : List ℕ) (s : S)
      → length bytes ≤ fuel
      → IsSent sink bytes (contents s) (append_all ops path fd fuel bytes s)
  unfolding append_all sink
  append_all-IsSent fuel [] s enough = sym (append-nil (contents s))
  append_all-IsSent zero (byte ∷ bytes) s enough = absurd (omega (arith, enough))
  append_all-IsSent (suc fuel) (byte ∷ bytes) s enough =
      after_write-IsSent sink byte bytes (contents s) (append_all ops path fd fuel)
        (try_again (ops.write fd (byte ∷ bytes)) max_consecutive_interrupts s)
        (λ rest t shorter. append_all-IsSent fuel rest t (omega (arith, shorter, enough)))
        (try_again-IsWrite sink (byte ∷ bytes) max_consecutive_interrupts s)

  answer_of-ok : (sent : Sent) → answer_of sent ≡ ok tt → sent ≡ ok tt
  unfolding answer_of
  answer_of-ok (ok done) e = refl
  answer_of-ok (err cause) e = cc

  append_bytes_done :
      (s : S) (bytes : List ℕ)
      → (append_bytes ops path fd bytes s).0 ≡ ok tt
      → contents (append_bytes ops path fd bytes s).1 ≡ contents s ++ bytes
  unfolding append_bytes sink
  append_bytes_done s bytes e =
      let sent = append_all ops path fd (length bytes) bytes s in
      sent_whole sink bytes (contents s) sent
        (append_all-IsSent (length bytes) bytes s (omega arith)) (answer_of-ok sent.0 e)

  append_bytes_failed :
      (s : S) (bytes : List ℕ)
      → (count : ℕ) × (contents (append_bytes ops path fd bytes s).1
          ≡ contents s ++ take count bytes)
  unfolding append_bytes sink
  append_bytes_failed s bytes =
      sent_part sink bytes (contents s) (append_all ops path fd (length bytes) bytes s)
        (append_all-IsSent (length bytes) bytes s (omega arith))

  again_keeps :
      (left : ℕ) (there : List ℕ) (answer : Outcome (Unit {0}) SyscallError × S)
      → ((t : S) → contents (try_again (ops.fsync fd) left t).1 ≡ contents t)
      → contents answer.1 ≡ there
      → contents (unless_interrupted (try_again (ops.fsync fd) left) answer).1 ≡ there
  unfolding unless_interrupted
  again_keeps left there (ok done, after) later e = e
  again_keeps left there (err (failed number), after) later e = e
  again_keeps left there (err interrupted, after) later e = later after ∙ e

  fsync_keeps : (left : ℕ) (s : S) → contents (try_again (ops.fsync fd) left s).1 ≡ contents s
  unfolding try_again
  fsync_keeps zero s = fsyncs s
  fsync_keeps (suc left) s =
      again_keeps left (contents s) (ops.fsync fd s) (fsync_keeps left) (fsyncs s)

  sync_file_keeps : (s : S) → contents (sync_file ops path fd s).1 ≡ contents s
  unfolding sync_file
  sync_file_keeps s = fsync_keeps max_consecutive_interrupts s

  answer_read-contents :
      (there bytes : List ℕ) (whole : Option (Outcome (List ℕ) JournalFault × S))
      → IsWhole ops path fd file (Unit {0}) there whole
      → answer_read ops path fd whole ≡ ok bytes
      → bytes ≡ there
  unfolding answer_read
  answer_read-contents there bytes none is e = cc
  answer_read-contents there bytes (some (ok whole, after)) (same, kept) e = cc
  answer_read-contents there bytes (some (err cause, after)) is e = cc

  -- A storage over a file that only it writes keeps the contract of a storage, however the calls of the file system are
  -- interrupted, write or read a part, or fail: an append that is done has added all of its bytes and a failed one
  -- the first of them, a sync adds none, and what is read is what the file holds.
  pub file_storage-IsStorage : (fuel : ℕ) → IsStorage (file_storage ops path fd fuel)
  unfolding file_storage
  file_storage-IsStorage fuel = record {
    contents = contents;
    append_done = append_bytes_done;
    append_failed = λ s bytes fault e. append_bytes_failed s bytes;
    sync_keeps = sync_file_keeps;
    read_all_contents = λ s bytes e.
        answer_read-contents (contents s) bytes (read_whole ops path fd fuel s)
          (read_whole-IsWhole ops path fd file (Unit {0}) fuel s (λ short. tt)) e;
  }
