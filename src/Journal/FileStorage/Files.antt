-- ===== src/Journal/FileStorage/Files.antt =====
-- controller/journal/file_ops.hpp: what its comments promise of a file that is open for appending.
use load_forge.Common.{ℕ, ◌≡◌, List, [], ◌++◌, Outcome, ok, err}
use load_forge.Worker.Channel.Source.{SyscallError}
use load_forge.Worker.Channel.Sends.{IsWrite}
use load_forge.Journal.FileStorage.{FileOps, Mode, read_chunk_bytes}

module _ {S : Type 0} (contents : S → List ℕ) (rest : ℕ → S → List ℕ) where
  -- A file that was opened for reading is read from its start.
  abbrev pub IsOpen : (there : List ℕ) → Outcome ℕ SyscallError × S → Type 0
  IsOpen there (ok from, after) = (contents after ≡ there) × (rest from after ≡ there)
  IsOpen there (err cause, after) = contents after ≡ there

  -- A read takes from the front of what was not read yet, and nothing only at the end.
  abbrev pub IsRead :
      (from : ℕ) → (there left : List ℕ) → Outcome (List ℕ) SyscallError × S → Type 0
  IsRead from there left (ok got, after) =
      (contents after ≡ there) × (left ≡ got ++ rest from after) × (got ≡ [] → rest from after ≡ [])
  IsRead from there left (err cause, after) = (contents after ≡ there) × (rest from after ≡ left)

-- The file at `path`, which no other process writes, with `fd` open for appending to it.
pub record IsFile {S : Type 0} (ops : FileOps S) (path : List ℕ) (fd : ℕ) : Type 0 where
  pub contents : S → List ℕ
  pub rest : ℕ → S → List ℕ
  pub writes : (bytes : List ℕ) (s : S) → IsWrite contents bytes (contents s) (ops.write fd bytes s)
  pub fsyncs : (s : S) → contents (ops.fsync fd s).1 ≡ contents s
  pub opens : (s : S) → IsOpen contents rest (contents s) (ops.open_file path Mode.read s)
  pub reads :
      (from : ℕ) (s : S)
      → IsRead contents rest from (contents s) (rest from s) (ops.read from read_chunk_bytes s)
  pub closes : (from : ℕ) (s : S) → contents (ops.close from s).1 ≡ contents s
