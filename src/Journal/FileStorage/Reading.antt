-- ===== src/Journal/FileStorage/Reading.antt =====
-- controller/journal/file_storage.cpp: reading a file to its end.
use load_forge.Common.{
  ℕ, zero, suc, ◌≤◌, ◌<◌, ◌≡◌, refl, sym, ap, subst, ◌∙◌, List, [], ◌∷◌, ◌++◌, length,
  length-append, append_assoc, append-nil, Option, none, some, Outcome, ok, err, arith,
}
use load_forge.Journal.Writer.{JournalFault}
use load_forge.Worker.Channel.Source.{
  SyscallError, interrupted, failed, try_again, unless_interrupted,
}
use load_forge.Journal.FileStorage.{
  FileOps, Mode, read_chunk_bytes, max_consecutive_interrupts, Got, after_read, read_to_end,
  read_answer, finish_read, read_opened, read_whole,
}
use load_forge.Journal.FileStorage.Files.{IsFile, IsOpen, IsRead}

module _ {S : Type 0} (ops : FileOps S) (path : List ℕ) (fd : ℕ) (file : IsFile ops path fd) where
  open file use {contents, rest, opens, reads, closes}

  abbrev call : ℕ → S → Outcome (List ℕ) SyscallError × S
  call from s = ops.read from read_chunk_bytes s

  again-IsRead :
      (from left_tries : ℕ) (there left : List ℕ) (answer : Outcome (List ℕ) SyscallError × S)
      → ((t : S)
          → IsRead contents rest from
              (contents t)
              (rest from t)
              (try_again (call from) left_tries t))
      → IsRead contents rest from there left answer
      → IsRead contents rest from there left
          (unless_interrupted (try_again (call from) left_tries) answer)
  unfolding unless_interrupted
  again-IsRead from left_tries there left (ok got, after) later now = now
  again-IsRead from left_tries there left (err (failed number), after) later now = now
  again-IsRead from left_tries there left (err interrupted, after) later now =
      rw (sym now.0, sym now.1) (later after)

  try_again-IsRead :
      (from left_tries : ℕ) (s : S)
      → IsRead contents rest from (contents s) (rest from s) (try_again (call from) left_tries s)
  unfolding try_again
  try_again-IsRead from zero s = reads from s
  try_again-IsRead from (suc left_tries) s =
      again-IsRead from left_tries (contents s) (rest from s) (call from s)
        (try_again-IsRead from left_tries) (reads from s)

  -- The bytes `there` were read and the file was kept; `N` is why the fuel may run out.
  abbrev IsGot : Type 0 → List ℕ → List ℕ → Got S → Type 0
  IsGot N there kept none = N
  IsGot N there kept (some (ok whole, after)) = (whole ≡ there) × (contents after ≡ kept)
  IsGot N there kept (some (err cause, after)) = contents after ≡ kept

  after_read-IsGot :
      (N : Type 0) (from fuel : ℕ) (whole left kept : List ℕ)
      (answer : Outcome (List ℕ) SyscallError × S)
      → ((more : List ℕ) (t : S)
          → (fuel ≤ length (rest from t) → N)
          → IsGot N (more ++ rest from t) (contents t) (read_to_end ops path fd from fuel more t))
      → (suc fuel ≤ length left → N)
      → IsRead contents rest from kept left answer
      → IsGot N
          (whole ++ left)
          kept
          (after_read ops path fd (read_to_end ops path fd from fuel) whole answer)
  unfolding after_read
  after_read-IsGot N from fuel whole left kept (err cause, after) later short now = now.0
  after_read-IsGot N from fuel whole left kept (ok [], after) later short (same, split, at_end) =
      (sym (append-nil whole) ∙ ap (◌++◌ whole) (sym (split ∙ at_end refl)), same)
  after_read-IsGot N from fuel whole left kept (ok (byte ∷ bytes), after) later short
        (same, split, at_end) =
      rw (split, sym same, sym (append_assoc whole (byte ∷ bytes) (rest from after)))
        (later (whole ++ byte ∷ bytes) after (λ small.
          short (omega (arith, small, ap length split, length-append bytes (rest from after)))))

  read_to_end-IsGot :
      (N : Type 0) (from fuel : ℕ) (whole : List ℕ) (s : S)
      → (fuel ≤ length (rest from s) → N)
      → IsGot N (whole ++ rest from s) (contents s) (read_to_end ops path fd from fuel whole s)
  unfolding read_to_end
  read_to_end-IsGot N from zero whole s short = short (omega arith)
  read_to_end-IsGot N from (suc fuel) whole s short =
      after_read-IsGot N from fuel whole (rest from s) (contents s)
        (try_again (call from) max_consecutive_interrupts s) (read_to_end-IsGot N from fuel) short
        (try_again-IsRead from max_consecutive_interrupts s)

  abbrev pub IsWhole : Type 0 → List ℕ → Option (Outcome (List ℕ) JournalFault × S) → Type 0
  IsWhole N there none = N
  IsWhole N there (some (ok whole, after)) = (whole ≡ there) × (contents after ≡ there)
  IsWhole N there (some (err cause, after)) = contents after ≡ there

  read_answer-IsWhole :
      (N : Type 0) (whole there : List ℕ) (closed : Outcome (Unit {0}) SyscallError × S)
      → whole ≡ there
      → contents closed.1 ≡ there
      → IsWhole N there (some (read_answer ops path fd whole closed))
  unfolding read_answer
  read_answer-IsWhole N whole there (ok _, after) e kept = (e, kept)
  read_answer-IsWhole N whole there (err cause, after) e kept = kept

  finish_read-IsWhole :
      (N : Type 0) (from : ℕ) (there : List ℕ) (got : Got S)
      → IsGot N there there got
      → IsWhole N there (finish_read ops path fd from got)
  unfolding finish_read
  finish_read-IsWhole N from there none is = is
  finish_read-IsWhole N from there (some (err cause, after)) is = closes from after ∙ is
  finish_read-IsWhole N from there (some (ok whole, after)) (e, kept) =
      read_answer-IsWhole N whole there (ops.close from after) e (closes from after ∙ kept)

  read_opened-IsWhole :
      (N : Type 0) (fuel : ℕ) (there : List ℕ) (opened : Outcome ℕ SyscallError × S)
      → (fuel ≤ length there → N)
      → IsOpen contents rest there opened
      → IsWhole N there (read_opened ops path fd fuel opened)
  unfolding read_opened
  read_opened-IsWhole N fuel there (err cause, after) short is = is
  read_opened-IsWhole N fuel there (ok from, after) short (kept, unread) =
      finish_read-IsWhole N from there (read_to_end ops path fd from fuel [] after) (
        subst (λ l. IsGot N l there (read_to_end ops path fd from fuel [] after)) unread
          (subst (λ l. IsGot N (rest from after) l (read_to_end ops path fd from fuel [] after))
            kept
            (read_to_end-IsGot N from fuel [] after
              (λ small. short (subst (λ l. fuel ≤ length l) unread small)))))

  pub read_whole-IsWhole :
      (N : Type 0) (fuel : ℕ) (s : S)
      → (fuel ≤ length (contents s) → N)
      → IsWhole N (contents s) (read_whole ops path fd fuel s)
  unfolding read_whole
  read_whole-IsWhole N fuel s short =
      read_opened-IsWhole N fuel (contents s) (ops.open_file path Mode.read s) short (opens s)

  -- With more fuel than the file has bytes, reading the whole file returns; the bytes that it answers are the file's, and
  -- the file is as it was, also after a failure.
  pub read_whole-returns :
      (fuel : ℕ) (s : S)
      → length (contents s) < fuel
      → IsWhole ⊥ (contents s) (read_whole ops path fd fuel s)
  read_whole-returns fuel s enough =
      read_whole-IsWhole ⊥ fuel s (λ short. omega (arith, enough, short))
