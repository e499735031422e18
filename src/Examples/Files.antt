-- ===== src/Examples/Files.antt =====
-- The theorems about a storage at a file whose writes and reads move a few bytes at a time.
use load_forge.Common.{
  ℕ, ◌≤◌, ◌≡◌, refl, sym, ap, List, [], ◌∷◌, ◌++◌, length, take, drop, ok, arith,
}
use load_forge.Journal.FileStorage.{FileOps, file_storage, read_whole}
use load_forge.Journal.FileStorage.Files.{IsFile}
use load_forge.Journal.FileStorage.Reading.{IsWhole, read_whole-returns}
use load_forge.Journal.FileStorage.Refines.{file_storage-IsStorage}
use load_forge.Journal.Writer.{IsStorage}
use load_forge.Worker.Channel.Stream.{take-drop}

record Disk : Type 0 where
  bytes : List ℕ
  unread : List ℕ

-- Every write takes two bytes at most, and every read three.
abbrev slow_ops : FileOps Disk
slow_ops = record {
  open_file = λ path mode disk. (ok 4, record disk { unread = disk.bytes });
  write = λ fd bytes disk.
      (ok (length (take 2 bytes)), record disk { bytes = disk.bytes ++ take 2 bytes });
  read = λ fd size disk. (ok (take 3 disk.unread), record disk { unread = drop 3 disk.unread });
  fsync = λ fd disk. (ok tt, disk);
  lock = λ fd disk. (ok tt, disk);
  close = λ fd disk. (ok tt, disk);
}

took :
    (bytes : List ℕ)
    → (length (take 2 bytes) ≤ length bytes) × (take 2 bytes ≡ take (length (take 2 bytes)) bytes)
took [] = (omega arith, refl)
took (a ∷ []) = (omega arith, refl)
took (a ∷ b ∷ bytes) = (omega arith, refl)

nothing_left : (unread : List ℕ) → take 3 unread ≡ [] → drop 3 unread ≡ []
nothing_left [] e = refl
nothing_left (a ∷ []) e = refl
nothing_left (a ∷ b ∷ unread) e = absurd (omega (arith, ap length e))

slow_file : IsFile slow_ops [] 3
slow_file = record {
  contents = λ disk. disk.bytes;
  rest = λ fd disk. disk.unread;
  writes = λ bytes disk. ((took bytes).0, ap (λ l. disk.bytes ++ l) (took bytes).1);
  fsyncs = λ disk. refl;
  opens = λ disk. (refl, refl);
  reads = λ from disk. (refl, sym (take-drop 3 disk.unread), nothing_left disk.unread);
  closes = λ from disk. refl;
}

file_storage-IsStorage_example : IsStorage (file_storage slow_ops [] 3 100)
file_storage-IsStorage_example = file_storage-IsStorage slow_ops [] 3 slow_file 100

abbrev five_bytes : Disk
five_bytes = record { bytes = 1 ∷ 2 ∷ 3 ∷ 4 ∷ 5 ∷ []; unread = [] }

read_whole-returns_example :
    IsWhole slow_ops [] 3 slow_file ⊥
      (1 ∷ 2 ∷ 3 ∷ 4 ∷ 5 ∷ [])
      (read_whole slow_ops [] 3 6 five_bytes)
unfolding slow_file
read_whole-returns_example = read_whole-returns slow_ops [] 3 slow_file 6 five_bytes (omega arith)
