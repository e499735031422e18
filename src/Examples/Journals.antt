-- ===== src/Examples/Journals.antt =====
-- The journal's theorems at two entries and a storage in memory.
use load_forge.Common.{
  ℕ, ◌<◌, ◌≤◌, ◌≡◌, ◌≢◌, refl, List, [], ◌∷◌, ◌++◌, length, take, some, none, ok, arith, All, false,
}
use load_forge.Common.Int.{pos}
use load_forge.Core.Crc32.{crc32}
use load_forge.Core.Crc32.Detects.{crc32_one_byte}
use load_forge.Journal.Format.{Entry, Replay, Ending, terminated, corrupt}
use load_forge.Journal.Recovery.{journal, survivors, record_of, scan-cut}
use load_forge.Journal.RoundTrip.{IsEntry}
use load_forge.Journal.Scan.{scan}
use load_forge.Journal.Total.{scan_total}
use load_forge.Journal.Writer.{Storage, IsStorage, Writer, append}

crc32_one_byte_example : crc32 (1 ∷ 2 ∷ 3 ∷ []) ≢ crc32 (1 ∷ 6 ∷ 3 ∷ [])
crc32_one_byte_example =
    crc32_one_byte (1 ∷ []) (3 ∷ []) 2 6 (omega arith) (omega arith) (omega arith)

scan_total_example : (found : Replay) × (scan (7 ∷ 0 ∷ []) ≡ some found)
scan_total_example = scan_total (7 ∷ 0 ∷ [])

-- `load` of a dot product, with a temperature and two workers.
abbrev first_entry : Entry
first_entry = record {
  elapsed_ns = pos 1000000000;
  phase = 108 ∷ 111 ∷ 97 ∷ 100 ∷ [];
  workload = 100 ∷ 111 ∷ 116 ∷ [];
  last_verified_unit = some 41;
  temperature_c = none;
  package_power_w = some 0;
  frequency_hz = none;
  ecc_corrected = some 3;
  ecc_uncorrected = none;
  workers_alive = 2;
  workers_stale = 0;
}

abbrev second_entry : Entry
second_entry = record first_entry { elapsed_ns = pos 2000000000; workers_stale = 1 }

first_entry-IsEntry : IsEntry first_entry
first_entry-IsEntry = record {
  elapsed_fits = omega arith;
  elapsed_nonneg = omega arith;
  phase_fits = omega arith;
  workload_fits = omega arith;
  words =
      (omega arith, (omega arith, (omega arith, (omega arith, (omega arith, (omega arith, tt))))));
  alive_fits = omega arith;
  stale_fits = omega arith;
}

second_entry-IsEntry : IsEntry second_entry
second_entry-IsEntry = record {
  elapsed_fits = omega arith;
  elapsed_nonneg = omega arith;
  phase_fits = omega arith;
  workload_fits = omega arith;
  words =
      (omega arith, (omega arith, (omega arith, (omega arith, (omega arith, (omega arith, tt))))));
  alive_fits = omega arith;
  stale_fits = omega arith;
}

abbrev two_entries : List Entry
two_entries = first_entry ∷ second_entry ∷ []

two_entries-IsEntry : All IsEntry two_entries
two_entries-IsEntry = (first_entry-IsEntry, (second_entry-IsEntry, tt))

scan-cut_example :
    (ending : Ending) × (scan (take 100 (journal two_entries))
      ≡ some (record { entries = survivors 100 two_entries; ending = ending }))
    × (ending ≢ corrupt)
    × (100 < length (journal two_entries) → ending ≢ terminated)
    × (length (journal two_entries) ≤ 100 → ending ≡ terminated)
scan-cut_example = scan-cut two_entries 100 two_entries-IsEntry

-- A storage in memory, that never fails.
abbrev memory : Storage (List ℕ)
memory = record {
  append = λ held bytes. (ok tt, held ++ bytes);
  sync = λ held. (ok tt, held);
  read_all = λ held. ok held;
}

memory-IsStorage : IsStorage memory
memory-IsStorage = record {
  contents = λ held. held;
  append_done = λ held bytes done. refl;
  append_failed = λ held bytes fault failed. cc;
  sync_keeps = λ held. refl;
  read_all_contents = λ held bytes reads. cc;
}

-- A writer that has appended the first entry.
abbrev one_appended : Writer (List ℕ)
one_appended = record { stored = record_of first_entry; is_closed = false }

second_done : (append memory one_appended second_entry).0 ≡ ok tt
unfolding append
second_done = refl
