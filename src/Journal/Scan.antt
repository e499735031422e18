-- ===== src/Journal/Scan.antt =====
-- controller/journal/format.cpp: `scan`, which reads a whole journal back.
use load_forge.Common.{
  ℕ, zero, suc, ◌+◌, ◌-◌, ◌*◌, List, [], ◌∷◌, ◌++◌, length, take, drop, Option, none, some, Bool,
  true, false, ◌&&◌, ◌||◌, not, ltb, leb, ◌==◌, if◌then◌else◌, get_elem?,
}
use load_forge.Common.Bits.{get}
use load_forge.Journal.Format.{
  Entry, Ending, Replay, empty, terminated, unterminated, torn_tail, corrupt, check, decode_entry,
  header_bytes, max_payload_bytes, max_label_bytes, entry_type, terminator_type, entry_fixed_bytes,
  phase_size_at,
}

-- `seen[at]`, where `seen` is longer than `at`.
abbrev pub byte_at : List ℕ → ℕ → ℕ
byte_at bytes at = elim (get_elem? bytes at) [ none ↦ 0 | some byte ↦ byte ]

abbrev pub within : ℕ → ℕ → ℕ → Bool
within least length most = leb least length && leb length most

-- What the size of the second label, if it is seen, says of the record's length.
unfoldable pub fits_workload : List ℕ → ℕ → ℕ → Bool
fits_workload seen size phase =
    if ltb (phase_size_at + 1 + phase) (length seen)
    then (let workload = byte_at seen (phase_size_at + 1 + phase) in
        if ltb max_label_bytes workload
        then false
        else within (entry_fixed_bytes + phase + workload) size
            (entry_fixed_bytes + phase + workload))
    else within (entry_fixed_bytes + phase) size (entry_fixed_bytes + phase + max_label_bytes)

unfoldable pub could_be_cut_short : List ℕ → ℕ → Bool
unfolding fits_workload
could_be_cut_short [] size = true
could_be_cut_short (kind ∷ more) size =
    let seen : List ℕ = kind ∷ more in
    if not (kind == entry_type)
    then false
    else if ltb phase_size_at (length seen)
    then (let phase = byte_at seen phase_size_at in
        if ltb max_label_bytes phase then false else fits_workload seen size phase)
    else within entry_fixed_bytes size (entry_fixed_bytes + 2 * max_label_bytes)

unfoldable pub ending_of_short_record : List ℕ → ℕ → Ending
unfolding could_be_cut_short
ending_of_short_record rest size =
    if could_be_cut_short (drop header_bytes rest) size then torn_tail else corrupt

-- What one round of the loop of `scan` does with the bytes from `at` on: it returns with an
-- ending, or keeps an entry and goes on with the bytes behind its record.
pub data Round : Type 0 where
  ends : Ending → Round
  keeps : Entry → List ℕ → Round

unfoldable pub entry_of : List ℕ → Option Entry
entry_of [] = none
entry_of (kind ∷ more) = if kind == entry_type then decode_entry (kind ∷ more) else none

unfoldable pub read_payload : List ℕ → List ℕ → Round
unfolding entry_of
read_payload [] after = ends corrupt
read_payload (kind ∷ more) after =
    if kind == terminator_type
    then ends (if length (kind ∷ more) == 1 && length after == 0 then terminated else corrupt)
    else elim (entry_of (kind ∷ more)) [ none ↦ ends corrupt | some entry ↦ keeps entry after ]

-- A record whose length the bytes that are there reach.
unfoldable pub read_record : List ℕ → ℕ → Round
unfolding read_payload
read_record rest size =
    let payload : List ℕ = take size (drop header_bytes rest) in
    if not (check (take 4 rest) payload == get 4 (drop 4 rest))
    then ends corrupt
    else read_payload payload (drop (header_bytes + size) rest)

-- A record that has a whole header.
unfoldable pub read_header : List ℕ → Round
unfolding ending_of_short_record read_record
read_header rest =
    let size = get 4 rest in
    if size == 0 || ltb max_payload_bytes size
    then ends corrupt
    else if ltb (length rest - header_bytes) size
    then ends (ending_of_short_record rest size)
    else read_record rest size

unfoldable pub round : List ℕ → Round
unfolding read_header
round [] = ends unterminated
round (byte ∷ more) =
    if ltb (length (byte ∷ more)) header_bytes then ends torn_tail else read_header (byte ∷ more)

-- The loop, with a bound on its rounds; `none` when the bound is used up.
unfoldable pub scan_from : ℕ → List Entry → List ℕ → Option Replay
unfolding round
scan_from zero kept rest = none
scan_from (suc rounds) kept rest = elim (round rest) [
  | ends ending ↦ some (record { entries = kept; ending = ending })
  | keeps entry after ↦ scan_from rounds (kept ++ (entry ∷ [])) after
]

-- Each round that goes on takes a header at least, so the bound is never used up.
unfoldable pub scan : List ℕ → Option Replay
unfolding scan_from
scan [] = some (record { entries = []; ending = empty })
scan (byte ∷ more) = scan_from (suc (length (byte ∷ more))) [] (byte ∷ more)
