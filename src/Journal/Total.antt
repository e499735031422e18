-- ===== src/Journal/Total.antt =====
-- `scan` ends on any bytes: its loop takes a header at least in each round that goes on.
use load_forge.Common.{
  ℕ, zero, suc, ◌+◌, ◌<◌, ◌≡◌, refl, List, [], ◌∷◌, ◌++◌, length, length-drop, drop, take, some,
  arith, ◌⊎◌, inl, inr,
}
use load_forge.Common.Bits.{get}
use load_forge.Journal.Format.{Entry, Ending, Replay, empty}
use load_forge.Journal.Scan.{
  Round, ends, keeps, read_payload, read_record, read_header, round, scan_from, scan,
}

payload_after :
    (payload after : List ℕ) (entry : Entry) (rest : List ℕ)
    → read_payload payload after ≡ keeps entry rest
    → rest ≡ after
unfolding read_payload
payload_after [] after entry rest e = cc
payload_after (kind ∷ more) after entry rest e = ground arith

record_after :
    (bytes : List ℕ) (size : ℕ) (entry : Entry) (rest : List ℕ)
    → read_record bytes size ≡ keeps entry rest
    → rest ≡ drop (8 + size) bytes
unfolding read_record
record_after bytes size entry rest e =
    ground (arith, payload_after (take size (drop 8 bytes)) (drop (8 + size) bytes) entry rest)

header_after :
    (bytes : List ℕ) (entry : Entry) (rest : List ℕ)
    → 0 < length bytes
    → read_header bytes ≡ keeps entry rest
    → length rest < length bytes
unfolding read_header
header_after bytes entry rest h e =
    ground (arith, record_after bytes (get 4 bytes) entry rest, length-drop (8 + get 4 bytes) bytes)

round_shrinks :
    (bytes : List ℕ) (entry : Entry) (rest : List ℕ)
    → round bytes ≡ keeps entry rest
    → length rest < length bytes
unfolding round
round_shrinks [] entry rest e = cc
round_shrinks (byte ∷ more) entry rest e = ground (arith, header_after (byte ∷ more) entry rest)

Round-cases :
    (r : Round)
    → ((ending : Ending) × (r ≡ ends ending))
      ⊎ ((entry : Entry) × (rest : List ℕ) × (r ≡ keeps entry rest))
Round-cases (ends ending) = inl (ending, refl)
Round-cases (keeps entry rest) = inr (entry, rest, refl)

scan_from_total :
    (fuel : ℕ) (kept : List Entry) (bytes : List ℕ)
    → length bytes < fuel
    → (replay : Replay) × (scan_from fuel kept bytes ≡ some replay)
unfolding scan_from
scan_from_total zero kept bytes h = absurd (omega arith)
scan_from_total (suc fuel) kept bytes h = elim (Round-cases (round bytes)) [
  | inl (ending, e) ↦ (record { entries = kept; ending = ending }, rw (e, scan_from))
  | inr (entry, rest, e) ↦
      let more =
        scan_from_total fuel (kept ++ (entry ∷ [])) rest
          (omega (arith, round_shrinks bytes entry rest e)) in
      (more.0, rw (e, scan_from) more.1)
]

-- Reading a journal back never fails and always ends: on any bytes at all `scan` has a replay, so
-- damage is an ending and the bound on the rounds of its loop is never used up.
pub scan_total : (bytes : List ℕ) → (replay : Replay) × (scan bytes ≡ some replay)
unfolding scan
scan_total [] = (record { entries = []; ending = empty }, refl)
scan_total (byte ∷ more) =
    scan_from_total (suc (length (byte ∷ more))) [] (byte ∷ more) (omega arith)
