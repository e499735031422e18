-- ===== src/Journal/Cuts.antt =====
-- An entry's record: its length, where its label sizes stand, and that a prefix of it passes for a
-- write cut short.
use load_forge.Common.{
  ℕ, zero, suc, ◌+◌, ◌-◌, ◌*◌, ◌/◌, ◌%◌, ◌≤◌, ◌<◌, ◌≡◌, refl, sym, ap, ◌∙◌, List, [], ◌∷◌, ◌++◌,
  length, take, get_elem?, Option, some, true, ltb, arith, append_assoc, length-append, length-take,
  le→ltb, Bool-cases, ltb→lt, ltb→le, inl, inr,
}
use load_forge.Common.Bits.{put, put_from, length-put_from}
use load_forge.Common.Int.{to_u64}
use load_forge.Journal.Format.{
  Entry, torn_tail, frame, encode_entry, put_label, put_optionals, present_from, optionals,
  entry_type, bits,
}
use load_forge.Journal.RoundTrip.{IsEntry, decode_entry-encode_entry}
use load_forge.Journal.Records.{length-frame, round-frame, round-frame_cut, round_short}
use load_forge.Journal.Scan.{
  ends, keeps, entry_of, read_payload, round, could_be_cut_short, fits_workload, within, byte_at,
}

length-put_optionals :
    (values : List (Option ℕ)) → length (put_optionals values) ≡ 8 * length values
unfolding put_optionals
length-put_optionals [] = refl
length-put_optionals (value ∷ values) = omega (
  arith,
  length-append (put 8 (bits value)) (put_optionals values),
  length-put_from 0 8 (bits value),
  length-put_optionals values,
)

get_elem?-append :
    (xs : List ℕ) (y : ℕ) (ys : List ℕ) → get_elem? (xs ++ (y ∷ ys)) (length xs) ≡ some y
get_elem?-append [] y ys = refl
get_elem?-append (x ∷ xs) y ys = get_elem?-append xs y ys

get_elem?-take : (n i : ℕ) (xs : List ℕ) → i < n → get_elem? (take n xs) i ≡ get_elem? xs i
get_elem?-take zero i xs h = absurd (omega arith)
get_elem?-take (suc n) i [] h = refl
get_elem?-take (suc n) zero (x ∷ xs) h = refl
get_elem?-take (suc n) (suc i) (x ∷ xs) h = get_elem?-take n i xs (omega arith)

put_one : (v : ℕ) → v < 256 → put 1 v ≡ v ∷ []
unfolding put_from
put_one v h = ap (λ (b : ℕ). b ∷ []) same
  where
    same : v / 1 % 256 ≡ v
    same = omega arith

put_label_one : (label : List ℕ) → length label ≤ 64 → put_label label ≡ length label ∷ label
put_label_one label h = ap (λ (b : List ℕ). b ++ label) (put_one (length label) (omega arith))

within_refl : (n : ℕ) → within n n n ≡ true
within_refl n = ground arith

-- The checks of `could_be_cut_short` on bytes that are long enough to hold one size, or both.
module _ (seen : List ℕ) (size phase workload : ℕ) (is_size : size ≡ 68 + phase + workload)
    (phase_fits : phase ≤ 64) (workload_fits : workload ≤ 64)
    (phase_seen : 10 < length seen → byte_at seen 10 ≡ phase)
    (workload_seen : 11 + phase < length seen → byte_at seen (11 + phase) ≡ workload) where
  workload_passes : fits_workload seen size phase ≡ true
  unfolding fits_workload
  workload_passes = elim (Bool-cases (ltb (11 + phase) (length seen))) [
    | inl long ↦
        rw (long, workload_seen (ltb→lt _ _ long), le→ltb 64 workload workload_fits)
          (rw is_size (within_refl (68 + phase + workload)))
    | inr short ↦ rw (short, is_size) (ground arith)
  ]

  cut_passes : (more : List ℕ) → seen ≡ entry_type ∷ more → could_be_cut_short seen size ≡ true
  unfolding could_be_cut_short
  cut_passes more e = elim (Bool-cases (ltb 10 (length seen))) [
    | inl long ↦ rw e (
        rw (rw e at long) (
          rw (rw e at (phase_seen (ltb→lt _ _ long)))
            (rw (le→ltb 64 phase phase_fits) (rw e at workload_passes))))
    | inr short ↦ rw e (rw (rw e at short) (rw is_size (ground arith)))
  ]

module _ (entry : Entry) (fits : IsEntry entry) where
  abbrev size_of_phase : ℕ
  size_of_phase = length entry.phase

  abbrev size_of_workload : ℕ
  size_of_workload = length entry.workload

  abbrev front : List ℕ
  front =
      entry_type ∷ (put 8 (to_u64 entry.elapsed_ns) ++ put 1 (present_from 0 0 (optionals entry)))

  abbrev counts : List ℕ
  counts = put 4 entry.workers_alive ++ put 4 entry.workers_stale

  abbrev back : List ℕ
  back = put_optionals (optionals entry) ++ counts

  parts :
      encode_entry entry
      ≡ front ++ (size_of_phase ∷ (entry.phase ++ (size_of_workload ∷ (entry.workload ++ back))))
  unfolding encode_entry
  parts =
      rw
        (put_label_one entry.phase fits.phase_fits, put_label_one entry.workload fits.workload_fits)
        (simp append_assoc)

  length-front : length front ≡ 10
  length-front = omega (
    arith,
    length-append (put 8 (to_u64 entry.elapsed_ns)) (put 1 (present_from 0 0 (optionals entry))),
    length-put_from 0 8 (to_u64 entry.elapsed_ns),
    length-put_from 0 1 (present_from 0 0 (optionals entry)),
  )

  length-back : length back ≡ 56
  length-back = omega (
    arith,
    length-append (put_optionals (optionals entry)) counts,
    length-put_optionals (optionals entry),
    length-append (put 4 entry.workers_alive) (put 4 entry.workers_stale),
    length-put_from 0 4 entry.workers_alive,
    length-put_from 0 4 entry.workers_stale,
  )

  pub length-encode_entry : length (encode_entry entry) ≡ 68 + size_of_phase + size_of_workload
  length-encode_entry = omega (
    arith,
    ap length parts,
    length-append front
        (size_of_phase ∷ (entry.phase ++ (size_of_workload ∷ (entry.workload ++ back)))),
    length-append entry.phase (size_of_workload ∷ (entry.workload ++ back)),
    length-append entry.workload back,
    length-front,
    length-back,
  )

  phase_size : get_elem? (encode_entry entry) 10 ≡ some size_of_phase
  phase_size = rw parts (
      ap (get_elem? (front ++ (size_of_phase ∷ rest))) (sym length-front)
      ∙ get_elem?-append front size_of_phase rest)
    where
      rest : List ℕ
      rest = entry.phase ++ (size_of_workload ∷ (entry.workload ++ back))

  workload_size : get_elem? (encode_entry entry) (11 + size_of_phase) ≡ some size_of_workload
  workload_size = rw (parts) (
      ap (λ (b : List ℕ). get_elem? b (11 + size_of_phase)) regroup
      ∙ ap (get_elem? (upto ++ (size_of_workload ∷ rest))) (sym length-upto)
      ∙ get_elem?-append upto size_of_workload rest)
    where
      rest : List ℕ
      rest = entry.workload ++ back

      upto : List ℕ
      upto = front ++ (size_of_phase ∷ entry.phase)

      length-upto : length upto ≡ 11 + size_of_phase
      length-upto = omega (arith, length-append front (size_of_phase ∷ entry.phase), length-front)

      regroup :
          front ++ (size_of_phase ∷ (entry.phase ++ (size_of_workload ∷ rest)))
          ≡ upto ++ (size_of_workload ∷ rest)
      regroup = simp append_assoc

  payload_head : (n : ℕ) → (more : List ℕ) × (take (suc n) (encode_entry entry) ≡ entry_type ∷ more)
  unfolding encode_entry
  payload_head n = (_, refl)

  seen_size :
      (m at size : ℕ)
      → get_elem? (encode_entry entry) at ≡ some size
      → at < length (take m (encode_entry entry))
      → byte_at (take m (encode_entry entry)) at ≡ size
  seen_size m at size e h =
      rw
        (
          get_elem?-take m at (encode_entry entry)
              (omega (arith, length-take m (encode_entry entry))),
          byte_at,
        )
        (rw e)

  -- A prefix of an entry's payload could be the start of a record of the payload's length.
  cut_fits :
      (m : ℕ)
      → could_be_cut_short (take m (encode_entry entry)) (length (encode_entry entry)) ≡ true
  cut_fits zero = unfold could_be_cut_short in refl
  cut_fits (suc n) =
      cut_passes (take (suc n) (encode_entry entry)) (length (encode_entry entry)) size_of_phase
        size_of_workload length-encode_entry fits.phase_fits fits.workload_fits
        (seen_size (suc n) 10 size_of_phase phase_size)
        (seen_size (suc n) (11 + size_of_phase) size_of_workload workload_size) (payload_head n).0
        (payload_head n).1

  entry_is : entry_of (encode_entry entry) ≡ some entry
  unfolding entry_of encode_entry
  entry_is = decode_entry-encode_entry entry fits

  entry_back : (more : List ℕ) → read_payload (encode_entry entry) more ≡ keeps entry more
  unfolding read_payload encode_entry
  entry_back more = rw (entry_is, read_payload)

  payload_bounds : (0 < length (encode_entry entry)) × (length (encode_entry entry) ≤ 512)
  payload_bounds = (
    omega (arith, length-encode_entry),
    omega (arith, length-encode_entry, fits.phase_fits, fits.workload_fits),
  )

  pub round_entry : (more : List ℕ) → round (frame (encode_entry entry) ++ more) ≡ keeps entry more
  round_entry more =
      round-frame (encode_entry entry) payload_bounds.0 payload_bounds.1 more ∙ entry_back more

  -- The frame of an entry, cut before its end, ends the scan as a torn tail.
  pub round_entry_cut :
      (n : ℕ)
      → 0 < n
      → n < length (frame (encode_entry entry))
      → round (take n (frame (encode_entry entry))) ≡ ends torn_tail
  round_entry_cut n some_left h = elim (Bool-cases (ltb n 8)) [
    | inl short ↦
        round_short (take n record_bytes) (omega (arith, length-take n record_bytes))
          (omega (arith, length-take n record_bytes, ltb→lt n 8 short))
    | inr long ↦
        ap (λ (k : ℕ). round (take k record_bytes)) (omega (arith, ltb→le n 8 long))
        ∙ round-frame_cut (encode_entry entry) payload_bounds.0 payload_bounds.1 (n - 8)
            (omega (arith, ltb→le n 8 long, length-frame (encode_entry entry)))
        ∙ rw (cut_fits (n - 8))
  ]
    where
      record_bytes : List ℕ
      record_bytes = frame (encode_entry entry)
