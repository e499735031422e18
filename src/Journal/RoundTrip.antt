-- ===== src/Journal/RoundTrip.antt =====
-- What `encode_entry` writes, `decode_entry` reads back: field by field, then the whole entry.
use native.Mathlib.Nat.{mod-eq_of_lt, div-div-eq-div-mul}
use load_forge.Common.{
  ℕ, zero, suc, ◌+◌, ◌*◌, ◌/◌, ◌^◌, ◌≤◌, ◌<◌, ◌≡◌, refl, sym, ap, ◌∙◌, List, [], ◌∷◌, ◌++◌, length,
  Option, none, some, true, false, bit_and, ◌==◌, ==_iff, All, arith, append_assoc, append-nil,
  length-append, take-append, drop-append, le→ltb,
}
use load_forge.Common.And.{low_bit}
use load_forge.Common.Bits.{put, get, length-put_from, get-put, bit_or-eq-add}
use load_forge.Common.Int.{pos, ◌≤ℤ◌, IsI64, to_u64, ltb_ℤ, to_i64-to_u64, to_u64-lt}
use load_forge.Common.Tables.{holds_below, holds_from, read_off}
use load_forge.Journal.Format.{
  Entry, at_start, take_bytes, number, read_label, read_optionals, put_label, put_optionals,
  present_from, bits, flag, optionals, encode_entry, decode_entry, decode_labels, decode_counts,
  max_label_bytes, entry_type, reserved_bits,
}

abbrev pub IsByte : ℕ → Type 0
IsByte b = b < 256

abbrev pub IsWord : Option ℕ → Type 0
IsWord value = bits value < 2 ^ 64

-- The entries that the writer accepts, with fields in the range of their types.
pub record IsEntry (entry : Entry) : Type 0 where
  pub elapsed_fits : IsI64 entry.elapsed_ns
  pub elapsed_nonneg : pos 0 ≤ℤ entry.elapsed_ns
  pub phase_fits : length entry.phase ≤ max_label_bytes
  pub workload_fits : length entry.workload ≤ max_label_bytes
  pub words : All IsWord (optionals entry)
  pub alive_fits : entry.workers_alive < 2 ^ 32
  pub stale_fits : entry.workers_stale < 2 ^ 32

take_bytes-append :
    (xs rest : List ℕ) → take_bytes (length xs) (at_start (xs ++ rest)) ≡ (xs, at_start rest)
unfolding take_bytes
take_bytes-append xs rest =
    rw (le→ltb (length (xs ++ rest)) (length xs) (omega (arith, length-append xs rest)))
      (rw (take-append xs rest, drop-append xs rest))

take_bytes-put :
    (width v : ℕ) (rest : List ℕ)
    → take_bytes width (at_start (put width v ++ rest)) ≡ (put width v, at_start rest)
take_bytes-put width v rest =
    ap (λ (n : ℕ). take_bytes n (at_start (put width v ++ rest))) (sym (length-put_from 0 width v))
    ∙ take_bytes-append (put width v) rest

get-put_alone : (width v : ℕ) → v < 256 ^ width → get width (put width v) ≡ v
get-put_alone width v h = ap (get width) (sym (append-nil (put width v))) ∙ get-put width v [] h

pub number-put :
    (width v : ℕ) (rest : List ℕ)
    → v < 256 ^ width
    → number width (at_start (put width v ++ rest)) ≡ (v, at_start rest)
unfolding number
number-put width v rest h = rw (take_bytes-put width v rest, get-put_alone width v h)

read_label-put :
    (label rest : List ℕ)
    → length label ≤ max_label_bytes
    → read_label (at_start (put_label label ++ rest)) ≡ some (label, at_start rest)
unfolding read_label
read_label-put label rest h =
    rw (append_assoc, number-put 1 (length label) (label ++ rest) (omega arith))
      (rw (le→ltb max_label_bytes (length label) h, take_bytes-append label rest))

-- The presence bits, lowest first.
abbrev flags : List (Option ℕ) → ℕ
flags [] = 0
flags (value ∷ values) = flag value + 2 * flags values

flag-lt : (value : Option ℕ) → flag value < 2
flag-lt none = omega arith
flag-lt (some value) = omega arith

field_fits : (f p d : ℕ) → p < 2 ^ f → d < 2 → p + d * 2 ^ f < 2 ^ suc f
field_fits f p zero h k = omega arith
field_fits f p (suc zero) h k = omega arith
field_fits f p (suc (suc d)) h k = absurd (omega arith)

present_from-flags :
    (field present : ℕ) (values : List (Option ℕ))
    → present < 2 ^ field
    → present_from field present values ≡ present + flags values * 2 ^ field
unfolding present_from
present_from-flags field present [] h = omega arith
present_from-flags field present (value ∷ values) h =
    rw (bit_or-eq-add field present (flag value) h) (
      present_from-flags (suc field) (present + flag value * 2 ^ field) values
        (field_fits field present (flag value) h (flag-lt value))
      ∙ omega (arith, ap (λ (t : ℕ). flags values * t) doubled))
  where
    doubled : 2 ^ suc field ≡ 2 * 2 ^ field
    doubled = omega arith

next_bit : (present field : ℕ) → present / 2 ^ suc field ≡ present / 2 ^ field / 2
next_bit present field =
    ap (λ (t : ℕ). present / t) doubled ∙ sym (div-div-eq-div-mul present (2 ^ field) 2)
  where
    doubled : 2 ^ suc field ≡ 2 ^ field * 2
    doubled = omega arith

field_bit :
    (present field : ℕ) (value : Option ℕ) (values : List (Option ℕ))
    → present / 2 ^ field ≡ flags (value ∷ values)
    → (bit_and (present / 2 ^ field) 1 ≡ flag value) × (present / 2 ^ suc field ≡ flags values)
field_bit present field value values e = (
  omega (arith, low_bit (present / 2 ^ field), flag-lt value),
  omega (arith, next_bit present field, flag-lt value),
)

read_optionals-put :
    (field : ℕ) (values : List (Option ℕ)) (present : ℕ) (rest : List ℕ)
    → present / 2 ^ field ≡ flags values
    → All IsWord values
    → read_optionals field (length values) present (at_start (put_optionals values ++ rest))
      ≡ some (values, at_start rest)
unfolding read_optionals put_optionals
read_optionals-put field [] present rest e h = refl
read_optionals-put field (none ∷ values) present rest e h =
    rw (append_assoc, number-put 8 0 (put_optionals values ++ rest) (omega arith))
      (rw (field_bit present field none values e).0 (
        rw (
          read_optionals-put (suc field) values present rest
            (field_bit present field none values e).1 h.1)))
read_optionals-put field (some value ∷ values) present rest e h =
    rw (append_assoc, number-put 8 value (put_optionals values ++ rest) h.0)
      (rw (field_bit present field (some value) values e).0 (
        rw (
          read_optionals-put (suc field) values present rest
            (field_bit present field (some value) values e).1 h.1)))

reserved_table : holds_below 64 (λ p. bit_and p reserved_bits == 0) ≡ true
unfolding holds_from
reserved_table = refl

-- The reserved bits are those above the six fields.
reserved_clear : (present : ℕ) → present < 64 → bit_and present reserved_bits ≡ 0
reserved_clear present h = (==_iff _ 0).0 (read_off 64 _ present reserved_table h)

number_alone :
    (width v : ℕ) → v < 256 ^ width → number width (at_start (put width v)) ≡ (v, at_start [])
number_alone width v h =
    ap (λ (bytes : List ℕ). number width (at_start bytes)) (sym (append-nil (put width v)))
    ∙ number-put width v [] h

after_type : (kind : ℕ) (more : List ℕ) → (take_bytes 1 (at_start (kind ∷ more))).1 ≡ at_start more
unfolding take_bytes
after_type kind more = ground arith

module _ (entry : Entry) (fits : IsEntry entry) where
  counts_back :
      decode_counts entry.elapsed_ns entry.phase entry.workload
        (optionals entry)
        (at_start (put 4 entry.workers_alive ++ put 4 entry.workers_stale))
      ≡ some entry
  unfolding decode_counts
  counts_back = rw (number-put 4 entry.workers_alive (put 4 entry.workers_stale) fits.alive_fits) (
      rw (number_alone 4 entry.workers_stale fits.stale_fits)
        (rw (mod-eq_of_lt fits.alive_fits, mod-eq_of_lt fits.stale_fits)))

  abbrev presence : ℕ
  presence = present_from 0 0 (optionals entry)

  presence-flags : presence ≡ flags (optionals entry)
  presence-flags = present_from-flags 0 0 (optionals entry) (omega arith) ∙ omega arith

  presence-lt : presence < 64
  presence-lt = omega (
    arith,
    presence-flags,
    flag-lt entry.last_verified_unit,
    flag-lt entry.temperature_c,
    flag-lt entry.package_power_w,
    flag-lt entry.frequency_hz,
    flag-lt entry.ecc_corrected,
    flag-lt entry.ecc_uncorrected,
  )

  optionals_back :
      (rest : List ℕ)
      → read_optionals 0 6 presence (at_start (put_optionals (optionals entry) ++ rest))
        ≡ some (optionals entry, at_start rest)
  optionals_back rest =
      read_optionals-put 0 (optionals entry) presence rest (omega (arith, presence-flags))
        fits.words

  labels_back :
      decode_labels entry.elapsed_ns presence (
        at_start (
          put_label entry.phase
          ++ (put_label entry.workload
              ++ (put_optionals (optionals entry)
                  ++ (put 4 entry.workers_alive ++ put 4 entry.workers_stale)))))
      ≡ some entry
  unfolding decode_labels
  labels_back =
      rw (read_label-put entry.phase _ fits.phase_fits) (
        rw (read_label-put entry.workload _ fits.workload_fits) (rw (optionals_back _) counts_back))

  not_negative : ltb_ℤ entry.elapsed_ns (pos 0) ≡ false
  not_negative = le→ltb _ _ fits.elapsed_nonneg

  -- Decoding the payload that an entry is encoded as gives the entry back: every field in its
  -- type's range, elapsed time not negative, labels of at most 64 bytes.
  pub decode_entry-encode_entry : decode_entry (encode_entry entry) ≡ some entry
  unfolding decode_entry encode_entry
  decode_entry-encode_entry = rw (after_type entry_type _) (
      rw (number-put 8 (to_u64 entry.elapsed_ns) _ (to_u64-lt entry.elapsed_ns)) (
        rw (number-put 1 presence _ (omega (arith, presence-lt))) (
          rw (to_i64-to_u64 entry.elapsed_ns fits.elapsed_fits)
            (rw not_negative (rw (reserved_clear presence presence-lt) labels_back)))))
