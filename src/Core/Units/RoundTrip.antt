-- ===== src/Core/Units/RoundTrip.antt =====
-- core/duration.cpp and core/byte_size.cpp: a value that is written is read back, whatever its unit.
use load_forge.Common.{
  ℕ, ◌*◌, ◌/◌, ◌%◌, ◌^◌, ◌≤◌, ◌<◌, ◌≡◌, refl, ap, ◌∙◌, List, [], ◌∷◌, ◌++◌, true, false, ◌&&◌, not,
  ltb, ◌==◌, All, Outcome, ok, arith, Bool-cases, inl, inr, ltb→lt,
}
use native.Mathlib.Nat.{div-lt_iff_lt-mul, div-add-mod', div-le_self}
use load_forge.Core.Numbers.{
  ParseError, is_digit, is_space, is_text, trim_back, keep_front, to_decimal,
}
use load_forge.Core.Numbers.Decimal.{split-to_decimal}
use load_forge.Core.Units.{
  Scale, scaled, read_in, write_in, milliseconds, seconds, minutes, hours, max_duration,
  duration_of, parse_duration, duration_text, ByteSize, absolute, fraction, percent, bytes_unit,
  kib, mib, gib, tib, max_bytes, as_bytes, byte_size_of, parse_byte_size, byte_size_text,
}

scaled_exact :
    (ceiling factor n : ℕ)
    → 0 < factor
    → n ≤ ceiling
    → n % factor ≡ 0
    → scaled ceiling factor (n / factor) ≡ ok n
unfolding scaled
scaled_exact ceiling factor n positive small exact =
    elim (Bool-cases (ltb (ceiling / factor) (n / factor))) [
      | inl past ↦
          let more : ceiling < n / factor * factor =
            (div-lt_iff_lt-mul positive).0 (ltb→lt _ _ past) in
          absurd (omega (arith, more, div-add-mod' n factor, small))
      | inr within ↦
          rw (within, scaled) (ap (λ v. ok v) (omega (arith, div-add-mod' n factor, exact)))
    ]

scaled_one : (ceiling n : ℕ) → n ≤ ceiling → scaled ceiling 1 n ≡ ok n
unfolding scaled
scaled_one ceiling n small = ground arith

is_exact : (n factor : ℕ) → (not (n == 0) && (n % factor == 0)) ≡ true → n % factor ≡ 0
is_exact n factor e = ground arith

module _ {A : Type 0} (read : List ℕ → Outcome A ParseError)
    (wrapped : Outcome ℕ ParseError → Outcome A ParseError) (ceiling : ℕ)
    (ceiling_fits : ceiling < 2 ^ 64) where
  -- The reader knows the unit.
  abbrev IsScale : Scale → Type 0
  IsScale scale =
      (0 < scale.factor)
      × ((count : ℕ)
          → count < 2 ^ 64
          → read (to_decimal count ++ scale.suffix) ≡ wrapped (scaled ceiling scale.factor count))

  read-write_in :
      (scales : List Scale) (smallest : Scale) (n : ℕ)
      → n ≤ ceiling
      → smallest.factor ≡ 1
      → IsScale smallest
      → All IsScale scales
      → read (write_in scales smallest.suffix n) ≡ wrapped (ok n)
  unfolding write_in
  read-write_in [] smallest n small one known all =
      known.1 n (omega (arith, small, ceiling_fits))
      ∙ ap (λ factor. wrapped (scaled ceiling factor n)) one
      ∙ ap wrapped (scaled_one ceiling n small)
  read-write_in (scale ∷ scales) smallest n small one known (scale_known, all) =
      elim (Bool-cases (not (n == 0) && (n % scale.factor == 0))) [
        | inl exact ↦
            rw (exact, write_in)
              (scale_known.1 (n / scale.factor)
                  (omega (arith, div-le_self n scale.factor, small, ceiling_fits))
                ∙ ap wrapped (
                    scaled_exact ceiling scale.factor n scale_known.0 small
                      (is_exact n scale.factor exact)))
        | inr inexact ↦ rw (inexact, write_in) (read-write_in scales smallest n small one known all)
      ]

module _ (c : ℕ) (rest : List ℕ) (stop : is_digit c ≡ false)
    (ends : trim_back (c ∷ rest) ≡ c ∷ rest) where
  duration_with :
      (count : ℕ)
      → count < 2 ^ 64
      → parse_duration (to_decimal count ++ c ∷ rest)
        ≡ duration_of (record { value = count; suffix = c ∷ rest })
  unfolding parse_duration
  duration_with count fits = rw (split-to_decimal count c rest fits stop ends, parse_duration) refl

  byte_size_with :
      (count : ℕ)
      → count < 2 ^ 64
      → parse_byte_size (to_decimal count ++ c ∷ rest)
        ≡ byte_size_of (record { value = count; suffix = c ∷ rest })
  unfolding parse_byte_size
  byte_size_with count fits =
      rw (split-to_decimal count c rest fits stop ends, parse_byte_size) refl

abbrev IsDuration : Scale → Type 0
IsDuration = IsScale parse_duration (λ r. r) max_duration (omega arith)

milliseconds-IsDuration : IsDuration milliseconds
unfolding duration_of read_in is_text is_digit trim_back keep_front is_space
milliseconds-IsDuration =
    (omega arith, λ count fits. duration_with b'm' (b's' ∷ []) refl refl count fits)

seconds-IsDuration : IsDuration seconds
unfolding duration_of read_in is_text is_digit trim_back keep_front is_space
seconds-IsDuration = (omega arith, λ count fits. duration_with b's' [] refl refl count fits)

minutes-IsDuration : IsDuration minutes
unfolding duration_of read_in is_text is_digit trim_back keep_front is_space
minutes-IsDuration = (omega arith, λ count fits. duration_with b'm' [] refl refl count fits)

hours-IsDuration : IsDuration hours
unfolding duration_of read_in is_text is_digit trim_back keep_front is_space
hours-IsDuration = (omega arith, λ count fits. duration_with b'h' [] refl refl count fits)

-- A duration that is written, in the largest unit that is exact, is read back.
pub parse_duration-duration_text :
    (millis : ℕ) → millis ≤ max_duration → parse_duration (duration_text millis) ≡ ok millis
unfolding duration_text
parse_duration-duration_text millis small =
    read-write_in parse_duration (λ r. r) max_duration (omega arith)
      (hours ∷ minutes ∷ seconds ∷ milliseconds ∷ []) milliseconds millis small refl
      milliseconds-IsDuration
      (hours-IsDuration, (minutes-IsDuration, (seconds-IsDuration, (milliseconds-IsDuration, tt))))

abbrev IsBytes : Scale → Type 0
IsBytes = IsScale parse_byte_size as_bytes max_bytes (omega arith)

bytes_unit-IsBytes : IsBytes bytes_unit
unfolding byte_size_of read_in is_text is_digit trim_back keep_front is_space
bytes_unit-IsBytes = (omega arith, λ count fits. byte_size_with b'B' [] refl refl count fits)

kib-IsBytes : IsBytes kib
unfolding byte_size_of read_in is_text is_digit trim_back keep_front is_space
kib-IsBytes =
    (omega arith, λ count fits. byte_size_with b'K' (b'i' ∷ b'B' ∷ []) refl refl count fits)

mib-IsBytes : IsBytes mib
unfolding byte_size_of read_in is_text is_digit trim_back keep_front is_space
mib-IsBytes =
    (omega arith, λ count fits. byte_size_with b'M' (b'i' ∷ b'B' ∷ []) refl refl count fits)

gib-IsBytes : IsBytes gib
unfolding byte_size_of read_in is_text is_digit trim_back keep_front is_space
gib-IsBytes =
    (omega arith, λ count fits. byte_size_with b'G' (b'i' ∷ b'B' ∷ []) refl refl count fits)

tib-IsBytes : IsBytes tib
unfolding byte_size_of read_in is_text is_digit trim_back keep_front is_space
tib-IsBytes =
    (omega arith, λ count fits. byte_size_with b'T' (b'i' ∷ b'B' ∷ []) refl refl count fits)

-- The values that a size can have: a uint64_t of bytes, or a percentage from 1 to 100.
abbrev pub IsByteSize : ByteSize → Type 0
IsByteSize (absolute count) = count ≤ max_bytes
IsByteSize (fraction whole) = (1 ≤ whole) × (whole ≤ 100)

percent_passes : (whole : ℕ) → 1 ≤ whole → whole ≤ 100 → percent whole ≡ ok (fraction whole)
unfolding percent
percent_passes whole low high = ground arith

-- A size that is written, in bytes with the largest unit that is exact or as a percentage, is read
-- back.
pub parse_byte_size-byte_size_text :
    (size : ByteSize) → IsByteSize size → parse_byte_size (byte_size_text size) ≡ ok size
unfolding byte_size_text byte_size_of is_text is_digit trim_back keep_front is_space
parse_byte_size-byte_size_text (absolute count) small =
    read-write_in parse_byte_size as_bytes max_bytes (omega arith)
      (tib ∷ gib ∷ mib ∷ kib ∷ bytes_unit ∷ []) bytes_unit count small refl bytes_unit-IsBytes
      (tib-IsBytes, (gib-IsBytes, (mib-IsBytes, (kib-IsBytes, (bytes_unit-IsBytes, tt)))))
parse_byte_size-byte_size_text (fraction whole) (low, high) =
    byte_size_with b'%' [] refl refl whole (omega arith) ∙ percent_passes whole low high
