-- ===== src/Core/Units/Bounds.antt =====
-- core/parse_number.cpp and core/byte_size.cpp: no size that is read has wrapped around.
use load_forge.Common.{
  ℕ, ◌/◌, ◌^◌, ◌≤◌, ◌<◌, ◌≡◌, List, [], ◌∷◌, length, ◌||◌, ltb, leb, ◌==◌, All, Outcome, ok, err,
  arith, Bool-cases, inl, inr, ltb→le, subst,
}
use native.Mathlib.Nat.{le-div_iff_mul-le}
use load_forge.Core.Numbers.{
  ParseError, NumberAndSuffix, leading_digits, value_from, from_chars, split_trimmed,
  split_number_and_suffix, trim, is_text,
}
use load_forge.Core.Units.{
  Scale, scaled, read_in, ByteSize, percent, bytes_unit, kib, mib, gib, tib, max_bytes, as_bytes,
  byte_size_of, parse_byte_size,
}
use load_forge.Core.Units.RoundTrip.{IsByteSize}

-- What an answer that is not refused keeps to.
abbrev Keeps : {A : Type 0} → (A → Type 0) → Outcome A ParseError → Type 0
Keeps P (ok a) = P a
Keeps P (err fault) = Unit {0}

abbrev IsU64 : NumberAndSuffix → Type 0
IsU64 parts = parts.value < 2 ^ 64

from_chars-IsU64 : (text : List ℕ) → Keeps IsU64 (from_chars text)
unfolding from_chars
from_chars-IsU64 text = elim (Bool-cases (length (leading_digits text).0 == 0)) [
  | inl none_there ↦ rw (none_there, from_chars) tt
  | inr there ↦ elim (Bool-cases (leb (2 ^ 64) (value_from 0 (leading_digits text).0))) [
    | inl past ↦ rw (there, past, from_chars) tt
    | inr within ↦ rw (there, within, from_chars) (ground (arith, within))
  ]
]

split-IsU64 : (text : List ℕ) → Keeps IsU64 (split_trimmed text)
unfolding split_trimmed
split-IsU64 [] = tt
split-IsU64 (c ∷ text) = elim (Bool-cases (c == b'-')) [
  | inl minus ↦ rw (minus, split_trimmed) tt
  | inr other ↦ rw (other, split_trimmed) (from_chars-IsU64 (c ∷ text))
]

scaled-le :
    (ceiling factor count : ℕ) → 0 < factor → Keeps (λ n. n ≤ ceiling) (scaled ceiling factor count)
unfolding scaled
scaled-le ceiling factor count positive = elim (Bool-cases (ltb (ceiling / factor) count)) [
  | inl past ↦ rw (past, scaled) tt
  | inr within ↦
      rw (within, scaled) ((le-div_iff_mul-le positive).0 (ltb→le (ceiling / factor) count within))
]

read_in-le :
    (ceiling : ℕ) (scales : List Scale) (count : ℕ) (suffix : List ℕ)
    → All (λ scale. 0 < scale.factor) scales
    → Keeps (λ n. n ≤ ceiling) (read_in ceiling scales count suffix)
unfolding read_in
read_in-le ceiling [] count suffix positive = tt
read_in-le ceiling (scale ∷ scales) count suffix (first, positive) =
    elim (Bool-cases (is_text suffix scale.suffix)) [
      | inl this ↦ rw (this, read_in) (scaled-le ceiling scale.factor count first)
      | inr other ↦ rw (other, read_in) (read_in-le ceiling scales count suffix positive)
    ]

as_bytes-IsByteSize :
    (count : Outcome ℕ ParseError)
    → Keeps (λ n. n ≤ max_bytes) count
    → Keeps IsByteSize (as_bytes count)
as_bytes-IsByteSize (ok n) small = small
as_bytes-IsByteSize (err fault) small = tt

percent-IsByteSize : (whole : ℕ) → Keeps IsByteSize (percent whole)
unfolding percent
percent-IsByteSize whole = elim (Bool-cases ((whole == 0) || ltb 100 whole)) [
  | inl outside ↦ rw (outside, percent) tt
  | inr within ↦ rw (within, percent) (ground (arith, within))
]

byte_size_of-IsByteSize :
    (parts : NumberAndSuffix) → IsU64 parts → Keeps IsByteSize (byte_size_of parts)
unfolding byte_size_of
byte_size_of-IsByteSize parts fits = elim (Bool-cases (length parts.suffix == 0)) [
  | inl bare ↦ rw (bare, byte_size_of) (omega (arith, fits))
  | inr unit ↦ elim (Bool-cases (is_text parts.suffix (b'%' ∷ []))) [
    | inl share ↦ rw (unit, share, byte_size_of) (percent-IsByteSize parts.value)
    | inr bytes ↦
        rw (unit, bytes, byte_size_of)
          (as_bytes-IsByteSize _ (
            read_in-le max_bytes (bytes_unit ∷ kib ∷ mib ∷ gib ∷ tib ∷ []) parts.value parts.suffix
              (omega arith, (omega arith, (omega arith, (omega arith, (omega arith, tt)))))))
  ]
]

split_kept :
    (split : Outcome NumberAndSuffix ParseError)
    → Keeps IsU64 split
    → Keeps IsByteSize (elim split [ err fault ↦ err fault | ok parts ↦ byte_size_of parts ])
split_kept (ok parts) fits = byte_size_of-IsByteSize parts fits
split_kept (err fault) fits = tt

-- A size that is read, from any text at all, is a uint64_t of bytes or a percentage from 1 to 100: no
-- number of digits and no unit makes it wrap around.
pub parse_byte_size-IsByteSize :
    (text : List ℕ) (size : ByteSize) → parse_byte_size text ≡ ok size → IsByteSize size
unfolding parse_byte_size split_number_and_suffix
parse_byte_size-IsByteSize text size e =
    subst (Keeps IsByteSize) e (split_kept (split_number_and_suffix text) (split-IsU64 (trim text)))
