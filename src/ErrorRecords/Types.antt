-- ===== src/ErrorRecords/Types.antt =====
-- verification/record.hpp: the three kinds of record. A string and a window are lists of bytes, and a
-- double is its 64 bits. An enumeration holds any byte that a decoder cast to it, so it is a number.
use load_forge.Common.{
  ℕ, ◌-◌, ◌/◌, ◌%◌, ◌^◌, List, [], ◌∷◌, length, get_elem?, Bool, true, false, ◌&&◌, ◌||◌, not, ltb,
  leb, ◌==◌, if◌then◌else◌, Option, none, some, bit_xor,
}
use load_forge.Worker.Control.Types.{DutyCycle}

pub record Provenance : Type 0 where
  pub logical_cpu : Option ℕ
  pub physical_package : Option ℕ
  pub physical_core : Option ℕ
  pub numa_node : Option ℕ
  pub buffer_address : Option ℕ
  pub buffer_offset : Option ℕ
  pub iteration : Option ℕ
  pub workload : Option (List ℕ)
  pub workload_version : Option ℕ
  pub seed : Option ℕ
  pub isa : Option ℕ
  pub input_integrity : Option ℕ
  pub duty : Option DutyCycle
  pub decomposition : Option ℕ
  pub footprint_bytes : Option ℕ

pub data BitClass : Type 0 where
  single_bit multi_bit_in_word within_cache_line across_cache_lines : BitClass

abbrev pub word_bytes : ℕ
word_bytes = 8

abbrev pub max_window_bytes : ℕ
max_window_bytes = 64

abbrev pub max_text_bytes : ℕ
max_text_bytes = 1024

unfoldable pub classify_bits : (popcount first_offset last_offset line_bytes : ℕ) → BitClass
classify_bits popcount first_offset last_offset line_bytes =
    if popcount == 1
    then single_bit
    else if first_offset / word_bytes == last_offset / word_bytes
    then multi_bit_in_word
    else if first_offset / line_bytes == last_offset / line_bytes
    then within_cache_line
    else across_cache_lines

pub record Difference : Type 0 where
  pub domain : ℕ
  pub first_offset : ℕ
  pub last_offset : ℕ
  pub popcount : ℕ
  pub window_offset : ℕ
  pub expected : List ℕ
  pub actual : List ℕ

pub record ExactBitCorruption : Type 0 where
  pub provenance : Provenance
  pub side : ℕ
  pub check : List ℕ
  pub difference : Option Difference
  pub line_bytes : ℕ

unfoldable pub classify : ExactBitCorruption → Option BitClass
unfolding classify_bits
classify report = of report.difference
  where
    of : Option Difference → Option BitClass
    of none = none
    of (some difference) = some (
        classify_bits difference.popcount difference.first_offset difference.last_offset
          report.line_bytes)

unfoldable pub xor_bytes : List ℕ → List ℕ → List ℕ
xor_bytes (a ∷ expected) (b ∷ actual) = bit_xor a b ∷ xor_bytes expected actual
xor_bytes _ _ = []

unfoldable pub xor_delta : Difference → List ℕ
unfolding xor_bytes
xor_delta difference =
    if not (length difference.expected == length difference.actual)
    then []
    else xor_bytes difference.expected difference.actual

unfoldable pub in_window : Difference → ℕ → Bool
in_window difference offset =
    leb difference.window_offset offset
    && ltb (offset - difference.window_offset) (length difference.expected)

abbrev pub byte_at : List ℕ → ℕ → ℕ
byte_at bytes at = elim (get_elem? bytes at) [ none ↦ 0 | some byte ↦ byte ]

-- Both windows are as long where this is asked.
unfoldable pub differs_at : Difference → ℕ → Bool
unfolding in_window
differs_at difference offset =
    in_window difference offset
    && not (
        byte_at difference.expected (offset - difference.window_offset)
        == byte_at difference.actual (offset - difference.window_offset))

pub record NumericalVerificationFailure : Type 0 where
  pub provenance : Provenance
  pub check : List ℕ
  pub residual : ℕ
  pub tolerance : ℕ
  pub condition_number : Option ℕ
  pub element : Option ℕ

-- IEEE 754 by the bits of a double: its magnitude orders as its low 63 bits do.
abbrev pub exponent : ℕ → ℕ
exponent bits = bits / 2 ^ 52 % 2048

unfoldable pub is_nan : ℕ → Bool
is_nan bits = (exponent bits == 2047) && not (bits % 2 ^ 52 == 0)

unfoldable pub is_finite : ℕ → Bool
is_finite bits = not (exponent bits == 2047)

abbrev pub is_negative : ℕ → Bool
is_negative bits = bits / 2 ^ 63 % 2 == 1

abbrev pub magnitude : ℕ → ℕ
magnitude bits = bits % 2 ^ 63

-- `lhs < rhs`; false where either is not a number, and zeros of both signs are equal.
unfoldable pub double_lt : ℕ → ℕ → Bool
unfolding is_nan
double_lt lhs rhs =
    if is_nan lhs || is_nan rhs
    then false
    else if is_negative lhs
    then (if is_negative rhs
        then ltb (magnitude rhs) (magnitude lhs)
        else not ((magnitude lhs == 0) && (magnitude rhs == 0)))
    else (if is_negative rhs then false else ltb (magnitude lhs) (magnitude rhs))

-- `lhs <= rhs`.
unfoldable pub double_le : ℕ → ℕ → Bool
unfolding is_nan double_lt
double_le lhs rhs = not (is_nan lhs || is_nan rhs) && not (double_lt rhs lhs)

unfoldable pub exceeds_tolerance : (residual tolerance : ℕ) → Bool
unfolding is_nan double_lt
exceeds_tolerance residual tolerance = is_nan residual || double_lt tolerance residual

pub record VerificationNotPerformed : Type 0 where
  pub provenance : Provenance
  pub what : List ℕ
  pub why : List ℕ
  pub blocks_compared : ℕ

pub data ErrorRecord : Type 0 where
  exact : ExactBitCorruption → ErrorRecord
  numerical : NumericalVerificationFailure → ErrorRecord
  not_performed : VerificationNotPerformed → ErrorRecord

abbrev pub provenance_of : ErrorRecord → Provenance
provenance_of (exact r) = r.provenance
provenance_of (numerical r) = r.provenance
provenance_of (not_performed r) = r.provenance

unfoldable pub is_wrong_result : ErrorRecord → Bool
is_wrong_result (not_performed r) = false
is_wrong_result (exact r) = true
is_wrong_result (numerical r) = true
