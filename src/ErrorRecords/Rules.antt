-- ===== src/ErrorRecords/Rules.antt =====
-- The rules on a record, written twice in the source: is_valid of verification/record.hpp answers
-- whether they hold, and broken_rule of verification/record/codec.cpp which of them does not.
use load_forge.Common.{
  ℕ, zero, suc, ◌*◌, ◌/◌, ◌^◌, List, length, Bool, true, false, ◌&&◌, ◌||◌, not, ltb, leb, ◌==◌,
  if◌then◌else◌, Option, none, some,
}
use load_forge.ErrorRecords.Types.{
  Difference, ErrorRecord, exact, numerical, not_performed, provenance_of, word_bytes,
  max_window_bytes, max_text_bytes, in_window, differs_at, is_finite, double_lt, double_le,
  exceeds_tolerance,
}

-- Side::kInput, Domain::kDerived, InputIntegrity::kNotChecked and simd::kIsaPathCount.
abbrev pub input_side : ℕ
input_side = 1

abbrev pub derived_domain : ℕ
derived_domain = 1

abbrev pub integrity_not_checked : ℕ
integrity_not_checked = 3

abbrev pub isa_path_count : ℕ
isa_path_count = 4

-- `std::has_single_bit` of a uint32_t: one of the powers of two below 2 ^ bits.
unfoldable pub is_power_below : ℕ → ℕ → Bool
is_power_below zero value = false
is_power_below (suc bits) value = (value == 2 ^ bits) || is_power_below bits value

unfoldable pub has_single_bit : ℕ → Bool
unfolding is_power_below
has_single_bit value = is_power_below 32 value

unfoldable pub is_valid_difference : Difference → Bool
is_valid_difference d =
    leb d.domain derived_domain
    && leb 1 d.popcount
    && leb d.first_offset d.last_offset
    && (d.window_offset == d.first_offset / word_bytes * word_bytes)
    && (length d.expected == length d.actual)
    && not (length d.expected == 0)
    && leb (length d.expected) max_window_bytes
    && differs_at d d.first_offset
    && (not (in_window d d.last_offset) || differs_at d d.last_offset)

unfoldable pub difference_is_valid : Option Difference → Bool
unfolding is_valid_difference
difference_is_valid none = true
difference_is_valid (some difference) = is_valid_difference difference

unfoldable pub is_valid_kind : ErrorRecord → Bool
unfolding difference_is_valid
is_valid_kind (exact r) =
    leb r.side input_side
    && not (length r.check == 0)
    && leb (length r.check) max_text_bytes
    && leb word_bytes r.line_bytes
    && has_single_bit r.line_bytes
    && difference_is_valid r.difference
is_valid_kind (numerical r) =
    leb (length r.check) max_text_bytes
    && is_finite r.tolerance
    && double_lt 0 r.tolerance
    && exceeds_tolerance r.residual r.tolerance
is_valid_kind (not_performed r) =
    leb (length r.what) max_text_bytes && leb (length r.why) max_text_bytes

-- `value.has_value() && <test of *value>`.
abbrev pub holds_and : {A : Type 0} → (A → Bool) → Option A → Bool
holds_and test none = false
holds_and test (some value) = test value

abbrev pub past_text : List ℕ → Bool
past_text text = ltb max_text_bytes (length text)

abbrev pub past_isa : ℕ → Bool
past_isa isa = leb isa_path_count isa

abbrev pub past_integrity : ℕ → Bool
past_integrity integrity = ltb integrity_not_checked integrity

unfoldable pub is_valid : ErrorRecord → Bool
unfolding is_valid_kind
is_valid report =
    if holds_and past_text (provenance_of report).workload
    then false
    else if holds_and past_isa (provenance_of report).isa
    then false
    else if holds_and past_integrity (provenance_of report).input_integrity
    then false
    else is_valid_kind report

-- The texts of broken_rule, a constructor each.
pub data BrokenRule : Type 0 where
  domain_unknown no_bit_differs offsets_swapped window_misplaced : BrokenRule
  windows_differ_in_size windows_empty windows_too_long : BrokenRule
  first_outside_window first_is_the_same last_is_the_same : BrokenRule
  side_unknown no_check check_too_long line_below_word line_not_power : BrokenRule
  tolerance_not_finite tolerance_not_positive residual_within : BrokenRule
  what_too_long why_too_long : BrokenRule
  workload_too_long isa_unknown integrity_unknown : BrokenRule

unfoldable pub broken_difference_rule : Difference → Option BrokenRule
broken_difference_rule d =
    if ltb derived_domain d.domain
    then some domain_unknown
    else if d.popcount == 0
    then some no_bit_differs
    else if ltb d.last_offset d.first_offset
    then some offsets_swapped
    else if not (d.window_offset == d.first_offset / word_bytes * word_bytes)
    then some window_misplaced
    else if not (length d.expected == length d.actual)
    then some windows_differ_in_size
    else if length d.expected == 0
    then some windows_empty
    else if ltb max_window_bytes (length d.expected)
    then some windows_too_long
    else if not (in_window d d.first_offset)
    then some first_outside_window
    else if not (differs_at d d.first_offset)
    then some first_is_the_same
    else if in_window d d.last_offset && not (differs_at d d.last_offset)
    then some last_is_the_same
    else none

unfoldable pub in_difference : Option Difference → Option BrokenRule
unfolding broken_difference_rule
in_difference none = none
in_difference (some difference) = broken_difference_rule difference

unfoldable pub broken_kind_rule : ErrorRecord → Option BrokenRule
unfolding in_difference
broken_kind_rule (exact r) =
    if ltb input_side r.side
    then some side_unknown
    else if length r.check == 0
    then some no_check
    else if ltb max_text_bytes (length r.check)
    then some check_too_long
    else if ltb r.line_bytes word_bytes
    then some line_below_word
    else if not (has_single_bit r.line_bytes)
    then some line_not_power
    else in_difference r.difference
broken_kind_rule (numerical r) =
    if ltb max_text_bytes (length r.check)
    then some check_too_long
    else if not (is_finite r.tolerance)
    then some tolerance_not_finite
    else if double_le r.tolerance 0
    then some tolerance_not_positive
    else if not (exceeds_tolerance r.residual r.tolerance)
    then some residual_within
    else none
broken_kind_rule (not_performed r) =
    if ltb max_text_bytes (length r.what)
    then some what_too_long
    else if ltb max_text_bytes (length r.why)
    then some why_too_long
    else none

unfoldable pub broken_rule : ErrorRecord → Option BrokenRule
unfolding broken_kind_rule
broken_rule report =
    if holds_and past_text (provenance_of report).workload
    then some workload_too_long
    else if holds_and past_isa (provenance_of report).isa
    then some isa_unknown
    else if holds_and past_integrity (provenance_of report).input_integrity
    then some integrity_unknown
    else broken_kind_rule report
