-- ===== src/ErrorRecords/Agreement.antt =====
-- The two descriptions of the rules agree.
use load_forge.Common.{
  ℕ, ◌≡◌, ◌↔◌, length, Bool, true, ◌&&◌, not, ltb, leb, ◌==◌, if◌then◌else◌, Option, none, some,
  arith,
}
use load_forge.ErrorRecords.Types.{
  Difference, ErrorRecord, exact, numerical, not_performed, differs_at, double_le, double_lt,
  is_nan, is_finite,
}
use load_forge.ErrorRecords.Rules.{
  is_valid_difference, is_valid_kind, is_valid, BrokenRule, broken_difference_rule,
  broken_kind_rule, broken_rule, has_single_bit, in_difference, difference_is_valid, side_unknown,
  no_check, check_too_long, line_below_word, line_not_power,
}

difference_agrees :
    (d : Difference) → (broken_difference_rule d ≡ none) ↔ (is_valid_difference d ≡ true)
unfolding broken_difference_rule is_valid_difference differs_at
difference_agrees d = ground arith

positive : (bits : ℕ) → is_finite bits ≡ true → double_le bits 0 ≡ not (double_lt 0 bits)
unfolding is_finite double_le is_nan
positive bits finite = ground arith

in_difference_agrees :
    (difference : Option Difference)
    → (in_difference difference ≡ none) ↔ (difference_is_valid difference ≡ true)
unfolding in_difference difference_is_valid
in_difference_agrees none = ground arith
in_difference_agrees (some difference) = difference_agrees difference

module _ (size line side : ℕ) (power : Bool) {later : Option BrokenRule} {fine : Bool} where
  exact_agrees :
      ((later ≡ none) ↔ (fine ≡ true))
      → ((if ltb 1 side
            then some side_unknown
            else if size == 0
            then some no_check
            else if ltb 1024 size
            then some check_too_long
            else if ltb line 8
            then some line_below_word
            else if not power
            then some line_not_power
            else later)
          ≡ none)
        ↔ ((leb side 1 && not (size == 0) && leb size 1024 && leb 8 line && power && fine) ≡ true)
  exact_agrees agree = ground arith

kind_agrees :
    (report : ErrorRecord) → (broken_kind_rule report ≡ none) ↔ (is_valid_kind report ≡ true)
unfolding broken_kind_rule is_valid_kind
kind_agrees (exact r) =
    exact_agrees (length r.check) r.line_bytes r.side (has_single_bit r.line_bytes)
      (in_difference_agrees r.difference)
kind_agrees (numerical r) = ground (arith, positive r.tolerance)
kind_agrees (not_performed r) = ground arith

-- The codec finds no broken rule in a record exactly when the record's own is_valid holds, for each of
-- the three kinds.
pub broken_rule-is_valid :
    (report : ErrorRecord) → (broken_rule report ≡ none) ↔ (is_valid report ≡ true)
unfolding broken_rule is_valid
broken_rule-is_valid report = ground (arith, kind_agrees report)
