-- ===== src/ErrorRecords/Refusals.antt =====
-- What the record channel's decoder lets through.
use load_forge.Common.{
  ℕ, ◌≡◌, List, [], ◌∷◌, Option-cases, Outcome-cases, ok, inl, inr, true, arith,
}
use load_forge.ErrorRecords.Types.{ErrorRecord}
use load_forge.ErrorRecords.Rules.{is_valid, broken_rule}
use load_forge.ErrorRecords.Agreement.{broken_rule-is_valid}
use load_forge.ErrorRecords.Codec.{conclude, get_record, decode_fields, decode_kind, decode}

conclude_valid :
    (read : ErrorRecord × List ℕ) (found : ErrorRecord)
    → conclude read ≡ ok found
    → is_valid found ≡ true
unfolding conclude
conclude_valid (report, rest) found e = elim (Option-cases (broken_rule report)) [
  | inl none_broken ↦ ground (arith, broken_rule-is_valid report)
  | inr (rule, broken) ↦ ground arith
]

decode_fields_valid :
    (number : ℕ) (bytes : List ℕ) (found : ErrorRecord)
    → decode_fields number bytes ≡ ok found
    → is_valid found ≡ true
unfolding decode_fields
decode_fields_valid number bytes found e = elim (Outcome-cases (get_record number bytes)) [
  | inl (read, was) ↦ conclude_valid read found (rw (was, decode_fields) at e)
  | inr (fault, was) ↦ ground arith
]

decode_kind_valid :
    (bytes : List ℕ) (found : ErrorRecord) → decode_kind bytes ≡ ok found → is_valid found ≡ true
unfolding decode_kind
decode_kind_valid [] found e = cc
decode_kind_valid (number ∷ bytes) found e = ground (arith, decode_fields_valid number bytes found)

-- A record that was decoded, from any bytes at all, keeps the rules of its kind.
pub record_decode-is_valid :
    (bytes : List ℕ) (found : ErrorRecord) → decode bytes ≡ ok found → is_valid found ≡ true
unfolding decode
record_decode-is_valid [] found e = cc
record_decode-is_valid (first ∷ bytes) found e = ground (arith, decode_kind_valid bytes found)
