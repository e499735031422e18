-- ===== src/Examples/Corruption.antt =====
-- The theorems about error records at a concrete corruption.
use load_forge.Common.{
  ◌≡◌, ◌<◌, refl, [], ◌∷◌, ◌++◌, length, take, none, some, ok, err, true, ◌↔◌, arith,
}
use load_forge.ErrorRecords.Types.{Provenance, ErrorRecord, exact, differs_at, in_window}
use load_forge.ErrorRecords.Rules.{
  is_valid, is_valid_kind, is_valid_difference, difference_is_valid, has_single_bit, is_power_below,
  broken_rule,
}
use load_forge.ErrorRecords.Agreement.{broken_rule-is_valid}
use load_forge.ErrorRecords.Reader.{truncated, trailing}
use load_forge.ErrorRecords.Codec.{
  encode, decode, put_provenance, put_kind, put_exact, put_difference, put_duty,
}
use load_forge.ErrorRecords.Writer.{put_raw, put_optional}
use load_forge.Common.Bits.{put_from}
use load_forge.ErrorRecords.RoundTrip.{
  IsProvenance, IsKind, record_decode-encode, record_decode-cut,
}
use load_forge.ErrorRecords.Refusals.{record_decode-is_valid}

abbrev on_cpu_3 : Provenance
on_cpu_3 = record {
  logical_cpu = some 3;
  physical_package = none;
  physical_core = some 1;
  numa_node = none;
  buffer_address = some 4096;
  buffer_offset = none;
  iteration = some 77;
  workload = some (b'f' ∷ b'f' ∷ b't' ∷ []);
  workload_version = none;
  seed = some 5;
  isa = some 1;
  input_integrity = some 0;
  duty = some record { oracle_period = 1; integrity_period = 16 };
  decomposition = none;
  footprint_bytes = some 65536;
}

-- One bit of byte 9 came out wrong.
abbrev flipped : ErrorRecord
flipped = exact record {
  provenance = on_cpu_3;
  side = 0;
  check = b'o' ∷ [];
  difference = some record {
    domain = 0;
    first_offset = 9;
    last_offset = 9;
    popcount = 1;
    window_offset = 8;
    expected = 1 ∷ 2 ∷ [];
    actual = 1 ∷ 3 ∷ [];
  };
  line_bytes = 64;
}

on_cpu_3-IsProvenance : IsProvenance on_cpu_3
on_cpu_3-IsProvenance = record {
  cpu_fits = omega arith;
  package_fits = tt;
  core_fits = omega arith;
  node_fits = tt;
  address_fits = omega arith;
  offset_fits = tt;
  iteration_fits = omega arith;
  workload_fits = omega arith;
  version_fits = tt;
  seed_fits = omega arith;
  isa_fits = omega arith;
  integrity_fits = omega arith;
  duty_fits = omega arith;
  decomposition_fits = tt;
  footprint_fits = omega arith;
}

flipped-IsKind : IsKind flipped
flipped-IsKind = omega arith

flipped-is_valid : is_valid flipped ≡ true
unfolding is_valid is_valid_kind difference_is_valid is_valid_difference differs_at in_window
    has_single_bit is_power_below
flipped-is_valid = refl

record_decode-encode_example : decode (encode flipped ++ (0 ∷ [])) ≡ err trailing
record_decode-encode_example =
    record_decode-encode flipped (0 ∷ []) on_cpu_3-IsProvenance flipped-IsKind flipped-is_valid

long_enough : 40 < length (encode flipped)
unfolding encode put_provenance put_optional put_duty put_raw put_kind put_exact put_difference
    put_from
long_enough = omega arith

record_decode-cut_example : decode (take 40 (encode flipped)) ≡ err truncated
record_decode-cut_example =
    record_decode-cut flipped 40 on_cpu_3-IsProvenance flipped-IsKind long_enough

decodes : decode (encode flipped ++ []) ≡ ok flipped
decodes = record_decode-encode flipped [] on_cpu_3-IsProvenance flipped-IsKind flipped-is_valid

record_decode-is_valid_example : is_valid flipped ≡ true
record_decode-is_valid_example = record_decode-is_valid (encode flipped ++ []) flipped decodes

broken_rule-is_valid_example : (broken_rule flipped ≡ none) ↔ (is_valid flipped ≡ true)
broken_rule-is_valid_example = broken_rule-is_valid flipped
