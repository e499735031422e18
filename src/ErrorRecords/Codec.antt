-- ===== src/ErrorRecords/Codec.antt =====
-- verification/record/codec.cpp: encode and decode of a record. A fault is without its text.
use load_forge.Common.{
  ℕ, List, [], ◌∷◌, ◌++◌, length, ◌||◌, not, ltb, ◌==◌, if◌then◌else◌, none, some, Outcome, ok, err,
}
use load_forge.Common.Bits.{put}
use load_forge.Worker.Control.Types.{DutyCycle}
use load_forge.ErrorRecords.Types.{
  Provenance, Difference, ExactBitCorruption, NumericalVerificationFailure,
  VerificationNotPerformed, ErrorRecord, exact, numerical, not_performed, provenance_of,
  max_text_bytes, max_window_bytes,
}
use load_forge.ErrorRecords.Rules.{broken_rule}
use load_forge.ErrorRecords.Writer.{put_raw, put_optional}
use load_forge.ErrorRecords.Reader.{
  DecodeFault, empty, version, kind, truncated, trailing, invalid, Read, ◌>>=◌, pure, u8, u32, u64,
  raw, optional,
}

abbrev pub format_version : ℕ
format_version = 2

abbrev pub exact_kind : ℕ
exact_kind = 1

abbrev pub numerical_kind : ℕ
numerical_kind = 2

abbrev pub not_performed_kind : ℕ
not_performed_kind = 3

unfoldable pub put_duty : DutyCycle → List ℕ
put_duty duty = put 4 duty.oracle_period ++ put 4 duty.integrity_period

unfoldable pub put_provenance : Provenance → List ℕ
put_provenance provenance =
    put_optional (put 4) provenance.logical_cpu
    ++ (put_optional (put 4) provenance.physical_core
        ++ (put_optional (put 4) provenance.numa_node
            ++ (put_optional (put 8) provenance.buffer_address
                ++ (put_optional (put 8) provenance.buffer_offset
                    ++ (put_optional (put 8) provenance.iteration
                        ++ (put_optional put_raw provenance.workload
                            ++ (put_optional (put 4) provenance.workload_version
                                ++ (put_optional (put 8) provenance.seed
                                    ++ (put_optional (put 1) provenance.isa
                                        ++ (put_optional (put 1) provenance.input_integrity
                                            ++ (put_optional put_duty provenance.duty
                                                ++ (put_optional (put 4) provenance.physical_package
                                                    ++ (put_optional (put 4)
                                                          provenance.decomposition
                                                        ++ put_optional (put 8)
                                                            provenance.footprint_bytes)))))))))))))

unfoldable pub put_difference : Difference → List ℕ
put_difference difference =
    put 1 difference.domain
    ++ (put 8 difference.first_offset
        ++ (put 8 difference.last_offset
            ++ (put 8 difference.popcount
                ++ (put 8 difference.window_offset
                    ++ (put_raw difference.expected ++ put_raw difference.actual)))))

unfoldable pub put_exact : ExactBitCorruption → List ℕ
put_exact report =
    put 1 report.side
    ++ (put_raw report.check
        ++ (put 4 report.line_bytes ++ put_optional put_difference report.difference))

unfoldable pub put_numerical : NumericalVerificationFailure → List ℕ
put_numerical report =
    put_raw report.check
    ++ (put 8 report.residual
        ++ (put 8 report.tolerance
            ++ (put_optional (put 8) report.condition_number
                ++ put_optional (put 8) report.element)))

unfoldable pub put_not_performed : VerificationNotPerformed → List ℕ
put_not_performed report =
    put_raw report.what ++ (put_raw report.why ++ put 8 report.blocks_compared)

unfoldable pub put_kind : ErrorRecord → List ℕ
put_kind (exact report) = put_exact report
put_kind (numerical report) = put_numerical report
put_kind (not_performed report) = put_not_performed report

-- `record.index() + 1`.
abbrev pub kind_of : ErrorRecord → ℕ
kind_of (exact report) = 1
kind_of (numerical report) = 2
kind_of (not_performed report) = 3

unfoldable pub encode : ErrorRecord → List ℕ
encode report =
    format_version ∷ kind_of report ∷ (put_provenance (provenance_of report) ++ put_kind report)

unfoldable pub duty : Read DutyCycle
duty = do
  oracle ← u32
  integrity ← u32
  pure (record { oracle_period = oracle; integrity_period = integrity })

abbrev pub text : Read (List ℕ)
text = raw max_text_bytes

abbrev pub window : Read (List ℕ)
window = raw max_window_bytes

unfoldable pub get_provenance : Read Provenance
get_provenance = do
  cpu ← optional u32
  core ← optional u32
  node ← optional u32
  address ← optional u64
  offset ← optional u64
  at_iteration ← optional u64
  name ← optional text
  name_version ← optional u32
  from ← optional u64
  path ← optional u8
  integrity ← optional u8
  cycle ← optional duty
  package_number ← optional u32
  parts ← optional u32
  footprint ← optional u64
  pure record {
    logical_cpu = cpu;
    physical_package = package_number;
    physical_core = core;
    numa_node = node;
    buffer_address = address;
    buffer_offset = offset;
    iteration = at_iteration;
    workload = name;
    workload_version = name_version;
    seed = from;
    isa = path;
    input_integrity = integrity;
    duty = cycle;
    decomposition = parts;
    footprint_bytes = footprint;
  }

unfoldable pub get_difference : Read Difference
get_difference = do
  in_domain ← u8
  first ← u64
  last ← u64
  bits ← u64
  window_at ← u64
  wanted ← window
  found ← window
  pure record {
    domain = in_domain;
    first_offset = first;
    last_offset = last;
    popcount = bits;
    window_offset = window_at;
    expected = wanted;
    actual = found;
  }

unfoldable pub get_exact : Provenance → Read ErrorRecord
get_exact from = do
  on_side ← u8
  by_check ← text
  line ← u32
  differs ← optional get_difference
  pure (
      exact record {
        provenance = from;
        side = on_side;
        check = by_check;
        difference = differs;
        line_bytes = line;
      })

unfoldable pub get_numerical : Provenance → Read ErrorRecord
get_numerical from = do
  by_check ← text
  left ← u64
  allowed ← u64
  condition ← optional u64
  at_element ← optional u64
  pure (
      numerical record {
        provenance = from;
        check = by_check;
        residual = left;
        tolerance = allowed;
        condition_number = condition;
        element = at_element;
      })

unfoldable pub get_not_performed : Provenance → Read ErrorRecord
get_not_performed from = do
  of_what ← text
  for_why ← text
  blocks ← u64
  pure (
      not_performed
        record { provenance = from; what = of_what; why = for_why; blocks_compared = blocks })

unfoldable pub get_kind : ℕ → Provenance → Read ErrorRecord
get_kind number from =
    if number == exact_kind
    then get_exact from
    else if number == numerical_kind
    then get_numerical from
    else get_not_performed from

unfoldable pub get_record : ℕ → Read ErrorRecord
get_record number = get_provenance >>= get_kind number

-- What decode answers of a record that was read: first its rules, then the bytes behind it.
unfoldable pub conclude : ErrorRecord × List ℕ → Outcome ErrorRecord DecodeFault
conclude (report, rest) = elim (broken_rule report) [
  | some rule ↦ err invalid
  | none ↦ if not (length rest == 0) then err trailing else ok report
]

unfoldable pub decode_fields : ℕ → List ℕ → Outcome ErrorRecord DecodeFault
decode_fields number bytes = elim (get_record number bytes) [
  | err fault ↦ err fault
  | ok found ↦ conclude found
]

unfoldable pub decode_kind : List ℕ → Outcome ErrorRecord DecodeFault
decode_kind [] = err truncated
decode_kind (number ∷ bytes) =
    if ltb number exact_kind || ltb not_performed_kind number
    then err kind
    else decode_fields number bytes

unfoldable pub decode : List ℕ → Outcome ErrorRecord DecodeFault
decode [] = err empty
decode (first ∷ bytes) = if not (first == format_version) then err version else decode_kind bytes
