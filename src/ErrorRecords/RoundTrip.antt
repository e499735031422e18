-- ===== src/ErrorRecords/RoundTrip.antt =====
-- What the controller reads of a record is what the worker wrote.
use load_forge.Common.{
  ℕ, zero, suc, take, ◌^◌, ◌≤◌, ◌<◌, ◌≡◌, refl, ◌∙◌, List, ◌∷◌, ◌++◌, length, true, ◌==◌,
  if◌then◌else◌, ok, err, arith,
}
use load_forge.Worker.Control.Types.{DutyCycle}
use load_forge.ErrorRecords.Types.{
  Provenance, Difference, ExactBitCorruption, NumericalVerificationFailure, max_text_bytes,
  max_window_bytes, VerificationNotPerformed, ErrorRecord, exact, numerical, not_performed,
  provenance_of,
}
use load_forge.ErrorRecords.Rules.{is_valid}
use load_forge.ErrorRecords.Agreement.{broken_rule-is_valid}
use load_forge.ErrorRecords.Writer.{put_raw}
use load_forge.ErrorRecords.Reader.{empty, truncated, trailing}
use load_forge.ErrorRecords.Reader.Reads.{
  Reads, bind-Reads, last-Reads, u8-Reads, u32-Reads, u64-Reads, raw-Reads, InOption,
  optional-Reads, u8-optional, u32-optional, u64-optional,
}
use load_forge.ErrorRecords.Codec.{
  put_duty, put_provenance, put_difference, put_exact, put_numerical, put_not_performed, put_kind,
  encode, kind_of, duty, text, window, get_provenance, get_difference, get_exact, get_numerical,
  get_not_performed, get_kind, get_record, conclude, decode_fields, decode_kind, decode,
}

abbrev IsU8 : ℕ → Type 0
IsU8 v = v < 2 ^ 8

abbrev IsU32 : ℕ → Type 0
IsU32 v = v < 2 ^ 32

abbrev IsU64 : ℕ → Type 0
IsU64 v = v < 2 ^ 64

abbrev IsText : List ℕ → Type 0
IsText bytes = length bytes ≤ max_text_bytes

abbrev IsWindow : List ℕ → Type 0
IsWindow bytes = length bytes ≤ max_window_bytes

abbrev IsDuty : DutyCycle → Type 0
IsDuty d = IsU32 d.oracle_period × IsU32 d.integrity_period

-- The fields are values of their C++ types, and the texts and windows within what a record carries.
pub record IsProvenance (p : Provenance) : Type 0 where
  pub cpu_fits : InOption IsU32 p.logical_cpu
  pub package_fits : InOption IsU32 p.physical_package
  pub core_fits : InOption IsU32 p.physical_core
  pub node_fits : InOption IsU32 p.numa_node
  pub address_fits : InOption IsU64 p.buffer_address
  pub offset_fits : InOption IsU64 p.buffer_offset
  pub iteration_fits : InOption IsU64 p.iteration
  pub workload_fits : InOption IsText p.workload
  pub version_fits : InOption IsU32 p.workload_version
  pub seed_fits : InOption IsU64 p.seed
  pub isa_fits : InOption IsU8 p.isa
  pub integrity_fits : InOption IsU8 p.input_integrity
  pub duty_fits : InOption IsDuty p.duty
  pub decomposition_fits : InOption IsU32 p.decomposition
  pub footprint_fits : InOption IsU64 p.footprint_bytes

abbrev pub IsDifference : Difference → Type 0
IsDifference d =
    IsU8 d.domain
    × IsU64 d.first_offset
    × IsU64 d.last_offset
    × IsU64 d.popcount
    × IsU64 d.window_offset
    × IsWindow d.expected
    × IsWindow d.actual

abbrev pub IsKind : ErrorRecord → Type 0
IsKind (exact r) =
    IsU8 r.side × IsText r.check × IsU32 r.line_bytes × InOption IsDifference r.difference
IsKind (numerical r) =
    IsText r.check
    × IsU64 r.residual
    × IsU64 r.tolerance
    × InOption IsU64 r.condition_number
    × InOption IsU64 r.element
IsKind (not_performed r) = IsText r.what × IsText r.why × IsU64 r.blocks_compared

text-Reads : (bytes : List ℕ) → IsText bytes → Reads text (put_raw bytes) bytes
text-Reads bytes small = raw-Reads max_text_bytes bytes small (omega arith)

window-Reads : (bytes : List ℕ) → IsWindow bytes → Reads window (put_raw bytes) bytes
window-Reads bytes small = raw-Reads max_window_bytes bytes small (omega arith)

duty-Reads : (d : DutyCycle) → IsDuty d → Reads duty (put_duty d) d
unfolding duty put_duty
duty-Reads d fits =
    bind-Reads _ (u32-Reads d.oracle_period fits.0)
      (last-Reads _ (u32-Reads d.integrity_period fits.1))

get_difference-Reads : (d : Difference) → IsDifference d → Reads get_difference (put_difference d) d
unfolding get_difference put_difference
get_difference-Reads d (domain, first, last, bits, at, expected, actual) =
    bind-Reads _ (u8-Reads d.domain domain) (
      bind-Reads _ (u64-Reads d.first_offset first) (
        bind-Reads _ (u64-Reads d.last_offset last) (
          bind-Reads _ (u64-Reads d.popcount bits) (
            bind-Reads _ (u64-Reads d.window_offset at) (
              bind-Reads _ (window-Reads d.expected expected)
                (last-Reads _ (window-Reads d.actual actual)))))))

get_provenance-Reads : (p : Provenance) → IsProvenance p → Reads get_provenance (put_provenance p) p
unfolding get_provenance put_provenance
get_provenance-Reads p fits = bind-Reads _ (u32-optional p.logical_cpu fits.cpu_fits) (
    bind-Reads _ (u32-optional p.physical_core fits.core_fits) (
      bind-Reads _ (u32-optional p.numa_node fits.node_fits) (
        bind-Reads _ (u64-optional p.buffer_address fits.address_fits) (
          bind-Reads _ (u64-optional p.buffer_offset fits.offset_fits) (
            bind-Reads _ (u64-optional p.iteration fits.iteration_fits) (
              bind-Reads _
                (optional-Reads text put_raw IsText text-Reads p.workload fits.workload_fits)
                (bind-Reads _ (u32-optional p.workload_version fits.version_fits) (
                  bind-Reads _ (u64-optional p.seed fits.seed_fits) (
                    bind-Reads _ (u8-optional p.isa fits.isa_fits) (
                      bind-Reads _ (u8-optional p.input_integrity fits.integrity_fits) (
                        bind-Reads _
                          (optional-Reads duty put_duty IsDuty duty-Reads p.duty fits.duty_fits)
                          (bind-Reads _ (u32-optional p.physical_package fits.package_fits) (
                            bind-Reads _ (u32-optional p.decomposition fits.decomposition_fits) (
                              last-Reads _
                                (u64-optional p.footprint_bytes fits.footprint_fits)))))))))))))))

get_exact-Reads :
    (r : ExactBitCorruption)
    → IsKind (exact r)
    → Reads (get_exact r.provenance) (put_exact r) (exact r)
unfolding get_exact put_exact
get_exact-Reads r (side, check, line, difference) = bind-Reads _ (u8-Reads r.side side) (
    bind-Reads _ (text-Reads r.check check) (
      bind-Reads _ (u32-Reads r.line_bytes line) (
        last-Reads _ (
          optional-Reads get_difference put_difference IsDifference get_difference-Reads
            r.difference difference))))

get_numerical-Reads :
    (r : NumericalVerificationFailure)
    → IsKind (numerical r)
    → Reads (get_numerical r.provenance) (put_numerical r) (numerical r)
unfolding get_numerical put_numerical
get_numerical-Reads r (check, residual, tolerance, condition, element) =
    bind-Reads _ (text-Reads r.check check) (
      bind-Reads _ (u64-Reads r.residual residual) (
        bind-Reads _ (u64-Reads r.tolerance tolerance) (
          bind-Reads _ (u64-optional r.condition_number condition)
            (last-Reads _ (u64-optional r.element element)))))

get_not_performed-Reads :
    (r : VerificationNotPerformed)
    → IsKind (not_performed r)
    → Reads (get_not_performed r.provenance) (put_not_performed r) (not_performed r)
unfolding get_not_performed put_not_performed
get_not_performed-Reads r (what, why, blocks) =
    bind-Reads _ (text-Reads r.what what)
      (bind-Reads _ (text-Reads r.why why) (last-Reads _ (u64-Reads r.blocks_compared blocks)))

get_kind-Reads :
    (report : ErrorRecord)
    → IsKind report
    → Reads (get_kind (kind_of report) (provenance_of report)) (put_kind report) report
unfolding get_kind put_kind
get_kind-Reads (exact r) fits = get_exact-Reads r fits
get_kind-Reads (numerical r) fits = get_numerical-Reads r fits
get_kind-Reads (not_performed r) fits = get_not_performed-Reads r fits

get_record-Reads :
    (report : ErrorRecord)
    → IsProvenance (provenance_of report)
    → IsKind report
    → Reads
        (get_record (kind_of report))
        (put_provenance (provenance_of report) ++ put_kind report)
        report
unfolding get_record
get_record-Reads report from fits =
    bind-Reads _ (get_provenance-Reads (provenance_of report) from) (get_kind-Reads report fits)

conclude_passes :
    (report : ErrorRecord) (rest : List ℕ)
    → is_valid report ≡ true
    → conclude (report, rest) ≡ (if length rest == 0 then ok report else err trailing)
unfolding conclude
conclude_passes report rest valid =
    rw ((broken_rule-is_valid report).1 valid, conclude) (ground arith)

decode_kind_passes :
    (report : ErrorRecord) (bytes : List ℕ)
    → decode_kind (kind_of report ∷ bytes) ≡ decode_fields (kind_of report) bytes
unfolding decode_kind
decode_kind_passes (exact r) bytes = refl
decode_kind_passes (numerical r) bytes = refl
decode_kind_passes (not_performed r) bytes = refl

-- The controller decodes the record that the worker encoded, of each of the three kinds, if it keeps the
-- rules and its fields are in the range of their types; with bytes behind it the whole is refused
-- as trailing.
pub record_decode-encode :
    (report : ErrorRecord) (rest : List ℕ)
    → IsProvenance (provenance_of report)
    → IsKind report
    → is_valid report ≡ true
    → decode (encode report ++ rest) ≡ (if length rest == 0 then ok report else err trailing)
unfolding decode encode decode_fields
record_decode-encode report rest from fits valid =
    decode_kind_passes report _
    ∙ rw ((get_record-Reads report from fits).reads rest, decode_fields)
        (conclude_passes report rest valid)

-- A record cut short anywhere is refused: as empty where nothing is left, and else as truncated, never
-- read as another record.
pub record_decode-cut :
    (report : ErrorRecord) (n : ℕ)
    → IsProvenance (provenance_of report)
    → IsKind report
    → n < length (encode report)
    → decode (take n (encode report)) ≡ (if n == 0 then err empty else err truncated)
unfolding decode encode decode_fields
record_decode-cut report zero from fits short = refl
record_decode-cut report (suc zero) from fits short = unfold decode_kind in refl
record_decode-cut report (suc (suc n)) from fits short =
    decode_kind_passes report _
    ∙ rw ((get_record-Reads report from fits).cut n (omega arith), decode_fields) (ground arith)
