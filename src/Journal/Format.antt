-- ===== src/Journal/Format.antt =====
-- controller/journal/format.cpp: the bytes of the crash journal, and controller/journal/journal.hpp:
-- the entries and the endings. A double is its IEEE-754 bits, so std::bit_cast changes nothing; a
-- string is its bytes.
use load_forge.Common.{
  ℕ, zero, suc, ◌-◌, ◌*◌, ◌/◌, ◌%◌, ◌^◌, List, [], ◌∷◌, ◌++◌, length, take, drop, Option, none,
  some, Bool, true, false, ◌&&◌, ◌||◌, not, bit_and, bit_or, ltb, ◌==◌, if◌then◌else◌,
}
use load_forge.Common.Bits.{put, get}
use load_forge.Common.Int.{ℤ, pos, to_u64, to_i64, ltb_ℤ}
use load_forge.Core.Crc32.{crc32, crc32_update}

abbrev pub max_label_bytes : ℕ
max_label_bytes = 64

abbrev pub header_bytes : ℕ
header_bytes = 8

abbrev pub max_payload_bytes : ℕ
max_payload_bytes = 512

abbrev pub entry_type : ℕ
entry_type = 1

abbrev pub terminator_type : ℕ
terminator_type = 2

abbrev pub optional_fields : ℕ
optional_fields = 6

abbrev pub reserved_bits : ℕ
reserved_bits = 2 ^ 64 - 2 ^ 6

abbrev pub entry_fixed_bytes : ℕ
entry_fixed_bytes = 68

abbrev pub phase_size_at : ℕ
phase_size_at = 10

pub record Entry : Type 0 where
  pub elapsed_ns : ℤ
  pub phase : List ℕ
  pub workload : List ℕ
  pub last_verified_unit : Option ℕ
  pub temperature_c : Option ℕ
  pub package_power_w : Option ℕ
  pub frequency_hz : Option ℕ
  pub ecc_corrected : Option ℕ
  pub ecc_uncorrected : Option ℕ
  pub workers_alive : ℕ
  pub workers_stale : ℕ

pub data Ending : Type 0 where
  empty terminated unterminated torn_tail corrupt : Ending

pub record Replay : Type 0 where
  pub entries : List Entry
  pub ending : Ending

-- A byte that follows `length` payload bytes is checked together with that length.
unfoldable pub check : List ℕ → List ℕ → ℕ
check length_bytes payload = crc32_update (crc32 length_bytes) payload

unfoldable pub frame : List ℕ → List ℕ
frame payload =
    let size : List ℕ = put 4 (length payload) in size ++ (put 4 (check size payload) ++ payload)

abbrev pub put_label : List ℕ → List ℕ
put_label label = put 1 (length label) ++ label

-- `bits(value)`: what an absent optional is written as.
abbrev pub bits : Option ℕ → ℕ
bits none = 0
bits (some value) = value

abbrev pub flag : Option ℕ → ℕ
flag none = 0
flag (some value) = 1

abbrev pub optionals : Entry → List (Option ℕ)
optionals entry =
    entry.last_verified_unit ∷ entry.temperature_c ∷ entry.package_power_w ∷ entry.frequency_hz
    ∷ entry.ecc_corrected ∷ entry.ecc_uncorrected ∷ []

-- `present |= has_value << field`, over the fields from `field` on.
unfoldable pub present_from : ℕ → ℕ → List (Option ℕ) → ℕ
present_from field present [] = present
present_from field present (value ∷ values) =
    present_from (suc field) (bit_or present (flag value * 2 ^ field)) values

unfoldable pub put_optionals : List (Option ℕ) → List ℕ
put_optionals [] = []
put_optionals (value ∷ values) = put 8 (bits value) ++ put_optionals values

unfoldable pub encode_entry : Entry → List ℕ
encode_entry entry =
    entry_type
    ∷ (put 8 (to_u64 entry.elapsed_ns)
        ++ (put 1 (present_from 0 0 (optionals entry))
            ++ (put_label entry.phase
                ++ (put_label entry.workload
                    ++ (put_optionals (optionals entry)
                        ++ (put 4 entry.workers_alive ++ put 4 entry.workers_stale))))))

abbrev pub terminator_payload : List ℕ
terminator_payload = terminator_type ∷ []

-- The class Cursor: what is left of a payload, and whether a read went past its end.
pub record Cursor : Type 0 where
  pub rest : List ℕ
  pub failed : Bool

abbrev pub at_start : List ℕ → Cursor
at_start bytes = record { rest = bytes; failed = false }

unfoldable pub take_bytes : ℕ → Cursor → List ℕ × Cursor
take_bytes count cursor =
    if cursor.failed || ltb (length cursor.rest) count
    then ([], record cursor { failed = true })
    else (take count cursor.rest, record cursor { rest = drop count cursor.rest })

unfoldable pub number : ℕ → Cursor → ℕ × Cursor
number width cursor =
    let (field, after) = take_bytes width cursor in
    (if after.failed then 0 else get width field, after)

abbrev pub complete : Cursor → Bool
complete cursor = not cursor.failed && length cursor.rest == 0

infixl 5 ◌>>=◌
abbrev pub ◌>>=◌ {ℓ κ} : {A : Type ℓ} {B : Type κ} → Option A → (A → Option B) → Option B
none >>= f = none
some a >>= f = f a

-- One round of the loop over the two labels.
unfoldable pub read_label : Cursor → Option (List ℕ × Cursor)
read_label cursor =
    let (size, after) = number 1 cursor in
    if ltb max_label_bytes size then none else some (take_bytes size after)

-- The loop over the optional fields, from `field` on, for the `left` that remain.
unfoldable pub read_optionals : ℕ → ℕ → ℕ → Cursor → Option (List (Option ℕ) × Cursor)
read_optionals field zero present cursor = some ([], cursor)
read_optionals field (suc left) present cursor =
    let (value, after) = number 8 cursor in
    let rest = read_optionals (suc field) left present after in
    if bit_and (present / 2 ^ field) 1 == 0
    then (if value == 0 then (do (values, end) ← rest; some (none ∷ values, end)) else none)
    else (do (values, end) ← rest; some (some value ∷ values, end))

-- The fields by position, as `optionals[0]` to `optionals[5]` are taken.
unfoldable pub assemble : ℤ → List ℕ → List ℕ → ℕ → ℕ → List (Option ℕ) → Option Entry
assemble elapsed phase workload alive stale (a ∷ b ∷ c ∷ d ∷ e ∷ f ∷ []) = some (record {
  elapsed_ns = elapsed;
  phase = phase;
  workload = workload;
  last_verified_unit = a;
  temperature_c = b;
  package_power_w = c;
  frequency_hz = d;
  ecc_corrected = e;
  ecc_uncorrected = f;
  workers_alive = alive;
  workers_stale = stale;
})
assemble elapsed phase workload alive stale _ = none

-- From the two counts on.
unfoldable pub decode_counts : ℤ → List ℕ → List ℕ → List (Option ℕ) → Cursor → Option Entry
unfolding assemble
decode_counts elapsed phase workload values cursor =
    let (alive, after) = number 4 cursor in
    let (stale, end) = number 4 after in
    if complete end
    then assemble elapsed phase workload (alive % 2 ^ 32) (stale % 2 ^ 32) values
    else none

-- From the first label on.
unfoldable pub decode_labels : ℤ → ℕ → Cursor → Option Entry
unfolding decode_counts
decode_labels elapsed present cursor = do
  (phase, at_workload) ← read_label cursor
  (workload, at_optionals) ← read_label at_workload
  (values, at_counts) ← read_optionals 0 optional_fields present at_optionals
  decode_counts elapsed phase workload values at_counts

unfoldable pub decode_entry : List ℕ → Option Entry
decode_entry payload =
    let at_elapsed = (take_bytes 1 (at_start payload)).1 in
    let (raw, at_present) = number 8 at_elapsed in
    let (present, at_labels) = number 1 at_present in
    if ltb_ℤ (to_i64 raw) (pos 0)
    then none
    else if not (bit_and present reserved_bits == 0)
    then none
    else decode_labels (to_i64 raw) present at_labels
