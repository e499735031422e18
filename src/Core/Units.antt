-- ===== src/Core/Units.antt =====
-- core/duration.cpp and core/byte_size.cpp: values with a unit, which both files read and write in the
-- same way. A negative duration is refused by an exception and not modelled.
pub mod RoundTrip
pub mod Bounds
use load_forge.Common.{
  ℕ, zero, suc, ◌+◌, ◌-◌, ◌*◌, ◌/◌, ◌%◌, ◌^◌, List, [], ◌∷◌, ◌++◌, length, Bool, true, false, ◌&&◌,
  ◌||◌, not, ltb, leb, ◌==◌, if◌then◌else◌, Outcome, ok, err,
}
use load_forge.Core.Numbers.{
  ParseError, missing_unit, unknown_unit, out_of_range, NumberAndSuffix, split_number_and_suffix,
  to_decimal, is_text,
}

-- The structs Unit of the two files.
pub record Scale : Type 0 where
  pub suffix : List ℕ
  pub factor : ℕ

unfoldable pub scaled : (ceiling factor count : ℕ) → Outcome ℕ ParseError
scaled ceiling factor count =
    if ltb (ceiling / factor) count then err out_of_range else ok (count * factor)

-- The loop over the units that reads a value of one.
unfoldable pub read_in :
    (ceiling : ℕ) → List Scale → (count : ℕ) → (suffix : List ℕ) → Outcome ℕ ParseError
read_in ceiling [] count suffix = err unknown_unit
read_in ceiling (scale ∷ scales) count suffix =
    if not (is_text suffix scale.suffix)
    then read_in ceiling scales count suffix
    else scaled ceiling scale.factor count

-- The loop over the units, the largest first, that writes a value in the first that is exact.
unfoldable pub write_in : List Scale → (smallest : List ℕ) → ℕ → List ℕ
write_in [] smallest n = to_decimal n ++ smallest
write_in (scale ∷ scales) smallest n =
    if not (n == 0) && (n % scale.factor == 0)
    then to_decimal (n / scale.factor) ++ scale.suffix
    else write_in scales smallest n

abbrev pub milliseconds : Scale
milliseconds = record { suffix = b'm' ∷ b's' ∷ []; factor = 1 }

abbrev pub seconds : Scale
seconds = record { suffix = b's' ∷ []; factor = 1000 }

abbrev pub minutes : Scale
minutes = record { suffix = b'm' ∷ []; factor = 60000 }

abbrev pub hours : Scale
hours = record { suffix = b'h' ∷ []; factor = 3600000 }

-- The largest int64_t.
abbrev pub max_duration : ℕ
max_duration = 2 ^ 63 - 1

unfoldable pub duration_of : NumberAndSuffix → Outcome ℕ ParseError
duration_of parts =
    if length parts.suffix == 0
    then err missing_unit
    else read_in max_duration (milliseconds ∷ seconds ∷ minutes ∷ hours ∷ []) parts.value
        parts.suffix

unfoldable pub parse_duration : List ℕ → Outcome ℕ ParseError
parse_duration text = elim (split_number_and_suffix text) [
  | err fault ↦ err fault
  | ok parts ↦ duration_of parts
]

unfoldable pub duration_text : ℕ → List ℕ
duration_text millis =
    write_in (hours ∷ minutes ∷ seconds ∷ milliseconds ∷ []) milliseconds.suffix millis

pub data ByteSize : Type 0 where
  absolute : ℕ → ByteSize
  fraction : ℕ → ByteSize

abbrev pub max_percent : ℕ
max_percent = 100

unfoldable pub percent : ℕ → Outcome ByteSize ParseError
percent whole =
    if (whole == 0) || ltb max_percent whole then err out_of_range else ok (fraction whole)

abbrev pub bytes_unit : Scale
bytes_unit = record { suffix = b'B' ∷ []; factor = 1 }

abbrev pub kib : Scale
kib = record { suffix = b'K' ∷ b'i' ∷ b'B' ∷ []; factor = 1024 }

abbrev pub mib : Scale
mib = record { suffix = b'M' ∷ b'i' ∷ b'B' ∷ []; factor = 1048576 }

abbrev pub gib : Scale
gib = record { suffix = b'G' ∷ b'i' ∷ b'B' ∷ []; factor = 1073741824 }

abbrev pub tib : Scale
tib = record { suffix = b'T' ∷ b'i' ∷ b'B' ∷ []; factor = 1099511627776 }

-- The largest uint64_t.
abbrev pub max_bytes : ℕ
max_bytes = 2 ^ 64 - 1

abbrev pub as_bytes : Outcome ℕ ParseError → Outcome ByteSize ParseError
as_bytes (ok count) = ok (absolute count)
as_bytes (err fault) = err fault

unfoldable pub byte_size_of : NumberAndSuffix → Outcome ByteSize ParseError
byte_size_of parts =
    if length parts.suffix == 0
    then ok (absolute parts.value)
    else if is_text parts.suffix (b'%' ∷ [])
    then percent parts.value
    else as_bytes
        (read_in max_bytes (bytes_unit ∷ kib ∷ mib ∷ gib ∷ tib ∷ []) parts.value parts.suffix)

unfoldable pub parse_byte_size : List ℕ → Outcome ByteSize ParseError
parse_byte_size text = elim (split_number_and_suffix text) [
  | err fault ↦ err fault
  | ok parts ↦ byte_size_of parts
]

unfoldable pub byte_size_text : ByteSize → List ℕ
byte_size_text (fraction whole) = to_decimal whole ++ b'%' ∷ []
byte_size_text (absolute count) =
    write_in (tib ∷ gib ∷ mib ∷ kib ∷ bytes_unit ∷ []) bytes_unit.suffix count
