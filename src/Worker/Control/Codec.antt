-- ===== src/Worker/Control/Codec.antt =====
-- worker/control/control.cpp: the bytes of a message and of an acknowledgement. A detail in words
-- stands with each fault in the source; the faults are kept here.
use load_forge.Common.{
  ℕ, zero, suc, ◌/◌, ◌%◌, ◌^◌, List, [], ◌∷◌, ◌++◌, length, take, drop, Bool, true, false, ◌||◌,
  not, ltb, ◌==◌, if◌then◌else◌, Option, none, some, Outcome, ok, err,
}
use load_forge.Common.Bits.{put, get}
use load_forge.Common.Int.{to_u64, to_i64}
use load_forge.Worker.Control.Types.{
  Command, stop, pause, resume, set_duty, rebind, switch, ControlMessage, ControlAck, is_valid,
  is_valid_ack,
}

pub data DecodeFault : Type 0 where
  empty version kind truncated trailing invalid : DecodeFault

abbrev pub format_version : ℕ
format_version = 1

abbrev pub ack_kind : ℕ
ack_kind = 0x80

abbrev cpu_bytes : ℕ
cpu_bytes = 4

abbrev pub put_text : List ℕ → List ℕ
put_text text = put 4 (length text) ++ text

unfoldable pub put_cpus : List ℕ → List ℕ
put_cpus [] = []
put_cpus (cpu ∷ cpus) = put cpu_bytes cpu ++ put_cpus cpus

-- The index of the alternative that the variant holds, plus one.
abbrev pub kind_of : Command → ℕ
kind_of stop = 1
kind_of pause = 2
kind_of resume = 3
kind_of (set_duty busy_permille period_ns) = 4
kind_of (rebind cpus) = 5
kind_of (switch workload seed footprint_bytes decomposition duty) = 6

unfoldable pub encode_fields : Command → List ℕ
unfolding put_cpus
encode_fields stop = []
encode_fields pause = []
encode_fields resume = []
encode_fields (set_duty busy_permille period_ns) = put 2 busy_permille ++ put 8 (to_u64 period_ns)
encode_fields (rebind cpus) = put 4 (length cpus) ++ put_cpus cpus
encode_fields (switch workload seed footprint_bytes decomposition duty) =
    put_text workload
    ++ (put 8 seed
        ++ (put 8 footprint_bytes
            ++ (put 4 decomposition ++ (put 4 duty.oracle_period ++ put 4 duty.integrity_period))))

unfoldable pub encode : ControlMessage → List ℕ
encode message =
    format_version
    ∷ kind_of message.command
    ∷ (put 4 message.sequence ++ encode_fields message.command)

unfoldable pub encode_ack : ControlAck → List ℕ
encode_ack ack =
    format_version ∷ ack_kind ∷ (put 4 ack.sequence ++ (put 1 ack.status ++ put_text ack.detail))

-- The class Reader: the bytes from its position on, and whether every read so far was inside them.
pub record Reader : Type 0 where
  pub rest : List ℕ
  pub is_ok : Bool

abbrev pub reading : List ℕ → Reader
reading bytes = record { rest = bytes; is_ok = true }

abbrev pub fail : Reader → Reader
fail reader = record reader { is_ok = false }

unfoldable pub read : ℕ → Reader → ℕ × Reader
read width reader =
    if not reader.is_ok || ltb (length reader.rest) width
    then (0, fail reader)
    else (get width reader.rest, record reader { rest = drop width reader.rest })

unfoldable pub text : Reader → List ℕ × Reader
text reader =
    let (size, after) = read 4 reader in
    if not after.is_ok || ltb (length after.rest) size
    then ([], fail after)
    else (take size after.rest, record after { rest = drop size after.rest })

abbrev room_for : ℕ → Reader → ℕ
room_for width reader = length reader.rest / width

unfoldable pub read_cpus : ℕ → Reader → List ℕ × Reader
read_cpus zero reader = ([], reader)
read_cpus (suc count) reader =
    let (cpu, after) = read cpu_bytes reader in
    let (cpus, end) = read_cpus count after in (cpu % 2 ^ 32 ∷ cpus, end)

unfoldable pub read_set_duty : Reader → Command × Reader
read_set_duty reader =
    let (busy_permille, after) = read 2 reader in
    let (period, end) = read 8 after in (set_duty (busy_permille % 2 ^ 16) (to_i64 period), end)

unfoldable pub read_rebind : Reader → Command × Reader
read_rebind reader =
    let (count, after) = read 4 reader in
    let rest = read_cpus count after in
    if ltb (room_for cpu_bytes after) count
    then (rebind [], fail after)
    else (rebind rest.0, rest.1)

unfoldable pub read_switch : Reader → Command × Reader
read_switch reader =
    let (workload, at_seed) = text reader in
    let (seed, at_footprint) = read 8 at_seed in
    let (footprint, at_decomposition) = read 8 at_footprint in
    let (decomposition, at_oracle) = read 4 at_decomposition in
    let (oracle, at_integrity) = read 4 at_oracle in
    let (integrity, end) = read 4 at_integrity in
    (
      switch workload seed footprint (decomposition % 2 ^ 32)
          (record { oracle_period = oracle % 2 ^ 32; integrity_period = integrity % 2 ^ 32 }),
      end,
    )

unfoldable pub read_command : ℕ → Reader → Command × Reader
read_command (suc zero) reader = (stop, reader)
read_command (suc (suc zero)) reader = (pause, reader)
read_command (suc (suc (suc zero))) reader = (resume, reader)
read_command (suc (suc (suc (suc zero)))) reader = read_set_duty reader
read_command (suc (suc (suc (suc (suc zero))))) reader = read_rebind reader
read_command _ reader = read_switch reader

unfoldable pub check_end : Reader → Option DecodeFault
check_end reader =
    if not reader.is_ok
    then some truncated
    else if not (length reader.rest == 0)
    then some trailing
    else none

unfoldable pub check_header : List ℕ → Option DecodeFault
check_header [] = some empty
check_header (first ∷ more) =
    if not (first == format_version)
    then some version
    else if length more == 0
    then some truncated
    else none

-- What a message's decoder answers once its fields are read.
unfoldable pub conclude : ControlMessage → Reader → Outcome ControlMessage DecodeFault
unfolding check_end
conclude message end = elim (check_end end) [
  | some fault ↦ err fault
  | none ↦ if not (is_valid message) then err invalid else ok message
]

-- What follows the kind byte of a message.
unfoldable pub decode_fields : ℕ → List ℕ → Outcome ControlMessage DecodeFault
decode_fields kind_byte bytes =
    let (sequence, after) = read 4 (reading bytes) in
    let (command, end) = read_command kind_byte after in
    conclude (record { sequence = sequence % 2 ^ 32; command = command }) end

-- `bytes[1]`, which the header's check has found.
unfoldable pub decode_kind : List ℕ → Outcome ControlMessage DecodeFault
decode_kind (first ∷ kind_byte ∷ bytes) =
    if ltb kind_byte 1 || ltb 6 kind_byte then err kind else decode_fields kind_byte bytes
decode_kind _ = err truncated

unfoldable pub decode_message : List ℕ → Outcome ControlMessage DecodeFault
unfolding check_header decode_kind
decode_message bytes = elim (check_header bytes) [
  | some fault ↦ err fault
  | none ↦ decode_kind bytes
]

unfoldable pub conclude_ack : ControlAck → Reader → Outcome ControlAck DecodeFault
unfolding check_end
conclude_ack ack end = elim (check_end end) [
  | some fault ↦ err fault
  | none ↦ if not (is_valid_ack ack) then err invalid else ok ack
]

unfoldable pub decode_ack_fields : List ℕ → Outcome ControlAck DecodeFault
decode_ack_fields bytes =
    let (sequence, at_status) = read 4 (reading bytes) in
    let (status, at_detail) = read 1 at_status in
    let (detail, end) = text at_detail in
    conclude_ack (record { sequence = sequence % 2 ^ 32; status = status % 2 ^ 8; detail = detail })
      end

unfoldable pub decode_ack_kind : List ℕ → Outcome ControlAck DecodeFault
decode_ack_kind (first ∷ kind_byte ∷ bytes) =
    if not (kind_byte == ack_kind) then err kind else decode_ack_fields bytes
decode_ack_kind _ = err truncated

unfoldable pub decode_ack : List ℕ → Outcome ControlAck DecodeFault
unfolding check_header decode_ack_kind
decode_ack bytes = elim (check_header bytes) [
  | some fault ↦ err fault
  | none ↦ decode_ack_kind bytes
]
