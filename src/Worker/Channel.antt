-- ===== src/Worker/Channel.antt =====
-- worker/ipc/record.hpp and worker/ipc/record.cpp: the frames that a worker's records travel in and the
-- reader that takes them apart again. A fault is without its text.
pub mod Source
pub mod Frame
pub mod Stream
pub mod Refusals
pub mod Drains
pub mod Delivery
pub mod Sends
use load_forge.Common.{
  ℕ, zero, suc, ◌+◌, ◌*◌, List, [], ◌∷◌, ◌++◌, length, take, drop, Bool, true, false, not, ltb,
  ◌==◌, if◌then◌else◌, Option, none, some, Outcome, ok, err,
}
use load_forge.Common.Bits.{put, get}
use load_forge.Core.Crc32.{crc32, crc32_update}

pub data FrameFault : Type 0 where
  bad_magic bad_version oversized bad_checksum truncated : FrameFault

pub record Record : Type 0 where
  pub type : ℕ
  pub payload : List ℕ

abbrev pub frame_magic : ℕ
frame_magic = 0x4C465243

abbrev pub frame_version : ℕ
frame_version = 1

abbrev pub frame_header_bytes : ℕ
frame_header_bytes = 16

abbrev pub max_payload_bytes : ℕ
max_payload_bytes = 65536

abbrev pub checksum_offset : ℕ
checksum_offset = 12

unfoldable pub checksum_of : (header payload : List ℕ) → ℕ
checksum_of header payload = crc32_update (crc32 (take checksum_offset header)) payload

-- The header's fields before its checksum.
unfoldable pub put_header : (type size : ℕ) → List ℕ
put_header type size = put 4 frame_magic ++ (put 2 frame_version ++ (put 2 type ++ put 4 size))

unfoldable pub put_frame : (type : ℕ) (payload : List ℕ) → List ℕ
put_frame type payload =
    let header = put_header type (length payload) in
    header ++ (put 4 (checksum_of header payload) ++ payload)

unfoldable pub encode : (type : ℕ) (payload : List ℕ) → Outcome (List ℕ) FrameFault
encode type payload =
    if ltb max_payload_bytes (length payload) then err oversized else ok (put_frame type payload)

-- The class RecordReader.
pub record RecordReader : Type 0 where
  pub buffer : List ℕ
  pub fault : Option FrameFault

abbrev pub new_reader : RecordReader
new_reader = record { buffer = []; fault = none }

unfoldable pub feed : RecordReader → List ℕ → RecordReader
feed reader bytes = record reader { buffer = reader.buffer ++ bytes }

-- What `next` finds at the front of the buffer: nothing whole yet, or a record and the bytes behind it.
abbrev pub Found : Type 0
Found = Outcome (Option (Record × List ℕ)) FrameFault

unfoldable pub payload_found : List ℕ → ℕ → Found
payload_found buffer size =
    let body = take size (drop frame_header_bytes buffer) in
    if ltb max_payload_bytes size
    then err oversized
    else if ltb (length buffer) (frame_header_bytes + size)
    then ok none
    else if not (get 4 (drop checksum_offset buffer) == checksum_of buffer body)
    then err bad_checksum
    else ok (
        some (
          record { type = get 2 (drop 6 buffer); payload = body },
          drop (frame_header_bytes + size) buffer,
        ))

unfoldable pub frame_found : List ℕ → Found
frame_found buffer =
    if ltb (length buffer) frame_header_bytes
    then ok none
    else if not (get 4 buffer == frame_magic)
    then err bad_magic
    else if not (get 2 (drop 4 buffer) == frame_version)
    then err bad_version
    else payload_found buffer (get 4 (drop 8 buffer))

unfoldable pub settle : RecordReader → Found → Outcome (Option Record) FrameFault × RecordReader
settle reader (err found) = (err found, record reader { fault = some found })
settle reader (ok none) = (ok none, reader)
settle reader (ok (some (taken, rest))) = (ok (some taken), record reader { buffer = rest })

unfoldable pub next : RecordReader → Outcome (Option Record) FrameFault × RecordReader
next reader = elim reader.fault [
  | some found ↦ (err found, reader)
  | none ↦ settle reader (frame_found reader.buffer)
]

unfoldable pub finish_unfaulted : RecordReader → Outcome (Unit {0}) FrameFault × RecordReader
finish_unfaulted reader =
    if not (length reader.buffer == 0)
    then (err truncated, record reader { fault = some truncated })
    else (ok tt, reader)

unfoldable pub finish : RecordReader → Outcome (Unit {0}) FrameFault × RecordReader
finish reader = elim reader.fault [
  | some found ↦ (err found, reader)
  | none ↦ finish_unfaulted reader
]

-- The records of a drain, with the fault that stopped them, if one did.
abbrev pub Completed : Type 0
Completed = List Record × Option FrameFault

abbrev pub with_record : Record → Completed × RecordReader → Completed × RecordReader
with_record taken ((records, stopped), reader) = ((taken ∷ records, stopped), reader)

-- The loop of `drain` over `next`, on fuel: a record takes the bytes of a header at least.
unfoldable pub complete : ℕ → RecordReader → Completed × RecordReader
complete zero reader = (([], none), reader)
complete (suc fuel) reader =
    let (answer, after) = next reader in
    elim answer [
      | err found ↦ (([], some found), after)
      | ok none ↦ (([], none), after)
      | ok (some taken) ↦ with_record taken (complete fuel after)
    ]

unfoldable pub complete_all : RecordReader → Completed × RecordReader
complete_all reader = complete (suc (length reader.buffer)) reader
