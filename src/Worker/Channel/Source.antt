-- ===== src/Worker/Channel/Source.antt =====
-- worker/ipc/record.cpp: the two ends of a channel, over the system calls that move its bytes.
use load_forge.Common.{
  ℕ, zero, suc, ◌-◌, List, [], ◌∷◌, length, drop, Bool, true, false, if◌then◌else◌, Option, none,
  some, Outcome, ok, err,
}
use load_forge.Worker.Channel.{
  FrameFault, Record, RecordReader, Completed, feed, complete_all, finish, encode,
}

-- The error of a system call: EINTR, or the number of another one.
pub data SyscallError : Type 0 where
  interrupted : SyscallError
  failed : ℕ → SyscallError

pub data ChannelError : Type 0 where
  frame_error : FrameFault → ChannelError
  call_error : SyscallError → ChannelError
  nothing_written : ChannelError

abbrev pub max_consecutive_interrupts : ℕ
max_consecutive_interrupts = 128

-- A call made again while it is interrupted, `left` times at most.
module _ {S A : Type 0} where
  unfoldable pub unless_interrupted :
      (S → Outcome A SyscallError × S) → Outcome A SyscallError × S → Outcome A SyscallError × S
  unless_interrupted again (ok a, after) = (ok a, after)
  unless_interrupted again (err (failed number), after) = (err (failed number), after)
  unless_interrupted again (err interrupted, after) = again after

  unfoldable pub try_again : (S → Outcome A SyscallError × S) → ℕ → S → Outcome A SyscallError × S
  try_again call zero s = call s
  try_again call (suc left) s = unless_interrupted (try_again call left) (call s)

-- write(2) on the descriptor of a writer: how many of the bytes it took.
abbrev pub Write : Type 0 → Type 0
Write S = List ℕ → S → Outcome ℕ SyscallError × S

-- read(2) of a chunk: the bytes that it put there, none at the end of the stream.
abbrev pub Read : Type 0 → Type 0
Read S = S → Outcome (List ℕ) SyscallError × S

abbrev pub Sent : Type 0
Sent = Outcome (Unit {0}) ChannelError

-- What a round of `send` makes of the answer to its write, where `bytes` are all but the first.
unfoldable pub after_write :
    {S : Type 0} → (List ℕ → S → Sent × S) → List ℕ → Outcome ℕ SyscallError × S → Sent × S
after_write again bytes (err cause, after) = (err (call_error cause), after)
after_write again bytes (ok zero, after) = (err nothing_written, after)
after_write again bytes (ok (suc count), after) = again (drop count bytes) after

module _ {S : Type 0} (write : Write S) where
  -- The loop of `send`, on fuel: every round but the last writes at least one byte.
  unfoldable pub write_all : ℕ → List ℕ → S → Sent × S
  write_all fuel [] s = (ok tt, s)
  write_all zero (byte ∷ bytes) s = (ok tt, s)
  write_all (suc fuel) (byte ∷ bytes) s =
      after_write (write_all fuel) bytes
        (try_again (write (byte ∷ bytes)) (max_consecutive_interrupts - 1) s)

  unfoldable pub send : (type : ℕ) (payload : List ℕ) → S → Sent × S
  send type payload s = elim (encode type payload) [
    | err fault ↦ (err (frame_error fault), s)
    | ok bytes ↦ write_all (length bytes) bytes s
  ]

pub record Drained : Type 0 where
  pub records : List Record
  pub end_of_stream : Bool
  pub fault : Option FrameFault

-- The class RecordSource.
pub record RecordSource : Type 0 where
  pub reader : RecordReader
  pub is_ended : Bool

abbrev pub Answer : Type 0
Answer = Outcome Drained ChannelError

abbrev fault_of : Outcome (Unit {0}) FrameFault → Option FrameFault
fault_of (ok a) = none
fault_of (err fault) = some fault

unfoldable pub end_stream : RecordReader → Answer × RecordSource
end_stream reader =
    let (finished, after) = finish reader in
    (
      ok (record { records = []; end_of_stream = true; fault = fault_of finished }),
      record { reader = after; is_ended = true },
    )

abbrev pub of_completed : Completed × RecordReader → Answer × RecordSource
of_completed ((completed, stopped), after) = (
  ok (record { records = completed; end_of_stream = false; fault = stopped }),
  record { reader = after; is_ended = false },
)

-- What `drain` makes of the bytes that were read.
unfoldable pub take_in : RecordReader → List ℕ → Answer × RecordSource
take_in reader [] = end_stream reader
take_in reader (byte ∷ bytes) = of_completed (complete_all (feed reader (byte ∷ bytes)))

unfoldable pub drain_read :
    {S : Type 0} → RecordSource → Outcome (List ℕ) SyscallError × S → (Answer × RecordSource) × S
drain_read source (err cause, after) = ((err (call_error cause), source), after)
drain_read source (ok bytes, after) = (take_in source.reader bytes, after)

module _ {S : Type 0} (read : Read S) where
  unfoldable pub drain_open : RecordSource → S → (Answer × RecordSource) × S
  drain_open source s = drain_read source (try_again read (max_consecutive_interrupts - 1) s)

  unfoldable pub drain : RecordSource → S → (Answer × RecordSource) × S
  drain source s =
      if source.is_ended
      then ((ok (record { records = []; end_of_stream = true; fault = none }), source), s)
      else elim source.reader.fault [
        | some found ↦
            ((ok (record { records = []; end_of_stream = false; fault = some found }), source), s)
        | none ↦ drain_open source s
      ]
