-- ===== src/Examples/Channels.antt =====
-- The theorems about a worker's channel at two records, over pipes that move a few bytes a call.
use load_forge.Common.{
  ℕ, suc, ◌≡◌, refl, sym, List, [], ◌∷◌, ◌++◌, length, take, drop, All, true, none, ok, err,
  append-nil, replicate, arith,
}
use load_forge.Common.Bits.{put_from, get_from}
use load_forge.Core.Crc32.{crc32, crc32_update, crc_run, crc_step, table_at, table_bit, table_bits}
use load_forge.Worker.Channel.{
  bad_checksum, bad_magic, Record, put_header, put_frame, checksum_of, payload_found, frame_found,
  settle, next, feed, finish, finish_unfaulted, complete, complete_all, encode,
}
use load_forge.Worker.Channel.Source.{
  Read, Write, try_again, unless_interrupted, take_in, end_stream, drain_read, drain_open, drain,
  after_write, write_all, send, RecordSource,
}
use load_forge.Worker.Channel.Frame.{IsRecord, frame}
use load_forge.Worker.Channel.Stream.{frames, holding, take-drop}
use load_forge.Worker.Channel.Drains.{IsPipe}
use load_forge.Worker.Channel.Delivery.{
  new_source, drains, drains-sent, drains-clean, drains_finish,
}
use load_forge.Worker.Channel.Refusals.{fed, asked, after_calls, next-after_calls, next_one_byte}
use load_forge.Worker.Channel.Sends.{IsWrite, IsSink}
use load_forge.Worker.Control.Codec.{kind_of, encode_fields}
use load_forge.Worker.Control.Codec
use load_forge.Worker.Control.Types.{ControlMessage, pause, stop, is_valid_command}
use load_forge.Worker.Scheduler.{look_at}
use load_forge.Worker.Scheduler.Looks.{as_records, IsMessage, look_at-sent}

abbrev hello : Record
hello = record { type = 1; payload = 7 ∷ 8 ∷ [] }

abbrev goodbye : Record
goodbye = record { type = 2; payload = [] }

abbrev both : List Record
both = hello ∷ goodbye ∷ []

both-IsRecord : All IsRecord both
both-IsRecord = ((omega arith, omega arith), ((omega arith, omega arith), tt))

-- A read of nine bytes at most.
abbrev read_nine : Read (List ℕ)
read_nine there = (ok (take 9 there), drop 9 there)

some_taken : (there : List ℕ) → take 9 there ≡ [] → there ≡ []
some_taken [] e = refl
some_taken (byte ∷ there) e = cc

abbrev pipe : IsPipe read_nine
pipe = record {
  unread = λ there. there;
  reads = λ there. (sym (take-drop 9 there), some_taken there);
}

-- A write of one byte.
abbrev write_one : Write (List ℕ)
write_one [] there = (ok 0, there)
write_one (byte ∷ bytes) there = (ok 1, there ++ byte ∷ [])

one_written : (bytes there : List ℕ) → IsWrite (λ there. there) bytes there (write_one bytes there)
one_written [] there = (omega arith, sym (append-nil there))
one_written (byte ∷ bytes) there = (omega arith, refl)

abbrev sink : IsSink write_one
sink = record { written = λ there. there; writes = one_written }

drains-sent_example :
    (due : List Record) × ((drains read_nine 3 new_source (frames both)).0 ++ due ≡ both)
drains-sent_example =
    drains-sent pipe [] 3 both (frames both) both-IsRecord (append-nil (frames both))

drains_finish_example :
    ((drains read_nine (suc (length (frames both))) new_source (frames both)).0 ≡ both)
    × ((drains read_nine (suc (length (frames both))) new_source (frames both)).1.0.is_ended ≡ true)
    × ((drains read_nine (suc (length (frames both))) new_source (frames both)).1.0.reader.fault
        ≡ none)
drains_finish_example =
    drains_finish pipe both (frames both) (λ there. (take 9 there, refl)) both-IsRecord refl

-- The second frame never comes.
abbrev cut_off : List Record × (RecordSource × List ℕ)
cut_off = drains read_nine 4 new_source (frame hello)

ends_early : (cut_off.1.0.is_ended ≡ true) × (cut_off.1.0.reader.fault ≡ none)
unfolding drains drain drain_open drain_read take_in end_stream try_again unless_interrupted
    complete_all complete next settle frame_found payload_found feed finish finish_unfaulted
    put_frame put_header put_from get_from checksum_of crc32 crc32_update crc_run crc_step table_at
    table_bit table_bits
ends_early = (refl, refl)

drains-clean_example :
    (due : List Record) × (cut_off.0 ++ due ≡ both) × (frames (goodbye ∷ []) ≡ frames due)
drains-clean_example =
    drains-clean pipe (frames (goodbye ∷ [])) 4 both (frame hello) both-IsRecord refl ends_early.0
      ends_early.1

no_frame : (next (holding (replicate 16 0))).0 ≡ err bad_magic
unfolding next settle frame_found get_from
no_frame = refl

next-after_calls_example :
    ((next (after_calls (next (holding (replicate 16 0))).1 (fed (frame hello) ∷ asked ∷ []))).0
      ≡ err bad_magic)
    × ((finish (after_calls (next (holding (replicate 16 0))).1 (fed (frame hello) ∷ asked ∷ []))).0
        ≡ err bad_magic)
next-after_calls_example =
    next-after_calls bad_magic (holding (replicate 16 0)) (fed (frame hello) ∷ asked ∷ []) no_frame

next_one_byte_example :
    (next (holding (take 16 (put_frame 1 (7 ∷ 8 ∷ [])) ++ (7 ∷ 9 ∷ [])))).0 ≡ err bad_checksum
next_one_byte_example =
    next_one_byte 1 (7 ∷ []) [] 8 9 [] (omega arith, omega arith) (omega arith) (omega arith)
      (ground arith)

is_sent : (send write_one 1 (7 ∷ 8 ∷ []) []).0 ≡ ok tt
unfolding send encode write_all after_write try_again unless_interrupted put_frame put_header
    put_from checksum_of crc32 crc32_update crc_run crc_step table_at table_bit table_bits
is_sent = refl

abbrev pause_then_stop : List ControlMessage
pause_then_stop =
    record { sequence = 1; command = pause } ∷ record { sequence = 2; command = stop } ∷ []

small_enough : All IsRecord (as_records pause_then_stop)
unfolding Codec.encode encode_fields put_from
small_enough = ((omega arith, omega arith), ((omega arith, omega arith), tt))

pause_then_stop-IsMessage : All IsMessage pause_then_stop
unfolding is_valid_command
pause_then_stop-IsMessage = ((omega arith, tt, refl), ((omega arith, tt, refl), tt))

look_at-sent_example :
    (later : List ControlMessage) × ((look_at none
          (drains read_nine 3 new_source (frames (as_records pause_then_stop))).0).messages
        ++ later
      ≡ pause_then_stop)
    × ((look_at none (drains read_nine 3 new_source (frames (as_records pause_then_stop))).0).lost
        ≡ none)
look_at-sent_example =
    look_at-sent pipe [] 3 none pause_then_stop (frames (as_records pause_then_stop))
      pause_then_stop-IsMessage small_enough (append-nil (frames (as_records pause_then_stop)))
