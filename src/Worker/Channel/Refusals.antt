-- ===== src/Worker/Channel/Refusals.antt =====
-- worker/ipc/record.cpp: the faults of the reader. A fault is final, and a corrupted byte is one.
use load_forge.Common.{
  ℕ, ◌<◌, ◌≡◌, ◌≢◌, refl, sym, ap, ◌∙◌, List, [], ◌∷◌, ◌++◌, length, take, false, ◌==◌, Option,
  none, some, ok, err, arith, append_assoc, length-append, take-append, le→ltb,
}
use load_forge.Common.Bits.{put_from}
use load_forge.Core.Crc32.{crc32}
use load_forge.Core.Crc32.Detects.{crc32_one_byte, crc32_update-append}
use load_forge.Worker.Channel.{
  FrameFault, bad_checksum, Record, RecordReader, Found, checksum_of, checksum_offset, put_header,
  put_frame, frame_found, settle, next, feed, finish,
}
use load_forge.Worker.Channel.Frame.{IsRecord, frame_checksum, frame_checksum-lt, frame_found-parts}
use load_forge.Worker.Channel.Stream.{holding}

-- A call of the reader by its owner.
pub data ReaderCall : Type 0 where
  fed : List ℕ → ReaderCall
  asked : ReaderCall
  ended : ReaderCall

unfoldable pub after_calls : RecordReader → List ReaderCall → RecordReader
after_calls reader [] = reader
after_calls reader (fed bytes ∷ calls) = after_calls (feed reader bytes) calls
after_calls reader (asked ∷ calls) = after_calls (next reader).1 calls
after_calls reader (ended ∷ calls) = after_calls (finish reader).1 calls

module _ (found : FrameFault) where
  next_faulted :
      (reader : RecordReader) → reader.fault ≡ some found → next reader ≡ (err found, reader)
  unfolding next
  next_faulted reader e = rw e refl

  finish_faulted :
      (reader : RecordReader) → reader.fault ≡ some found → finish reader ≡ (err found, reader)
  unfolding finish
  finish_faulted reader e = rw e refl

  fault_stays :
      (reader : RecordReader) (calls : List ReaderCall)
      → reader.fault ≡ some found
      → (after_calls reader calls).fault ≡ some found
  unfolding after_calls feed
  fault_stays reader [] e = e
  fault_stays reader (fed bytes ∷ calls) e = fault_stays (feed reader bytes) calls e
  fault_stays reader (asked ∷ calls) e =
      fault_stays (next reader).1 calls (ap (λ n. n.1.fault) (next_faulted reader e) ∙ e)
  fault_stays reader (ended ∷ calls) e =
      fault_stays (finish reader).1 calls (ap (λ n. n.1.fault) (finish_faulted reader e) ∙ e)

  settle_fault :
      (reader : RecordReader) (front : Found)
      → (settle reader front).0 ≡ err found
      → (settle reader front).1.fault ≡ some found
  unfolding settle
  settle_fault reader (err fault) e = cc
  settle_fault reader (ok none) e = cc
  settle_fault reader (ok (some taken)) e = cc

  fields_fault :
      (buffer : List ℕ) (fault : Option FrameFault)
      → (next (record { buffer = buffer; fault = fault })).0 ≡ err found
      → (next (record { buffer = buffer; fault = fault })).1.fault ≡ some found
  unfolding next
  fields_fault buffer none e = settle_fault (holding buffer) (frame_found buffer) e
  fields_fault buffer (some fault) e = cc

  next_fault :
      (reader : RecordReader) → (next reader).0 ≡ err found → (next reader).1.fault ≡ some found
  next_fault reader e = fields_fault reader.buffer reader.fault e

  -- The first fault that the reader finds is final: whatever is fed and asked afterwards, in whatever order, it is
  -- the answer to every later call, and no record is taken any more.
  pub next-after_calls :
      (reader : RecordReader) (calls : List ReaderCall)
      → (next reader).0 ≡ err found
      → ((next (after_calls (next reader).1 calls)).0 ≡ err found)
        × ((finish (after_calls (next reader).1 calls)).0 ≡ err found)
  next-after_calls reader calls e =
      let kept : (after_calls (next reader).1 calls).fault ≡ some found =
        fault_stays (next reader).1 calls (next_fault reader e) in
      (ap (λ n. n.0) (next_faulted _ kept), ap (λ n. n.0) (finish_faulted _ kept))

not_equal : (x y : ℕ) → x ≢ y → (x == y) ≡ false
not_equal x y differs = ground arith

module _ (type : ℕ) (before behind : List ℕ) (b c : ℕ) where
  abbrev sent_payload : List ℕ
  sent_payload = before ++ b ∷ behind

  abbrev come_payload : List ℕ
  come_payload = before ++ c ∷ behind

  other_checksum :
      (header : List ℕ)
      → b < 256
      → c < 256
      → b ≢ c
      → checksum_of header sent_payload ≢ checksum_of header come_payload
  unfolding checksum_of crc32
  other_checksum header b_fits c_fits differs e =
      crc32_one_byte (take checksum_offset header ++ before) behind b c b_fits c_fits differs (
        ap crc32 (append_assoc (take checksum_offset header) before (b ∷ behind))
        ∙ sym (crc32_update-append 0 (take checksum_offset header) sent_payload)
        ∙ e
        ∙ crc32_update-append 0 (take checksum_offset header) come_payload
        ∙ ap crc32 (sym (append_assoc (take checksum_offset header) before (c ∷ behind))))

  same_size : length come_payload ≡ length sent_payload
  same_size = omega (arith, length-append before (b ∷ behind), length-append before (c ∷ behind))

  take_come : (rest : List ℕ) → take (length sent_payload) (come_payload ++ rest) ≡ come_payload
  take_come rest =
      ap (λ n. take n (come_payload ++ rest)) (sym same_size) ∙ take-append come_payload rest

  found_front :
      (rest : List ℕ)
      → IsRecord (record { type = type; payload = sent_payload })
      → b < 256
      → c < 256
      → b ≢ c
      → frame_found (take 16 (put_frame type sent_payload) ++ (come_payload ++ rest))
        ≡ err bad_checksum
  unfolding put_frame put_header put_from
  found_front rest (type_fits, small) b_fits c_fits differs =
      frame_found-parts type (length sent_payload) (frame_checksum sent) (come_payload ++ rest)
        type_fits (omega arith) (frame_checksum-lt sent)
      ∙ rw
          (
            le→ltb 65536 (length sent_payload) small,
            le→ltb (length (come_payload ++ rest)) (length sent_payload)
                (omega (arith, length-append come_payload rest, same_size)),
            take_come rest,
            unequal,
          )
          refl
    where
      sent : Record
      sent = record { type = type; payload = sent_payload }

      unequal :
          (frame_checksum sent == checksum_of (put_header type (length sent_payload)) come_payload)
          ≡ false
      unequal =
          not_equal _ _
            (other_checksum (put_header type (length sent_payload)) b_fits c_fits differs)

  -- A frame in which one byte of the payload came wrong is refused for its checksum, whatever stands behind it.
  pub next_one_byte :
      (rest : List ℕ)
      → IsRecord (record { type = type; payload = sent_payload })
      → b < 256
      → c < 256
      → b ≢ c
      → (next (holding (take 16 (put_frame type sent_payload) ++ (come_payload ++ rest)))).0
        ≡ err bad_checksum
  unfolding next settle
  next_one_byte rest (type_fits, small) b_fits c_fits differs =
      ap
        (λ front.
          (settle (holding (take 16 (put_frame type sent_payload) ++ (come_payload ++ rest)))
            front).0)
        (found_front rest (type_fits, small) b_fits c_fits differs)
