-- ===== src/Worker/Channel/Drains.antt =====
-- worker/ipc/record.cpp: what the drains of a source hand over of the records that were sent.
use load_forge.Common.{
  ℕ, zero, suc, ◌-◌, ◌≡◌, refl, sym, ap, ◌∙◌, List, [], ◌∷◌, ◌++◌, length, All, Bool, true, false,
  ◌==◌, if◌then◌else◌, Option, none, some, Outcome, ok, err, arith, append_assoc, subst,
}
use load_forge.Worker.Channel.{
  FrameFault, truncated, Record, frame_found, complete_all, feed, finish, finish_unfaulted,
}
use load_forge.Worker.Channel.Source.{
  SyscallError, interrupted, failed, max_consecutive_interrupts, try_again, unless_interrupted,
  Read, RecordSource, Answer, of_completed, end_stream, take_in, drain_read, drain_open, drain,
}
use load_forge.Worker.Channel.Frame.{IsRecord}
use load_forge.Worker.Channel.Stream.{frames, IsSplit, split, holding, complete_all-split}

-- What a read does to the bytes that stand in a pipe: it takes bytes from their front, none of them only
-- at the end of the stream, and none if it fails.
abbrev pub IsRead :
    {S : Type 0} → (S → List ℕ) → List ℕ → Outcome (List ℕ) SyscallError × S → Type 0
IsRead unread there (ok bytes, after) = (there ≡ bytes ++ unread after) × (bytes ≡ [] → there ≡ [])
IsRead unread there (err cause, after) = unread after ≡ there

-- The bytes that were written to a pipe and not read, up to the end of the stream.
pub record IsPipe {S : Type 0} (read : Read S) : Type 0 where
  pub unread : S → List ℕ
  pub reads : (s : S) → IsRead unread (unread s) (read s)

-- The records that a drain hands over.
abbrev pub records_of : Answer → List Record
records_of (ok drained) = drained.records
records_of (err cause) = []

end_stream_leaves :
    (buffer : List ℕ)
    → (end_stream (holding buffer)).1 ≡ record {
      reader = record {
        buffer = buffer;
        fault = if length buffer == 0 then none else some truncated;
      };
      is_ended = true;
    }
unfolding end_stream finish finish_unfaulted
end_stream_leaves buffer = ground arith

none_handed :
    (due : List Record) (buffer : List ℕ) → records_of (end_stream (holding buffer)).0 ++ due ≡ due
unfolding end_stream
none_handed due buffer = refl

module _ {S : Type 0} {read : Read S} (pipe : IsPipe read) where
  again-IsRead :
      (there : List ℕ) (left : ℕ) (answer : Outcome (List ℕ) SyscallError × S)
      → ((t : S) → IsRead pipe.unread (pipe.unread t) (try_again read left t))
      → IsRead pipe.unread there answer
      → IsRead pipe.unread there (unless_interrupted (try_again read left) answer)
  unfolding unless_interrupted
  again-IsRead there left (ok bytes, after) later now = now
  again-IsRead there left (err (failed number), after) later now = now
  again-IsRead there left (err interrupted, after) later now =
      subst (λ l. IsRead pipe.unread l (try_again read left after)) now (later after)

  try_again-IsRead : (left : ℕ) (s : S) → IsRead pipe.unread (pipe.unread s) (try_again read left s)
  unfolding try_again
  try_again-IsRead zero s = pipe.reads s
  try_again-IsRead (suc left) s =
      again-IsRead (pipe.unread s) left (read s) (try_again-IsRead left) (pipe.reads s)

  -- A source that has still to hand over the records `due` of a stream, of which the bytes `lost` never
  -- come: what it has buffered is less than a frame, and after the end it has been judged.
  pub record IsDue (lost : List ℕ) (due : List Record) (source : RecordSource) (there : List ℕ)
      : Type 0 where
    pub due_fits : All IsRecord due
    pub stream : source.reader.buffer ++ (there ++ lost) ≡ frames due
    pub waits : frame_found source.reader.buffer ≡ ok none
    pub unfaulted : source.is_ended ≡ false → source.reader.fault ≡ none
    pub judged :
        source.is_ended ≡ true
        → (there ≡ [])
          × (source.reader.fault
              ≡ (if length source.reader.buffer == 0 then none else some truncated))

  abbrev IsDrained : List ℕ → List Record → (Answer × RecordSource) × S → Type 0
  IsDrained lost due ((answer, source), s) =
      (later : List Record) × IsDue lost later source (pipe.unread s)
      × (records_of answer ++ later ≡ due)

  module _ (lost : List ℕ) (due : List Record) where
    ended-IsDue :
        (buffer there : List ℕ)
        → All IsRecord due
        → buffer ++ (there ++ lost) ≡ frames due
        → frame_found buffer ≡ ok none
        → there ≡ []
        → IsDue lost due (end_stream (holding buffer)).1 there
    ended-IsDue buffer there fits stream waits none_left =
        subst (λ source. IsDue lost due source there) (sym (end_stream_leaves buffer))
          (record {
            due_fits = fits;
            stream = stream;
            waits = waits;
            unfaulted = λ not_yet. cc;
            judged = λ ended. (none_left, refl);
          })

    fed-IsDrained :
        (come : List ℕ) (after : S) (s : IsSplit due come (pipe.unread after ++ lost))
        → IsDrained lost due (of_completed (complete_all (holding come)), after)
    fed-IsDrained come after s =
        subst (λ c. IsDrained lost due (of_completed c, after)) (sym (complete_all-split s))
          (
            s.due,
            record {
              due_fits = s.due_fits;
              stream = s.is_due;
              waits = s.waits;
              unfaulted = λ not_yet. refl;
              judged = λ ended. cc;
            },
            s.is_sent,
          )

    take_in-IsDrained :
        (buffer : List ℕ) (there bytes : List ℕ) (after : S)
        → All IsRecord due
        → buffer ++ (there ++ lost) ≡ frames due
        → frame_found buffer ≡ ok none
        → IsRead pipe.unread there (ok bytes, after)
        → IsDrained lost due (take_in (holding buffer) bytes, after)
    unfolding take_in feed
    take_in-IsDrained buffer there [] after fits stream waits (taken, end) = (
      due,
      ended-IsDue buffer (pipe.unread after) fits
          (ap (λ l. buffer ++ (l ++ lost)) (sym taken) ∙ stream) waits (sym taken ∙ end refl),
      none_handed due buffer,
    )
    take_in-IsDrained buffer there (byte ∷ bytes) after fits stream waits (taken, end) =
        fed-IsDrained (buffer ++ byte ∷ bytes) after (
          split due (buffer ++ byte ∷ bytes) (pipe.unread after ++ lost) fits (
            append_assoc buffer (byte ∷ bytes) (pipe.unread after ++ lost)
            ∙ ap (λ l. buffer ++ l) (sym (append_assoc (byte ∷ bytes) (pipe.unread after) lost))
            ∙ ap (λ l. buffer ++ (l ++ lost)) (sym taken)
            ∙ stream))

    drain_read-IsDrained :
        (buffer there : List ℕ) (answer : Outcome (List ℕ) SyscallError × S)
        → IsDue lost due (record { reader = holding buffer; is_ended = false }) there
        → IsRead pipe.unread there answer
        → IsDrained lost due
            (drain_read (record { reader = holding buffer; is_ended = false }) answer)
    unfolding drain_read
    drain_read-IsDrained buffer there (err cause, after) d kept = (
      due,
      subst (IsDue lost due (record { reader = holding buffer; is_ended = false })) (sym kept) d,
      refl,
    )
    drain_read-IsDrained buffer there (ok bytes, after) d taken =
        take_in-IsDrained buffer there bytes after d.due_fits d.stream d.waits taken

    drain_fields-IsDrained :
        (buffer : List ℕ) (fault : Option FrameFault) (is_ended : Bool) (s : S)
        → IsDue lost due
            (record { reader = record { buffer = buffer; fault = fault }; is_ended = is_ended })
            (pipe.unread s)
        → IsDrained lost due (
            drain read
              (record { reader = record { buffer = buffer; fault = fault }; is_ended = is_ended })
              s)
    unfolding drain drain_open
    drain_fields-IsDrained buffer fault true s d = (due, d, refl)
    drain_fields-IsDrained buffer none false s d =
        drain_read-IsDrained buffer (pipe.unread s)
          (try_again read (max_consecutive_interrupts - 1) s) d
          (try_again-IsRead (max_consecutive_interrupts - 1) s)
    drain_fields-IsDrained buffer (some found) false s d =
        let impossible : some found ≡ none = d.unfaulted refl in cc

    -- A drain hands over the first of the records that are due and leaves the others due.
    pub drain-IsDue :
        (source : RecordSource) (s : S)
        → IsDue lost due source (pipe.unread s)
        → IsDrained lost due (drain read source s)
    drain-IsDue source s d =
        drain_fields-IsDrained source.reader.buffer source.reader.fault source.is_ended s d
