-- ===== src/Worker/Channel/Delivery.antt =====
-- worker/ipc/record.cpp: the records that a source hands over from the first drain to the end of the stream.
use load_forge.Common.{
  ℕ, zero, suc, ◌-◌, ◌≤◌, ◌<◌, ◌≡◌, refl, sym, ap, ◌∙◌, List, [], ◌∷◌, ◌++◌, length, All, Bool,
  true, false, ◌==◌, if◌then◌else◌, Option, none, some, ok, arith, append_assoc, append-nil,
  length-append, subst, ◌⊎◌, inl, inr,
}
use load_forge.Worker.Channel.{FrameFault, Record, RecordReader, frame_found, new_reader, truncated}
use load_forge.Worker.Channel.Source.{
  max_consecutive_interrupts, Read, RecordSource, Answer, drain, drain_open, drain_read, take_in,
  end_stream, try_again, unless_interrupted,
}
use load_forge.Worker.Channel.Frame.{IsRecord, frame_found-frame}
use load_forge.Worker.Channel.Stream.{frames, nothing_found, holding}
use load_forge.Worker.Channel.Drains.{IsPipe, IsRead, IsDue, drain-IsDue, records_of}

abbrev pub new_source : RecordSource
new_source = record { reader = new_reader; is_ended = false }

-- Drains one after the other: all that they handed over, and what they left.
unfoldable pub drains :
    {S : Type 0} → Read S → ℕ → RecordSource → S → List Record × (RecordSource × S)
drains read zero source s = ([], (source, s))
drains read (suc n) source s =
    let ((answer, after), left) = drain read source s in
    let (got, final) = drains read n after left in (records_of answer ++ got, final)

nothing_due :
    (due : List Record) (buffer : List ℕ)
    → All IsRecord due
    → buffer ≡ frames due
    → frame_found buffer ≡ ok none
    → due ≡ []
nothing_due [] buffer fits e waits = refl
nothing_due (r ∷ due) buffer (r_fits, fits) e waits =
    let whole : frame_found buffer ≡ ok (some (r, frames due)) =
      ap frame_found e ∙ frame_found-frame r (frames due) r_fits in
    cc

empty_buffer :
    (buffer : List ℕ) → (if length buffer == 0 then none else some truncated) ≡ none → buffer ≡ []
empty_buffer [] e = refl
empty_buffer (byte ∷ buffer) e = absurd (ground arith)

module _ {S : Type 0} {read : Read S} (pipe : IsPipe read) (lost : List ℕ) where
  abbrev IsHanded : List Record → List Record × (RecordSource × S) → Type 0
  IsHanded due (got, (source, s)) =
      (later : List Record) × (got ++ later ≡ due) × IsDue pipe lost later source (pipe.unread s)

  drains-IsHanded :
      (n : ℕ) (due : List Record) (source : RecordSource) (s : S)
      → IsDue pipe lost due source (pipe.unread s)
      → IsHanded due (drains read n source s)
  unfolding drains
  drains-IsHanded zero due source s d = (due, refl, d)
  drains-IsHanded (suc n) due source s d =
      let (between, between_due, first) = drain-IsDue pipe lost due source s d in
      let (later, rest, later_due) = drains-IsHanded n between _ _ between_due in
      let handed : List Record = records_of (drain read source s).0.0 in
      let got : List Record = (drains read n (drain read source s).0.1 (drain read source s).1).0 in
      (later, append_assoc handed got later ∙ ap (λ l. handed ++ l) rest ∙ first, later_due)

  -- After an end without a fault no frame was cut: what is lost is the frames that are due.
  end_clean :
      (due : List Record) (source : RecordSource) (there : List ℕ)
      → IsDue pipe lost due source there
      → source.is_ended ≡ true
      → source.reader.fault ≡ none
      → lost ≡ frames due
  end_clean due source there d ended clean =
      let (none_left, verdict) = d.judged ended in
      let nothing : source.reader.buffer ≡ [] =
        empty_buffer source.reader.buffer (sym verdict ∙ clean) in
      rw (nothing, none_left) at d.stream

  started :
      (sent : List Record) (s : S)
      → All IsRecord sent
      → pipe.unread s ++ lost ≡ frames sent
      → IsDue pipe lost sent new_source (pipe.unread s)
  started sent s fits stream = record {
    due_fits = fits;
    stream = stream;
    waits = nothing_found;
    unfaulted = λ not_yet. refl;
    judged = λ ended. cc;
  }

  -- Any number of drains of a stream of frames, however its bytes come and are read, hands over the first
  -- of the records that were sent, each of them whole and in order.
  pub drains-sent :
      (n : ℕ) (sent : List Record) (s : S)
      → All IsRecord sent
      → pipe.unread s ++ lost ≡ frames sent
      → (due : List Record) × ((drains read n new_source s).0 ++ due ≡ sent)
  drains-sent n sent s fits stream =
      let (due, handed, d) = drains-IsHanded n sent new_source s (started sent s fits stream) in
      (due, handed)

  -- When the stream has ended and no fault was found, the bytes that never came are whole frames, those of the records
  -- that were not handed over: a stream that ends inside a frame is never taken for a clean end.
  pub drains-clean :
      (n : ℕ) (sent : List Record) (s : S)
      → All IsRecord sent
      → pipe.unread s ++ lost ≡ frames sent
      → (drains read n new_source s).1.0.is_ended ≡ true
      → (drains read n new_source s).1.0.reader.fault ≡ none
      → (due : List Record) × ((drains read n new_source s).0 ++ due ≡ sent) × (lost ≡ frames due)
  drains-clean n sent s fits stream ended clean =
      let (due, handed, d) = drains-IsHanded n sent new_source s (started sent s fits stream) in
      (due, handed, end_clean due _ _ d ended clean)

module _ {S : Type 0} {read : Read S} (pipe : IsPipe read) where
  end_all :
      (due : List Record) (source : RecordSource) (there : List ℕ)
      → IsDue pipe [] due source there
      → source.is_ended ≡ true
      → (source.reader.fault ≡ none) × (due ≡ [])
  end_all due source there d ended =
      let (none_left, verdict) = d.judged ended in
      let held : source.reader.buffer ≡ frames due =
        sym (append-nil source.reader.buffer)
        ∙ ap (λ l. source.reader.buffer ++ (l ++ [])) (sym none_left)
        ∙ d.stream in
      let all : due ≡ [] = nothing_due due source.reader.buffer d.due_fits held d.waits in
      let empty : source.reader.buffer ≡ [] = held ∙ ap frames all in
      (verdict ∙ ap (λ (l : List ℕ). if length l == 0 then none else some truncated) empty, all)

  -- When a stream of whole frames has ended, every record that was sent has been handed over, and no
  -- fault was found.
  pub drains-all :
      (n : ℕ) (sent : List Record) (s : S)
      → All IsRecord sent
      → pipe.unread s ≡ frames sent
      → (drains read n new_source s).1.0.is_ended ≡ true
      → ((drains read n new_source s).0 ≡ sent)
        × ((drains read n new_source s).1.0.reader.fault ≡ none)
  drains-all n sent s fits stream ended =
      let start : IsDue pipe [] sent new_source (pipe.unread s) =
        started pipe [] sent s fits (append-nil (pipe.unread s) ∙ stream) in
      let (due, handed, d) = drains-IsHanded pipe [] n sent new_source s start in
      let (clean, all) = end_all due _ _ d ended in
      (sym (append-nil _) ∙ ap (λ l. (drains read n new_source s).0 ++ l) (sym all) ∙ handed, clean)

  -- A read that answered with bytes is not made again.
  read_once :
      (left : ℕ) (s : S) {bytes : List ℕ}
      → (read s).0 ≡ ok bytes
      → try_again read left s ≡ (ok bytes, (read s).1)
  unfolding try_again unless_interrupted
  read_once zero s e = ap (λ a. (a, (read s).1)) e
  read_once (suc left) s e = ap (λ a. unless_interrupted (try_again read left) (a, (read s).1)) e

  abbrev HasProgress : ℕ → (Answer × RecordSource) × S → Type 0
  HasProgress before ((answer, source), s) =
      (source.is_ended ≡ true) ⊎ (length (pipe.unread s) < before)

  taken-HasProgress :
      (reader : RecordReader) (there bytes : List ℕ) (after : S)
      → IsRead pipe.unread there (ok bytes, after)
      → HasProgress (length there) (take_in reader bytes, after)
  unfolding take_in end_stream
  taken-HasProgress reader there [] after taken = inl refl
  taken-HasProgress reader there (byte ∷ bytes) after (taken, end) =
      inr (omega (arith, ap length taken, length-append bytes (pipe.unread after)))

  drain-HasProgress :
      (lost : List ℕ) (due : List Record) (buffer : List ℕ) (fault : Option FrameFault)
      (is_ended : Bool) (s : S) (bytes : List ℕ)
      → IsDue pipe lost due
          (record { reader = record { buffer = buffer; fault = fault }; is_ended = is_ended })
          (pipe.unread s)
      → (read s).0 ≡ ok bytes
      → HasProgress (length (pipe.unread s)) (
          drain read
            (record { reader = record { buffer = buffer; fault = fault }; is_ended = is_ended })
            s)
  unfolding drain drain_open drain_read
  drain-HasProgress lost due buffer fault true s bytes d e = inl refl
  drain-HasProgress lost due buffer (some found) false s bytes d e =
      let impossible : some found ≡ none = d.unfaulted refl in cc
  drain-HasProgress lost due buffer none false s bytes d e =
      subst
        (λ a.
          HasProgress (length (pipe.unread s))
            (drain_read (record { reader = holding buffer; is_ended = false }) a))
        (sym (read_once (max_consecutive_interrupts - 1) s e))
        (taken-HasProgress (holding buffer) (pipe.unread s) bytes (read s).1
          (subst (λ a. IsRead pipe.unread (pipe.unread s) (a, (read s).1)) e (pipe.reads s)))

  drain_ended :
      (source : RecordSource) (s : S) → source.is_ended ≡ true → (drain read source s).0.1 ≡ source
  unfolding drain
  drain_ended source s e = rw e refl

  ended_stays :
      (n : ℕ) (source : RecordSource) (s : S)
      → source.is_ended ≡ true
      → (drains read n source s).1.0.is_ended ≡ true
  unfolding drains
  ended_stays zero source s e = e
  ended_stays (suc n) source s e =
      ended_stays n (drain read source s).0.1 (drain read source s).1
        (ap (λ (r : RecordSource). r.is_ended) (drain_ended source s e) ∙ e)

  drains_end :
      (lost : List ℕ) (due : List Record) (n : ℕ) (source : RecordSource) (s : S)
      → ((t : S) → (bytes : List ℕ) × ((read t).0 ≡ ok bytes))
      → IsDue pipe lost due source (pipe.unread s)
      → length (pipe.unread s) ≤ n
      → (drains read (suc n) source s).1.0.is_ended ≡ true
  unfolding drains
  drains_end lost due zero source s answers d enough =
      let (bytes, read_ok) = answers s in
      elim (drain-HasProgress lost due source.reader.buffer source.reader.fault source.is_ended s
        bytes d read_ok) [ inl ended ↦ ended | inr less ↦ absurd (omega (arith, less, enough)) ]
  drains_end lost due (suc n) source s answers d enough =
      let (bytes, read_ok) = answers s in
      let (later, later_due, handed) = drain-IsDue pipe lost due source s d in
      elim (drain-HasProgress lost due source.reader.buffer source.reader.fault source.is_ended s
        bytes d read_ok) [
          | inl ended ↦ ended_stays (suc n) (drain read source s).0.1 (drain read source s).1 ended
          | inr less ↦
              drains_end lost later n (drain read source s).0.1 (drain read source s).1 answers
                later_due (omega (arith, less, enough))
        ]

  -- Where no read fails, one drain more than the stream has bytes hands over every record that was sent, finds the end of the stream
  -- and no fault.
  pub drains_finish :
      (sent : List Record) (s : S)
      → ((t : S) → (bytes : List ℕ) × ((read t).0 ≡ ok bytes))
      → All IsRecord sent
      → pipe.unread s ≡ frames sent
      → ((drains read (suc (length (frames sent))) new_source s).0 ≡ sent)
        × ((drains read (suc (length (frames sent))) new_source s).1.0.is_ended ≡ true)
        × ((drains read (suc (length (frames sent))) new_source s).1.0.reader.fault ≡ none)
  drains_finish sent s answers fits stream =
      let start : IsDue pipe [] sent new_source (pipe.unread s) =
        started pipe [] sent s fits (append-nil (pipe.unread s) ∙ stream) in
      let ended : (drains read (suc (length (frames sent))) new_source s).1.0.is_ended ≡ true =
        drains_end [] sent (length (frames sent)) new_source s answers start
          (omega (arith, ap length stream)) in
      let (all, clean) = drains-all (suc (length (frames sent))) sent s fits stream ended in
      (all, ended, clean)
