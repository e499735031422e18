-- ===== src/Worker/Channel/Stream.antt =====
-- worker/ipc/record.cpp: the records that the reader takes from a stream of frames, however it is cut.
use load_forge.Common.{
  ℕ, zero, suc, ◌≤◌, ◌<◌, ◌≡◌, refl, sym, ap, ◌∙◌, List, [], ◌∷◌, ◌++◌, length, take, drop, All,
  ltb, none, some, ok, arith, append_assoc, length-append, Bool-cases, inl, inr, ltb→lt, ltb→le,
  take-append, take-append_le, drop-append,
}
use load_forge.Worker.Channel.{
  Record, RecordReader, frame_found, settle, next, complete, complete_all, with_record,
}
use load_forge.Worker.Channel.Frame.{
  IsRecord, frame, length-frame, frame_found-frame, frame_found-cut,
}

-- The stream of the records that were sent.
abbrev pub frames : List Record → List ℕ
frames [] = []
frames (r ∷ rs) = frame r ++ frames rs

-- Of the bytes that have come, the records that are whole and the part of the next.
pub record IsSplit (sent : List Record) (come rest : List ℕ) : Type 0 where
  pub whole : List Record
  pub due : List Record
  pub part : List ℕ
  pub is_sent : whole ++ due ≡ sent
  pub is_come : come ≡ frames whole ++ part
  pub is_due : part ++ rest ≡ frames due
  pub whole_fits : All IsRecord whole
  pub due_fits : All IsRecord due
  pub waits : frame_found part ≡ ok none

pub nothing_found : frame_found [] ≡ ok none
unfolding frame_found
nothing_found = refl

-- Where a list is two lists appended in two ways, one of the first two begins with the other.
module _ {A : Type 0} where
  pub take-drop : (n : ℕ) (xs : List A) → take n xs ++ drop n xs ≡ xs
  take-drop zero xs = refl
  take-drop (suc n) [] = refl
  take-drop (suc n) (x ∷ xs) = ap (◌∷◌ x) (take-drop n xs)

  drop-append_le : (n : ℕ) (xs ys : List A) → n ≤ length xs → drop n (xs ++ ys) ≡ drop n xs ++ ys
  drop-append_le zero xs ys h = refl
  drop-append_le (suc n) [] ys h = absurd (omega arith)
  drop-append_le (suc n) (x ∷ xs) ys h = drop-append_le n xs ys (omega arith)

  module _ (xs ys first second : List A) (e : xs ++ ys ≡ first ++ second) where
    starts : length xs ≤ length first → xs ≡ take (length xs) first
    starts short =
        sym (take-append xs ys)
        ∙ ap (take (length xs)) e
        ∙ take-append_le (length xs) first second short

    contains : length first ≤ length xs → xs ≡ first ++ drop (length first) xs
    contains long =
        sym (take-drop (length first) xs)
        ∙ ap (λ l. l ++ drop (length first) xs)
            (sym (take-append_le (length first) xs ys long)
              ∙ ap (take (length first)) e
              ∙ take-append first second)

    leaves : length first ≤ length xs → drop (length first) xs ++ ys ≡ second
    leaves long =
        sym (drop-append_le (length first) xs ys long)
        ∙ ap (drop (length first)) e
        ∙ drop-append first second

after_record :
    {r : Record} {sent : List Record} {come later rest : List ℕ}
    → IsRecord r
    → come ≡ frame r ++ later
    → IsSplit sent later rest
    → IsSplit (r ∷ sent) come rest
after_record {r} r_fits e s = record {
  whole = r ∷ s.whole;
  due = s.due;
  part = s.part;
  is_sent = ap (◌∷◌ r) s.is_sent;
  is_come =
      e ∙ ap (λ l. frame r ++ l) s.is_come ∙ sym (append_assoc (frame r) (frames s.whole) s.part);
  is_due = s.is_due;
  whole_fits = (r_fits, s.whole_fits);
  due_fits = s.due_fits;
  waits = s.waits;
}

before_all :
    {sent : List Record} {come rest : List ℕ}
    → All IsRecord sent
    → come ++ rest ≡ frames sent
    → frame_found come ≡ ok none
    → IsSplit sent come rest
before_all {sent} {come} fits e wait = record {
  whole = [];
  due = sent;
  part = come;
  is_sent = refl;
  is_come = refl;
  is_due = e;
  whole_fits = tt;
  due_fits = fits;
  waits = wait;
}

pub split :
    (sent : List Record) (come rest : List ℕ)
    → All IsRecord sent
    → come ++ rest ≡ frames sent
    → IsSplit sent come rest
split [] [] rest fits e = before_all fits e nothing_found
split [] (byte ∷ come) rest fits e = absurd (omega (arith, ap length e))
split (r ∷ sent) come rest (r_fits, fits) e =
    elim (Bool-cases (ltb (length come) (length (frame r)))) [
      | inl short ↦
          let less : length come < length (frame r) =
            ltb→lt (length come) (length (frame r)) short in
          before_all (r_fits, fits) e
            (ap frame_found (starts come rest (frame r) (frames sent) e (omega arith))
              ∙ frame_found-cut r (length come) r_fits less)
      | inr long ↦
          let enough : length (frame r) ≤ length come =
            ltb→le (length come) (length (frame r)) long in
          after_record r_fits (contains come rest (frame r) (frames sent) e enough) (
            split sent (drop (length (frame r)) come) rest fits
              (leaves come rest (frame r) (frames sent) e enough))
    ]

abbrev pub holding : List ℕ → RecordReader
holding bytes = record { buffer = bytes; fault = none }

next-frame :
    (r : Record) (rest : List ℕ)
    → IsRecord r
    → next (holding (frame r ++ rest)) ≡ (ok (some r), holding rest)
unfolding next settle
next-frame r rest fits = rw (frame_found-frame r rest fits) refl

pub complete_stop :
    (fuel : ℕ) (reader : RecordReader) {after : RecordReader}
    → next reader ≡ (ok none, after)
    → complete (suc fuel) reader ≡ (([], none), after)
unfolding complete
complete_stop fuel reader e =
    let answered : (next reader).0 ≡ ok none = ap (λ p. p.0) e in
    rw (answered, complete) (ap (λ p. (([], none), p.1)) e)

complete_more :
    (fuel : ℕ) (reader : RecordReader) {after : RecordReader} {taken : Record}
    → next reader ≡ (ok (some taken), after)
    → complete (suc fuel) reader ≡ with_record taken (complete fuel after)
unfolding complete
complete_more fuel reader {taken = taken} e =
    let answered : (next reader).0 ≡ ok (some taken) = ap (λ p. p.0) e in
    rw (answered, complete) (ap (λ p. with_record taken (complete fuel p.1)) e)

module _ (part : List ℕ) (waits : frame_found part ≡ ok none) where
  next-wait : next (holding part) ≡ (ok none, holding part)
  unfolding next settle
  next-wait = rw waits refl

  complete-frames :
      (whole : List Record) (fuel : ℕ)
      → All IsRecord whole
      → length whole < fuel
      → complete fuel (holding (frames whole ++ part)) ≡ ((whole, none), holding part)
  complete-frames whole zero fits enough = absurd (omega arith)
  complete-frames [] (suc fuel) fits enough = complete_stop fuel (holding part) next-wait
  complete-frames (r ∷ whole) (suc fuel) (r_fits, fits) enough =
      ap (λ l. complete (suc fuel) (holding l)) (append_assoc (frame r) (frames whole) part)
      ∙ complete_more fuel _ (next-frame r (frames whole ++ part) r_fits)
      ∙ ap (with_record r) (complete-frames whole fuel fits (omega arith))

length-frames : (rs : List Record) → length rs ≤ length (frames rs)
length-frames [] = omega arith
length-frames (r ∷ rs) =
    omega (arith, length-append (frame r) (frames rs), length-frame r, length-frames rs)

-- The reader takes just the records that are whole from the bytes that have come of a stream.
pub complete_all-split :
    {sent : List Record} {come rest : List ℕ} (s : IsSplit sent come rest)
    → complete_all (holding come) ≡ ((s.whole, none), holding s.part)
unfolding complete_all
complete_all-split {sent} {come} {rest} s =
    ap (λ l. complete (suc (length come)) (holding l)) s.is_come
    ∙ complete-frames s.part s.waits s.whole (suc (length come)) s.whole_fits (
        omega (
          arith,
          length-frames s.whole,
          length-append (frames s.whole) s.part,
          ap length s.is_come,
        ))
