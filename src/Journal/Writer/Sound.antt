-- ===== src/Journal/Writer/Sound.antt =====
-- The writer keeps a journal in its storage, and what a failed call leaves is a cut journal.
use load_forge.Common.{
  ℕ, ◌+◌, ◌≤◌, ◌≡◌, refl, sym, ap, ◌∙◌, List, [], ◌∷◌, ◌++◌, length, take, ◌||◌, ◌⊎◌, false, ltb,
  if◌then◌else◌, ok, err, Outcome-cases, arith, append_assoc, append-nil, length-append, take_all,
  take-append, take-append_add, take-append_le, ltb→lt, ltb→le, Bool-cases, inl, inr,
}
use load_forge.Journal.Format.{max_label_bytes, Entry}
use load_forge.Journal.Recovery.{record_of, terminator, journal}
use load_forge.Journal.Writer.{Storage, IsStorage, Writer, Answer, closed, too_large, append}

-- The records of `entries`, one behind the other.
abbrev pub records : List Entry → List ℕ
records [] = []
records (entry ∷ entries) = record_of entry ++ records entries

records-append :
    (entries : List Entry) (entry : Entry)
    → records (entries ++ (entry ∷ [])) ≡ records entries ++ record_of entry
records-append [] entry = append-nil (record_of entry)
records-append (e ∷ entries) entry =
    ap (◌++◌ (record_of e)) (records-append entries entry)
    ∙ sym (append_assoc (record_of e) (records entries) (record_of entry))

pub records-journal : (entries : List Entry) → records entries ++ terminator ≡ journal entries
records-journal [] = refl
records-journal (entry ∷ entries) =
    append_assoc (record_of entry) (records entries) terminator
    ∙ ap (◌++◌ (record_of entry)) (records-journal entries)

-- A prefix of some bytes is a prefix of those with more behind them.
cut_record : (n : ℕ) (xs ys : List ℕ) → (m : ℕ) × (take m (xs ++ ys) ≡ take n xs)
cut_record n xs ys = elim (Bool-cases (ltb n (length xs))) [
  | inl short ↦ (n, take-append_le n xs ys (omega (arith, ltb→lt n (length xs) short)))
  | inr long ↦ (length xs, take-append xs ys ∙ sym (take_all n xs (ltb→le n (length xs) long)))
]

module _ {S : Type 0} (disk : Storage S) (laws : IsStorage disk) where
  open laws use {contents, append_done, append_failed, sync_keeps, read_all_contents}

  -- The storage holds the records of `entries`, and the terminator behind them once closed.
  abbrev pub Holds : List Entry → Writer S → Type 0
  Holds entries writer =
      contents writer.stored ≡ records entries ++ (if writer.is_closed then terminator else [])

  -- The storage holds the journal of `entries`, cut at byte `n`.
  abbrev CutAt : ℕ → List Entry → S → Type 0
  CutAt n entries s = contents s ≡ take n (journal entries)

  Holds-CutAt :
      (writer : Writer S) (entries : List Entry)
      → Holds entries writer
      → (n : ℕ) × (length (records entries) ≤ n) × CutAt n entries writer.stored
  Holds-CutAt writer entries h = elim (Bool-cases writer.is_closed) [
    | inl shut ↦ (
      length (journal entries),
      omega
          (arith, ap length (records-journal entries), length-append (records entries) terminator),
      h ∙ rw shut (records-journal entries ∙ sym (take_all _ (journal entries) (omega arith))),
    )
    | inr open_now ↦ (
      length (records entries),
      omega arith,
      h
          ∙ rw (open_now, append-nil)
              (sym (take-append (records entries) terminator)
                ∙ ap (take (length (records entries))) (records-journal entries)),
    )
  ]

  -- Behind the records of `entries`, any prefix of what follows them in a longer journal.
  grown :
      (entries : List Entry) (entry : Entry) (n : ℕ)
      → take (length (records entries) + n) (journal (entries ++ (entry ∷ [])))
        ≡ records entries ++ take n (record_of entry ++ terminator)
  grown entries entry n =
      ap (take (length (records entries) + n)) (
        sym (records-journal (entries ++ (entry ∷ [])))
        ∙ rw (records-append entries entry)
            (append_assoc (records entries) (record_of entry) terminator))
      ∙ take-append_add (records entries) (record_of entry ++ terminator) n

  stored_record : (writer : Writer S) (entry : Entry) → Answer × Writer S
  stored_record writer entry =
      let (answer, s) = disk.append writer.stored (record_of entry) in
      (answer, record { stored = s; is_closed = false })

  append_cases {ℓ} :
      (P : Answer × Writer S → Type ℓ) (writer : Writer S) (entry : Entry)
      → P (err closed, writer)
      → P (err too_large, writer)
      → (writer.is_closed ≡ false → P (stored_record writer entry))
      → P (append disk writer entry)
  unfolding append stored_record
  append_cases P writer entry shut long stores = elim (Bool-cases writer.is_closed) [
    | inl is_shut ↦ simp is_shut shut
    | inr is_open ↦
        elim (Bool-cases (
          ltb max_label_bytes (length entry.phase)
          || ltb max_label_bytes (length entry.workload))) [
            | inl past ↦ simp (is_open, past) long
            | inr fits ↦ simp (is_open, fits) (stores is_open)
          ]
  ]

  open_Holds :
      (writer : Writer S) (entries : List Entry)
      → Holds entries writer
      → writer.is_closed ≡ false
      → contents writer.stored ≡ records entries
  open_Holds writer entries h is_open = h ∙ rw (is_open, append-nil)

  -- An append that succeeds adds its entry's record to the storage.
  pub append-Holds :
      (writer : Writer S) (entries : List Entry) (entry : Entry)
      → Holds entries writer
      → (append disk writer entry).0 ≡ ok tt
      → Holds (entries ++ (entry ∷ [])) (append disk writer entry).1
  append-Holds writer entries entry h =
      append_cases (λ r. r.0 ≡ ok tt → Holds (entries ++ (entry ∷ [])) r.1) writer entry (λ e. cc)
        (λ e. cc)
        λ is_open.
          unfold stored_record in
          λ e.
            append_done writer.stored (record_of entry) e
            ∙ rw (open_Holds writer entries h is_open, records-append entries entry, append-nil)

  -- Where the storage stands after an append, whatever the answer.
  abbrev LeavesCut : List Entry → Entry → S → Type 0
  LeavesCut entries entry s =
      (kept : List Entry) × (n : ℕ) × ((kept ≡ entries) ⊎ (kept ≡ entries ++ (entry ∷ [])))
      × (length (records entries) ≤ n)
      × CutAt n kept s

  pub append-LeavesCut :
      (writer : Writer S) (entries : List Entry) (entry : Entry)
      → Holds entries writer
      → LeavesCut entries entry (append disk writer entry).1.stored
  append-LeavesCut writer entries entry h =
      append_cases (λ r. LeavesCut entries entry r.1.stored) writer entry unchanged unchanged
        λ is_open.
          unfold stored_record in
          elim (Outcome-cases (disk.append writer.stored (record_of entry)).0) [
            | inl (done, e) ↦ grows is_open (length (record_of entry)) (
                append_done writer.stored (record_of entry) e
                ∙ ap (◌++◌ (contents writer.stored))
                    (sym (take_all _ (record_of entry) (omega arith))))
            | inr (fault, e) ↦
                let (n, cut) = append_failed writer.stored (record_of entry) fault e in
                grows is_open n cut
          ]
    where
      grows :
          writer.is_closed ≡ false
          → (n : ℕ) {s : S} → contents s ≡ contents writer.stored ++ take n (record_of entry)
          → LeavesCut entries entry s
      grows is_open n e =
          let (m, same) = cut_record n (record_of entry) terminator in
          (
            entries ++ (entry ∷ []),
            length (records entries) + m,
            inr refl,
            omega arith,
            e ∙ rw (open_Holds writer entries h is_open, ← same) (sym (grown entries entry m)),
          )

      unchanged : LeavesCut entries entry writer.stored
      unchanged =
          let (n, least, cut) = Holds-CutAt writer entries h in (entries, n, inl refl, least, cut)

  abbrev Recovers : List Entry → Entry → List Entry → Type 0
  Recovers entries entry found = (found ≡ entries) ⊎ (found ≡ entries ++ (entry ∷ []))
