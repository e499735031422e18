-- ===== src/Journal/Recovery.antt =====
-- A whole journal read back, and a journal cut anywhere: what a crash can leave behind.
use load_forge.Common.{
  ℕ, zero, suc, ◌+◌, ◌-◌, ◌≤◌, ◌<◌, ◌≡◌, ◌≢◌, refl, sym, ap, ap₂, ◌∙◌, List, [], ◌∷◌, ◌++◌, length,
  take, some, ltb, if◌then◌else◌, arith, append_assoc, append-nil, length-append, length-take,
  take-append_le, take-append_add, take_all, Bool-cases, ltb→lt, ltb→le, le→ltb, lt→ltb, inl, inr,
  All,
}
use load_forge.Journal.Format.{
  Entry, Ending, empty, terminated, unterminated, torn_tail, corrupt, frame, encode_entry,
  terminator_payload,
}
use load_forge.Journal.RoundTrip.{IsEntry}
use load_forge.Journal.Records.{length-frame, round-frame, round-frame_cut, round_short}
use load_forge.Journal.Cuts.{round_entry, round_entry_cut}
use load_forge.Journal.Scan.{ends, keeps, read_payload, round, could_be_cut_short, scan_from, scan}

abbrev pub record_of : Entry → List ℕ
record_of entry = frame (encode_entry entry)

abbrev pub terminator : List ℕ
terminator = frame terminator_payload

-- What a writer that appended `entries` and closed has put into the storage.
abbrev pub journal : List Entry → List ℕ
journal [] = terminator
journal (entry ∷ entries) = record_of entry ++ journal entries

-- The entries whose whole record lies in the first `n` bytes of their journal.
abbrev pub survivors : ℕ → List Entry → List Entry
survivors n [] = []
survivors n (entry ∷ entries) =
    if ltb n (length (record_of entry))
    then []
    else entry ∷ survivors (n - length (record_of entry)) entries

scan_from_ends :
    (fuel : ℕ) (kept : List Entry) (rest : List ℕ) (ending : Ending)
    → round rest ≡ ends ending
    → scan_from (suc fuel) kept rest ≡ some (record { entries = kept; ending = ending })
unfolding scan_from
scan_from_ends fuel kept rest ending e = rw (e, scan_from)

scan_from_keeps :
    (fuel : ℕ) (kept : List Entry) (rest : List ℕ) (entry : Entry) (after : List ℕ)
    → round rest ≡ keeps entry after
    → scan_from (suc fuel) kept rest ≡ scan_from fuel (kept ++ (entry ∷ [])) after
unfolding scan_from
scan_from_keeps fuel kept rest entry after e = rw (e, scan_from)

round-terminator : round terminator ≡ ends terminated
round-terminator =
    ap round (sym (append-nil terminator))
    ∙ round-frame terminator_payload (omega arith) (omega arith) []
    ∙ unfold read_payload in refl

terminator_cut : (n : ℕ) → 0 < n → n < 9 → round (take n terminator) ≡ ends torn_tail
terminator_cut n h k = elim (Bool-cases (ltb n 8)) [
  | inl short ↦
      round_short (take n terminator)
        (omega (arith, length-take n terminator, length-frame terminator_payload))
        (omega (arith, length-take n terminator, ltb→lt n 8 short))
  | inr long ↦
      let eight : n ≡ 8 + 0 = omega (arith, ltb→le n 8 long) in
      ap (λ (k : ℕ). round (take k terminator)) eight
      ∙ round-frame_cut terminator_payload (omega arith) (omega arith) 0 (omega arith)
      ∙ unfold could_be_cut_short in refl
]

-- How a scan of the first `n` bytes of a journal ends.
abbrev EndsFor : ℕ → List Entry → Ending → Type 0
EndsFor n entries ending =
    (ending ≢ corrupt)
    × (n < length (journal entries) → ending ≢ terminated)
    × (length (journal entries) ≤ n → ending ≡ terminated)

unfinished :
    (n : ℕ) (entries : List Entry) (ending : Ending)
    → ending ≢ corrupt
    → ending ≢ terminated
    → n < length (journal entries)
    → EndsFor n entries ending
unfinished n entries ending a b h = (a, λ _. b, λ k. absurd (omega arith))

terminator_end :
    (n : ℕ) → (ending : Ending) × (round (take n terminator) ≡ ends ending) × EndsFor n [] ending
terminator_end zero = (
  unterminated,
  unfold round in refl,
  unfinished 0 [] unterminated (λ e. cc) (λ e. cc) (omega (arith, length-frame terminator_payload)),
)
terminator_end (suc n) = elim (Bool-cases (ltb (suc n) 9)) [
  | inl short ↦ (
    torn_tail,
    terminator_cut (suc n) (omega arith) (ltb→lt (suc n) 9 short),
    unfinished (suc n) [] torn_tail (λ e. cc) (λ e. cc)
        (omega (arith, length-frame terminator_payload, ltb→lt (suc n) 9 short)),
  )
  | inr whole ↦ (
    terminated,
    ap round (
          take_all (suc n) terminator
            (omega (arith, length-frame terminator_payload, ltb→le (suc n) 9 whole)))
        ∙ round-terminator,
    (
      λ e. cc,
      λ h. absurd (omega (arith, length-frame terminator_payload, ltb→le (suc n) 9 whole)),
      λ _. refl,
    ),
  )
]

-- A first record that is cut ends the scan with nothing of its entry kept.
cut_first :
    (entry : Entry) (entries : List Entry) (n : ℕ)
    → IsEntry entry
    → n < length (record_of entry)
    → (ending : Ending) × (round (take n (record_of entry)) ≡ ends ending)
      × EndsFor n (entry ∷ entries) ending
cut_first entry entries zero valid h = (
  unterminated,
  unfold round in refl,
  unfinished 0 (entry ∷ entries) unterminated (λ e. cc) (λ e. cc)
      (omega (arith, length-append (record_of entry) (journal entries))),
)
cut_first entry entries (suc n) valid h = (
  torn_tail,
  round_entry_cut entry valid (suc n) (omega arith) h,
  unfinished (suc n) (entry ∷ entries) torn_tail (λ e. cc) (λ e. cc)
      (omega (arith, length-append (record_of entry) (journal entries))),
)

ends_later :
    (entry : Entry) (entries : List Entry) (n : ℕ) (ending : Ending)
    → length (record_of entry) ≤ n
    → EndsFor (n - length (record_of entry)) entries ending
    → EndsFor n (entry ∷ entries) ending
ends_later entry entries n ending h (a, b, c) = (
  a,
  λ k. b (omega (arith, length-append (record_of entry) (journal entries))),
  λ k. c (omega (arith, length-append (record_of entry) (journal entries))),
)

take_record :
    (entry : Entry) (entries : List Entry) (n : ℕ)
    → length (record_of entry) ≤ n
    → take n (journal (entry ∷ entries))
      ≡ record_of entry ++ take (n - length (record_of entry)) (journal entries)
take_record entry entries n h =
    ap (λ (k : ℕ). take k (record_of entry ++ journal entries)) (omega arith)
    ∙ take-append_add (record_of entry) (journal entries) (n - length (record_of entry))

shorter :
    (entry : Entry) (entries : List Entry) (n fuel : ℕ)
    → length (record_of entry) ≤ n
    → length (take n (journal (entry ∷ entries))) < suc fuel
    → length (take (n - length (record_of entry)) (journal entries)) < fuel
shorter entry entries n fuel h enough = omega (
  arith,
  length-take n (journal (entry ∷ entries)),
  length-take (n - length (record_of entry)) (journal entries),
  length-append (record_of entry) (journal entries),
  length-frame (encode_entry entry),
)

cut_from :
    (entries : List Entry) (n fuel : ℕ) (kept : List Entry)
    → All IsEntry entries
    → length (take n (journal entries)) < fuel
    → (ending : Ending) × (scan_from fuel kept (take n (journal entries))
        ≡ some (record { entries = kept ++ survivors n entries; ending = ending }))
      × EndsFor n entries ending
cut_from entries n zero kept valid enough = absurd (omega arith)
cut_from [] n (suc fuel) kept valid enough =
    let (ending, e, right) = terminator_end n in
    (ending, scan_from_ends fuel kept (take n terminator) ending e ∙ rw append-nil, right)
cut_from (entry ∷ entries) n (suc fuel) kept valid enough =
    elim (Bool-cases (ltb n (length (record_of entry)))) [
      | inl short ↦
          let cut = ltb→lt n (length (record_of entry)) short in
          let (ending, e, right) = cut_first entry entries n valid.0 cut in
          (
            ending,
            rw (short, append-nil)
                (ap (scan_from (suc fuel) kept)
                    (take-append_le n (record_of entry) (journal entries) (omega arith))
                  ∙ scan_from_ends fuel kept (take n (record_of entry)) ending e),
            right,
          )
      | inr long ↦
          let fits = ltb→le n (length (record_of entry)) long in
          let more =
            cut_from entries (n - length (record_of entry)) fuel (kept ++ (entry ∷ [])) valid.1
              (shorter entry entries n fuel fits enough) in
          (
            more.0,
            rw long (
                ap (scan_from (suc fuel) kept) (take_record entry entries n fits)
                ∙ scan_from_keeps fuel kept _ entry _ (round_entry entry valid.0 _)
                ∙ more.1
                ∙ rw append_assoc),
            ends_later entry entries n more.0 fits more.2,
          )
    ]

scan_some :
    (bytes : List ℕ) → 0 < length bytes → scan bytes ≡ scan_from (suc (length bytes)) [] bytes
unfolding scan
scan_some [] h = absurd (omega arith)
scan_some (byte ∷ more) h = refl

journal_some : (entries : List Entry) → 9 ≤ length (journal entries)
journal_some [] = omega (arith, length-frame terminator_payload)
journal_some (entry ∷ entries) =
    omega (arith, length-append (record_of entry) (journal entries), journal_some entries)

survivors_none : (entries : List Entry) → survivors 0 entries ≡ []
survivors_none [] = refl
survivors_none (entry ∷ entries) =
    rw (lt→ltb 0 (length (record_of entry)) (omega (arith, length-frame (encode_entry entry))))

-- A crash keeps every entry that reached the storage. Cut the journal of valid entries after any
-- number of bytes: scanning what is there gives exactly the entries whose whole record lies in
-- those bytes, and never the ending `corrupt`; the ending is `terminated` exactly when nothing was
-- cut.
pub scan-cut :
    (entries : List Entry) (n : ℕ)
    → All IsEntry entries
    → (ending : Ending) × (scan (take n (journal entries))
        ≡ some (record { entries = survivors n entries; ending = ending }))
      × (ending ≢ corrupt)
      × (n < length (journal entries) → ending ≢ terminated)
      × (length (journal entries) ≤ n → ending ≡ terminated)
scan-cut entries zero valid = (
  empty,
  rw (survivors_none entries) (unfold scan in refl),
  λ e. cc,
  λ h e. cc,
  λ h. absurd (omega (arith, journal_some entries)),
)
scan-cut entries (suc n) valid =
    let (ending, e, right) =
      cut_from entries (suc n) (suc (length (take (suc n) (journal entries)))) [] valid
        (omega arith) in
    (
      ending,
      scan_some _ (omega (arith, length-take (suc n) (journal entries), journal_some entries)) ∙ e,
      right.0,
      right.1,
      right.2,
    )

survivors_all :
    (entries : List Entry) (n : ℕ) → length (journal entries) ≤ n → survivors n entries ≡ entries
survivors_all [] n h = refl
survivors_all (entry ∷ entries) n h =
    rw (le→ltb n (length (record_of entry)) (omega (arith, split)))
      (ap (◌∷◌ entry) (survivors_all entries (n - length (record_of entry)) (omega (arith, split))))
  where
    split :
        length (record_of entry ++ journal entries)
        ≡ length (record_of entry) + length (journal entries)
    split = length-append (record_of entry) (journal entries)

-- Scanning a whole journal of valid entries gives those entries back, ended cleanly.
pub scan-journal :
    (entries : List Entry)
    → All IsEntry entries
    → scan (journal entries) ≡ some (record { entries = entries; ending = terminated })
scan-journal entries valid =
    let whole = length (journal entries) in
    let cut = scan-cut entries whole valid in
    ap scan (sym (take_all whole (journal entries) (omega arith)))
    ∙ cut.1
    ∙ ap₂ (λ es e. some (record { entries = es; ending = e }))
        (survivors_all entries whole (omega arith)) (cut.4 (omega arith))
