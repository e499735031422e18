-- ===== src/Topology/CpuList/Ascending.antt =====
-- topology/cpu_list.cpp: the ids of a list that was accepted.
use load_forge.Common.{
  ℕ, zero, suc, ◌+◌, ◌-◌, ◌*◌, ◌≤◌, ◌<◌, ◌≡◌, sym, List, [], ◌∷◌, ◌++◌, false, ltb, Option, none,
  some, Outcome, ok, err, arith, Bool-cases, inl, inr, ltb→le, subst,
}
use load_forge.Core.Numbers.{is_digit}
use load_forge.Topology.CpuList.{
  Malformed, max_cpu_id, read_id, parse_id, cut_at_dash, range_to, range_of, parse_element,
  elements_of, ids_from, overlaps, add_ids, add_range, parse_elements, parse,
}

abbrev IsAfter : Option ℕ → ℕ → Type 0
IsAfter none id = Unit {0}
IsAfter (some previous) id = previous < id

-- Strictly ascending, after the id `previous` if there is one, and none past the largest id.
abbrev pub IsAscending : Option ℕ → List ℕ → Type 0
IsAscending previous [] = Unit {0}
IsAscending previous (id ∷ ids) =
    IsAfter previous id × (id ≤ max_cpu_id) × IsAscending (some id) ids

abbrev Keeps : {A : Type 0} → (A → Type 0) → Outcome A Malformed → Type 0
Keeps P (ok a) = P a
Keeps P (err fault) = Unit {0}

abbrev IsId : ℕ → Type 0
IsId id = id ≤ max_cpu_id

abbrev IsRange : ℕ × ℕ → Type 0
IsRange (first, last) = (first ≤ last) × (last ≤ max_cpu_id)

read_id-IsId : (value : ℕ) (text : List ℕ) → value ≤ max_cpu_id → Keeps IsId (read_id value text)
unfolding read_id
read_id-IsId value [] small = small
read_id-IsId value (digit ∷ text) small = elim (Bool-cases (is_digit digit)) [
  | inl is_one ↦ elim (Bool-cases (ltb max_cpu_id (value * 10 + (digit - b'0')))) [
    | inl past ↦ rw (is_one, past, read_id) tt
    | inr within ↦
        rw (is_one, within, read_id)
          (read_id-IsId (value * 10 + (digit - b'0')) text (ltb→le 65535 _ within))
  ]
  | inr other ↦ rw (other, read_id) tt
]

parse_id-IsId : (text : List ℕ) → Keeps IsId (parse_id text)
unfolding parse_id
parse_id-IsId [] = tt
parse_id-IsId (digit ∷ text) = read_id-IsId 0 (digit ∷ text) (omega arith)

range_to-IsRange :
    (first : ℕ) (last : Outcome ℕ Malformed) → Keeps IsId last → Keeps IsRange (range_to first last)
unfolding range_to
range_to-IsRange first (err fault) small = tt
range_to-IsRange first (ok last) small = elim (Bool-cases (ltb last first)) [
  | inl backwards ↦ rw (backwards, range_to) tt
  | inr forwards ↦ rw (forwards, range_to) (ltb→le last first forwards, small)
]

range_of-IsRange :
    (first : Outcome ℕ Malformed) (behind : Option (List ℕ))
    → Keeps IsId first
    → Keeps IsRange (range_of first behind)
unfolding range_of
range_of-IsRange (err fault) behind small = tt
range_of-IsRange (ok first) none small = (omega arith, small)
range_of-IsRange (ok first) (some text) small =
    range_to-IsRange first (parse_id text) (parse_id-IsId text)

parse_element-IsRange : (element : List ℕ) → Keeps IsRange (parse_element element)
unfolding parse_element
parse_element-IsRange element =
    range_of-IsRange (parse_id (cut_at_dash element).0) (cut_at_dash element).1
      (parse_id-IsId (cut_at_dash element).0)

ids_from-IsAscending :
    (previous : Option ℕ) (first count : ℕ) (ids : List ℕ)
    → IsAfter previous first
    → first + count ≤ max_cpu_id
    → IsAscending (some (first + count)) ids
    → IsAscending previous (ids_from first (suc count) ++ ids)
unfolding ids_from
ids_from-IsAscending previous first zero ids after small later =
    (after, omega (arith, small), subst (λ (n : ℕ). IsAscending (some n) ids) (omega arith) later)
ids_from-IsAscending previous first (suc count) ids after small later = (
  after,
  omega (arith, small),
  ids_from-IsAscending (some first) (suc first) count ids (omega arith) (omega (arith, small))
      (subst (λ (n : ℕ). IsAscending (some n) ids) (omega arith) later),
)

IsAfter-overlaps :
    (previous : Option ℕ) (first : ℕ) → overlaps previous first ≡ false → IsAfter previous first
unfolding overlaps
IsAfter-overlaps none first e = tt
IsAfter-overlaps (some previous) first e = ground (arith, e)

add_ids-IsAscending :
    (previous : Option ℕ) (first last : ℕ) (more : Outcome (List ℕ) Malformed)
    → IsAfter previous first
    → IsRange (first, last)
    → Keeps (IsAscending (some last)) more
    → Keeps (IsAscending previous) (add_ids (ids_from first (suc last - first)) more)
add_ids-IsAscending previous first last (err fault) after range later = tt
add_ids-IsAscending previous first last (ok more) after (forwards, small) later =
    let count : suc last - first ≡ suc (last - first) = omega (arith, forwards) in
    let end : first + (last - first) ≡ last = omega (arith, forwards) in
    rw count (
      ids_from-IsAscending previous first (last - first) more after (omega (arith, end, small))
        (subst (λ (n : ℕ). IsAscending (some n) more) (sym end) later))

add_range-IsAscending :
    (previous : Option ℕ) (range : Outcome (ℕ × ℕ) Malformed)
    (later : Option ℕ → Outcome (List ℕ) Malformed)
    → Keeps IsRange range
    → ((last : Option ℕ) → Keeps (IsAscending last) (later last))
    → Keeps (IsAscending previous) (add_range previous range later)
unfolding add_range
add_range-IsAscending previous (err fault) later range rest = tt
add_range-IsAscending previous (ok (first, last)) later range rest =
    elim (Bool-cases (overlaps previous first)) [
      | inl before ↦ rw (before, add_range) tt
      | inr after ↦
          rw (after, add_range)
            (add_ids-IsAscending previous first last (later (some last))
              (IsAfter-overlaps previous first after) range (rest (some last)))
    ]

parse_elements-IsAscending :
    (previous : Option ℕ) (elements : List (List ℕ))
    → Keeps (IsAscending previous) (parse_elements previous elements)
unfolding parse_elements
parse_elements-IsAscending previous [] = tt
parse_elements-IsAscending previous (element ∷ elements) =
    add_range-IsAscending previous (parse_element element) (λ last. parse_elements last elements)
      (parse_element-IsRange element) (λ last. parse_elements-IsAscending last elements)

parse_kept : (text : List ℕ) → Keeps (IsAscending none) (parse text)
unfolding parse
parse_kept [] = tt
parse_kept (c ∷ text) = parse_elements-IsAscending none (elements_of (c ∷ text))

-- The ids of a list that is accepted, from any text at all, are strictly ascending, so none of them is
-- there twice, and none is larger than the largest id that a CPU can have.
pub parse-IsAscending : (text ids : List ℕ) → parse text ≡ ok ids → IsAscending none ids
parse-IsAscending text ids e = subst (Keeps (IsAscending none)) e (parse_kept text)
