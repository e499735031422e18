-- ===== src/Topology/CpuList.antt =====
-- topology/cpu_list.cpp: the parser of a list of CPUs. A fault is without the text that it quotes.
pub mod Ascending
use load_forge.Common.{
  ℕ, zero, suc, ◌+◌, ◌-◌, ◌*◌, List, [], ◌∷◌, ◌++◌, Bool, true, false, not, ltb, leb, ◌==◌,
  if◌then◌else◌, Option, none, some, Outcome, ok, err,
}
use load_forge.Core.Numbers.{is_digit}

-- The reasons of a MalformedValue.
pub data Malformed : Type 0 where
  number_missing not_a_digit id_too_large range_backwards not_ascending : Malformed

abbrev pub max_cpu_id : ℕ
max_cpu_id = 65535

unfoldable pub read_id : ℕ → List ℕ → Outcome ℕ Malformed
read_id value [] = ok value
read_id value (digit ∷ text) =
    if not (is_digit digit)
    then err not_a_digit
    else if ltb max_cpu_id (value * 10 + (digit - b'0'))
    then err id_too_large
    else read_id (value * 10 + (digit - b'0')) text

unfoldable pub parse_id : List ℕ → Outcome ℕ Malformed
parse_id [] = err number_missing
parse_id (digit ∷ text) = read_id 0 (digit ∷ text)

-- `find` of the dash: the text before it and, if there is one, the text behind it.
unfoldable pub cut_at_dash : List ℕ → List ℕ × Option (List ℕ)
cut_at_dash [] = ([], none)
cut_at_dash (c ∷ text) =
    let (front, behind) = cut_at_dash text in
    if c == b'-' then ([], some text) else (c ∷ front, behind)

unfoldable pub range_to : ℕ → Outcome ℕ Malformed → Outcome (ℕ × ℕ) Malformed
range_to first (err fault) = err fault
range_to first (ok last) = if ltb last first then err range_backwards else ok (first, last)

unfoldable pub range_of : Outcome ℕ Malformed → Option (List ℕ) → Outcome (ℕ × ℕ) Malformed
range_of (err fault) behind = err fault
range_of (ok first) none = ok (first, first)
range_of (ok first) (some text) = range_to first (parse_id text)

unfoldable pub parse_element : List ℕ → Outcome (ℕ × ℕ) Malformed
parse_element element =
    let (front, behind) = cut_at_dash element in range_of (parse_id front) behind

abbrev with_front : ℕ → List (List ℕ) → List (List ℕ)
with_front c [] = (c ∷ []) ∷ []
with_front c (element ∷ elements) = (c ∷ element) ∷ elements

-- The elements between the commas: one more than there are commas.
unfoldable pub elements_of : List ℕ → List (List ℕ)
elements_of [] = [] ∷ []
elements_of (c ∷ text) =
    if c == b',' then [] ∷ elements_of text else with_front c (elements_of text)

unfoldable pub ids_from : ℕ → ℕ → List ℕ
ids_from first zero = []
ids_from first (suc count) = first ∷ ids_from (suc first) count

-- The element does not come after the one before it.
unfoldable pub overlaps : Option ℕ → ℕ → Bool
overlaps none first = false
overlaps (some previous_end) first = leb first previous_end

abbrev add_ids : List ℕ → Outcome (List ℕ) Malformed → Outcome (List ℕ) Malformed
add_ids ids (ok more) = ok (ids ++ more)
add_ids ids (err fault) = err fault

unfoldable pub add_range :
    Option ℕ
    → Outcome (ℕ × ℕ) Malformed
    → (Option ℕ → Outcome (List ℕ) Malformed)
    → Outcome (List ℕ) Malformed
add_range previous_end (err fault) later = err fault
add_range previous_end (ok (first, last)) later =
    if overlaps previous_end first
    then err not_ascending
    else add_ids (ids_from first (suc last - first)) (later (some last))

unfoldable pub parse_elements : Option ℕ → List (List ℕ) → Outcome (List ℕ) Malformed
parse_elements previous_end [] = ok []
parse_elements previous_end (element ∷ elements) =
    add_range previous_end (parse_element element) (λ last. parse_elements last elements)

unfoldable pub parse : List ℕ → Outcome (List ℕ) Malformed
parse [] = ok []
parse (c ∷ text) = parse_elements none (elements_of (c ∷ text))
