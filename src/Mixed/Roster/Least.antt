-- ===== src/Mixed/Roster/Least.antt =====
-- workloads/mixed/roster.cpp: the footprints of a roster are the least that are accepted.
use load_forge.Common.{
  ℕ, zero, suc, ◌*◌, ◌/◌, ◌^◌, ◌≤◌, ◌<◌, ◌≡◌, sym, ap, ◌∙◌, List, [], ◌∷◌, All, Bool, true, false,
  ltb, leb, Option, none, some, ok, Bool-cases, inl, inr, arith, ltb→lt, leb→le,
}
use load_forge.Mixed.Roster.{least_footprint, accepted_from, with_entry, roster_of}
use load_forge.Mixed.{Schedule}
use load_forge.Mixed.Rotation.{RosterEntry, MixedOptions}
use load_forge.Mixed.Rotation.Make.{make_mixed}
use load_forge.Mixed.Rotation.Accepted.{IsMix, make_mixed-IsMix}
use load_forge.Mixed.Rotation.Picks.{IsEntry}
use load_forge.Worker.Control.Types.{is_valid_name}

doubled : (from k : ℕ) → from * 2 * 2 ^ k ≡ from * 2 ^ suc k
doubled from k = grind arith

grows : (from k : ℕ) → from ≤ from * 2 ^ k
grows from zero = omega arith
grows from (suc k) = omega (arith, grows (from * 2) k, doubled from k)

leb→lt : (a b : ℕ) → leb a b ≡ false → b < a
leb→lt a b e = ground (arith, e)

module _ (creatable : List ℕ → ℕ → Bool) (ceiling_bytes : ℕ) where
  -- `found` is the least of the footprints `from`, twice `from` and so on up to the ceiling that is accepted.
  abbrev pub IsLeast : (name : List ℕ) → (from : ℕ) → Option ℕ → Type 0
  IsLeast name from none =
      (k : ℕ) → from * 2 ^ k ≤ ceiling_bytes → creatable name (from * 2 ^ k) ≡ false
  IsLeast name from (some found) =
      (k : ℕ) × (found ≡ from * 2 ^ k)
      × (found ≤ ceiling_bytes)
      × (creatable name found ≡ true)
      × ((j : ℕ) → j < k → creatable name (from * 2 ^ j) ≡ false)

  none_later :
      (name : List ℕ) (from : ℕ)
      → creatable name from ≡ false
      → ((k : ℕ) → from * 2 * 2 ^ k ≤ ceiling_bytes → creatable name (from * 2 * 2 ^ k) ≡ false)
      → (k : ℕ) → from * 2 ^ k ≤ ceiling_bytes
      → creatable name (from * 2 ^ k) ≡ false
  none_later name from refused least zero within = ap (creatable name) (omega arith) ∙ refused
  none_later name from refused least (suc k) within =
      ap (creatable name) (sym (doubled from k)) ∙ least k (omega (arith, doubled from k, within))

  less_later :
      (name : List ℕ) (from k : ℕ)
      → creatable name from ≡ false
      → ((j : ℕ) → j < k → creatable name (from * 2 * 2 ^ j) ≡ false)
      → (j : ℕ) → j < suc k
      → creatable name (from * 2 ^ j) ≡ false
  less_later name from k refused least zero below = ap (creatable name) (omega arith) ∙ refused
  less_later name from k refused least (suc j) below =
      ap (creatable name) (sym (doubled from j)) ∙ least j (omega (arith, below))

  too_large :
      (name : List ℕ) (from : ℕ)
      → ceiling_bytes < from
      → (k : ℕ) → from * 2 ^ k ≤ ceiling_bytes
      → creatable name (from * 2 ^ k) ≡ false
  too_large name from above k within = absurd (omega (arith, above, within, grows from k))

  later-IsLeast :
      (name : List ℕ) (from : ℕ) (found : Option ℕ)
      → creatable name from ≡ false
      → IsLeast name (from * 2) found
      → IsLeast name from found
  later-IsLeast name from none refused least = none_later name from refused least
  later-IsLeast name from (some found) refused (k, at, within, made, least) =
      (suc k, at ∙ doubled from k, within, made, less_later name from k refused least)

  accepted_from-IsLeast :
      (fuel : ℕ) (name : List ℕ) (from : ℕ)
      → 0 < from
      → ceiling_bytes < from * 2 ^ fuel
      → IsLeast name from (accepted_from creatable ceiling_bytes fuel name from)
  unfolding accepted_from
  accepted_from-IsLeast zero name from some_bytes enough =
      too_large name from (omega (arith, enough))
  accepted_from-IsLeast (suc fuel) name from some_bytes enough =
      elim (Bool-cases (leb from ceiling_bytes)) [
        | inr above ↦
            rw (above, accepted_from)
              (too_large name from (omega (arith, leb→lt from ceiling_bytes above)))
        | inl below ↦ elim (Bool-cases (creatable name from)) [
          | inl made ↦
              rw (below, made, accepted_from)
                (
                  0,
                  omega arith,
                  leb→le _ _ below,
                  made,
                  λ j none_before. absurd (omega (arith, none_before)),
                )
          | inr refused ↦ elim (Bool-cases (ltb (ceiling_bytes / 2) from)) [
            | inl last ↦
                rw (below, refused, last, accepted_from)
                  (later-IsLeast name from none refused (
                    too_large name (from * 2)
                      (omega (arith, ltb→lt (ceiling_bytes / 2) from last))))
            | inr more ↦
                rw (below, refused, more, accepted_from)
                  (later-IsLeast name from
                    (accepted_from creatable ceiling_bytes fuel name (from * 2)) refused
                    (accepted_from-IsLeast fuel name (from * 2) (omega (arith, some_bytes))
                      (omega (arith, enough, doubled from fuel))))
          ]
        ]
      ]

  -- Of the footprints that are tried, the least that the registry makes the workload at is found, and none only if it
  -- makes it at no footprint of 64 KiB times a power of two up to the ceiling.
  pub accepted_from_lem :
      (name : List ℕ)
      → ceiling_bytes < 2 ^ 64
      → IsLeast name least_footprint (accepted_from creatable ceiling_bytes 64 name least_footprint)
  accepted_from_lem name fits =
      accepted_from-IsLeast 64 name least_footprint (omega arith) (omega (arith, fits))

  with_entry-IsEntry :
      (name : List ℕ) (found : Option ℕ) (roster : List RosterEntry)
      → is_valid_name name ≡ true
      → IsLeast name least_footprint found
      → All IsEntry roster
      → All IsEntry (with_entry creatable ceiling_bytes name found roster)
  unfolding with_entry
  with_entry-IsEntry name none roster valid least rest = rest
  with_entry-IsEntry name (some found) roster valid (k, at, within, made, least) rest =
      ((valid, omega (arith, at, grows least_footprint k)), rest)

  roster_of-IsEntry :
      (names : List (List ℕ))
      → ceiling_bytes < 2 ^ 64
      → All (λ name. is_valid_name name ≡ true) names
      → All IsEntry (roster_of creatable ceiling_bytes names)
  unfolding roster_of
  roster_of-IsEntry [] fits valid = tt
  roster_of-IsEntry (name ∷ names) fits (first, valid) =
      with_entry-IsEntry name (accepted_from creatable ceiling_bytes 64 name least_footprint)
        (roster_of creatable ceiling_bytes names) first (accepted_from_lem name fits)
        (roster_of-IsEntry names fits valid)

  -- The rules accept every rotating schedule that is made of the roster of a registry whose workloads
  -- have valid names, within a ceiling of 64 bits. It starts each worker with a workload, and its
  -- steps are at the multiples of the rotation, from the first on and in order, one for each that is
  -- less than the duration and no other.
  pub make_mixed-roster_of :
      (unsaid : RosterEntry) (names : List (List ℕ)) (options : MixedOptions) (schedule : Schedule)
      → ceiling_bytes < 2 ^ 64
      → All (λ name. is_valid_name name ≡ true) names
      → make_mixed unsaid (roster_of creatable ceiling_bytes names) options ≡ ok schedule
      → IsMix options schedule
  make_mixed-roster_of unsaid names options schedule fits valid e =
      make_mixed-IsMix unsaid (roster_of creatable ceiling_bytes names) options
        (roster_of-IsEntry names fits valid) schedule e
