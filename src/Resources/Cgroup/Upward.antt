-- ===== src/Resources/Cgroup/Upward.antt =====
-- resources/cgroup.cpp: the directories from a cgroup up to its mount.
use load_forge.Common.{
  ℕ, zero, suc, ◌<◌, ◌≡◌, refl, sym, ap, subst, List, [], ◌∷◌, ◌++◌, length, false, ◌==◌, Option,
  none, some, Option-cases, Bool-cases, ◌⊎◌, inl, inr, arith,
}
use load_forge.Resources.Cgroup.{MemoryCgroup}
use load_forge.Resources.Cgroup.Locate.{to_last_slash, parent_of, upward, directories_upward}

abbrev pub Has : List ℕ → List (List ℕ) → Type 0
Has path [] = ⊥
Has path (other ∷ paths) = (path ≡ other) ⊎ Has path paths

-- What the last slash leaves of a path with a slash: the front before that slash, or more.
abbrev IsCut : (front : List ℕ) → Option (List ℕ) → (whole : ℕ) → Type 0
IsCut front cut whole =
    (kept : List ℕ) × (cut ≡ some kept)
    × (length kept < whole)
    × ((front ≡ kept) ⊎ ((more : List ℕ) × (kept ≡ front ++ (b'/' ∷ more))))

shorter :
    (front kept path : List ℕ)
    → some front ≡ some kept
    → length front < suc (length path)
    → length kept < suc (length path)
shorter front kept path same less =
    let e : front ≡ kept = cc in subst (λ l. length l < suc (length path)) e less

to_last_slash-length :
    (path kept : List ℕ) → to_last_slash path ≡ some kept → length kept < length path
unfolding to_last_slash
to_last_slash-length [] kept e = cc
to_last_slash-length (c ∷ path) kept e = elim (Option-cases (to_last_slash path)) [
  | inl none_there ↦ elim (Bool-cases (c == b'/')) [
    | inl slash ↦
        let same = rw (none_there, slash, to_last_slash) at e in
        shorter [] kept path same (omega arith)
    | inr other ↦ let never = rw (none_there, other, to_last_slash) at e in cc
  ]
  | inr (front, some_there) ↦
      let same = rw (some_there, to_last_slash) at e in
      shorter (c ∷ front) kept path same (omega (arith, to_last_slash-length path front some_there))
]

to_last_slash-IsCut :
    (front behind : List ℕ)
    → IsCut front (to_last_slash (front ++ (b'/' ∷ behind))) (length (front ++ (b'/' ∷ behind)))
unfolding to_last_slash
to_last_slash-IsCut [] behind = first (to_last_slash behind) refl
  where
    first :
        (found : Option (List ℕ))
        → to_last_slash behind ≡ found
        → IsCut [] (to_last_slash (b'/' ∷ behind)) (length (b'/' ∷ behind))
    first none e = rw (e, to_last_slash) ([], refl, omega arith, inl refl)
    first (some more) e =
        rw (e, to_last_slash)
          (b'/' ∷ more, refl, omega (arith, to_last_slash-length behind more e), inr (more, refl))
to_last_slash-IsCut (c ∷ front) behind =
    let (kept, e, shorter, place) = to_last_slash-IsCut front behind in
    rw (e, to_last_slash)
      (
        c ∷ kept,
        refl,
        omega (arith, shorter),
        elim place [
          | inl same ↦ inl (ap (◌∷◌ c) same)
          | inr (more, longer) ↦ inr (more, ap (◌∷◌ c) longer)
        ],
      )

-- Every directory from the cgroup's own up to that of the mount.
abbrev pub IsAbove : MemoryCgroup → List ℕ → Type 0
IsAbove cgroup directory =
    (directory ≡ cgroup.mount ++ cgroup.relative)
    ⊎ ((front : List ℕ) × (behind : List ℕ) × (cgroup.relative ≡ front ++ (b'/' ∷ behind))
        × (directory ≡ cgroup.mount ++ front))

upward-head :
    (fuel : ℕ) (mount relative : List ℕ)
    → Has (mount ++ relative) (upward (suc fuel) mount relative)
unfolding upward
upward-head fuel mount relative = inl refl

some_length : (front behind : List ℕ) → (length (front ++ (b'/' ∷ behind)) == 0) ≡ false
some_length [] behind = ground arith
some_length (c ∷ front) behind = ground arith

parent_of-kept : (path kept : List ℕ) → to_last_slash path ≡ some kept → parent_of path ≡ kept
unfolding parent_of
parent_of-kept path kept e = rw (e, parent_of) refl

upward-Has :
    (fuel : ℕ) (mount front behind : List ℕ)
    → length (front ++ (b'/' ∷ behind)) < fuel
    → Has (mount ++ front) (upward fuel mount (front ++ (b'/' ∷ behind)))
unfolding upward
upward-Has zero mount front behind enough = absurd (omega (arith, enough))
upward-Has (suc zero) mount front behind enough =
    absurd (ground (arith, enough, some_length front behind))
upward-Has (suc (suc fuel)) mount front behind enough =
    let (kept, e, less, place) = to_last_slash-IsCut front behind in
    let rest : Has (mount ++ front) (upward (suc fuel) mount kept) = elim place [
      | inl same ↦
          subst (λ l. Has (mount ++ front) (upward (suc fuel) mount l)) same
            (upward-head fuel mount front)
      | inr (more, longer) ↦
          subst (λ l. Has (mount ++ front) (upward (suc fuel) mount l)) (sym longer)
            (upward-Has (suc fuel) mount front more (omega (arith, ap length longer, less, enough)))
    ] in
    inr (rw (some_length front behind, parent_of-kept (front ++ (b'/' ∷ behind)) kept e) rest)

pub directories_upward-Has :
    (cgroup : MemoryCgroup) (directory : List ℕ)
    → IsAbove cgroup directory
    → Has directory (directories_upward cgroup)
unfolding directories_upward
directories_upward-Has cgroup directory (inl own) =
    subst (λ d. Has d (upward (suc (length cgroup.relative)) cgroup.mount cgroup.relative))
      (sym own) (upward-head (length cgroup.relative) cgroup.mount cgroup.relative)
directories_upward-Has cgroup directory (inr (front, behind, cut, e)) =
    subst (λ d. Has d (upward (suc (length cgroup.relative)) cgroup.mount cgroup.relative)) (sym e)
      (subst (λ r. Has (cgroup.mount ++ front) (upward (suc (length r)) cgroup.mount r)) (sym cut)
        (upward-Has (suc (length (front ++ (b'/' ∷ behind)))) cgroup.mount front behind
          (omega arith)))
