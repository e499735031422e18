-- ===== src/Resources/MemoryBudget/Lowest.antt =====
-- resources/memory_budget.cpp: the limit of a v2 cgroup is the lowest of those from it up to the mount.
use load_forge.Common.{
  ℕ, ◌≤◌, ◌≡◌, subst, List, [], ◌∷◌, ◌++◌, Option, none, some, Outcome, ok, err, Outcome-cases,
  Bool-cases, Option-cases, inl, inr, arith,
}
use load_forge.Common.Texts.{codes}
use load_forge.Resources.Cgroup.{v2, MemoryCgroup}
use load_forge.Resources.Cgroup.Locate.{is_absent, directories_upward, locate_memory_cgroup}
use load_forge.Resources.Cgroup.Upward.{Has, IsAbove, directories_upward-Has}
use load_forge.Resources.MemoryBudget.{
  MemoryBudget, parse_mem_available, parse_memory_limit, lower, memory_max, v2_limit,
  limit_by_version, limited_by, with_limit, read_memory_budget,
}
use load_forge.Topology.Source
use load_forge.Topology.Source.{Availability, DiscoveryFailure, FileSystem}

abbrev pub AtMost : Option ℕ → ℕ → Type 0
AtMost none n = ⊥
AtMost (some limit) n = limit ≤ n

lower-AtMost : (limit here : Option ℕ) (n : ℕ) → AtMost limit n → AtMost (lower limit here) n
unfolding lower
lower-AtMost none none n at_most = at_most
lower-AtMost none (some bytes) n at_most = absurd at_most
lower-AtMost (some least) none n at_most = at_most
lower-AtMost (some least) (some bytes) n at_most = omega (arith, at_most)

lower-here : (limit : Option ℕ) (n : ℕ) → AtMost (lower limit (some n)) n
unfolding lower
lower-here none n = omega arith
lower-here (some least) n = omega arith

abbrev Keeps : (Option ℕ → Type 0) → Outcome (Option ℕ) DiscoveryFailure → Type 0
Keeps P (ok limit) = P limit
Keeps P (err failure) = Unit {0}

module _ (files : FileSystem) (n : ℕ) where
  -- What one directory makes of the limit so far.
  v2_limit-step :
      (P : Outcome (Option ℕ) DiscoveryFailure → Type 0) (limit : Option ℕ) (directory : List ℕ)
      (directories : List (List ℕ))
      → ((failure : DiscoveryFailure) → P (err failure))
      → ((here : Option ℕ)
          → ((text : List ℕ)
              → Source.text files (memory_max files directory) ≡ ok text
              → (limit_there : Option ℕ) → parse_memory_limit text v2 ≡ ok limit_there
              → limit_there ≡ here)
          → P (v2_limit files (lower limit here) directories))
      → P (v2_limit files limit (directory ∷ directories))
  unfolding v2_limit lower
  v2_limit-step P limit directory directories failed went =
      elim (Outcome-cases (Source.text files (memory_max files directory))) [
        | inr (kind, e) ↦ elim (Bool-cases (is_absent kind)) [
          | inr broken ↦ rw (e, broken, v2_limit) (failed _)
          | inl nothing ↦ rw (e, nothing, v2_limit) (went none (λ text there limit_there said. cc))
        ]
        | inl (text, e) ↦ elim (Outcome-cases (parse_memory_limit text v2)) [
          | inr (fault, bad) ↦ rw (e, bad, v2_limit) (failed _)
          | inl (here, good) ↦
              rw (e, good, v2_limit) (went here (λ other there limit_there said. cc))
        ]
      ]

  v2_limit_stays :
      (directories : List (List ℕ)) (limit : Option ℕ)
      → AtMost limit n
      → Keeps (λ l. AtMost l n) (v2_limit files limit directories)
  v2_limit_stays [] limit at_most = unfold v2_limit in at_most
  v2_limit_stays (directory ∷ directories) limit at_most =
      v2_limit-step (Keeps (λ l. AtMost l n)) limit directory directories (λ failure. tt)
        (λ here said.
          v2_limit_stays directories (lower limit here) (lower-AtMost limit here n at_most))

  v2_limit-AtMost :
      (directory text : List ℕ)
      → Source.text files (memory_max files directory) ≡ ok text
      → parse_memory_limit text v2 ≡ ok (some n)
      → (directories : List (List ℕ)) (limit : Option ℕ) → Has directory directories
      → Keeps (λ l. AtMost l n) (v2_limit files limit directories)
  v2_limit-AtMost directory text there says [] limit has = absurd has
  v2_limit-AtMost directory text there says (first ∷ directories) limit (inl same) =
      v2_limit-step (Keeps (λ l. AtMost l n)) limit first directories (λ failure. tt)
        (λ here said.
          let e =
            said text (subst (λ d. Source.text files (memory_max files d) ≡ ok text) same there)
              (some n) says in
          subst (λ h. Keeps (λ l. AtMost l n) (v2_limit files (lower limit h) directories)) e
            (v2_limit_stays directories (lower limit (some n)) (lower-here limit n)))
  v2_limit-AtMost directory text there says (first ∷ directories) limit (inr has) =
      v2_limit-step (Keeps (λ l. AtMost l n)) limit first directories (λ failure. tt)
        (λ here said. v2_limit-AtMost directory text there says directories (lower limit here) has)

abbrev KeepsBudget : (MemoryBudget → Type 0) → Outcome MemoryBudget DiscoveryFailure → Type 0
KeepsBudget P (ok budget) = P budget
KeepsBudget P (err failure) = Unit {0}

module _ (files : FileSystem) (root : List ℕ) (mount relative directory text : List ℕ) (n : ℕ) where
  abbrev cgroup : MemoryCgroup
  cgroup = record { version = v2; mount = mount; relative = relative }

  with_limit-AtMost :
      (available : ℕ) (limit : Outcome (Option ℕ) DiscoveryFailure)
      → Keeps (λ l. AtMost l n) limit
      → KeepsBudget
          (λ budget. AtMost budget.cgroup_limit_bytes n)
          (with_limit files available limit)
  unfolding with_limit
  with_limit-AtMost available (ok limit) is = is
  with_limit-AtMost available (err failure) is = is

  limited_by-AtMost :
      IsAbove cgroup directory
      → Source.text files (memory_max files directory) ≡ ok text
      → parse_memory_limit text v2 ≡ ok (some n)
      → Keeps (λ l. AtMost l n) (limited_by files (some cgroup))
  unfolding limited_by limit_by_version
  limited_by-AtMost above there says =
      v2_limit-AtMost files n directory text there says (directories_upward cgroup) none
        (directories_upward-Has cgroup directory above)

  budget_kept :
      (P : MemoryBudget → Type 0)
      → locate_memory_cgroup files root ≡ ok (some cgroup)
      → ((available : ℕ)
          → KeepsBudget P (with_limit files available (limited_by files (some cgroup))))
      → KeepsBudget P (read_memory_budget files root)
  unfolding read_memory_budget
  budget_kept P located went =
      elim (Outcome-cases (Source.lines files (root ++ codes "/proc/meminfo"))) [
        | inr (kind, e) ↦ rw (e, read_memory_budget) tt
        | inl (lines, e) ↦ elim (Outcome-cases (parse_mem_available lines)) [
          | inr (fault, bad) ↦ rw (e, bad, read_memory_budget) tt
          | inl (found, good) ↦ elim (Option-cases found) [
            | inl nothing ↦ rw (e, good, nothing, read_memory_budget) tt
            | inr (available, some_there) ↦
                rw (e, good, some_there, located, read_memory_budget) (went available)
          ]
        ]
      ]

  -- A budget that was read in a v2 cgroup holds it to a limit that no directory's memory.max undercuts, of the cgroup's own
  -- directory or of any above it up to the mount.
  pub read_memory_budget-AtMost :
      (budget : MemoryBudget)
      → read_memory_budget files root ≡ ok budget
      → locate_memory_cgroup files root ≡ ok (some cgroup)
      → IsAbove cgroup directory
      → Source.text files (memory_max files directory) ≡ ok text
      → parse_memory_limit text v2 ≡ ok (some n)
      → AtMost budget.cgroup_limit_bytes n
  read_memory_budget-AtMost budget e located above there says =
      subst (KeepsBudget (λ b. AtMost b.cgroup_limit_bytes n)) e (
        budget_kept (λ b. AtMost b.cgroup_limit_bytes n) located
          (λ available.
            with_limit-AtMost available (limited_by files (some cgroup))
              (limited_by-AtMost above there says)))
