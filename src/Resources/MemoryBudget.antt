-- ===== src/Resources/MemoryBudget.antt =====
-- resources/memory_budget.cpp: the memory that the machine and the cgroups leave to a run.
pub mod Lowest
use load_forge.Common.{
  ℕ, ◌+◌, ◌-◌, ◌*◌, ◌/◌, ◌^◌, min, List, [], ◌∷◌, ◌++◌, Bool, true, false, ◌||◌, ltb, leb, ◌==◌,
  if◌then◌else◌, Option, none, some, Outcome, ok, err,
}
use load_forge.Common.Texts.{codes}
use load_forge.Core.Numbers.{is_text}
use load_forge.Resources.Cgroup.{CgroupVersion, v1, v2, MemoryCgroup}
use load_forge.Resources.Cgroup.Locate.{
  directory_of, directories_upward, is_absent, locate_memory_cgroup,
}
use load_forge.Resources.Decimal.{uint64_max, parse_decimal, after_prefix}
use load_forge.Topology.Source
use load_forge.Topology.Source.{absent, malformed, DiscoveryFailure, source_failed, FileSystem}

abbrev pub bytes_per_kilobyte : ℕ
bytes_per_kilobyte = 1024

abbrev pub largest_limit : ℕ
largest_limit = 2 ^ 63 - 1

abbrev pub v1_unlimited_floor : ℕ
v1_unlimited_floor = 2 ^ 63 - 1 - 256 * 2 ^ 10 + 1

-- config/config.hpp.
pub record MemoryBudget : Type 0 where
  pub available_bytes : ℕ
  pub cgroup_limit_bytes : Option ℕ

pub data MeminfoFault : Type 0 where
  appears_twice not_in_kb no_count : MeminfoFault

unfoldable pub skip_spaces : List ℕ → List ℕ
skip_spaces [] = []
skip_spaces (c ∷ text) = let rest = skip_spaces text in if c == b' ' then rest else c ∷ text

-- `ends_with` and what is before it.
unfoldable pub before_suffix : (suffix text : List ℕ) → Option (List ℕ)
before_suffix suffix [] = if is_text [] suffix then some [] else none
before_suffix suffix (c ∷ text) =
    if is_text (c ∷ text) suffix
    then some []
    else elim (before_suffix suffix text) [ none ↦ none | some front ↦ some (c ∷ front) ]

unfoldable pub kilobytes_of : Option ℕ → Outcome ℕ MeminfoFault
kilobytes_of none = err no_count
kilobytes_of (some kilobytes) =
    if ltb (uint64_max / bytes_per_kilobyte) kilobytes
    then err no_count
    else ok (kilobytes * bytes_per_kilobyte)

unfoldable pub available_in : List ℕ → Outcome ℕ MeminfoFault
available_in rest = elim (before_suffix (codes " kB") (skip_spaces rest)) [
  | none ↦ err not_in_kb
  | some number ↦ kilobytes_of (parse_decimal number)
]

-- The loop over the lines, with what was found so far.
unfoldable pub mem_available : Option ℕ → List (List ℕ) → Outcome (Option ℕ) MeminfoFault
mem_available found [] = ok found
mem_available found (line ∷ lines) = elim (after_prefix (codes "MemAvailable:") line) [
  | none ↦ mem_available found lines
  | some rest ↦ elim found [
    | some bytes ↦ err appears_twice
    | none ↦ elim (available_in rest) [
      | err fault ↦ err fault
      | ok bytes ↦ mem_available (some bytes) lines
    ]
  ]
]

unfoldable pub parse_mem_available : List (List ℕ) → Outcome (Option ℕ) MeminfoFault
parse_mem_available lines = mem_available none lines

-- A text that no limit is written as.
pub data LimitFault : Type 0 where
  not_a_limit : LimitFault

unfoldable pub limit_of : CgroupVersion → Option ℕ → Outcome (Option ℕ) LimitFault
limit_of version none = err not_a_limit
limit_of v1 (some bytes) =
    if ltb largest_limit bytes
    then err not_a_limit
    else if leb v1_unlimited_floor bytes
    then ok none
    else ok (some bytes)
limit_of v2 (some bytes) = if ltb largest_limit bytes then err not_a_limit else ok (some bytes)

unfoldable pub parse_memory_limit : List ℕ → CgroupVersion → Outcome (Option ℕ) LimitFault
parse_memory_limit text v1 = limit_of v1 (parse_decimal text)
parse_memory_limit text v2 =
    if is_text text (codes "max") then ok none else limit_of v2 (parse_decimal text)

pub data HierarchicalFault : Type 0 where
  limit_twice no_limit_line : HierarchicalFault

-- The loop over the lines of memory.stat.
unfoldable pub hierarchical_from :
    Option (List ℕ) → List (List ℕ) → Outcome (List ℕ) HierarchicalFault
hierarchical_from none [] = err no_limit_line
hierarchical_from (some text) [] = ok text
hierarchical_from found (line ∷ lines) =
    elim (after_prefix (codes "hierarchical_memory_limit ") line) [
      | none ↦ hierarchical_from found lines
      | some rest ↦ elim found [
        | some text ↦ err limit_twice
        | none ↦ hierarchical_from (some rest) lines
      ]
    ]

unfoldable pub hierarchical_limit_text : List (List ℕ) → Outcome (List ℕ) HierarchicalFault
hierarchical_limit_text lines = hierarchical_from none lines

unfoldable pub lower : (so_far here : Option ℕ) → Option ℕ
lower so_far none = so_far
lower none (some bytes) = some bytes
lower (some least) (some bytes) = some (min least bytes)

module _ (files : FileSystem) where
  abbrev pub memory_max : List ℕ → List ℕ
  memory_max directory = directory ++ codes "/memory.max"

  -- The loop over the directories of a v2 cgroup.
  unfoldable pub v2_limit : (limit : Option ℕ) → List (List ℕ) → Outcome (Option ℕ) DiscoveryFailure
  v2_limit limit [] = ok limit
  v2_limit limit (directory ∷ directories) = elim (Source.text files (memory_max directory)) [
    | err kind ↦ elim (is_absent kind) [
      | true ↦ v2_limit limit directories
      | false ↦ err (source_failed kind (memory_max directory))
    ]
    | ok text ↦ elim (parse_memory_limit text v2) [
      | err fault ↦ err (source_failed malformed (memory_max directory))
      | ok here ↦ v2_limit (lower limit here) directories
    ]
  ]

  unfoldable pub v1_limit : MemoryCgroup → Outcome (Option ℕ) DiscoveryFailure
  v1_limit cgroup =
      let file = directory_of cgroup ++ codes "/memory.stat" in
      elim (Source.lines files file) [
        | err kind ↦ err (source_failed kind file)
        | ok lines ↦ elim (hierarchical_limit_text lines) [
          | err fault ↦ err (source_failed malformed file)
          | ok text ↦ elim (parse_memory_limit text v1) [
            | err fault ↦ err (source_failed malformed file)
            | ok limit ↦ ok limit
          ]
        ]
      ]

  unfoldable pub limit_by_version :
      CgroupVersion → MemoryCgroup → Outcome (Option ℕ) DiscoveryFailure
  limit_by_version v1 cgroup = v1_limit cgroup
  limit_by_version v2 cgroup = v2_limit none (directories_upward cgroup)

  unfoldable pub limited_by : Option MemoryCgroup → Outcome (Option ℕ) DiscoveryFailure
  limited_by none = ok none
  limited_by (some cgroup) = limit_by_version cgroup.version cgroup

  unfoldable pub with_limit :
      (available : ℕ) → Outcome (Option ℕ) DiscoveryFailure → Outcome MemoryBudget DiscoveryFailure
  with_limit available (err failure) = err failure
  with_limit available (ok limit) =
      ok (record { available_bytes = available; cgroup_limit_bytes = limit })

  unfoldable pub read_memory_budget : (root : List ℕ) → Outcome MemoryBudget DiscoveryFailure
  read_memory_budget root =
      let file = root ++ codes "/proc/meminfo" in
      elim (Source.lines files file) [
        | err kind ↦ err (source_failed kind file)
        | ok lines ↦ elim (parse_mem_available lines) [
          | err fault ↦ err (source_failed malformed file)
          | ok none ↦ err (source_failed absent file)
          | ok (some available) ↦ elim (locate_memory_cgroup files root) [
            | err failure ↦ err failure
            | ok found ↦ with_limit available (limited_by found)
          ]
        ]
      ]
