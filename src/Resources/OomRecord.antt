-- ===== src/Resources/OomRecord.antt =====
-- resources/cgroup_oom_record.cpp: the kernel's count of OOM kills in this process's memory cgroup.
use load_forge.Common.{ℕ, List, [], ◌∷◌, ◌++◌, Option, none, some, Outcome, ok, err}
use load_forge.Common.Texts.{codes}
use load_forge.Resources.Cgroup.{CgroupVersion, v1, v2}
use load_forge.Resources.Cgroup.Locate.{directory_of, locate_memory_cgroup}
use load_forge.Resources.Decimal.{parse_decimal, after_prefix}
use load_forge.Topology.Source
use load_forge.Topology.Source.{absent, malformed, DiscoveryFailure, source_failed, FileSystem}

unfoldable pub oom_count_file : CgroupVersion → List ℕ
oom_count_file v2 = codes "memory.events"
oom_count_file v1 = codes "memory.oom_control"

pub data CountFault : Type 0 where
  count_twice no_number : CountFault

-- The loop over the lines, with the count found so far.
unfoldable pub oom_kill_count : Option ℕ → List (List ℕ) → Outcome (Option ℕ) CountFault
oom_kill_count count [] = ok count
oom_kill_count count (line ∷ lines) = elim (after_prefix (codes "oom_kill ") line) [
  | none ↦ oom_kill_count count lines
  | some rest ↦ elim count [
    | some kills ↦ err count_twice
    | none ↦ elim (parse_decimal rest) [
      | none ↦ err no_number
      | some kills ↦ oom_kill_count (some kills) lines
    ]
  ]
]

unfoldable pub parse_oom_kill_count : List (List ℕ) → Outcome (Option ℕ) CountFault
parse_oom_kill_count lines = oom_kill_count none lines

-- CgroupOomKillRecord: the path of the count, or why there is none.
abbrev pub OomKillRecord : Type 0
OomKillRecord = Outcome (List ℕ) DiscoveryFailure

module _ (files : FileSystem) where
  unfoldable pub open_record : (root : List ℕ) → OomKillRecord
  open_record root = elim (locate_memory_cgroup files root) [
    | err failure ↦ err failure
    | ok none ↦ err (source_failed absent (root ++ codes "/proc/self/cgroup"))
    | ok (some cgroup) ↦ ok (directory_of cgroup ++ (codes "/" ++ oom_count_file cgroup.version))
  ]

  unfoldable pub counted : (path : List ℕ) → Option ℕ → Outcome ℕ DiscoveryFailure
  counted path none = err (source_failed absent path)
  counted path (some kills) = ok kills

  unfoldable pub read_count : OomKillRecord → Outcome ℕ DiscoveryFailure
  read_count (err unlocated) = err unlocated
  read_count (ok path) = elim (Source.lines files path) [
    | err kind ↦ err (source_failed kind path)
    | ok lines ↦ elim (parse_oom_kill_count lines) [
      | err fault ↦ err (source_failed malformed path)
      | ok count ↦ counted path count
    ]
  ]
