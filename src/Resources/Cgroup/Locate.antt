-- ===== src/Resources/Cgroup/Locate.antt =====
-- resources/cgroup.cpp: the mounts, and the directory of this process's memory cgroup.
use load_forge.Common.{
  ℕ, zero, suc, List, [], ◌∷◌, ◌++◌, length, Bool, true, false, ◌==◌, if◌then◌else◌, Option, none,
  some, Outcome, ok, err,
}
use load_forge.Common.Texts.{codes}
use load_forge.Core.Numbers.{is_text}
use load_forge.Resources.Cgroup.{
  CgroupMembership, MountEntry, MemoryCgroup, unescape, fields_of, below, is_hierarchy_mount,
  probe_file, parse_membership,
}
use load_forge.Topology.Source
use load_forge.Topology.Source.{
  Availability, present, absent, vanished, denied, malformed, unreadable, DiscoveryFailure,
  source_failed, contradiction, FileSystem,
}

pub data MountFault : Type 0 where
  not_single_spaced no_separator strange_escape : MountFault

-- The fields behind the first that is "-".
unfoldable pub behind_dash : List (List ℕ) → Option (List (List ℕ))
behind_dash [] = none
behind_dash (field ∷ fields) =
    let rest = behind_dash fields in if is_text field (codes "-") then some fields else rest

unfoldable pub mount_paths :
    (root mount_point : Option (List ℕ))
    → (fstype super_options : List ℕ) → Outcome MountEntry MountFault
mount_paths (some root) (some mount_point) fstype super_options = ok (record {
  root = root;
  mount_point = mount_point;
  fstype = fstype;
  super_options = super_options;
})
mount_paths none mount_point fstype super_options = err strange_escape
mount_paths (some root) none fstype super_options = err strange_escape

-- Exactly three fields behind the separator: a type, a source and options.
unfoldable pub mount_end :
    (root mount_point : List ℕ) → Option (List (List ℕ)) → Outcome MountEntry MountFault
mount_end root mount_point (some (fstype ∷ from ∷ options ∷ [])) =
    mount_paths (unescape root) (unescape mount_point) fstype options
mount_end root mount_point _ = err no_separator

unfoldable pub mount_of_fields : List (List ℕ) → Outcome MountEntry MountFault
mount_of_fields (a ∷ b ∷ c ∷ root ∷ mount_point ∷ f ∷ optional) =
    mount_end root mount_point (behind_dash optional)
mount_of_fields _ = err no_separator

unfoldable pub parse_mount_entry : List ℕ → Outcome MountEntry MountFault
parse_mount_entry line = elim (fields_of line) [
  | none ↦ err not_single_spaced
  | some fields ↦ mount_of_fields fields
]

unfoldable pub directory_of : MemoryCgroup → List ℕ
directory_of cgroup = cgroup.mount ++ cgroup.relative

-- `substr(0, rfind('/'))`, if there is a slash.
unfoldable pub to_last_slash : List ℕ → Option (List ℕ)
to_last_slash [] = none
to_last_slash (c ∷ path) = elim (to_last_slash path) [
  | some front ↦ some (c ∷ front)
  | none ↦ if c == b'/' then some [] else none
]

unfoldable pub parent_of : List ℕ → List ℕ
parent_of relative = elim (to_last_slash relative) [ none ↦ relative | some front ↦ front ]

-- The loop of directories_upward, on fuel: a relative path begins with a slash, so its parent is shorter.
unfoldable pub upward : (fuel : ℕ) → (mount relative : List ℕ) → List (List ℕ)
upward zero mount relative = []
upward (suc fuel) mount relative =
    let rest = upward fuel mount (parent_of relative) in
    (mount ++ relative) ∷ (if length relative == 0 then [] else rest)

unfoldable pub directories_upward : MemoryCgroup → List (List ℕ)
directories_upward cgroup = upward (suc (length cgroup.relative)) cgroup.mount cgroup.relative

unfoldable pub is_absent : Availability → Bool
is_absent absent = true
is_absent present = false
is_absent vanished = false
is_absent denied = false
is_absent malformed = false
is_absent unreadable = false

module _ (files : FileSystem) (root : List ℕ) where
  unfoldable pub membership_file : List ℕ
  membership_file = root ++ codes "/proc/self/cgroup"

  unfoldable pub mountinfo_file : List ℕ
  mountinfo_file = root ++ codes "/proc/self/mountinfo"

  -- What one mount makes of the cgroup found so far; the flag that only words a refusal is left out.
  unfoldable pub after_mount :
      CgroupMembership → Option MemoryCgroup → MountEntry → Option MemoryCgroup
  after_mount member (some found) entry = some found
  after_mount member none entry =
      if is_hierarchy_mount entry member.version
      then elim (below entry.root member.path) [
        | none ↦ none
        | some relative ↦ some (record {
          version = member.version;
          mount = root ++ entry.mount_point;
          relative = relative;
        })
      ]
      else none

  -- The loop over the mounts: every line is parsed, also behind the one that shows the cgroup.
  unfoldable pub search_mounts :
      CgroupMembership
      → Option MemoryCgroup
      → List (List ℕ)
      → Outcome (Option MemoryCgroup) DiscoveryFailure
  search_mounts member found [] = ok found
  search_mounts member found (line ∷ lines) = elim (parse_mount_entry line) [
    | err fault ↦ err (source_failed malformed mountinfo_file)
    | ok entry ↦ search_mounts member (after_mount member found entry) lines
  ]

  -- The directory must be there.
  unfoldable pub probe_cgroup : MemoryCgroup → Outcome (Option MemoryCgroup) DiscoveryFailure
  probe_cgroup found =
      let probe = directory_of found ++ (codes "/" ++ probe_file found.version) in
      elim (Source.text files probe) [
        | ok line ↦ ok (some found)
        | err kind ↦
            if is_absent kind then err (contradiction probe) else err (source_failed kind probe)
      ]

  unfoldable pub probe_found : Option MemoryCgroup → Outcome (Option MemoryCgroup) DiscoveryFailure
  probe_found none = err (contradiction mountinfo_file)
  probe_found (some found) = probe_cgroup found

  unfoldable pub search : CgroupMembership → Outcome (Option MemoryCgroup) DiscoveryFailure
  search member = elim (Source.lines files mountinfo_file) [
    | err kind ↦ err (source_failed kind mountinfo_file)
    | ok lines ↦ elim (search_mounts member none lines) [
      | err failure ↦ err failure
      | ok found ↦ probe_found found
    ]
  ]

  unfoldable pub locate_memory_cgroup : Outcome (Option MemoryCgroup) DiscoveryFailure
  locate_memory_cgroup = elim (Source.lines files membership_file) [
    | err kind ↦ if is_absent kind then ok none else err (source_failed kind membership_file)
    | ok lines ↦ elim (parse_membership lines) [
      | err fault ↦ err (source_failed malformed membership_file)
      | ok none ↦ ok none
      | ok (some member) ↦ search member
    ]
  ]
