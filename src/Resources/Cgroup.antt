-- ===== src/Resources/Cgroup.antt =====
-- resources/cgroup.cpp: where the kernel says this process's memory cgroup is.
pub mod Locate
pub mod Upward
use load_forge.Common.{
  ℕ, zero, suc, ◌+◌, ◌-◌, ◌*◌, List, [], ◌∷◌, ◌++◌, length, Bool, true, false, ◌&&◌, ◌||◌, not, ltb,
  ◌==◌, if◌then◌else◌, Option, none, some, Outcome, ok, err,
}
use load_forge.Common.Texts.{codes}
use load_forge.Core.Numbers.{is_text}
use load_forge.Resources.Decimal.{parse_decimal, after_prefix, split_on, add_front}
use load_forge.Topology.Source
use load_forge.Topology.Source.{
  Availability, absent, malformed, DiscoveryFailure, source_failed, contradiction, FileSystem,
}

pub data CgroupVersion : Type 0 where
  v1 v2 : CgroupVersion

pub record CgroupMembership : Type 0 where
  pub version : CgroupVersion
  pub path : List ℕ

pub record MountEntry : Type 0 where
  pub root : List ℕ
  pub mount_point : List ℕ
  pub fstype : List ℕ
  pub super_options : List ℕ

pub record MemoryCgroup : Type 0 where
  pub version : CgroupVersion
  pub mount : List ℕ
  pub relative : List ℕ

unfoldable pub has_memory : List (List ℕ) → Bool
has_memory [] = false
has_memory (controller ∷ controllers) =
    is_text controller (codes "memory") || has_memory controllers

unfoldable pub names_memory : List ℕ → Bool
names_memory controllers = has_memory (split_on b',' controllers)

abbrev plain : ℕ → Option (List ℕ) → Option (List ℕ)
plain c none = none
plain c (some text) = some (c ∷ text)

abbrev is_octal : ℕ → Bool
is_octal c = not (ltb c b'0' || ltb b'7' c)

abbrev octal : ℕ → ℕ → ℕ → ℕ
octal a b c = ((a - b'0') * 8 + (b - b'0')) * 8 + (c - b'0')

abbrev pub backslash : ℕ
backslash = 92

unfoldable pub unescape : List ℕ → Option (List ℕ)
unescape [] = some []
unescape (c ∷ []) = if c == backslash then none else some (c ∷ [])
unescape (c ∷ x ∷ []) =
    let rest = unescape (x ∷ []) in if c == backslash then none else plain c rest
unescape (c ∷ x ∷ y ∷ []) =
    let rest = unescape (x ∷ y ∷ []) in if c == backslash then none else plain c rest
unescape (c ∷ x ∷ y ∷ z ∷ text) = elim (c == backslash) [
  | false ↦ plain c (unescape (x ∷ y ∷ z ∷ text))
  | true ↦ elim (is_octal x && is_octal y && is_octal z && not (ltb 255 (octal x y z))) [
    | false ↦ none
    | true ↦ plain (octal x y z) (unescape text)
  ]
]

unfoldable pub none_empty : List (List ℕ) → Bool
none_empty [] = true
none_empty (field ∷ fields) = not (length field == 0) && none_empty fields

unfoldable pub fields_of : List ℕ → Option (List (List ℕ))
fields_of line = let fields = split_on b' ' line in if none_empty fields then some fields else none

unfoldable pub below : (mount_root path : List ℕ) → Option (List ℕ)
below mount_root path =
    if is_text mount_root (codes "/")
    then some (if is_text path (codes "/") then [] else path)
    else if is_text path mount_root
    then some []
    else elim (after_prefix mount_root path) [
      | none ↦ none
      | some rest ↦ elim rest [ [] ↦ none | c ∷ more ↦ if c == b'/' then some (c ∷ more) else none ]
    ]

unfoldable pub is_hierarchy_mount : MountEntry → CgroupVersion → Bool
is_hierarchy_mount entry v2 = is_text entry.fstype (codes "cgroup2")
is_hierarchy_mount entry v1 =
    is_text entry.fstype (codes "cgroup") && names_memory entry.super_options

unfoldable pub probe_file : CgroupVersion → List ℕ
probe_file v2 = codes "cgroup.controllers"
probe_file v1 = codes "memory.limit_in_bytes"

-- Why a line of /proc/self/cgroup is refused: a constructor for each text.
pub data MembershipFault : Type 0 where
  not_three_parts no_hierarchy_id not_absolute lists_controllers : MembershipFault
  unified_twice memory_twice : MembershipFault

pub record MembershipLine : Type 0 where
  pub id : ℕ
  pub controllers : List ℕ
  pub path : List ℕ

-- A text up to a character, and what is behind it: `find` and the two `substr`.
unfoldable pub cut_at : ℕ → List ℕ → Option (List ℕ × List ℕ)
cut_at separator [] = none
cut_at separator (c ∷ text) =
    let rest = cut_at separator text in
    if c == separator
    then some ([], text)
    else elim rest [ none ↦ none | some (front, behind) ↦ some (c ∷ front, behind) ]

unfoldable pub line_with_id :
    Option ℕ → (controllers path : List ℕ) → Outcome MembershipLine MembershipFault
line_with_id none controllers path = err no_hierarchy_id
line_with_id (some id) controllers [] = err not_absolute
line_with_id (some id) controllers (c ∷ path) =
    if c == b'/'
    then ok (record { id = id; controllers = controllers; path = c ∷ path })
    else err not_absolute

unfoldable pub membership_line : List ℕ → Outcome MembershipLine MembershipFault
membership_line line = elim (cut_at b':' line) [
  | none ↦ err not_three_parts
  | some (id, rest) ↦ elim (cut_at b':' rest) [
    | none ↦ err not_three_parts
    | some (controllers, path) ↦ line_with_id (parse_decimal id) controllers path
  ]
]

unfoldable pub has_path : Option (List ℕ) → Bool
has_path none = false
has_path (some path) = true

unfoldable pub conclude_membership :
    (memory_path unified_path : Option (List ℕ)) → Option CgroupMembership
conclude_membership (some path) unified_path = some (record { version = v1; path = path })
conclude_membership none (some path) = some (record { version = v2; path = path })
conclude_membership none none = none

-- The loop over the lines, with the paths found so far.
unfoldable pub memberships :
    (memory_path unified_path : Option (List ℕ))
    → List (List ℕ)
    → Outcome (Option CgroupMembership) MembershipFault
memberships memory_path unified_path [] = ok (conclude_membership memory_path unified_path)
memberships memory_path unified_path (line ∷ lines) = elim (membership_line line) [
  | err fault ↦ err fault
  | ok found ↦ elim (found.id == 0) [
    | true ↦
        if not (length found.controllers == 0)
        then err lists_controllers
        else elim (has_path unified_path) [
          | true ↦ err unified_twice
          | false ↦ memberships memory_path (some found.path) lines
        ]
    | false ↦ elim (names_memory found.controllers) [
      | false ↦ memberships memory_path unified_path lines
      | true ↦ elim (has_path memory_path) [
        | true ↦ err memory_twice
        | false ↦ memberships (some found.path) unified_path lines
      ]
    ]
  ]
]

unfoldable pub parse_membership : List (List ℕ) → Outcome (Option CgroupMembership) MembershipFault
parse_membership lines = memberships none none lines
