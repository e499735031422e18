-- ===== src/Examples/Budgets.antt =====
-- The theorems about the memory and the CPUs of workers at a small machine.
use load_forge.Common.{
  ℕ, ◌*◌, ◌/◌, ◌^◌, ◌≤◌, ◌≡◌, refl, inl, List, [], ◌∷◌, ◌++◌, take, drop, if◌then◌else◌, some, none,
  Outcome, ok, err, arith,
}
use load_forge.Common.Texts.{codes}
use load_forge.Config.{ceiling_of, share_of, resolve_memory}
use load_forge.Config.Shares.{resolve_memory-quotient, resolve_memory-read_memory_budget}
use load_forge.Controller.Plan.{assign_cpus}
use load_forge.Controller.Plan.Slots.{assign_cpus-take}
use load_forge.Core.Numbers.{is_text}
use load_forge.Core.Units.{fraction}
use load_forge.Resources.Cgroup.{
  v2, unescape, none_empty, fields_of, below, is_hierarchy_mount, probe_file, cut_at, line_with_id,
  membership_line, conclude_membership, memberships, parse_membership, has_path,
}
use load_forge.Resources.Cgroup.Locate.{
  behind_dash, mount_paths, mount_end, mount_of_fields, parse_mount_entry, directory_of,
  to_last_slash, parent_of, upward, directories_upward, is_absent, membership_file, mountinfo_file,
  after_mount, search_mounts, probe_cgroup, probe_found, search, locate_memory_cgroup,
}
use load_forge.Resources.Decimal.{decimal_from, parse_decimal, after_prefix, add_front, split_on}
use load_forge.Resources.Decimal.Exact.{plain_decimal, parse_decimal-plain_decimal}
use load_forge.Resources.MemoryBudget.{
  MemoryBudget, skip_spaces, before_suffix, kilobytes_of, available_in, mem_available,
  parse_mem_available, limit_of, parse_memory_limit, lower, v2_limit, limit_by_version, limited_by,
  with_limit, read_memory_budget,
}
use load_forge.Topology.Source.{
  FileSystem, classify_error, without_return, with_front_char, split_lines, without_returns, text,
  lines,
}

abbrev first_lines : List ℕ → Outcome (List ℕ) ℕ
first_lines path =
    if is_text path (codes "/sys/fs/cgroup/a/cgroup.controllers")
    then ok (codes "memory")
    else if is_text path (codes "/sys/fs/cgroup/a/memory.max")
    then ok (codes "4096")
    else err 2

abbrev whole_files : List ℕ → Outcome (List ℕ) ℕ
whole_files path =
    if is_text path (codes "/proc/meminfo")
    then ok (codes "MemAvailable:   16 kB" ++ (10 ∷ []))
    else if is_text path (codes "/proc/self/cgroup")
    then ok (codes "0::/a" ++ (10 ∷ []))
    else if is_text path (codes "/proc/self/mountinfo")
    then ok (codes "30 23 0:26 / /sys/fs/cgroup rw shared:4 - cgroup2 cgroup2 rw" ++ (10 ∷ []))
    else err 2

abbrev small_machine : FileSystem
small_machine = record { read_first_line = first_lines; read_file = whole_files }

abbrev small_budget : MemoryBudget
small_budget = record { available_bytes = 16384; cgroup_limit_bytes = some 4096 }

located :
    locate_memory_cgroup small_machine []
    ≡ ok (some (record { version = v2; mount = codes "/sys/fs/cgroup"; relative = codes "/a" }))
unfolding locate_memory_cgroup search probe_found probe_cgroup search_mounts after_mount
    mountinfo_file membership_file is_absent directory_of parse_mount_entry mount_of_fields
    mount_end mount_paths behind_dash parse_membership memberships conclude_membership
    membership_line line_with_id cut_at has_path probe_file is_hierarchy_mount below fields_of
    none_empty unescape text lines without_returns split_lines with_front_char without_return
    classify_error split_on add_front after_prefix parse_decimal decimal_from is_text
located = refl

budget_read : read_memory_budget small_machine [] ≡ ok small_budget
unfolding read_memory_budget with_limit limited_by limit_by_version v2_limit lower
    parse_memory_limit limit_of parse_mem_available mem_available available_in kilobytes_of
    before_suffix skip_spaces locate_memory_cgroup search probe_found probe_cgroup search_mounts
    after_mount mountinfo_file membership_file is_absent directory_of parse_mount_entry
    mount_of_fields mount_end mount_paths behind_dash parse_membership memberships
    conclude_membership membership_line line_with_id cut_at has_path probe_file is_hierarchy_mount
    below fields_of none_empty unescape text lines without_returns split_lines with_front_char
    without_return classify_error split_on add_front after_prefix parse_decimal decimal_from is_text
    directories_upward upward parent_of to_last_slash
budget_read = refl

limit_there : text small_machine (codes "/sys/fs/cgroup/a/memory.max") ≡ ok (codes "4096")
unfolding text is_text
limit_there = refl

limit_says : parse_memory_limit (codes "4096") v2 ≡ ok (some 4096)
unfolding parse_memory_limit limit_of parse_decimal decimal_from is_text
limit_says = refl

half : resolve_memory (fraction 50) small_budget ≡ ok 2048
unfolding resolve_memory ceiling_of share_of
half = refl

resolve_memory-read_memory_budget_example : (2048 ≤ small_budget.available_bytes) × (2048 ≤ 4096)
resolve_memory-read_memory_budget_example =
    resolve_memory-read_memory_budget small_machine [] (codes "/sys/fs/cgroup") (codes "/a")
      (codes "/sys/fs/cgroup/a") (codes "4096") 4096 small_budget (fraction 50) 2048 budget_read
      located (inl refl) limit_there limit_says (omega arith, omega arith) half

-- Of so much memory, the whole product of half of it would not fit.
abbrev large_budget : MemoryBudget
large_budget = record { available_bytes = 2 ^ 60; cgroup_limit_bytes = none }

resolve_memory-quotient_example :
    (resolve_memory (fraction 50) large_budget ≡ ok (2 ^ 60 * 50 / 100))
    × (2 ^ 60 * 50 / 100 ≤ 2 ^ 60)
unfolding ceiling_of
resolve_memory-quotient_example =
    resolve_memory-quotient large_budget 50 (omega arith) (omega arith)

abbrev six_cpus : List ℕ
six_cpus = 0 ∷ 2 ∷ 4 ∷ 6 ∷ 8 ∷ 10 ∷ []

assign_cpus-take_example : assign_cpus 1 2 six_cpus ≡ take 2 (drop (1 * 2) six_cpus)
assign_cpus-take_example = assign_cpus-take 1 2 six_cpus (omega arith) (omega arith) (omega arith)

parse_decimal-plain_decimal_example : parse_decimal (codes "4096") ≡ plain_decimal (codes "4096")
parse_decimal-plain_decimal_example = parse_decimal-plain_decimal (codes "4096")
