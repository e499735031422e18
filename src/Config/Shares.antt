-- ===== src/Config/Shares.antt =====
-- src/config/config.cpp: no size resolves to more than the machine and its cgroups offer.
use load_forge.Common.{
  ℕ, List, ◌+◌, ◌*◌, ◌/◌, ◌%◌, ◌^◌, ◌≤◌, ◌<◌, ◌≡◌, ap, ◌∙◌, Option, none, some, ok, arith,
}
use load_forge.Config.{ceiling_of, least_of, share_of, resolve_memory}
use load_forge.Core.Units.{ByteSize, absolute, fraction}
use load_forge.Core.Units.RoundTrip.{IsByteSize}
use load_forge.Resources.Cgroup.{v2}
use load_forge.Resources.Cgroup.Locate.{locate_memory_cgroup}
use load_forge.Resources.Cgroup.Upward.{IsAbove}
use load_forge.Resources.MemoryBudget.{
  MemoryBudget, parse_memory_limit, memory_max, read_memory_budget,
}
use load_forge.Resources.MemoryBudget.Lowest.{AtMost, read_memory_budget-AtMost}
use load_forge.Topology.Source
use load_forge.Topology.Source.{FileSystem}

spread : (q r p : ℕ) → (100 * q + r) * p ≡ 100 * (q * p) + r * p
spread q r p = grind arith

product-le : (ceiling percent : ℕ) → percent ≤ 100 → ceiling * percent ≤ ceiling * 100
product-le ceiling percent small = grind arith

split-quotient :
    (ceiling percent : ℕ)
    → ceiling / 100 * percent + ceiling % 100 * percent / 100 ≡ ceiling * percent / 100
split-quotient ceiling percent =
    let split : ceiling ≡ 100 * (ceiling / 100) + ceiling % 100 = omega arith in
    let product : ceiling * percent ≡ 100 * (ceiling / 100 * percent) + ceiling % 100 * percent =
      ap (λ (t : ℕ). t * percent) split ∙ spread (ceiling / 100) (ceiling % 100) percent in
    omega (arith, product)

-- No part of a share wraps around, so it is the rounded quotient of the whole product, which is never made.
share_of-quotient :
    (ceiling percent : ℕ)
    → ceiling < 2 ^ 64
    → percent ≤ 100
    → share_of ceiling percent ≡ ceiling * percent / 100
unfolding share_of
share_of-quotient ceiling percent fits small =
    let above = product-le (ceiling / 100) percent small in
    let below = product-le (ceiling % 100) percent small in
    omega
      (arith, above, below, fits, split-quotient ceiling percent, product-le ceiling percent small)

share_of-le : (ceiling percent : ℕ) → percent ≤ 100 → share_of ceiling percent ≤ ceiling
unfolding share_of
share_of-le ceiling percent small =
    omega (arith, split-quotient ceiling percent, product-le ceiling percent small)

-- A percentage, of a hundred at most, of a ceiling that a uint64_t holds resolves to its exact part,
-- rounded down: no product or sum on the way wraps around, though the ceiling times the percentage
-- could. The part is no more than the ceiling.
pub resolve_memory-quotient :
    (budget : MemoryBudget) (percent : ℕ)
    → ceiling_of budget < 2 ^ 64
    → percent ≤ 100
    → (resolve_memory (fraction percent) budget ≡ ok (ceiling_of budget * percent / 100))
      × (ceiling_of budget * percent / 100 ≤ ceiling_of budget)
unfolding resolve_memory
resolve_memory-quotient budget percent fits small = (
  ap (λ n. ok n) (share_of-quotient (ceiling_of budget) percent fits small),
  omega (arith, product-le (ceiling_of budget) percent small),
)

pub resolve_memory-le :
    (budget : MemoryBudget) (size : ByteSize) (bytes : ℕ)
    → IsByteSize size
    → resolve_memory size budget ≡ ok bytes
    → bytes ≤ ceiling_of budget
unfolding resolve_memory
resolve_memory-le budget (absolute wanted) bytes valid e = ground (arith, e)
resolve_memory-le budget (fraction percent) bytes (some_part, small) e =
    let same : share_of (ceiling_of budget) percent ≡ bytes = cc in
    omega (arith, same, share_of-le (ceiling_of budget) percent small)

ceiling-le :
    (available : ℕ) (limit : Option ℕ) (n : ℕ)
    → AtMost limit n
    → (least_of available limit ≤ available) × (least_of available limit ≤ n)
ceiling-le available none n never = absurd never
ceiling-le available (some limit) n at_most = (omega arith, omega (arith, at_most))

-- In a v2 cgroup, a size that resolves against the budget that was read is no more than the memory that was available, nor
-- than what any directory's memory.max says, of the cgroup's own directory or of any above it up to the mount.
pub resolve_memory-read_memory_budget :
    (files : FileSystem) (root mount relative directory text : List ℕ) (n : ℕ)
    (budget : MemoryBudget) (size : ByteSize) (bytes : ℕ)
    → read_memory_budget files root ≡ ok budget
    → locate_memory_cgroup files root
      ≡ ok (some (record { version = v2; mount = mount; relative = relative }))
    → IsAbove (record { version = v2; mount = mount; relative = relative }) directory
    → Source.text files (memory_max files directory) ≡ ok text
    → parse_memory_limit text v2 ≡ ok (some n)
    → IsByteSize size
    → resolve_memory size budget ≡ ok bytes
    → (bytes ≤ budget.available_bytes) × (bytes ≤ n)
unfolding ceiling_of
resolve_memory-read_memory_budget files root mount relative directory text n budget size bytes e
      located above there says valid done =
    let least = resolve_memory-le budget size bytes valid done in
    let at_most =
      read_memory_budget-AtMost files root mount relative directory text n budget e located above
        there says in
    let bounds = ceiling-le budget.available_bytes budget.cgroup_limit_bytes n at_most in
    (omega (arith, least, bounds.0), omega (arith, least, bounds.1))
