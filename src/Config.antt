-- ===== src/Config.antt =====
-- src/config/config.cpp: the bytes that a size of a workload stands for on this machine.
pub mod Shares
use load_forge.Common.{
  ℕ, ◌+◌, ◌*◌, ◌/◌, ◌%◌, ◌^◌, min, Bool, true, false, ltb, if◌then◌else◌, Option, none, some,
  Outcome, ok, err,
}
use load_forge.Core.Units.{ByteSize, absolute, fraction}
use load_forge.Resources.MemoryBudget.{MemoryBudget}

-- Why a size is refused, with the numbers that the text prints.
pub data ResolveFault : Type 0 where
  requests_too_much : (wanted ceiling : ℕ) → ResolveFault

abbrev pub least_of : ℕ → Option ℕ → ℕ
least_of available none = available
least_of available (some limit) = min available limit

unfoldable pub ceiling_of : MemoryBudget → ℕ
ceiling_of budget = least_of budget.available_bytes budget.cgroup_limit_bytes

-- In uint64_t, where a product or a sum that does not fit wraps around.
unfoldable pub share_of : (ceiling percent : ℕ) → ℕ
share_of ceiling percent =
    (ceiling / 100 * percent % 2 ^ 64 + ceiling % 100 * percent % 2 ^ 64 / 100) % 2 ^ 64

unfoldable pub resolve_memory : ByteSize → MemoryBudget → Outcome ℕ ResolveFault
resolve_memory (absolute wanted) budget =
    if ltb (ceiling_of budget) wanted
    then err (requests_too_much wanted (ceiling_of budget))
    else ok wanted
resolve_memory (fraction percent) budget = ok (share_of (ceiling_of budget) percent)
