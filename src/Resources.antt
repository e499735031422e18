-- ===== src/Resources.antt =====
-- src/resources: the memory that a run may use, and the kernel's count of OOM kills.
pub mod Decimal
pub mod Cgroup
pub mod MemoryBudget
pub mod OomRecord
