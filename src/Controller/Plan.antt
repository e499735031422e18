-- ===== src/Controller/Plan.antt =====
-- controller/plan.cpp: the CPUs of a worker's threads.
pub mod Slots
use load_forge.Common.{ℕ, zero, suc, ◌+◌, ◌*◌, ◌%◌, ◌^◌, min, List, [], ◌∷◌, length}

-- `all[index]`; the index is below the size, and past the end nothing is said of what is read.
unfoldable pub cpu_at : List ℕ → ℕ → ℕ
cpu_at [] index = 0
cpu_at (cpu ∷ all) zero = cpu
cpu_at (cpu ∷ all) (suc index) = cpu_at all index

-- The loop, for the `left` threads from `index` on.
unfoldable pub assign_from : (all : List ℕ) → (start left index : ℕ) → List ℕ
assign_from all start zero index = []
assign_from all start (suc left) index =
    cpu_at all ((start + index) % length all) ∷ assign_from all start left (suc index)

unfoldable pub assign_cpus : (slot threads : ℕ) → List ℕ → List ℕ
assign_cpus slot threads [] = []
assign_cpus slot threads (cpu ∷ all) =
    let size = length (cpu ∷ all) in
    assign_from (cpu ∷ all) (slot * threads % 2 ^ 64 % size) (min threads size) 0
