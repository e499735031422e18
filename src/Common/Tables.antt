-- ===== src/Common/Tables.antt =====
-- Facts over a small range, by evaluation at every value of it.
use Prim.Native.Nat.{ℕ, zero, suc, ◌+◌, ◌<◌}
use mathlib.Core.Path.{◌≡◌, subst}
use mathlib.Core.Bool.{Bool, true, ◌&&◌}
use native.Mathlib.Omega.{arith}

-- `test` holds at `first` and the `count` values from there on.
unfoldable pub holds_from : ℕ → ℕ → (ℕ → Bool) → Bool
holds_from first zero test = true
holds_from first (suc count) test = test first && holds_from (suc first) count test

at_offset :
    (first count : ℕ) (test : ℕ → Bool) (offset : ℕ)
    → holds_from first count test ≡ true
    → offset < count
    → test (first + offset) ≡ true
unfolding holds_from
at_offset first zero test offset passed inside = absurd (omega arith)
at_offset first (suc count) test zero passed inside =
    let here : first ≡ first + 0 = omega arith in
    subst (λ (i : ℕ). test i ≡ true) here (ground arith)
at_offset first (suc count) test (suc offset) passed inside =
    let further : suc first + offset ≡ first + suc offset = omega arith in
    subst (λ (i : ℕ). test i ≡ true) further
      (at_offset (suc first) count test offset (ground arith) (omega arith))

abbrev pub holds_below : ℕ → (ℕ → Bool) → Bool
holds_below count test = holds_from 0 count test

pub read_off :
    (count : ℕ) (test : ℕ → Bool) (value : ℕ)
    → holds_below count test ≡ true
    → value < count
    → test value ≡ true
read_off count test value passed inside =
    let from_none : 0 + value ≡ value = omega arith in
    subst (λ (i : ℕ). test i ≡ true) from_none (at_offset 0 count test value passed inside)
