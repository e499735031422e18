-- ===== src/Common/Fallible.antt =====
-- core/result.hpp: a value or an error, never both and never neither.
use mathlib.Core.Path.{◌≡◌, refl}
use mathlib.Core.Logic.{◌⊎◌, inl, inr}

pub data Outcome {ℓ κ} (A : Type ℓ) (E : Type κ) : Type (ℓ ⊔ κ) where
  ok : A → Outcome A E
  err : E → Outcome A E

pub Outcome-cases {ℓ κ} :
    {A : Type ℓ} {E : Type κ} (r : Outcome A E) → ((a : A) × (r ≡ ok a)) ⊎ ((e : E) × (r ≡ err e))
Outcome-cases (ok a) = inl (a, refl)
Outcome-cases (err e) = inr (e, refl)
