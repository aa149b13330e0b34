-- ===== src/Prelude/Results.antt =====
-- Rust's `Result`, and the outcome of code that may also panic.
use mathlib.Core.Path.{◌≡◌, refl}
use mathlib.Core.Logic.{◌⊎◌, inl, inr}

pub data Result {ℓ κ} (A : Type ℓ) (E : Type κ) : Type (ℓ ⊔ κ) where
  ok : A → Result A E
  err : E → Result A E

-- A computation that panics (a failed `unwrap`, a slice out of range) has no value.
pub data Panics {ℓ} (A : Type ℓ) : Type ℓ where
  returns : A → Panics A
  panic : Panics A

pub Result-cases {ℓ κ} :
    {A : Type ℓ} {E : Type κ} (r : Result A E) → ((a : A) × (r ≡ ok a)) ⊎ ((e : E) × (r ≡ err e))
Result-cases (ok a) = inl (a, refl)
Result-cases (err e) = inr (e, refl)
