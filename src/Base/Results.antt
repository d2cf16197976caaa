-- ===== src/Base/Results.antt =====
-- Rust's `Result`: a value or an error, with `map_err`, `and_then` (the `?` operator) and
-- `unwrap_or_else`.
use mathlib.Core.Path.{◌≡◌, refl}
use mathlib.Core.Logic.{◌⊎◌, inl, inr}

pub data Result {ℓ κ} (A : Type ℓ) (E : Type κ) : Type (ℓ ⊔ κ) where
  ok : A → Result A E
  err : E → Result A E

module _ {ℓ κ} {A : Type ℓ} {E : Type κ} where
  abbrev pub and_then {μ} : {B : Type μ} → Result A E → (A → Result B E) → Result B E
  and_then (ok a) f = f a
  and_then (err e) f = err e

  abbrev pub map_err {μ} : {F : Type μ} → (E → F) → Result A E → Result A F
  map_err f (ok a) = ok a
  map_err f (err e) = err (f e)

  abbrev pub unwrap_or_else : Result A E → (E → A) → A
  unwrap_or_else (ok a) f = a
  unwrap_or_else (err e) f = f e

  pub Result-cases : (r : Result A E) → ((a : A) × (r ≡ ok a)) ⊎ ((e : E) × (r ≡ err e))
  Result-cases (ok a) = inl (a, refl)
  Result-cases (err e) = inr (e, refl)
