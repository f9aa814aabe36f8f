-- ===== src/Prelude/Result.antt =====
-- The result of code that may fail, and the chain of such steps that `?` makes.
use mathlib.Core.Path.{◌≡◌, refl, ap}
use mathlib.Core.Logic.{◌⊎◌, inl, inr}

pub data Result {ℓ κ} (E : Type ℓ) (A : Type κ) : Type (ℓ ⊔ κ) where
  ok : A → Result E A
  err : E → Result E A

pub err_inj {ℓ κ} :
    {E : Type ℓ} {A : Type κ} {x y : E} → ◌≡◌ {A = Result E A} (err x) (err y) → x ≡ y
err_inj h = cc

module _ {ℓ κ ι} {E : Type ℓ} {A : Type κ} {B : Type ι} where
  infixl 5 ◌>>=◌
  abbrev pub ◌>>=◌ : Result E A → (A → Result E B) → Result E B
  ◌>>=◌ (ok a) next = next a
  ◌>>=◌ (err e) next = err e

  -- A chain that succeeded went through a value of its first step.
  pub first_step :
      (first : Result E A) (next : A → Result E B) {last : B}
      → (first >>= next) ≡ ok last
      → (a : A) × ((first ≡ ok a) × (next a ≡ ok last))
  first_step (err e) next h = cc
  first_step (ok a) next h = (a, (refl, h))

  -- A chain that failed did so at its first step, or after it.
  pub failed_step :
      (first : Result E A) (next : A → Result E B) {e : E}
      → (first >>= next) ≡ err e
      → (first ≡ err e) ⊎ ((a : A) × ((first ≡ ok a) × (next a ≡ err e)))
  failed_step (err x) next h = inl (ap err (err_inj h))
  failed_step (ok a) next h = inr (a, (refl, h))

pub ok_inj {ℓ κ} : {E : Type ℓ} {A : Type κ} {x y : A} → ◌≡◌ {A = Result E A} (ok x) (ok y) → x ≡ y
ok_inj h = cc

pub Result-cases {ℓ κ} :
    {E : Type ℓ} {A : Type κ} (r : Result E A) → ((a : A) × (r ≡ ok a)) ⊎ ((e : E) × (r ≡ err e))
Result-cases (ok a) = inl (a, refl)
Result-cases (err e) = inr (e, refl)
