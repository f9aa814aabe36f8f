-- ===== src/Prelude/Eq.antt =====
-- Equality tests, as an instance for each type that the code compares by `==`.
use mathlib.Core.Path.{◌≡◌}
use mathlib.Core.Logic.{◌↔◌}
use mathlib.Core.Bool.{Bool, true}

-- `PartialEq`, where the test is that of equality.
pub record TestsEq {ℓ} (A : Type ℓ) : Type ℓ where
  pub test : A → A → Bool
  pub test_iff : (x y : A) → (test x y ≡ true) ↔ (x ≡ y)

infix 50 ◌=?◌
abbrev pub ◌=?◌ {ℓ} : {A : Type ℓ} ⦃t : TestsEq A⦄ → A → A → Bool
◌=?◌ ⦃t⦄ x y = t.test x y
