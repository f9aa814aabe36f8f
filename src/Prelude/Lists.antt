-- ===== src/Prelude/Lists.antt =====
-- Lists measured by native numbers, and predicates on lists by recursion.
use Prim.Native.Nat.{ℕ, zero, suc, ◌+◌}
use mathlib.Core.Path.{◌≡◌, refl, sym, ap}
use mathlib.Core.Logic.{◌⊎◌, inl, inr}
use mathlib.Core.List.{List, [], ◌∷◌, ◌++◌, map}
use mathlib.Core.Bool.{Bool, false, ◌||◌}
use mathlib.Core.Option.{Option, none, some}
use commonware_restaking.Prelude.Tests.{some_inj}
use native.Mathlib.Omega.{arith}

module _ {ℓ} {A : Type ℓ} where
  abbrev pub length : List A → ℕ
  length [] = 0
  length (x ∷ xs) = suc (length xs)

  abbrev pub get_elem? : List A → ℕ → Option A
  get_elem? [] i = none
  get_elem? (x ∷ xs) zero = some x
  get_elem? (x ∷ xs) (suc i) = get_elem? xs i

  pub length-append : (xs ys : List A) → length (xs ++ ys) ≡ length xs + length ys
  length-append [] ys = omega arith
  length-append (x ∷ xs) ys = omega (arith, length-append xs ys)

  pub length-snoc : (xs : List A) (x : A) → length (xs ++ x ∷ []) ≡ suc (length xs)
  length-snoc xs x = omega (arith, length-append xs (x ∷ []))

  abbrev pub All {κ} : (A → Type κ) → List A → Type κ
  All P [] = Unit {κ}
  All P (x ∷ xs) = P x × All P xs

  pub All-append {κ} : (P : A → Type κ) (xs ys : List A) → All P xs → All P ys → All P (xs ++ ys)
  All-append P [] ys hx hy = hy
  All-append P (x ∷ xs) ys hx hy = (hx.0, All-append P xs ys hx.1 hy)

  pub All-front {κ} : (P : A → Type κ) (xs ys : List A) → All P (xs ++ ys) → All P xs
  All-front P [] ys h = tt
  All-front P (x ∷ xs) ys h = (h.0, All-front P xs ys h.1)

  pub All-back {κ} : (P : A → Type κ) (xs ys : List A) → All P (xs ++ ys) → All P ys
  All-back P [] ys h = h
  All-back P (x ∷ xs) ys h = All-back P xs ys h.1

  abbrev pub any : List A → (A → Bool) → Bool
  any [] p = false
  any (x ∷ xs) p = p x || any xs p

  pub any-snoc : (xs : List A) (x : A) (p : A → Bool) → any (xs ++ x ∷ []) p ≡ (any xs p || p x)
  any-snoc [] x p = ground arith
  any-snoc (y ∷ xs) x p = ground (arith, any-snoc xs x p)

  pub any-append : (xs ys : List A) (p : A → Bool) → any (xs ++ ys) p ≡ (any xs p || any ys p)
  any-append [] ys p = refl
  any-append (x ∷ xs) ys p = ground (arith, any-append xs ys p)

  pub All-map {κ ι} :
      (P : A → Type κ) (Q : A → Type ι) (xs : List A) → ((a : A) → P a → Q a) → All P xs → All Q xs
  All-map P Q [] f h = tt
  All-map P Q (x ∷ xs) f h = (f x h.0, All-map P Q xs f h.1)

pub length-map {ℓ κ} :
    {A : Type ℓ} {B : Type κ} (f : A → B) (xs : List A) → length (map f xs) ≡ length xs
length-map f [] = refl
length-map f (x ∷ xs) = ap suc (length-map f xs)

-- Two joined lists with equally long second parts are equal part by part.
pub append_inj_back {ℓ} :
    {A : Type ℓ} (xs ys us vs : List A)
    → length us ≡ length vs
    → xs ++ us ≡ ys ++ vs
    → (xs ≡ ys) × (us ≡ vs)
append_inj_back [] [] us vs h e = (refl, e)
append_inj_back [] (y ∷ ys) us vs h e = absurd (omega (arith, ap length e, length-append ys vs))
append_inj_back (x ∷ xs) [] us vs h e = absurd (omega (arith, ap length e, length-append xs us))
append_inj_back (x ∷ xs) (y ∷ ys) us vs h e =
    let (ex, eu) = append_inj_back xs ys us vs h (cc) in (cc, eu)

module _ {A : Type 0} where
  -- A member, with its place.
  abbrev pub IsIn : A → List A → Type 0
  IsIn x xs = (i : ℕ) × (get_elem? xs i ≡ some x)

  pub IsIn-append : (x : A) (xs ys : List A) → IsIn x xs → IsIn x (xs ++ ys)
  IsIn-append x [] ys (i, e) = cc
  IsIn-append x (y ∷ xs) ys (zero, e) = (zero, e)
  IsIn-append x (y ∷ xs) ys (suc i, e) =
      let rest = IsIn-append x xs ys (i, e) in (suc rest.0, rest.1)

  pub IsIn-last : (x : A) (xs : List A) → IsIn x (xs ++ x ∷ [])
  IsIn-last x [] = (0, refl)
  IsIn-last x (y ∷ xs) = let rest = IsIn-last x xs in (suc rest.0, rest.1)

  pub IsIn-snoc : (x : A) (xs : List A) (y : A) → IsIn x (xs ++ y ∷ []) → IsIn x xs ⊎ (x ≡ y)
  IsIn-snoc x [] y (zero, e) = inr (sym (some_inj e))
  IsIn-snoc x [] y (suc i, e) = cc
  IsIn-snoc x (z ∷ xs) y (zero, e) = inl (zero, e)
  IsIn-snoc x (z ∷ xs) y (suc i, e) = elim (IsIn-snoc x xs y (i, e)) [
    | inl (j, f) ↦ inl (suc j, f)
    | inr f ↦ inr f
  ]

  pub IsIn-middle : (xs : List A) (x : A) (ys : List A) → IsIn x (xs ++ x ∷ ys)
  IsIn-middle [] x ys = (0, refl)
  IsIn-middle (y ∷ xs) x ys = let rest = IsIn-middle xs x ys in (suc rest.0, rest.1)

  pub All-IsIn : (P : A → Type 0) (x : A) (xs : List A) → All P xs → IsIn x xs → P x
  All-IsIn P x [] a (i, e) = cc
  All-IsIn P x (y ∷ xs) a (zero, e) = rw (← some_inj e) a.0
  All-IsIn P x (y ∷ xs) a (suc i, e) = All-IsIn P x xs a.1 (i, e)

  pub append_inj_front : (xs ys zs : List A) → xs ++ ys ≡ xs ++ zs → ys ≡ zs
  append_inj_front [] ys zs e = e
  append_inj_front (x ∷ xs) ys zs e = append_inj_front xs ys zs (cc)

  pub get_elem?-append :
      (xs ys : List A) (i : ℕ) (x : A) → get_elem? xs i ≡ some x → get_elem? (xs ++ ys) i ≡ some x
  get_elem?-append [] ys i x e = cc
  get_elem?-append (y ∷ xs) ys zero x e = e
  get_elem?-append (y ∷ xs) ys (suc i) x e = get_elem?-append xs ys i x e

  pub get_elem?-length : (xs : List A) (x : A) → get_elem? (xs ++ x ∷ []) (length xs) ≡ some x
  get_elem?-length [] x = refl
  get_elem?-length (y ∷ xs) x = get_elem?-length xs x
