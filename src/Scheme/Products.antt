-- ===== src/Scheme/Products.antt =====
-- A product over a list of different indices depends on which indices they are, not on their order.
use commonware_restaking.Prelude.{
  ℕ, zero, suc, ◌<◌, ◌≤◌, ◌≡◌, refl, sym, ap, ◌∙◌, ◌==◌, ==_iff, if◌then◌else◌, Bool, true, false,
  inl, inr, List, [], ◌∷◌, All, Bool-cases, arith,
}
use commonware_restaking.Map.Laws.{mem}

pub record IsCommutative {Z : Type 0} (one : Z) (mul : Z → Z → Z) : Type 0 where
  pub unit : (z : Z) → mul one z ≡ z
  pub commute : (x y : Z) → mul x y ≡ mul y x
  pub associate : (x y z : Z) → mul (mul x y) z ≡ mul x (mul y z)

-- No index stands twice.
abbrev pub Distinct : List ℕ → Type 0
Distinct [] = Unit
Distinct (x ∷ xs) = (mem x xs ≡ false) × Distinct xs

module _ {Z : Type 0} (one : Z) (mul : Z → Z → Z) (f : ℕ → Z) where
  abbrev pub product : List ℕ → Z
  product [] = one
  product (x ∷ xs) = mul (f x) (product xs)

  -- Over the indices below `n` that are in a set.
  abbrev pub product_below : ℕ → (ℕ → Bool) → Z
  product_below zero p = one
  product_below (suc n) p = mul (if p n then f n else one) (product_below n p)

  module _ (c : IsCommutative one mul) where
    -- An index that is not in the set and not below `n` changes nothing.
    below_outside :
        (n x : ℕ) (p : ℕ → Bool)
        → n ≤ x
        → product_below n (λ j. if x == j then true else p j) ≡ product_below n p
    below_outside zero x p h = refl
    below_outside (suc n) x p h =
        let differ : (x == n) ≡ false = ground arith in
        rw (differ, below_outside n x p (omega arith)) refl

    swap : (x y z : Z) → mul x (mul y z) ≡ mul y (mul x z)
    swap x y z = sym (c.associate x y z) ∙ ap (λ w. mul w z) (c.commute x y) ∙ c.associate y x z

    below_added :
        (n x : ℕ) (p : ℕ → Bool)
        → x < n
        → p x ≡ false
        → product_below n (λ j. if x == j then true else p j) ≡ mul (f x) (product_below n p)
    below_added zero x p h e = absurd (omega (arith, h))
    below_added (suc n) x p h e = elim (Bool-cases (x == n)) [
      | inl same ↦
          let here : x ≡ n = (==_iff x n).0 same in
          let absent : p n ≡ false = rw here at e in
          rw (same, absent, c.unit (product_below n p), below_outside n x p (omega (arith, here)))
            (ap (λ k. mul (f k) (product_below n p)) (sym here))
      | inr differ ↦
          let below : x < n = ground arith in
          rw (differ, below_added n x p below e)
            (swap (if p n then f n else one) (f x) (product_below n p))
    ]

    product_none : (n : ℕ) → product_below n (λ j. false) ≡ one
    product_none zero = refl
    product_none (suc n) = c.unit (product_below n (λ j. false)) ∙ product_none n

    pub product-product_below :
        (n : ℕ) (xs : List ℕ)
        → Distinct xs
        → All (λ i. i < n) xs
        → product xs ≡ product_below n (λ j. mem j xs)
    product-product_below n [] d r = sym (product_none n)
    product-product_below n (x ∷ xs) d r =
        ap (mul (f x)) (product-product_below n xs d.1 r.1)
        ∙ sym (below_added n x (λ j. mem j xs) r.0 d.0)

    product_below_same :
        (n : ℕ) (p q : ℕ → Bool) → ((j : ℕ) → p j ≡ q j) → product_below n p ≡ product_below n q
    product_below_same zero p q h = refl
    product_below_same (suc n) p q h = rw (h n, product_below_same n p q h) refl

    -- Two lists of the same different indices have the same product.
    pub product_same :
        (n : ℕ) (xs ys : List ℕ)
        → Distinct xs
        → All (λ i. i < n) xs
        → Distinct ys
        → All (λ i. i < n) ys
        → ((j : ℕ) → mem j xs ≡ mem j ys)
        → product xs ≡ product ys
    product_same n xs ys dx rx dy ry h =
        product-product_below n xs dx rx
        ∙ product_below_same n (λ j. mem j xs) (λ j. mem j ys) h
        ∙ sym (product-product_below n ys dy ry)
