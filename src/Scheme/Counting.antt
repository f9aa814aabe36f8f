-- ===== src/Scheme/Counting.antt =====
-- Two sets of indices below `n` share as many as they have together over `n`.
use commonware_restaking.Prelude.{
  ℕ, zero, suc, ◌+◌, ◌<◌, ◌≤◌, ◌≡◌, refl, if◌then◌else◌, Bool, length, List, [], ◌∷◌, All, arith,
}
use commonware_restaking.Map.Laws.{mem}
use commonware_restaking.Scheme.Products.{
  IsCommutative, Distinct, product, product_below, product-product_below,
}

-- How many of the first list stand in the second.
abbrev pub shared : List ℕ → List ℕ → ℕ
shared [] ys = 0
shared (x ∷ xs) ys = (if mem x ys then 1 else 0) + shared xs ys

pub sum-IsCommutative : IsCommutative 0 ◌+◌
sum-IsCommutative = record {
  unit = λ z. omega arith;
  commute = λ x y. omega arith;
  associate = λ x y z. omega arith;
}

pub length_of_ones : (xs : List ℕ) → length xs ≡ product 0 ◌+◌ (λ j. 1) xs
length_of_ones [] = refl
length_of_ones (x ∷ xs) = omega (arith, length_of_ones xs)

shared_as_sum : (xs ys : List ℕ) → shared xs ys ≡ product 0 ◌+◌ (λ j. if mem j ys then 1 else 0) xs
shared_as_sum [] ys = refl
shared_as_sum (x ∷ xs) ys = omega (arith, shared_as_sum xs ys)

overlap :
    (n : ℕ) (p q : ℕ → Bool)
    → product_below 0 ◌+◌ (λ j. 1) n p + product_below 0 ◌+◌ (λ j. 1) n q
      ≤ n + product_below 0 ◌+◌ (λ j. if q j then 1 else 0) n p
overlap zero p q = omega arith
overlap (suc n) p q = ground (arith, overlap n p q)

pub length-le-shared :
    (n : ℕ) (xs ys : List ℕ)
    → Distinct xs
    → All (λ i. i < n) xs
    → Distinct ys
    → All (λ i. i < n) ys
    → length xs + length ys ≤ n + shared xs ys
length-le-shared n xs ys dx rx dy ry = omega (
  arith,
  overlap n (λ j. mem j xs) (λ j. mem j ys),
  length_of_ones xs,
  length_of_ones ys,
  shared_as_sum xs ys,
  product-product_below 0 ◌+◌ (λ j. 1) sum-IsCommutative n xs dx rx,
  product-product_below 0 ◌+◌ (λ j. 1) sum-IsCommutative n ys dy ry,
  product-product_below 0 ◌+◌ (λ j. if mem j ys then 1 else 0) sum-IsCommutative n xs dx rx,
)
