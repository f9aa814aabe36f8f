-- ===== src/Map/Order.antt =====
-- The keys of a map rise, so that no key stands twice.
use commonware_restaking.Prelude.{ℕ, suc, ◌≤◌, ◌<◌, ◌≡◌, refl, [], ◌∷◌, none, arith}
use commonware_restaking.Map.{Map, get, insert, remove, split_off}

-- The keys rise, and the first is at least `n`.
abbrev pub From {ℓ} : {V : Type ℓ} → ℕ → Map V → Type 0
From n [] = Unit {0}
From n ((k, v) ∷ m) = (n ≤ k) × From (suc k) m

module _ {ℓ} {V : Type ℓ} where
  pub From-mono : (n p : ℕ) (m : Map V) → n ≤ p → From p m → From n m
  From-mono n p [] h f = tt
  From-mono n p ((k, v) ∷ m) h f = (omega arith, f.1)

  pub get_below : (n k : ℕ) (m : Map V) → From n m → k < n → get m k ≡ none
  unfolding get
  get_below n k [] f h = refl
  get_below n k ((j, v) ∷ m) f h = ground (arith, get_below (suc j) k m f.1)

  pub insert-From : (n k : ℕ) (v : V) (m : Map V) → n ≤ k → From n m → From n (insert m k v)
  unfolding insert
  insert-From n k v [] h f = (h, tt)
  insert-From n k v ((j, w) ∷ m) h f = ground (arith, insert-From (suc j) k v m)

  pub remove-From : (n k : ℕ) (m : Map V) → From n m → From n (remove m k)
  unfolding remove
  remove-From n k [] f = tt
  remove-From n k ((j, w) ∷ m) f =
      ground (arith, remove-From (suc j) k m f.1, From-mono n (suc j) (remove m k))

  pub split_off-From : (n k : ℕ) (m : Map V) → From n m → From n (split_off m k)
  unfolding split_off
  split_off-From n k [] f = tt
  split_off-From n k ((j, w) ∷ m) f =
      ground (arith, split_off-From (suc j) k m f.1, From-mono n (suc j) (split_off m k))
