-- ===== src/Map/Laws.antt =====
-- What a read returns after each operation. No law asks that the keys are in order.
use commonware_restaking.Prelude.{
  ℕ, ◌≡◌, refl, ◌==◌, ltb, leb, if◌then◌else◌, ◌&&◌, Bool, true, false, List, [], ◌∷◌, none, some,
  arith,
}
use commonware_restaking.Map.{Map, get, insert, remove, split_off, keys_below, contains}

abbrev pub mem : ℕ → List ℕ → Bool
mem k [] = false
mem k (j ∷ js) = if j == k then true else mem k js

module _ {ℓ} {V : Type ℓ} where
  pub get-insert :
      (m : Map V) (k j : ℕ) (v : V) → get (insert m k v) j ≡ (if k == j then some v else get m j)
  unfolding get insert
  get-insert [] k j v = refl
  get-insert ((i, w) ∷ m) k j v = ground (arith, get-insert m k j v)

  pub get-remove : (m : Map V) (k j : ℕ) → get (remove m k) j ≡ (if k == j then none else get m j)
  unfolding get remove
  get-remove [] k j = ground arith
  get-remove ((i, w) ∷ m) k j = ground (arith, get-remove m k j)

  pub get-split_off :
      (m : Map V) (floor j : ℕ)
      → get (split_off m floor) j ≡ (if leb floor j then get m j else none)
  unfolding get split_off
  get-split_off [] floor j = ground arith
  get-split_off ((i, w) ∷ m) floor j = ground (arith, get-split_off m floor j)

  pub mem-keys_below :
      (m : Map V) (bound j : ℕ) → mem j (keys_below m bound) ≡ (ltb j bound && contains m j)
  unfolding get keys_below
  mem-keys_below [] bound j = ground arith
  mem-keys_below ((i, w) ∷ m) bound j = ground (arith, mem-keys_below m bound j)

pub ruleset map_laws = (get-insert, get-remove, get-split_off, mem-keys_below)
