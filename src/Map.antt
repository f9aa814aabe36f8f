-- ===== src/Map.antt =====
-- The standard library's `BTreeMap` with `u64` keys, as the code uses it: an association list in
-- the order of the keys.
pub mod Laws
pub mod Order
use commonware_restaking.Prelude.{
  ℕ, ◌==◌, ltb, leb, if◌then◌else◌, is_some, Bool, List, [], ◌∷◌, ◌++◌, Option, none, some,
}

abbrev pub Map {ℓ} : Type ℓ → Type ℓ
Map V = List (ℕ × V)

module _ {ℓ} {V : Type ℓ} where
  unfoldable pub get : Map V → ℕ → Option V
  get [] k = none
  get ((j, v) ∷ m) k = if j == k then some v else get m k

  unfoldable pub insert : Map V → ℕ → V → Map V
  insert [] k v = (k, v) ∷ []
  insert ((j, w) ∷ m) k v =
      let rest = insert m k v in
      if ltb k j then (k, v) ∷ (j, w) ∷ m else if j == k then (k, v) ∷ m else (j, w) ∷ rest

  unfoldable pub remove : Map V → ℕ → Map V
  remove [] k = []
  remove ((j, w) ∷ m) k = let rest = remove m k in if j == k then rest else (j, w) ∷ rest

  -- `m.split_off(&floor)`: the entries at `floor` and above.
  unfoldable pub split_off : Map V → ℕ → Map V
  split_off [] floor = []
  split_off ((j, w) ∷ m) floor =
      let rest = split_off m floor in if leb floor j then (j, w) ∷ rest else rest

  -- The keys of `m.range(..bound)`.
  unfoldable pub keys_below : Map V → ℕ → List ℕ
  keys_below [] bound = []
  keys_below ((j, w) ∷ m) bound =
      let rest = keys_below m bound in if ltb j bound then j ∷ rest else rest

  unfoldable pub values : Map V → List V
  values [] = []
  values ((j, w) ∷ m) = w ∷ values m

  abbrev pub contains : Map V → ℕ → Bool
  contains m k = is_some (get m k)
