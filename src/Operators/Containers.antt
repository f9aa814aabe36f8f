-- ===== src/Operators/Containers.antt =====
-- The ordered map and set of numbers as lists in order, for the tests: a container that meets the contract.
use mathlib.Core.Option
use commonware_restaking.Prelude.{
  ℕ, zero, suc, ◌≤◌, ◌≡◌, refl, sym, ap, ◌∙◌, get_elem?, map, is_some, some, List, [], ◌∷◌, inl,
  inr, Option-cases, some_inj, arith,
}
use commonware_restaking.Bn254.Toy.{number_eq}
use commonware_restaking.Map
use commonware_restaking.Map.{Map}
use commonware_restaking.Map.Laws.{get-insert}
use commonware_restaking.Map.Order.{From, insert-From}
use commonware_restaking.Operators.Participants.{Ordered}
use commonware_restaking.Operators.Agreement.{first_of, has, IsOrdered}

-- An earlier pair is inserted later and replaces the others with its key.
unfoldable pub collected : {X : Type 0} → List (ℕ × X) → Map X
collected [] = []
collected ((y, x) ∷ ps) = Map.insert (collected ps) y x

abbrev pub sorted : {X : Type 0} → Ordered X ℕ
sorted = record {
  map_from = collected;
  set_from = λ ys. map (λ p. p.0) (collected (map (λ y. (y, y)) ys));
}

insert_front :
    {X : Type 0} (k : ℕ) (x : X) (m : Map X) → From (suc k) m → Map.insert m k x ≡ (k, x) ∷ m
unfolding Map.insert
insert_front k x [] f = refl
insert_front k x ((j, w) ∷ m) f = ground arith

module _ {X : Type 0} where
  collected-From : (ps : List (ℕ × X)) → From 0 (collected ps)
  unfolding collected
  collected-From [] = tt
  collected-From ((y, x) ∷ ps) = insert-From 0 y x (collected ps) (omega arith) (collected-From ps)

  get-collected : (ps : List (ℕ × X)) (y : ℕ) → Map.get (collected ps) y ≡ first_of y ps
  unfolding collected first_of Map.get
  get-collected [] y = refl
  get-collected ((k, x) ∷ ps) y =
      ground (arith, get-insert (collected ps) k y x, get-collected ps y)

  has-get : (m : Map X) (y : ℕ) → has (map (λ p. p.0) m) y ≡ Map.contains m y
  unfolding Map.get
  has-get [] y = refl
  has-get ((k, x) ∷ m) y = ground (arith, has-get m y)

  get-first_of : (ps : List (ℕ × X)) (y : ℕ) → Map.get ps y ≡ first_of y ps
  unfolding first_of Map.get
  get-first_of [] y = refl
  get-first_of ((k, x) ∷ ps) y = ground (arith, get-first_of ps y)

  entry_above :
      (n : ℕ) (m : Map X) (i : ℕ) (p : ℕ × X) → From n m → get_elem? m i ≡ some p → n ≤ p.0
  entry_above n [] i p f e = cc
  entry_above n ((k, x) ∷ m) zero p f e = let same : (k, x) ≡ p = some_inj e in rw (sym same) (f.0)
  entry_above n ((k, x) ∷ m) (suc i) p f e = omega (arith, entry_above (suc k) m i p f.1 e, f.0)

  get-get_elem? :
      (n : ℕ) (m : Map X) (i : ℕ) (p : ℕ × X)
      → From n m
      → get_elem? m i ≡ some p
      → Map.get m p.0 ≡ some p.1
  unfolding Map.get
  get-get_elem? n [] i p f e = cc
  get-get_elem? n ((k, x) ∷ m) zero p f e =
      let same : (k, x) ≡ p = some_inj e in rw (sym same) (ground arith)
  get-get_elem? n ((k, x) ∷ m) (suc i) p f e =
      ground (arith, entry_above (suc k) m i p f.1 e, get-get_elem? (suc k) m i p f.1 e)

  values-collected :
      (ps : List (ℕ × X)) (i : ℕ)
      → Option.map (λ p. first_of p.0 ps) (get_elem? (collected ps) i)
        ≡ Option.map (λ p. some p.1) (get_elem? (collected ps) i)
  values-collected ps i = elim (Option-cases (get_elem? (collected ps) i)) [
    | inl e ↦ rw e refl
    | inr (p, e) ↦ rw e (
        ap some
          (sym (get-collected ps p.0) ∙ get-get_elem? 0 (collected ps) i p (collected-From ps) e))
  ]

  has-collected :
      (ps : List (ℕ × X)) (y : ℕ)
      → has (map (λ p. p.0) (collected ps)) y ≡ has (map (λ p. p.0) ps) y
  has-collected ps y =
      has-get (collected ps) y
      ∙ ap is_some (get-collected ps y ∙ sym (get-first_of ps y))
      ∙ sym (has-get ps y)

  -- The keys of a map in order, collected again.
  keys_again :
      (n : ℕ) (m : Map X)
      → From n m
      → From n (collected (map (λ y. (y, y)) (map (λ p. p.0) m)))
        × (map (λ p. p.0) (collected (map (λ y. (y, y)) (map (λ p. p.0) m))) ≡ map (λ p. p.0) m)
  unfolding collected
  keys_again n [] f = (tt, refl)
  keys_again n ((k, x) ∷ m) f =
      let again = keys_again (suc k) m f.1 in
      rw (insert_front k k (collected (map (λ y. (y, y)) (map (λ p. p.0) m))) again.0)
        ((f.0, again.0), ap {B = List ℕ} (λ (ks : List ℕ). k ∷ ks) again.1)

pub sorted-IsOrdered : {X : Type 0} → IsOrdered {X = X} sorted
sorted-IsOrdered = record {
  set_keys = λ ps. (keys_again 0 (collected ps) (collected-From ps)).1;
  has_keys = has-collected;
  first_values = values-collected;
}
