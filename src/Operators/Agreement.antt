-- ===== src/Operators/Agreement.antt =====
-- examples/counter: node/src/app.rs and router/src/app.rs: the two sides build the same scheme, so that the
-- router takes the attestations of every registered node.
use mathlib.Core.Option
use commonware_restaking.Prelude.{
  ℕ, zero, suc, ◌≡◌, refl, sym, ap, ◌∙◌, ◌==◌, ==_refl, if◌then◌else◌, length, length-map,
  get_elem?, any, map, Bool, true, false, Option, none, some, List, [], ◌∷◌, inl, inr, Bool-cases,
  arith,
}
use commonware_restaking.Prelude.Result.{ok, ok_inj, ◌>>=◌}
use commonware_restaking.Prelude.Eq.{TestsEq, ◌=?◌}
use commonware_restaking.Bn254.{Curve, from_scalar, digest_length}
use commonware_restaking.Bn254.Signing.{IsBilinear}
use commonware_restaking.Scheme.{
  Attestation, Bn254Scheme, index_of, validate_participants, signer, verifier, sign,
  verify_attestation,
}
use commonware_restaking.Scheme.Certificates.{verify_attestation-sign}
use commonware_restaking.Operators.{OperatorInfo}
use commonware_restaking.Operators.Participants.{
  Ordered, key_pairs, scheme_keys, expect_signer, expect_verifier, node_scheme, router_scheme,
}

-- The first value of a key.
unfoldable pub first_of : {X Y : Type 0} ⦃eq : TestsEq Y⦄ → Y → List (Y × X) → Option X
first_of y [] = none
first_of y ((k, x) ∷ ps) = if k =? y then some x else first_of y ps

abbrev pub has : {Y : Type 0} ⦃eq : TestsEq Y⦄ → List Y → Y → Bool
has ys y = any ys (λ k. k =? y)

-- The contract of the crate's containers: a map has the keys of the pairs, each with its first value, and its
-- keys are a set already, in the same order.
pub record IsOrdered {X Y : Type 0} ⦃eq : TestsEq Y⦄ (ordered : Ordered X Y) : Type 0 where
  pub set_keys :
      (ps : List (Y × X))
      → ordered.set_from (map (λ p. p.0) (ordered.map_from ps))
        ≡ map (λ p. p.0) (ordered.map_from ps)
  pub has_keys :
      (ps : List (Y × X)) (y : Y)
      → has (map (λ p. p.0) (ordered.map_from ps)) y ≡ has (map (λ p. p.0) ps) y
  pub first_values :
      (ps : List (Y × X)) (i : ℕ)
      → Option.map (λ p. first_of p.0 ps) (get_elem? (ordered.map_from ps) i)
        ≡ Option.map (λ p. some p.1) (get_elem? (ordered.map_from ps) i)

get_elem?-map :
    {A B : Type 0} (f : A → B) (xs : List A) (i : ℕ)
    → get_elem? (map f xs) i ≡ Option.map f (get_elem? xs i)
get_elem?-map f [] i = refl
get_elem?-map f (x ∷ xs) zero = refl
get_elem?-map f (x ∷ xs) (suc i) = get_elem?-map f xs i

map_twice :
    {A B C : Type 0} (f : B → C) (g : A → B) (o : Option A)
    → Option.map f (Option.map g o) ≡ Option.map (λ a. f (g a)) o
map_twice f g none = refl
map_twice f g (some a) = refl

module _ {Y : Type 0} ⦃eq : TestsEq Y⦄ where
  index_of-has : (ys : List Y) (y : Y) → has ys y ≡ true → (i : ℕ) × (index_of ys y ≡ some i)
  unfolding index_of
  index_of-has [] y h = cc
  index_of-has (k ∷ ks) y h = elim (Bool-cases (k =? y)) [
    | inl e ↦ (0, rw (e, index_of) refl)
    | inr e ↦
        let rest = index_of-has ks y (rw e at h) in (suc rest.0, rw (e, rest.1, index_of) refl)
  ]

  not_empty : (ys : List Y) (y : Y) → has ys y ≡ true → (length ys == 0) ≡ false
  not_empty [] y h = cc
  not_empty (k ∷ ks) y h = ground arith

some_operators :
    {X Y S : Type 0} ⦃eq : TestsEq Y⦄ (operators : List (OperatorInfo X Y S)) (pairs : List (Y × X))
    (y : Y)
    → key_pairs operators ≡ ok pairs
    → has (map (λ p. p.0) pairs) y ≡ true
    → (length operators == 0) ≡ false
unfolding key_pairs
some_operators {X} {Y} [] pairs y k h =
    let p : ◌≡◌ {A = List (Y × X)} [] pairs = ok_inj k in let bad = rw (sym p) at h in cc
some_operators (o ∷ operators) pairs y k h = ground arith

module _ {X Y Z S : Type 0} (c : Curve X Y Z) (ordered : Ordered X Y) ⦃eqY : TestsEq Y⦄
    (l : IsOrdered ordered) (operators : List (OperatorInfo X Y S)) (pairs : List (Y × X))
    (keyed : key_pairs operators ≡ ok pairs) (y : Y)
    (registered : has (map (λ p. p.0) pairs) y ≡ true) where
  abbrev participants : List Y
  participants = map (λ p. p.0) (ordered.map_from pairs)

  abbrev g1_keys : List X
  g1_keys = map (λ p. p.1) (ordered.map_from pairs)

  scheme_keys-found : scheme_keys ordered operators ≡ ok (participants, g1_keys)
  unfolding scheme_keys
  scheme_keys-found =
      rw (some_operators operators pairs y keyed registered, keyed, scheme_keys, l.set_keys pairs)
        refl

  has_participant : has participants y ≡ true
  has_participant = l.has_keys pairs y ∙ registered

  valid : validate_participants c participants g1_keys ≡ true
  unfolding validate_participants
  valid =
      rw
        (
          not_empty participants y has_participant,
          length-map (λ p. p.0) (ordered.map_from pairs),
          length-map (λ p. p.1) (ordered.map_from pairs),
          ==_refl (length (ordered.map_from pairs)),
        )
        refl

  aligned :
      (i : ℕ)
      → Option.map (λ k. first_of k pairs) (get_elem? participants i)
        ≡ Option.map (λ x. some x) (get_elem? g1_keys i)
  aligned i =
      let ps = ordered.map_from pairs in
      ap (Option.map (λ k. first_of k pairs)) (get_elem?-map (λ p. p.0) ps i)
      ∙ map_twice (λ k. first_of k pairs) (λ p. p.0) (get_elem? ps i)
      ∙ l.first_values pairs i
      ∙ sym (map_twice (λ x. some x) (λ p. p.1) (get_elem? ps i))
      ∙ sym (ap (Option.map (λ x. some x)) (get_elem?-map (λ p. p.1) ps i))

  verifier-keys :
      verifier c participants g1_keys
      ≡ ok (record { participants = participants; g1_keys = g1_keys; me_signer = none })
  unfolding verifier
  verifier-keys = rw (valid, verifier) refl

-- What the two sides are after startup, and one attestation.
pub record Agree {X Y Z S : Type 0} (c : Curve X Y Z) (ordered : Ordered X Y) ⦃eqY : TestsEq Y⦄
    ⦃eqZ : TestsEq Z⦄ (operators : List (OperatorInfo X Y S)) (pairs : List (Y × X))
    (private_key : ℕ) (digest : List ℕ) : Type 0 where
  pub node : Bn254Scheme c
  pub router : Bn254Scheme c
  pub attestation : Attestation X
  pub node_built : node_scheme c ordered operators private_key ≡ ok node
  pub router_built : router_scheme c ordered operators ≡ ok router
  pub same_participants : node.participants ≡ router.participants
  pub same_g1_keys : node.g1_keys ≡ router.g1_keys
  pub first_keys :
      (i : ℕ)
      → Option.map (λ k. first_of k pairs) (get_elem? router.participants i)
        ≡ Option.map (λ x. some x) (get_elem? router.g1_keys i)
  pub signed : sign c node digest ≡ some attestation
  pub taken : verify_attestation c router digest attestation ≡ true

-- If the pairing is bilinear, the containers are lawful, every operator of the quorum has keys and a node's own
-- key is among them, neither side panics over the
-- scheme: node and router build the same participants and G1 keys, where each participant has the G1 key of
-- the first operator with its G2 key; and the node attests every 32-byte digest, and the router accepts that.
pub node_scheme-router_scheme :
    {X Y Z S : Type 0} (c : Curve X Y Z) (ordered : Ordered X Y) ⦃eqY : TestsEq Y⦄ ⦃eqZ : TestsEq Z⦄
    (operators : List (OperatorInfo X Y S)) (pairs : List (Y × X)) (private_key : ℕ)
    (digest : List ℕ)
    → IsBilinear c
    → IsOrdered ordered
    → key_pairs operators ≡ ok pairs
    → has (map (λ p. p.0) pairs) (from_scalar c private_key).public_key ≡ true
    → length digest ≡ digest_length
    → Agree c ordered operators pairs private_key digest
unfolding node_scheme router_scheme expect_signer expect_verifier signer
node_scheme-router_scheme c ordered operators pairs private_key digest b l keyed registered digits =
    let key = (from_scalar c private_key).public_key in
    let ps = participants c ordered l operators pairs keyed key registered in
    let gs = g1_keys c ordered l operators pairs keyed key registered in
    let keys = scheme_keys-found c ordered l operators pairs keyed key registered in
    let found =
      index_of-has ps key (has_participant c ordered l operators pairs keyed key registered) in
    let is_valid = valid c ordered l operators pairs keyed key registered in
    let node : Bn254Scheme c = record {
      participants = ps;
      g1_keys = gs;
      me_signer = some (found.0, from_scalar c private_key);
    } in
    let router : Bn254Scheme c = record { participants = ps; g1_keys = gs; me_signer = none } in
    let built : signer c ps gs private_key ≡ ok (some node) = rw (is_valid, found.1, signer) refl in
    let made = verify_attestation-sign c b ps gs private_key node router digest built refl digits in
    record {
      node = node;
      router = router;
      attestation = made.0;
      node_built =
          ap
            (λ r. r >>= λ (participants, g1_keys).
              expect_signer (signer c participants g1_keys private_key))
            keys
          ∙ ap expect_signer built;
      router_built =
          ap
            (λ r.
              r >>= λ (participants, g1_keys). expect_verifier (verifier c participants g1_keys))
            keys
          ∙ ap expect_verifier (verifier-keys c ordered l operators pairs keyed key registered);
      same_participants = refl;
      same_g1_keys = refl;
      first_keys = aligned c ordered l operators pairs keyed key registered;
      signed = made.1.0;
      taken = made.1.1;
    }
