-- ===== src/Bn254/Signing.antt =====
-- core/src/bn254/mod.rs: what was signed verifies, alone and aggregated.
use commonware_restaking.Prelude.{
  ℕ, ◌≡◌, refl, sym, ap, ◌∙◌, length, true, none, some, List, [], ◌∷◌, map,
}
use commonware_restaking.Prelude.Eq.{TestsEq}
use commonware_restaking.Bn254.{
  Curve, from_scalar, payload_hash, sign, sign_digest, aggregate_from, aggregate_signatures,
  public_from, verify, verify_digest, aggregate_verify, digest_length,
}

-- The pairing is bilinear, with values in a group of its own, written `mul`.
pub record IsBilinear {X Y Z : Type 0} (c : Curve X Y Z) : Type 0 where
  pub one : Z
  pub mul : Z → Z → Z
  pub zero_left : (q : Y) → c.pairing c.zero1 q ≡ one
  pub zero_right : (p : X) → c.pairing p c.zero2 ≡ one
  pub add_left : (p r : X) (q : Y) → c.pairing (c.add1 p r) q ≡ mul (c.pairing p q) (c.pairing r q)
  pub add_right : (p : X) (q r : Y) → c.pairing p (c.add2 q r) ≡ mul (c.pairing p q) (c.pairing p r)
  pub scalar : (p : X) (q : Y) (k : ℕ) → c.pairing (c.mul1 p k) q ≡ c.pairing p (c.mul2 q k)

module _ {X Y Z : Type 0} (c : Curve X Y Z) (b : IsBilinear c) where
  pub aggregate_balanced :
      (h : X) (keys : List ℕ) (signature : X) (public : Y)
      → c.pairing h public ≡ c.pairing signature c.generator2
      → c.pairing h (public_from c public (map (λ k. (from_scalar c k).public_key) keys))
        ≡ c.pairing (aggregate_from c signature (map (c.mul1 h) keys)) c.generator2
  unfolding public_from aggregate_from from_scalar
  aggregate_balanced h [] signature public e = e
  aggregate_balanced h (k ∷ keys) signature public e =
      aggregate_balanced h keys (c.add1 signature (c.mul1 h k))
        (c.add2 public (c.mul2 c.generator2 k))
        (b.add_right h public (c.mul2 c.generator2 k)
          ∙ (rw (e, sym (b.scalar h c.generator2 k)) refl)
          ∙ sym (b.add_left signature (c.mul1 h k) c.generator2))

  pub payload_hash-digest :
      (digest : List ℕ) → length digest ≡ digest_length → payload_hash c [] digest ≡ digest
  unfolding payload_hash
  payload_hash-digest digest l = rw l refl

  sign-digest :
      (k : ℕ) (digest : List ℕ)
      → length digest ≡ digest_length
      → sign c (from_scalar c k) [] digest ≡ sign_digest c (from_scalar c k) digest
  unfolding sign sign_digest
  sign-digest k digest l =
      ap (λ m. c.mul1 (c.map_to_curve m) (from_scalar c k).private) (payload_hash-digest digest l)

  module _ ⦃eq : TestsEq Z⦄ where
    -- If the pairing is bilinear, a signature of a 32-byte digest verifies under the signer's public key, by
    -- `verify_digest` and, without a namespace, by the general `verify`, which signs the same point.
    pub verify-sign :
        (k : ℕ) (digest : List ℕ)
        → length digest ≡ digest_length
        → (verify_digest c
              (from_scalar c k).public_key
              digest
              (sign_digest c (from_scalar c k) digest)
            ≡ true)
          × ((sign c (from_scalar c k) [] digest ≡ sign_digest c (from_scalar c k) digest)
              × (verify c
                    (from_scalar c k).public_key
                    []
                    digest
                    (sign c (from_scalar c k) [] digest)
                  ≡ true))
    unfolding verify_digest sign_digest verify from_scalar
    verify-sign k digest l =
        let holds =
          (eq.test_iff (c.pairing (c.map_to_curve digest) (c.mul2 c.generator2 k))
              (c.pairing (c.mul1 (c.map_to_curve digest) k) c.generator2)).1
            (sym (b.scalar (c.map_to_curve digest) c.generator2 k)) in
        (
          holds,
          (sign-digest k digest l, rw (sign-digest k digest l, payload_hash-digest digest l) holds),
        )

    -- If the pairing is bilinear, the signatures that any list of signers give a 32-byte digest aggregate to
    -- one that verifies, in one check, against the aggregate of their public keys.
    pub aggregate_verify-aggregate_signatures :
        (keys : List ℕ) (digest : List ℕ)
        → length digest ≡ digest_length
        → (signature : X) × ((aggregate_signatures c
                (map (λ k. sign_digest c (from_scalar c k) digest) keys)
              ≡ some signature)
            × (aggregate_verify c
                  (map (λ k. (from_scalar c k).public_key) keys)
                  none
                  digest
                  signature
                ≡ true))
    unfolding aggregate_signatures sign_digest aggregate_verify verify payload_hash from_scalar
    aggregate_verify-aggregate_signatures keys digest l =
        let balanced =
          aggregate_balanced (c.map_to_curve digest) keys c.zero1 c.zero2
            (b.zero_right (c.map_to_curve digest) ∙ sym (b.zero_left c.generator2)) in
        (_, (refl, rw l ((eq.test_iff _ _).1 balanced)))
