-- ===== src/Bn254.antt =====
-- core/src/bn254/mod.rs: signatures over BN254, one and aggregated. The arkworks groups and their
-- pairing, `map_to_curve` of the eigen crates, SHA-256 and `union_unique` are a record of functions; a
-- scalar is a number, and points are not told from their affine form or their serialization.
pub mod Signing
pub mod Encoding
pub mod Keys
pub mod Toy
mod Tests
use commonware_restaking.Prelude.{
  ℕ, ◌==◌, if◌then◌else◌, or_default, ◌&&◌, length, Bool, Option, none, some, List, [], ◌∷◌,
}
use commonware_restaking.Prelude.Eq.{TestsEq, ◌=?◌}

pub record Curve (X Y Z : Type 0) : Type 0 where
  pub zero1 : X
  pub generator1 : X
  pub add1 : X → X → X
  pub mul1 : X → ℕ → X
  pub zero2 : Y
  pub generator2 : Y
  pub add2 : Y → Y → Y
  pub mul2 : Y → ℕ → Y
  pub pairing : X → Y → Z
  pub map_to_curve : List ℕ → X
  pub sha256 : List ℕ → List ℕ
  pub union_unique : List ℕ → List ℕ → List ℕ

abbrev pub digest_length : ℕ
digest_length = 32

module _ {X Y Z : Type 0} (c : Curve X Y Z) where
  -- `Bn254`: the private scalar and the public point.
  pub record KeyPair : Type 0 where
    pub private : ℕ
    pub public_key : Y

  unfoldable pub from_scalar : ℕ → KeyPair
  from_scalar k = record { private = k; public_key = c.mul2 c.generator2 k }

  -- The signer of a decimal string; `none` is the panic for a string that is no scalar.
  unfoldable pub get_signer : (List ℕ → Option ℕ) → List ℕ → Option KeyPair
  unfolding from_scalar
  get_signer parse_scalar key = elim (parse_scalar key) [
    | none ↦ none
    | some k ↦ some (from_scalar k)
  ]

  unfoldable pub public_g1 : KeyPair → X
  public_g1 pair = c.mul1 c.generator1 pair.private

  -- The hash of `sign` and `verify`: a bare digest is not hashed again.
  unfoldable pub payload_hash : List ℕ → List ℕ → List ℕ
  payload_hash namespace message =
      if (length namespace == 0) && (length message == digest_length)
      then message
      else c.sha256 (if length namespace == 0 then message else c.union_unique namespace message)

  unfoldable pub sign : KeyPair → List ℕ → List ℕ → X
  unfolding payload_hash
  sign pair namespace message =
      c.mul1 (c.map_to_curve (payload_hash namespace message)) pair.private

  unfoldable pub sign_digest : KeyPair → List ℕ → X
  sign_digest pair digest = c.mul1 (c.map_to_curve digest) pair.private

  unfoldable pub aggregate_from : X → List X → X
  aggregate_from total [] = total
  aggregate_from total (s ∷ ss) = aggregate_from (c.add1 total s) ss

  unfoldable pub aggregate_signatures : List X → Option X
  unfolding aggregate_from
  aggregate_signatures signatures = some (aggregate_from c.zero1 signatures)

  unfoldable pub public_from : Y → List Y → Y
  public_from total [] = total
  public_from total (p ∷ ps) = public_from (c.add2 total p) ps

  -- The sums of the G1 keys, of the G2 keys and of the signatures; only the benchmark calls it.
  unfoldable pub get_points : List X → List Y → List X → Option (X × Y × X)
  unfolding aggregate_from public_from
  get_points g1 g2 signatures =
      some (aggregate_from c.zero1 g1, public_from c.zero2 g2, aggregate_from c.zero1 signatures)

  module _ ⦃eq : TestsEq Z⦄ where
    unfoldable pub verify : Y → List ℕ → List ℕ → X → Bool
    unfolding payload_hash
    verify public namespace message signature =
        c.pairing (c.map_to_curve (payload_hash namespace message)) public
        =? c.pairing signature c.generator2

    unfoldable pub verify_digest : Y → List ℕ → X → Bool
    verify_digest public digest signature =
        c.pairing (c.map_to_curve digest) public =? c.pairing signature c.generator2

    unfoldable pub aggregate_verify : List Y → Option (List ℕ) → List ℕ → X → Bool
    unfolding public_from verify
    aggregate_verify publics namespace message signature =
        verify (public_from c.zero2 publics) (or_default namespace []) message signature
