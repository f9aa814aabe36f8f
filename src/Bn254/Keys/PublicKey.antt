-- ===== src/Bn254/Keys/PublicKey.antt =====
-- core/src/bn254/mod.rs: the G2 public key.
use mathlib.Core.Option
use commonware_restaking.Prelude.{ℕ, Bool, Option, some, List}
use commonware_restaking.Prelude.Eq.{TestsEq, ◌=?◌}
use commonware_restaking.Bn254.{Curve, payload_hash}
use commonware_restaking.Prelude.Result.{Result}
use commonware_restaking.Codec.{Codec}
use commonware_restaking.Bn254.Encoding.{
  Compressed, Encoded, Error, public_key, public_key_length, from_value, read_checked, try_read,
}

module _ {K : Type 0} (e : Compressed K) (array : Codec Error (List ℕ)) where
  unfoldable pub write : Encoded K → List ℕ
  write k = array.write k.raw

  unfoldable pub read_cfg : List ℕ → Result Error (Encoded K × List ℕ)
  unfolding read_checked
  read_cfg buf = read_checked e array public_key buf

  unfoldable pub from : K → Encoded K
  unfolding from_value
  from key = from_value e key

  unfoldable pub try_from : List ℕ → Result Error (Encoded K)
  unfolding try_read
  try_from value = try_read e array public_key public_key_length value

-- `Fq::from_str`, `Fq2::new` and `G2Affine::new_unchecked`, which checks nothing of the point.
pub record Coordinates (F G K : Type 0) : Type 0 where
  pub from_str : List ℕ → Option F
  pub fq2 : F → F → G
  pub new_unchecked : G → G → K

module _ {F G K : Type 0} (e : Compressed K) (array : Codec Error (List ℕ))
    (t : Coordinates F G K) where
  unfoldable pub create_from_g2_coordinates : List ℕ → List ℕ → List ℕ → List ℕ → Option (Encoded K)
  unfolding from Option.bind
  create_from_g2_coordinates x1 x2 y1 y2 = Option.bind (t.from_str x1) λ a.
      Option.bind (t.from_str x2) λ b. Option.bind (t.from_str y1) λ c.
        Option.bind (t.from_str y2)
          λ d. some (from e array (t.new_unchecked (t.fq2 a b) (t.fq2 c d)))

-- The verification of a key, which hashes as `sign` does.
module _ {X Y Z : Type 0} (c : Curve X Y Z) ⦃eq : TestsEq Z⦄ where
  unfoldable pub verify : Y → List ℕ → List ℕ → X → Bool
  unfolding payload_hash
  verify key namespace message signature =
      c.pairing (c.map_to_curve (payload_hash c namespace message)) key
      =? c.pairing signature c.generator2
