-- ===== src/Bn254/Keys/G1PublicKey.antt =====
-- core/src/bn254/mod.rs: the G1 public key.
use mathlib.Core.Option
use commonware_restaking.Prelude.{ℕ, Option, some, List}
use commonware_restaking.Prelude.Result.{Result}
use commonware_restaking.Codec.{Codec}
use commonware_restaking.Bn254.Encoding.{
  Compressed, Encoded, Error, g1_public_key, g1_length, from_value, read_checked, try_read,
}

module _ {K : Type 0} (e : Compressed K) (array : Codec Error (List ℕ)) where
  unfoldable pub write : Encoded K → List ℕ
  write k = array.write k.raw

  unfoldable pub read_cfg : List ℕ → Result Error (Encoded K × List ℕ)
  unfolding read_checked
  read_cfg buf = read_checked e array g1_public_key buf

  unfoldable pub from : K → Encoded K
  unfolding from_value
  from key = from_value e key

  unfoldable pub try_from : List ℕ → Result Error (Encoded K)
  unfolding try_read
  try_from value = try_read e array g1_public_key g1_length value

-- `Fq::from_str` and `G1Affine::new_unchecked`, which checks nothing of the point.
pub record Coordinates (F K : Type 0) : Type 0 where
  pub from_str : List ℕ → Option F
  pub new_unchecked : F → F → K

module _ {F K : Type 0} (e : Compressed K) (array : Codec Error (List ℕ))
    (t : Coordinates F K) where
  unfoldable pub create_from_g1_coordinates : List ℕ → List ℕ → Option (Encoded K)
  unfolding from Option.bind
  create_from_g1_coordinates x y =
      Option.bind (t.from_str x)
        λ a. Option.bind (t.from_str y) λ b. some (from e array (t.new_unchecked a b))
