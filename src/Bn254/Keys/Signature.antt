-- ===== src/Bn254/Keys/Signature.antt =====
-- core/src/bn254/mod.rs: the signature, a G1 point.
use commonware_restaking.Prelude.{ℕ, List}
use commonware_restaking.Prelude.Result.{Result}
use commonware_restaking.Codec.{Codec}
use commonware_restaking.Bn254.Encoding.{
  Compressed, Encoded, Error, signature, signature_length, from_value, read_checked, try_read,
}

module _ {K : Type 0} (e : Compressed K) (array : Codec Error (List ℕ)) where
  unfoldable pub write : Encoded K → List ℕ
  write k = array.write k.raw

  unfoldable pub read_cfg : List ℕ → Result Error (Encoded K × List ℕ)
  unfolding read_checked
  read_cfg buf = read_checked e array signature buf

  unfoldable pub from : K → Encoded K
  unfolding from_value
  from key = from_value e key

  unfoldable pub try_from : List ℕ → Result Error (Encoded K)
  unfolding try_read
  try_from value = try_read e array signature signature_length value
