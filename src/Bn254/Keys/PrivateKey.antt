-- ===== src/Bn254/Keys/PrivateKey.antt =====
-- core/src/bn254/mod.rs: the private key, a scalar.
use commonware_restaking.Prelude.{ℕ, ◌==◌, if◌then◌else◌, not, length, List}
use commonware_restaking.Prelude.Result.{Result, err}
use commonware_restaking.Codec.{Codec}
use commonware_restaking.Bn254.Encoding.{
  Compressed, Encoded, Error, invalid_length, private_key, private_key_length, from_value,
  read_checked, checked,
}

module _ {K : Type 0} (e : Compressed K) (array : Codec Error (List ℕ)) where
  unfoldable pub write : Encoded K → List ℕ
  write k = array.write k.raw

  unfoldable pub read_cfg : List ℕ → Result Error (Encoded K × List ℕ)
  unfolding read_checked
  read_cfg buf = read_checked e array private_key buf

  unfoldable pub from : K → Encoded K
  unfolding from_value
  from key = from_value e key

  -- Unlike for the other types, the slice is decoded without the array's codec.
  unfoldable pub try_from : List ℕ → Result Error (Encoded K)
  unfolding checked
  try_from value =
      if not (length value == private_key_length)
      then err (invalid_length (length value))
      else checked e private_key value
