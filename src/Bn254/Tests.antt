-- ===== src/Bn254/Tests.antt =====
-- core/src/bn254/mod.rs: numbers in the place of the points, with multiplication as the pairing.
use commonware_restaking.Prelude.{
  ℕ, zero, suc, ap, Option, ◌≡◌, refl, ◌==◌, length, true, none, some, List, [], ◌∷◌, ◌++◌, map,
  if◌then◌else◌, Bool, not, arith,
}
use commonware_restaking.Prelude.Result.{Result, ok, err, ◌>>=◌}
use commonware_restaking.Codec.{Codec}
use commonware_restaking.Bn254.{from_scalar, sign_digest, aggregate_signatures, aggregate_verify}
use commonware_restaking.Bn254.Signing.{aggregate_verify-aggregate_signatures}
use commonware_restaking.Bn254.Toy.{number_eq, toy, toy_bilinear, digest}
use commonware_restaking.Bn254.Encoding.{
  Error, end_of_buffer, Compressed, IsArrayCodec, IsCompressed, public_key, identity,
}
use commonware_restaking.Bn254.Keys.{read_cfg-from}
use commonware_restaking.Bn254.Keys.PublicKey

aggregate_verify-aggregate_signatures_example :
    (signature : ℕ) × ((aggregate_signatures toy
          (map (λ k. sign_digest toy (from_scalar toy k) digest) (3 ∷ 5 ∷ []))
        ≡ some signature)
      × (aggregate_verify toy
            (map (λ k. (from_scalar toy k).public_key) (3 ∷ 5 ∷ []))
            none
            digest
            signature
          ≡ true))
aggregate_verify-aggregate_signatures_example =
    aggregate_verify-aggregate_signatures toy toy_bilinear (3 ∷ 5 ∷ []) digest refl

-- The arrays as the crate reads them.
unfoldable read_array : ℕ → List ℕ → Result Error (List ℕ × List ℕ)
read_array zero buf = ok ([], buf)
read_array (suc n) [] = err end_of_buffer
read_array (suc n) (x ∷ buf) = read_array n buf >>= λ (raw, rest). ok (x ∷ raw, rest)

read_array-append : (raw rest : List ℕ) → read_array (length raw) (raw ++ rest) ≡ ok (raw, rest)
unfolding read_array
read_array-append [] rest = refl
read_array-append (x ∷ raw) rest = rw (read_array-append raw rest) refl

abbrev arrays : ℕ → Codec Error (List ℕ)
arrays n = record { write = λ raw. raw; read = read_array n; encode_size = λ raw. n }

arrays-IsArrayCodec : (n : ℕ) → IsArrayCodec n (arrays n)
arrays-IsArrayCodec n = record {
  write_bytes = λ raw l. refl;
  read_bytes = λ raw rest l. rw l at (read_array-append raw rest);
}

-- A number, with as many zeros as the type wants.
unfoldable zeros : ℕ → List ℕ
zeros zero = []
zeros (suc n) = 0 ∷ zeros n

length-zeros : (n : ℕ) → length (zeros n) ≡ n
unfolding zeros
length-zeros zero = refl
length-zeros (suc n) = ap suc (length-zeros n)

unfoldable first_number : List ℕ → Option ℕ
first_number [] = none
first_number (x ∷ xs) = if x == 1 then none else some x

abbrev padded : ℕ → Compressed ℕ
padded n = record {
  deserialize_compressed = first_number;
  serialize_compressed = λ k. k ∷ zeros n;
  is_zero = λ k. k == 0;
}

-- The value 1 is written and not admitted again.
abbrev admitted : ℕ → Bool
admitted k = not (k == 1)

padded-IsCompressed : (n : ℕ) → IsCompressed admitted (suc n) (padded n)
unfolding first_number
padded-IsCompressed n = record {
  length_serialize = λ k. ap suc (length-zeros n);
  deserialize_serialize = λ k v. ground arith;
}

-- The identity is refused.
read_cfg-from_example :
    PublicKey.read_cfg
      (padded 63)
      (arrays 64)
      (PublicKey.write (padded 63) (arrays 64) (PublicKey.from (padded 63) (arrays 64) 0) ++ 9 ∷ [])
    ≡ err (identity public_key)
read_cfg-from_example =
    (read_cfg-from (padded 31) (padded 31) (padded 63) arrays arrays-IsArrayCodec admitted admitted
        admitted (padded-IsCompressed 31) (padded-IsCompressed 31) (padded-IsCompressed 63) 7 0 8 9
        refl refl refl refl).1.reads
      (9 ∷ [])
