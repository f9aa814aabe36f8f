-- ===== src/Bn254/Keys.antt =====
-- core/src/bn254/mod.rs: the four types of keys and signatures, each with its bytes.
pub mod PrivateKey
pub mod PublicKey
pub mod Signature
pub mod G1PublicKey
use commonware_restaking.Prelude.{
  ℕ, suc, ◌+◌, ◌≡◌, refl, ◌==◌, ==_refl, if◌then◌else◌, not, length, List, ◌∷◌, ◌++◌, Bool, true,
  false, arith,
}
use commonware_restaking.Prelude.Result.{Result, ok, err}
use commonware_restaking.Codec.{Codec}
use commonware_restaking.Bn254.Encoding.{
  Compressed, Error, Encoded, IsArrayCodec, IsCompressed, ReadsBack, private_key, public_key,
  signature, g1_public_key, private_key_length, public_key_length, signature_length, g1_length,
  from_value, read_checked, read_checked-write, checked-from_value, write-from_value, length-write,
  length-longer, try_read, try_read-ReadsBack, invalid_length,
}

private_key-ReadsBack :
    {K : Type 0} (e : Compressed K) (array : Codec Error (List ℕ))
    → IsArrayCodec private_key_length array
    → (admits : K → Bool) → IsCompressed admits private_key_length e
    → (k : K) → admits k ≡ true
    → ReadsBack e private_key private_key_length
        (PrivateKey.from e array)
        (PrivateKey.write e array)
        (PrivateKey.read_cfg e array)
        (PrivateKey.try_from e array)
        k
unfolding PrivateKey.from PrivateKey.write PrivateKey.read_cfg PrivateKey.try_from
private_key-ReadsBack e array a admits l k v = record {
  reads = λ rest. read_checked-write e private_key private_key_length array a admits l k rest v;
  tries =
      rw
        (
          length-write e private_key private_key_length array a admits l k,
          PrivateKey.try_from,
          write-from_value e private_key private_key_length array a admits l k,
        )
        (checked-from_value e private_key private_key_length array a admits l k v);
  refuses = λ x rest.
      let longer : (private_key_length + suc (length rest) == private_key_length) ≡ false =
        ground arith in
      rw
        (
          length-longer e private_key private_key_length array a admits l k x rest,
          longer,
          PrivateKey.try_from,
        )
        refl;
}

-- Over lawful arrays and encodings, for a scalar and for points that `deserialize_compressed` admits, those on
-- the curve and in its subgroup: what the code writes for the private key, the public key, the signature or the
-- G1 public key is read back, whatever bytes follow, and converted back as a slice, unless it is zero or the
-- identity, which both refuse as such; a slice with more bytes is refused for its length.
pub read_cfg-from :
    {S X Y : Type 0} (scalars : Compressed S) (g1 : Compressed X) (g2 : Compressed Y)
    (array : ℕ → Codec Error (List ℕ))
    → ((n : ℕ) → IsArrayCodec n (array n))
    → (admits_scalar : S → Bool) (admits_g1 : X → Bool) (admits_g2 : Y → Bool)
    → IsCompressed admits_scalar private_key_length scalars
    → IsCompressed admits_g1 g1_length g1
    → IsCompressed admits_g2 public_key_length g2
    → (scalar : S) (g2_point : Y) (signature_point g1_point : X) → admits_scalar scalar ≡ true
    → admits_g2 g2_point ≡ true
    → admits_g1 signature_point ≡ true
    → admits_g1 g1_point ≡ true
    → ReadsBack scalars private_key private_key_length
        (PrivateKey.from scalars (array private_key_length))
        (PrivateKey.write scalars (array private_key_length))
        (PrivateKey.read_cfg scalars (array private_key_length))
        (PrivateKey.try_from scalars (array private_key_length))
        scalar
      × ReadsBack g2 public_key public_key_length
          (PublicKey.from g2 (array public_key_length))
          (PublicKey.write g2 (array public_key_length))
          (PublicKey.read_cfg g2 (array public_key_length))
          (PublicKey.try_from g2 (array public_key_length))
          g2_point
      × ReadsBack g1 signature signature_length
          (Signature.from g1 (array signature_length))
          (Signature.write g1 (array signature_length))
          (Signature.read_cfg g1 (array signature_length))
          (Signature.try_from g1 (array signature_length))
          signature_point
      × ReadsBack g1 g1_public_key g1_length
          (G1PublicKey.from g1 (array g1_length))
          (G1PublicKey.write g1 (array g1_length))
          (G1PublicKey.read_cfg g1 (array g1_length))
          (G1PublicKey.try_from g1 (array g1_length))
          g1_point
unfolding PublicKey.from PublicKey.write PublicKey.read_cfg PublicKey.try_from Signature.from
    Signature.write Signature.read_cfg Signature.try_from G1PublicKey.from G1PublicKey.write
    G1PublicKey.read_cfg G1PublicKey.try_from
read_cfg-from scalars g1 g2 array a fs f1 f2 ls l1 l2 k p s q vs v2 v1 w1 = (
  private_key-ReadsBack scalars (array private_key_length) (a private_key_length) fs ls k vs,
  try_read-ReadsBack g2 public_key public_key_length (array public_key_length) (a public_key_length)
      f2 l2 p v2,
  try_read-ReadsBack g1 signature signature_length (array signature_length) (a signature_length) f1
      l1 s v1,
  try_read-ReadsBack g1 g1_public_key g1_length (array g1_length) (a g1_length) f1 l1 q w1,
)
