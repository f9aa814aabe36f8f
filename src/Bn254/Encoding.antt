-- ===== src/Bn254/Encoding.antt =====
-- core/src/bn254/mod.rs: the bytes of keys and signatures. The codec of fixed arrays of the
-- commonware_codec crate and the compressed encodings of arkworks are records of functions.
use commonware_restaking.Prelude.{
  ℕ, suc, ◌+◌, ◌≡◌, refl, sym, ap, ◌∙◌, ◌==◌, ==_refl, if◌then◌else◌, not, length, length-append,
  Bool, true, false, Option, none, some, List, [], ◌∷◌, ◌++◌, append-nil, inl, inr, Bool-cases,
  arith,
}
use commonware_restaking.Prelude.Result.{Result, ok, err, ◌>>=◌}
use commonware_restaking.Codec.{Codec}

pub data Kind : Type 0 where
  private_key : Kind
  public_key : Kind
  signature : Kind
  g1_public_key : Kind

abbrev pub private_key_length : ℕ
private_key_length = 32

abbrev pub g1_length : ℕ
g1_length = 32

abbrev pub signature_length : ℕ
signature_length = g1_length

abbrev pub g2_length : ℕ
g2_length = 64

abbrev pub public_key_length : ℕ
public_key_length = g2_length

-- The crate's `Error`: `Invalid` with the name of the type and the reason, as the code gives them.
pub data Error : Type 0 where
  end_of_buffer : Error
  invalid_length : ℕ → Error
  invalid_encoding : Kind → Error
  identity : Kind → Error

-- `CanonicalSerialize`, `CanonicalDeserialize` in their compressed form, and the test for zero.
pub record Compressed (K : Type 0) : Type 0 where
  pub deserialize_compressed : List ℕ → Option K
  pub serialize_compressed : K → List ℕ
  pub is_zero : K → Bool

-- The bytes and what they stand for.
pub record Encoded (K : Type 0) : Type 0 where
  pub raw : List ℕ
  pub key : K

module _ {K : Type 0} (e : Compressed K) where
  -- `From`: the bytes of a value.
  unfoldable pub from_value : K → Encoded K
  from_value key = record { raw = e.serialize_compressed key; key = key }

  -- The value of the bytes; zero is refused.
  unfoldable pub checked : Kind → List ℕ → Result Error (Encoded K)
  checked kind raw = elim (e.deserialize_compressed raw) [
    | none ↦ err (invalid_encoding kind)
    | some key ↦ if e.is_zero key then err (identity kind) else ok (record { raw = raw; key = key })
  ]

  -- `array` is the codec of the arrays of the type's length.
  unfoldable pub read_checked :
      Codec Error (List ℕ) → Kind → List ℕ → Result Error (Encoded K × List ℕ)
  unfolding checked
  read_checked array kind buf =
      array.read buf >>= λ (raw, rest). checked kind raw >>= λ k. ok (k, rest)

  -- What `read_checked` makes of a slice of just the length, whose rest is dropped.
  unfoldable pub try_read : Codec Error (List ℕ) → Kind → ℕ → List ℕ → Result Error (Encoded K)
  unfolding read_checked
  try_read array kind size value =
      if not (length value == size)
      then err (invalid_length (length value))
      else (read_checked array kind value >>= λ (k, rest). ok k)

-- The contract of the arrays: their bytes are written as they are, and read back.
pub record IsArrayCodec (size : ℕ) (array : Codec Error (List ℕ)) : Type 0 where
  pub write_bytes : (raw : List ℕ) → length raw ≡ size → array.write raw ≡ raw
  pub read_bytes :
      (raw rest : List ℕ) → length raw ≡ size → array.read (raw ++ rest) ≡ ok (raw, rest)

-- The contract of the encodings: they have the size of the type, and are read back where the value is one that
-- `deserialize_compressed` admits, that is a point on the curve and in its subgroup.
pub record IsCompressed {K : Type 0} (admits : K → Bool) (size : ℕ) (e : Compressed K)
    : Type 0 where
  pub length_serialize : (k : K) → length (e.serialize_compressed k) ≡ size
  pub deserialize_serialize :
      (k : K) → admits k ≡ true → e.deserialize_compressed (e.serialize_compressed k) ≡ some k

-- The three ways to read the bytes of a value again: with bytes that follow, as a slice, and as a slice that is
-- too long.
pub record ReadsBack {K : Type 0} (e : Compressed K) (kind : Kind) (size : ℕ) (from : K → Encoded K)
    (write : Encoded K → List ℕ) (read_cfg : List ℕ → Result Error (Encoded K × List ℕ))
    (try_from : List ℕ → Result Error (Encoded K)) (k : K) : Type 0 where
  pub reads :
      (rest : List ℕ)
      → read_cfg (write (from k) ++ rest)
        ≡ (if e.is_zero k then err (identity kind) else ok (from k, rest))
  pub tries : try_from (write (from k)) ≡ (if e.is_zero k then err (identity kind) else ok (from k))
  pub refuses :
      (x : ℕ) (rest : List ℕ)
      → try_from (write (from k) ++ x ∷ rest) ≡ err (invalid_length (size + suc (length rest)))

module _ {K : Type 0} (e : Compressed K) (kind : Kind) (size : ℕ) (array : Codec Error (List ℕ))
    (a : IsArrayCodec size array) (admits : K → Bool) (l : IsCompressed admits size e) where
  pub checked-from_value :
      (k : K)
      → admits k ≡ true
      → checked e kind (e.serialize_compressed k)
        ≡ (if e.is_zero k then err (identity kind) else ok (from_value e k))
  unfolding checked from_value
  checked-from_value k v = rw (l.deserialize_serialize k v, checked) refl

  pub write-from_value : (k : K) → array.write (from_value e k).raw ≡ e.serialize_compressed k
  unfolding from_value
  write-from_value k = a.write_bytes (e.serialize_compressed k) (l.length_serialize k)

  pub read_checked-write :
      (k : K) (rest : List ℕ)
      → admits k ≡ true
      → read_checked e array kind (array.write (from_value e k).raw ++ rest)
        ≡ (if e.is_zero k then err (identity kind) else ok (from_value e k, rest))
  unfolding read_checked
  read_checked-write k rest v =
      rw
        (
          write-from_value k,
          a.read_bytes (e.serialize_compressed k) rest (l.length_serialize k),
          checked-from_value k v,
        )
        (elim (Bool-cases (e.is_zero k)) [ inl z ↦ rw z refl | inr z ↦ rw z refl ])

  pub length-write : (k : K) → length (array.write (from_value e k).raw) ≡ size
  length-write k = rw (write-from_value k) (l.length_serialize k)

  pub length-longer :
      (k : K) (x : ℕ) (rest : List ℕ)
      → length (array.write (from_value e k).raw ++ x ∷ rest) ≡ size + suc (length rest)
  length-longer k x rest =
      omega (arith, length-append (array.write (from_value e k).raw) (x ∷ rest), length-write k)

  pub try_read-ReadsBack :
      (k : K)
      → admits k ≡ true
      → ReadsBack e kind size
          (from_value e)
          (λ k. array.write k.raw)
          (read_checked e array kind)
          (try_read e array kind size)
          k
  unfolding try_read
  try_read-ReadsBack k v = record {
    reads = λ rest. read_checked-write k rest v;
    tries =
        let whole =
          ap (read_checked e array kind) (sym (append-nil (array.write (from_value e k).raw)))
          ∙ read_checked-write k [] v in
        rw (length-write k, ==_refl size, whole, try_read)
          (elim (Bool-cases (e.is_zero k)) [ inl z ↦ rw z refl | inr z ↦ rw z refl ]);
    refuses = λ x rest.
        let longer : (size + suc (length rest) == size) ≡ false = ground arith in
        rw (length-longer k x rest, longer, try_read) refl;
  }
