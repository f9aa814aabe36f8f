-- ===== src/Scheme.antt =====
-- core/src/bn254/scheme.rs: the certificate scheme of the aggregation engine. The signer bitmap of the
-- crate and the quorum of the fault model are a record of functions. A participant's index is its place
-- in the ordered set of keys, here a list; a lazily decoded signature is an option, `none` for bytes that
-- are no signature. A panic of a constructor is an error.
pub mod Laws
pub mod Counting
pub mod Products
pub mod Quorum
pub mod Keys
pub mod Assembly
pub mod Certificates
pub mod Encoding
mod Toy
mod Tests
use commonware_restaking.Prelude.{
  ℕ, suc, ◌+◌, ◌==◌, ltb, leb, if◌then◌else◌, ◌&&◌, not, length, get_elem?, Bool, true, false,
  Option, none, some, List, [], ◌∷◌, ◌++◌,
}
use commonware_restaking.Prelude.Result.{Result, ok, err, ◌>>=◌}
use commonware_restaking.Prelude.Eq.{TestsEq, ◌=?◌}
use commonware_restaking.Codec.{Codec}
use commonware_restaking.Bn254.{
  Curve, KeyPair, from_scalar, sign_digest, verify_digest, aggregate_signatures, aggregate_verify,
  digest_length,
}

-- `Signers`, the bitmap, and the quorum of a number of participants.
pub record Signers (B : Type 0) : Type 0 where
  pub from : ℕ → List ℕ → B
  pub len : B → ℕ
  pub count : B → ℕ
  pub iter : B → List ℕ
  pub quorum : ℕ → ℕ

pub record Attestation (X : Type 0) : Type 0 where
  pub signer : ℕ
  pub signature : Option X

pub record Bn254Certificate (B X : Type 0) : Type 0 where
  pub signers : B
  pub signature : X

-- The raw digest of an item, if it has 32 bytes.
unfoldable pub item_digest : List ℕ → Option (List ℕ)
item_digest digest = if length digest == digest_length then some digest else none

-- The place of a key among the participants.
unfoldable pub index_of : {Y : Type 0} ⦃eq : TestsEq Y⦄ → List Y → Y → Option ℕ
index_of [] key = none
index_of (k ∷ ks) key =
    let rest = index_of ks key in
    if k =? key then some 0 else elim rest [ none ↦ none | some i ↦ some (suc i) ]

-- The entries at the indices that are in range.
unfoldable pub entries_at : {A : Type 0} → List A → List ℕ → List A
entries_at entries [] = []
entries_at entries (i ∷ indices) = elim (get_elem? entries i) [
  | none ↦ entries_at entries indices
  | some a ↦ a ∷ entries_at entries indices
]

-- The entries at the indices, if all are in range.
unfoldable pub all_at : {A : Type 0} → List A → List ℕ → Option (List A)
all_at entries [] = some []
all_at entries (i ∷ indices) = elim (get_elem? entries i) [
  | none ↦ none
  | some a ↦ elim (all_at entries indices) [ none ↦ none | some rest ↦ some (a ∷ rest) ]
]

-- `assemble`'s first loop: an index out of range or a malformed signature ends it.
unfoldable pub collect_entries : {X : Type 0} → ℕ → List (Attestation X) → Option (List ℕ × List X)
collect_entries participants [] = some ([], [])
collect_entries participants (a ∷ rest_of) =
    let rest = collect_entries participants rest_of in
    if leb participants a.signer then none else elim a.signature [
      | none ↦ none
      | some s ↦ elim rest [ none ↦ none | some (indices, ss) ↦ some (a.signer ∷ indices, s ∷ ss) ]
    ]

module _ {X Y Z : Type 0} (c : Curve X Y Z) where
  pub record Bn254Scheme : Type 0 where
    pub participants : List Y
    pub g1_keys : List X
    pub me_signer : Option (ℕ × KeyPair c)

  -- Both constructors panic where this is false.
  unfoldable pub validate_participants : List Y → List X → Bool
  validate_participants participants g1_keys =
      not (length participants == 0) && (length participants == length g1_keys)

  -- `none` for a key that is no participant's.
  unfoldable pub signer : ⦃eq : TestsEq Y⦄ → List Y → List X → ℕ → Result ℕ (Option Bn254Scheme)
  unfolding validate_participants index_of from_scalar
  signer participants g1_keys private_key =
      if validate_participants participants g1_keys
      then (let pair = from_scalar c private_key in
          elim (index_of participants pair.public_key) [
            | none ↦ ok none
            | some index ↦ ok (
                some (record {
                  participants = participants;
                  g1_keys = g1_keys;
                  me_signer = some (index, pair);
                }))
          ])
      else err 0

  unfoldable pub verifier : List Y → List X → Result ℕ Bn254Scheme
  unfolding validate_participants
  verifier participants g1_keys =
      if validate_participants participants g1_keys
      then ok (record { participants = participants; g1_keys = g1_keys; me_signer = none })
      else err 0

  unfoldable pub me : Bn254Scheme → Option ℕ
  me s = elim s.me_signer [ none ↦ none | some (index, pair) ↦ some index ]

  unfoldable pub sign : Bn254Scheme → List ℕ → Option (Attestation X)
  unfolding item_digest sign_digest
  sign s digest = elim s.me_signer [
    | none ↦ none
    | some (index, pair) ↦ elim (item_digest digest) [
      | none ↦ none
      | some d ↦ some (record { signer = index; signature = some (sign_digest c pair d) })
    ]
  ]

  module _ ⦃eq : TestsEq Z⦄ where
    unfoldable pub verify_attestation : Bn254Scheme → List ℕ → Attestation X → Bool
    unfolding item_digest verify_digest
    verify_attestation s digest a = elim (get_elem? s.participants a.signer) [
      | none ↦ false
      | some key ↦ elim a.signature [
        | none ↦ false
        | some signature ↦ elim (item_digest digest) [
          | none ↦ false
          | some d ↦ verify_digest c key d signature
        ]
      ]
    ]

  module _ {B : Type 0} (bitmap : Signers B) where
    unfoldable pub signer_g1_points : Bn254Scheme → B → List X
    unfolding entries_at
    signer_g1_points s signers = entries_at s.g1_keys (bitmap.iter signers)

    unfoldable pub signer_g2_keys : Bn254Scheme → B → List Y
    unfolding entries_at
    signer_g2_keys s signers = entries_at s.participants (bitmap.iter signers)

    unfoldable pub assemble : Bn254Scheme → List (Attestation X) → Option (Bn254Certificate B X)
    unfolding collect_entries aggregate_signatures
    assemble s attestations = elim (collect_entries (length s.participants) attestations) [
      | none ↦ none
      | some (signers, signatures) ↦
          if ltb (length signers) (bitmap.quorum (length s.participants))
          then none
          else elim (aggregate_signatures c signatures) [
            | none ↦ none
            | some signature ↦ some (record {
              signers = bitmap.from (length s.participants) signers;
              signature = signature;
            })
          ]
    ]

    module _ ⦃eq : TestsEq Z⦄ where
      unfoldable pub verify_certificate : Bn254Scheme → List ℕ → Bn254Certificate B X → Bool
      unfolding item_digest all_at aggregate_verify
      verify_certificate s digest certificate =
          if not (bitmap.len certificate.signers == length s.participants)
          then false
          else if ltb (bitmap.count certificate.signers) (bitmap.quorum (length s.participants))
          then false
          else elim (item_digest digest) [
            | none ↦ false
            | some d ↦ elim (all_at s.participants (bitmap.iter certificate.signers)) [
              | none ↦ false
              | some publics ↦ aggregate_verify c publics none d certificate.signature
            ]
          ]

-- The codec of the bitmap: reading takes the greatest number of participants.
pub record SignersCodec (E B : Type 0) : Type 0 where
  pub write : B → List ℕ
  pub encode_size : B → ℕ
  pub read_cfg : ℕ → List ℕ → Result E (B × List ℕ)

-- The certificate's codec, over those of its parts.
module _ {E B X : Type 0} (signers_codec : SignersCodec E B) (signature_codec : Codec E X) where
  unfoldable pub write : Bn254Certificate B X → List ℕ
  write certificate =
      signers_codec.write certificate.signers ++ signature_codec.write certificate.signature

  unfoldable pub encode_size : Bn254Certificate B X → ℕ
  encode_size certificate =
      signers_codec.encode_size certificate.signers
      + signature_codec.encode_size certificate.signature

  unfoldable pub read_cfg : Signers B → E → ℕ → List ℕ → Result E (Bn254Certificate B X × List ℕ)
  read_cfg bitmap no_signers max_participants buf =
      signers_codec.read_cfg max_participants buf >>= λ (signers, buf1).
      if bitmap.count signers == 0
      then err no_signers
      else (signature_codec.read buf1 >>= λ (signature, buf2).
          ok (record { signers = signers; signature = signature }, buf2))
