-- ===== src/Scheme/Encoding.antt =====
-- core/src/bn254/scheme.rs: the certificate's codec.
use commonware_restaking.Prelude.{
  ℕ, ◌≡◌, refl, ap, ◌∙◌, ◌==◌, if◌then◌else◌, List, ◌++◌, append_assoc, length, length-append, inl,
  inr, Bool-cases, arith,
}
use commonware_restaking.Prelude.Result.{ok, err}
use commonware_restaking.Codec.{Codec, IsLawful}
use commonware_restaking.Scheme.{
  Signers, Bn254Certificate, SignersCodec, write, encode_size, read_cfg,
}

-- The contract of the bitmap's codec: a bitmap that fits the bound is read back.
pub record SignersLawful {E B : Type 0} (Fits : ℕ → B → Type 0) (signers : SignersCodec E B)
    : Type 0 where
  pub read_write :
      (max_participants : ℕ) (b : B) (rest : List ℕ)
      → Fits max_participants b
      → signers.read_cfg max_participants (signers.write b ++ rest) ≡ ok (b, rest)
  pub size_write : (b : B) → signers.encode_size b ≡ length (signers.write b)

module _ {E B X : Type 0} (signers : SignersCodec E B) (signatures : Codec E X) (bitmap : Signers B)
    (no_signers : E) where
  -- Over lawful codecs of the bitmap and of the signature, a certificate with a signer is read back whatever
  -- bytes follow it, one with none is refused by name, and the announced size is the number of bytes written.
  pub read_cfg-write :
      (Fits : ℕ → B → Type 0) (SignatureFits : X → Type 0) (max_participants : ℕ)
      (certificate : Bn254Certificate B X) (rest : List ℕ)
      → SignersLawful Fits signers
      → IsLawful SignatureFits signatures
      → Fits max_participants certificate.signers
      → SignatureFits certificate.signature
      → (read_cfg signers signatures bitmap no_signers max_participants
            (write signers signatures certificate ++ rest)
          ≡ (if bitmap.count certificate.signers == 0
              then err no_signers
              else ok (certificate, rest)))
        × (encode_size signers signatures certificate
            ≡ length (write signers signatures certificate))
  unfolding read_cfg write encode_size
  read_cfg-write Fits SignatureFits max_participants certificate rest ls lx fs fx =
      let front =
        ap (signers.read_cfg max_participants) (
          append_assoc (signers.write certificate.signers) (signatures.write certificate.signature)
            rest)
        ∙ ls.read_write max_participants certificate.signers
            (signatures.write certificate.signature ++ rest) fs in
      (
        elim (Bool-cases (bitmap.count certificate.signers == 0)) [
          | inl e ↦ rw (read_cfg, front, e) refl
          | inr e ↦ rw (read_cfg, front, e, lx.read_write certificate.signature rest fx) refl
        ],
        omega (
          arith,
          ls.size_write certificate.signers,
          lx.size_write certificate.signature fx,
          length-append {0} (signers.write certificate.signers)
              (signatures.write certificate.signature),
        ),
      )
