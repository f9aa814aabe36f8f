-- ===== src/Scheme/Certificates.antt =====
-- core/src/bn254/scheme.rs: attestations make a certificate, and the certificate is accepted.
use commonware_restaking.Prelude.{
  some_inj, ℕ, suc, ◌+◌, ◌<◌, ◌≤◌, ◌≡◌, refl, sym, ap, ◌∙◌, ==_refl, ltb, true, false, some, inl,
  inr, List, [], ◌∷◌, length, get_elem?, All, Option-cases, Bool-cases, arith,
}
use commonware_restaking.Prelude.Result.{ok, ok_inj}
use commonware_restaking.Prelude.Eq.{TestsEq, ◌=?◌}
use commonware_restaking.Map.Laws.{mem}
use commonware_restaking.Bn254.{
  Curve, from_scalar, aggregate_from, aggregate_signatures, sign_digest, digest_length,
}
use commonware_restaking.Bn254.Signing.{IsBilinear, verify-sign}
use commonware_restaking.Scheme.{
  Signers, Attestation, Bn254Scheme, Bn254Certificate, index_of, validate_participants, signer,
  sign, verify_attestation, assemble, verify_certificate,
}
use commonware_restaking.Scheme.Laws.{IsBitmap}
use commonware_restaking.Scheme.Products.{IsCommutative, Distinct, product_same}
use commonware_restaking.Scheme.Counting.{sum-IsCommutative, length_of_ones}
use commonware_restaking.Scheme.Assembly.{
  signers_of, length-signers_of, item_digest-digest, keys_in_range, collect_valid,
  balanced_aggregates, aggregate_verify-balanced,
}

-- Two lists of the same different indices are equally long.
same_length :
    (n : ℕ) (xs ys : List ℕ)
    → Distinct xs
    → All (λ i. i < n) xs
    → Distinct ys
    → All (λ i. i < n) ys
    → ((j : ℕ) → mem j xs ≡ mem j ys)
    → length xs ≡ length ys
same_length n xs ys dx rx dy ry h =
    length_of_ones xs
    ∙ product_same 0 ◌+◌ (λ j. 1) sum-IsCommutative n xs ys dx rx dy ry h
    ∙ sym (length_of_ones ys)

module _ {X Y Z B : Type 0} (c : Curve X Y Z) (bitmap : Signers B) ⦃eq : TestsEq Z⦄ where
  -- If the pairing is bilinear into a commutative group and the bitmap is lawful, attestations of a 32-byte digest that verify one by
  -- one, by different signers and at least as many as the quorum, always assemble to a certificate, and the
  -- scheme accepts that certificate for the digest.
  pub verify_certificate-assemble :
      (b : IsBilinear c) (s : Bn254Scheme c) (digest : List ℕ) (attestations : List (Attestation X))
      → IsCommutative b.one b.mul
      → IsBitmap bitmap
      → length digest ≡ digest_length
      → All (λ a. verify_attestation c s digest a ≡ true) attestations
      → Distinct (signers_of attestations)
      → bitmap.quorum (length s.participants) ≤ length attestations
      → (certificate : Bn254Certificate B X) × ((assemble c bitmap s attestations
            ≡ some certificate)
          × (verify_certificate c bitmap s digest certificate ≡ true))
  unfolding assemble aggregate_signatures verify_certificate
  verify_certificate-assemble b s digest attestations z l digits valid distinct enough =
      let n : ℕ = length s.participants in
      let entries = collect_valid c b z digest s digits attestations valid in
      let indices = signers_of attestations in
      let signers = bitmap.from n indices in
      let exact = l.len_from n indices distinct entries.range in
      let range = rw exact at (l.in_range signers) in
      let publics = keys_in_range c b z digest s.participants (bitmap.iter signers) range in
      let same = λ (j : ℕ). l.iter_from n indices j distinct entries.range in
      let count =
        l.count_iter signers
        ∙ same_length n (bitmap.iter signers) indices (l.distinct signers) range distinct
            entries.range same
        ∙ length-signers_of attestations in
      let quorate : ltb (length indices) (bitmap.quorum n) ≡ false =
        ground (arith, length-signers_of attestations, enough) in
      let counted : ltb (bitmap.count signers) (bitmap.quorum n) ≡ false =
        ground (arith, count, enough) in
      let balanced =
        balanced_aggregates c b z digest s digits n (bitmap.iter signers) indices publics.publics
          entries.signatures (l.distinct signers) range distinct entries.range same
          (publics.total c.zero2) (entries.total c.zero1) in
      (
        record { signers = signers; signature = aggregate_from c c.zero1 entries.signatures },
        (
          rw (assemble, entries.collected, quorate) refl,
          rw
              (
                verify_certificate,
                exact,
                ==_refl n,
                counted,
                item_digest-digest digest digits,
                publics.found,
              )
              (aggregate_verify-balanced c b z digest s digits publics.publics
                (aggregate_from c c.zero1 entries.signatures) balanced),
        ),
      )

-- The key that was looked up stands at the index that was found.
get_elem?-index_of :
    {Y : Type 0} ⦃eq : TestsEq Y⦄ (participants : List Y) (key : Y) (i : ℕ)
    → index_of participants key ≡ some i
    → get_elem? participants i ≡ some key
unfolding index_of
get_elem?-index_of [] key i h = cc
get_elem?-index_of ⦃eq⦄ (k ∷ ks) key i h = elim (Bool-cases (k =? key)) [
  | inl e ↦
      let first : i ≡ 0 = sym (some_inj (rw (e, index_of) at h)) in
      rw first (ap some ((eq.test_iff k key).0 e))
  | inr e ↦ elim (Option-cases (index_of ks key)) [
    | inl f ↦ let bad = rw (e, f, index_of) at h in cc
    | inr (j, f) ↦
        let next : i ≡ suc j = sym (some_inj (rw (e, f, index_of) at h)) in
        rw next (get_elem?-index_of ks key j f)
  ]
]

module _ {X Y Z : Type 0} (c : Curve X Y Z) ⦃eqY : TestsEq Y⦄ ⦃eqZ : TestsEq Z⦄ where
  record Signer (participants : List Y) (g1_keys : List X) (private_key : ℕ) (s : Bn254Scheme c)
      : Type 0 where
    pub index : ℕ
    pub built : s ≡ record {
      participants = participants;
      g1_keys = g1_keys;
      me_signer = some (index, from_scalar c private_key);
    }
    pub found : index_of participants (from_scalar c private_key).public_key ≡ some index

  signer-Signer :
      (participants : List Y) (g1_keys : List X) (private_key : ℕ) (s : Bn254Scheme c)
      → signer c participants g1_keys private_key ≡ ok (some s)
      → Signer participants g1_keys private_key s
  unfolding signer
  signer-Signer participants g1_keys private_key s h =
      elim (Bool-cases (validate_participants c participants g1_keys)) [
        | inr e ↦ let bad = rw (e, signer) at h in cc
        | inl e ↦
            elim (Option-cases (index_of participants (from_scalar c private_key).public_key)) [
              | inl f ↦ let bad = rw (e, f, signer) at h in cc
              | inr (i, f) ↦
                  let made = rw (e, f, signer) at h in
                  record { index = i; built = sym (some_inj (ok_inj made)); found = f }
            ]
      ]

  -- If the pairing is bilinear, a scheme that was built to sign attests every 32-byte digest, and every
  -- scheme over the same participants, a verifier's among them, accepts its attestation.
  pub verify_attestation-sign :
      (b : IsBilinear c) (participants : List Y) (g1_keys : List X) (private_key : ℕ)
      (s t : Bn254Scheme c) (digest : List ℕ)
      → signer c participants g1_keys private_key ≡ ok (some s)
      → t.participants ≡ participants
      → length digest ≡ digest_length
      → (a : Attestation X) × ((sign c s digest ≡ some a)
          × (verify_attestation c t digest a ≡ true))
  unfolding sign verify_attestation
  verify_attestation-sign b participants g1_keys private_key s t digest h same digits =
      let made = signer-Signer participants g1_keys private_key s h in
      let at =
        get_elem?-index_of participants (from_scalar c private_key).public_key made.index
          made.found in
      (
        record {
          signer = made.index;
          signature = some (sign_digest c (from_scalar c private_key) digest);
        },
        (
          rw (made.built, sign, item_digest-digest digest digits) refl,
          rw (same, at, verify_attestation, item_digest-digest digest digits)
              (verify-sign c b private_key digest digits).0,
        ),
      )
