-- ===== src/Scheme/Assembly.antt =====
-- core/src/bn254/scheme.rs: a certificate that `assemble` makes of valid attestations is accepted by
-- `verify_certificate`, although the bitmap forgets their order.
use commonware_restaking.Prelude.{
  ℕ, zero, suc, ◌<◌, ◌≡◌, refl, sym, ap, ◌∙◌, leb, true, false, none, some, inl, inr, List, [], ◌∷◌,
  length, get_elem?, All, Option-cases, arith,
}
use commonware_restaking.Prelude.Eq.{TestsEq}
use commonware_restaking.Map.Laws.{mem}
use commonware_restaking.Bn254.{
  Curve, aggregate_from, public_from, verify, verify_digest, aggregate_verify, digest_length,
}
use commonware_restaking.Bn254.Signing.{IsBilinear, payload_hash-digest}
use commonware_restaking.Scheme.{
  Attestation, Bn254Scheme, item_digest, all_at, collect_entries, verify_attestation,
}
use commonware_restaking.Scheme.Products.{IsCommutative, Distinct, product, product_same}
use commonware_restaking.Scheme.Keys.{get_elem?-lt}

abbrev pub signers_of : {X : Type 0} → List (Attestation X) → List ℕ
signers_of [] = []
signers_of (a ∷ rest) = a.signer ∷ signers_of rest

get_elem?-some :
    {A : Type 0} (xs : List A) (i : ℕ) (a : A) → get_elem? xs i ≡ some a → i < length xs
get_elem?-some [] i a h = cc
get_elem?-some (x ∷ xs) zero a h = omega arith
get_elem?-some (x ∷ xs) (suc i) a h = omega (arith, get_elem?-some xs i a h)

pub length-signers_of :
    {X : Type 0} (attestations : List (Attestation X))
    → length (signers_of attestations) ≡ length attestations
length-signers_of [] = refl
length-signers_of (a ∷ rest) = ap suc (length-signers_of rest)

pub item_digest-digest : (d : List ℕ) → length d ≡ digest_length → item_digest d ≡ some d
unfolding item_digest
item_digest-digest d e = rw e refl

module _ {X Y Z : Type 0} (c : Curve X Y Z) (b : IsBilinear c) (z : IsCommutative b.one b.mul)
    (d : List ℕ) where
  -- The pairing of the digest with a participant's key.
  abbrev pub paired_key : List Y → ℕ → Z
  paired_key participants i = elim (get_elem? participants i) [
    | none ↦ b.one
    | some key ↦ c.pairing (c.map_to_curve d) key
  ]

  pub record Publics (participants : List Y) (indices : List ℕ) : Type 0 where
    pub publics : List Y
    pub found : all_at participants indices ≡ some publics
    pub total :
        (t : Y)
        → c.pairing (c.map_to_curve d) (public_from c t publics)
          ≡ b.mul
              (c.pairing (c.map_to_curve d) t)
              (product b.one b.mul (paired_key participants) indices)

  right_unit : (x : Z) → b.mul x b.one ≡ x
  right_unit x = z.commute x b.one ∙ z.unit x

  pub keys_in_range :
      (participants : List Y) (indices : List ℕ)
      → All (λ i. i < length participants) indices
      → Publics participants indices
  unfolding all_at public_from
  keys_in_range participants [] r = record {
    publics = [];
    found = refl;
    total = λ t. sym (right_unit (c.pairing (c.map_to_curve d) t));
  }
  keys_in_range participants (i ∷ indices) r =
      let key = get_elem?-lt participants i r.0 in
      let rest = keys_in_range participants indices r.1 in
      record {
        publics = key.0 ∷ rest.publics;
        found = rw (all_at, key.1, rest.found) refl;
        total = λ t.
            rest.total (c.add2 t key.0)
            ∙ ap (λ x. b.mul x (product b.one b.mul (paired_key participants) indices))
                (b.add_right (c.map_to_curve d) t key.0)
            ∙ z.associate (c.pairing (c.map_to_curve d) t) (c.pairing (c.map_to_curve d) key.0)
                (product b.one b.mul (paired_key participants) indices)
            ∙ rw (paired_key, key.1) refl;
      }

  module _ ⦃eq : TestsEq Z⦄ (s : Bn254Scheme c) (digits : length d ≡ digest_length) where
    record Valid (a : Attestation X) : Type 0 where
      pub key : Y
      pub signature : X
      pub of_key : get_elem? s.participants a.signer ≡ some key
      pub of_signature : a.signature ≡ some signature
      pub balanced : c.pairing (c.map_to_curve d) key ≡ c.pairing signature c.generator2

    verify_attestation-Valid : (a : Attestation X) → verify_attestation c s d a ≡ true → Valid a
    unfolding verify_attestation verify_digest
    verify_attestation-Valid a h = elim (Option-cases (get_elem? s.participants a.signer)) [
      | inl e ↦ let bad = rw (e, verify_attestation) at h in cc
      | inr (key, e) ↦ elim (Option-cases a.signature) [
        | inl f ↦ let bad = rw (e, f, verify_attestation) at h in cc
        | inr (signature, f) ↦ record {
          key = key;
          signature = signature;
          of_key = e;
          of_signature = f;
          balanced =
              (eq.test_iff _ _).0 (rw (e, f, item_digest-digest d digits, verify_attestation) at h);
        }
      ]
    ]

    pub record Entries (attestations : List (Attestation X)) : Type 0 where
      pub signatures : List X
      pub collected :
          collect_entries (length s.participants) attestations
          ≡ some (signers_of attestations, signatures)
      pub range : All (λ i. i < length s.participants) (signers_of attestations)
      pub total :
          (t : X)
          → c.pairing (aggregate_from c t signatures) c.generator2
            ≡ b.mul
                (c.pairing t c.generator2)
                (product b.one b.mul (paired_key s.participants) (signers_of attestations))

    pub collect_valid :
        (attestations : List (Attestation X))
        → All (λ a. verify_attestation c s d a ≡ true) attestations
        → Entries attestations
    unfolding collect_entries aggregate_from
    collect_valid [] h = record {
      signatures = [];
      collected = refl;
      range = tt;
      total = λ t. sym (right_unit (c.pairing t c.generator2));
    }
    collect_valid (a ∷ attestations) h =
        let v = verify_attestation-Valid a h.0 in
        let rest = collect_valid attestations h.1 in
        let inside = get_elem?-some s.participants a.signer v.key v.of_key in
        let fits : leb (length s.participants) a.signer ≡ false = ground arith in
        record {
          signatures = v.signature ∷ rest.signatures;
          collected = rw (collect_entries, fits, v.of_signature, rest.collected) refl;
          range = (inside, rest.range);
          total = λ t.
              rest.total (c.add1 t v.signature)
              ∙ ap
                  (λ x.
                    b.mul x
                      (product b.one b.mul (paired_key s.participants) (signers_of attestations)))
                  (b.add_left t v.signature c.generator2)
              ∙ z.associate (c.pairing t c.generator2) (c.pairing v.signature c.generator2)
                  (product b.one b.mul (paired_key s.participants) (signers_of attestations))
              ∙ rw (paired_key, v.of_key, v.balanced) refl;
        }

    -- The aggregates of the keys and of the signatures balance, whatever the order of each.
    pub balanced_aggregates :
        (n : ℕ) (xs ys : List ℕ) (publics : List Y) (signatures : List X)
        → Distinct xs
        → All (λ i. i < n) xs
        → Distinct ys
        → All (λ i. i < n) ys
        → ((j : ℕ) → mem j xs ≡ mem j ys)
        → c.pairing (c.map_to_curve d) (public_from c c.zero2 publics)
          ≡ b.mul
              (c.pairing (c.map_to_curve d) c.zero2)
              (product b.one b.mul (paired_key s.participants) xs)
        → c.pairing (aggregate_from c c.zero1 signatures) c.generator2
          ≡ b.mul
              (c.pairing c.zero1 c.generator2)
              (product b.one b.mul (paired_key s.participants) ys)
        → c.pairing (c.map_to_curve d) (public_from c c.zero2 publics)
          ≡ c.pairing (aggregate_from c c.zero1 signatures) c.generator2
    balanced_aggregates n xs ys publics signatures dx rx dy ry h p q =
        p
        ∙ ap (λ x. b.mul x (product b.one b.mul (paired_key s.participants) xs))
            (b.zero_right (c.map_to_curve d) ∙ sym (b.zero_left c.generator2))
        ∙ ap (b.mul (c.pairing c.zero1 c.generator2))
            (product_same b.one b.mul (paired_key s.participants) z n xs ys dx rx dy ry h)
        ∙ sym q

    pub aggregate_verify-balanced :
        (publics : List Y) (signature : X)
        → c.pairing (c.map_to_curve d) (public_from c c.zero2 publics)
          ≡ c.pairing signature c.generator2
        → aggregate_verify c publics none d signature ≡ true
    unfolding aggregate_verify verify
    aggregate_verify-balanced publics signature e =
        rw (payload_hash-digest c b d digits) ((eq.test_iff _ _).1 e)
