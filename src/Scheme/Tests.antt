-- ===== src/Scheme/Tests.antt =====
-- core/src/bn254/scheme.rs: four participants over the numbers, with bitmaps as lists of Booleans.
use commonware_restaking.Prelude.{
  ℕ, ◌*◌, ◌<◌, ◌≤◌, ◌≡◌, refl, Bool, true, false, none, some, List, [], ◌∷◌, ◌++◌, length, arith,
}
use commonware_restaking.Prelude.Result.{ok}
use commonware_restaking.Bn254.{
  verify_digest, aggregate_verify, public_from, verify, payload_hash, from_scalar,
}
use commonware_restaking.Bn254.Toy.{number_eq, toy, toy_bilinear, digest}
use commonware_restaking.Scheme.{
  Attestation, Bn254Scheme, Bn254Certificate, assemble, verify_certificate, verify_attestation,
  item_digest, all_at, validate_participants, index_of, signer, sign, read_cfg, write, encode_size,
}
use commonware_restaking.Scheme.Counting.{shared}
use commonware_restaking.Scheme.Quorum.{quorum_intersection}
use commonware_restaking.Scheme.Certificates.{verify_certificate-assemble, verify_attestation-sign}
use commonware_restaking.Scheme.Encoding.{read_cfg-write}
use commonware_restaking.Scheme.Toy.{
  toy_signers, toy_signers-IsBitmap, toy_signers_codec, toy_signers_codec-SignersLawful,
  number_codec, number_codec-IsLawful,
}
use commonware_restaking.Scheme.Products.{IsCommutative}

toy-IsCommutative : IsCommutative toy_bilinear.one toy_bilinear.mul
unfolding toy_bilinear
toy-IsCommutative = record {
  unit = λ z. omega arith;
  commute = λ x y. omega arith;
  associate = λ x y z. omega arith;
}

-- The private keys are the public ones: 3, 5, 7 and 9.
abbrev four : Bn254Scheme toy
four = record { participants = 3 ∷ 5 ∷ 7 ∷ 9 ∷ []; g1_keys = 3 ∷ 5 ∷ 7 ∷ 9 ∷ []; me_signer = none }

abbrev attestation : ℕ → ℕ → Attestation ℕ
attestation index key = record { signer = index; signature = some (32 * key) }

-- The signers 2, 0 and 3, in this order.
abbrev three_attestations : List (Attestation ℕ)
three_attestations = attestation 2 7 ∷ attestation 0 3 ∷ attestation 3 9 ∷ []

verify_certificate-assemble_example :
    (certificate : Bn254Certificate (List Bool) ℕ) × ((assemble toy toy_signers four
          three_attestations
        ≡ some certificate)
      × (verify_certificate toy toy_signers four digest certificate ≡ true))
unfolding verify_attestation verify_digest item_digest
verify_certificate-assemble_example =
    verify_certificate-assemble toy toy_signers toy_bilinear four digest three_attestations
      toy-IsCommutative toy_signers-IsBitmap refl (refl, (refl, (refl, tt)))
      (refl, (refl, (refl, tt))) (omega arith)

abbrev first_three : Bn254Certificate (List Bool) ℕ
first_three = record { signers = true ∷ true ∷ true ∷ false ∷ []; signature = 480 }

abbrev last_three : Bn254Certificate (List Bool) ℕ
last_three = record { signers = false ∷ true ∷ true ∷ true ∷ []; signature = 672 }

quorum_intersection_example : 1 < shared (0 ∷ 1 ∷ 2 ∷ []) (1 ∷ 2 ∷ 3 ∷ [])
unfolding verify_certificate item_digest all_at aggregate_verify public_from verify payload_hash
quorum_intersection_example =
    quorum_intersection toy toy_signers four digest digest first_three last_three
      toy_signers-IsBitmap (omega arith) refl refl

abbrev second : Bn254Scheme toy
second = record {
  participants = 3 ∷ 5 ∷ 7 ∷ 9 ∷ [];
  g1_keys = 3 ∷ 5 ∷ 7 ∷ 9 ∷ [];
  me_signer = some (1, record { private = 5; public_key = 5 });
}

verify_attestation-sign_example :
    (a : Attestation ℕ) × ((sign toy second digest ≡ some a)
      × (verify_attestation toy four digest a ≡ true))
unfolding signer validate_participants index_of from_scalar
verify_attestation-sign_example =
    verify_attestation-sign toy toy_bilinear (3 ∷ 5 ∷ 7 ∷ 9 ∷ []) (3 ∷ 5 ∷ 7 ∷ 9 ∷ []) 5 second four
      digest refl refl refl

read_cfg-write_example :
    (read_cfg toy_signers_codec number_codec toy_signers 7 4
        (write toy_signers_codec number_codec first_three ++ 5 ∷ [])
      ≡ ok (first_three, 5 ∷ []))
    × (encode_size toy_signers_codec number_codec first_three
        ≡ length (write toy_signers_codec number_codec first_three))
read_cfg-write_example =
    read_cfg-write toy_signers_codec number_codec toy_signers 7
      (λ max_participants bs. length bs ≤ max_participants) (λ n. Unit {0}) 4 first_three (5 ∷ [])
      toy_signers_codec-SignersLawful number_codec-IsLawful (omega arith) tt
