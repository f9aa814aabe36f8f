-- ===== src/Scheme/Keys.antt =====
-- core/src/bn254/scheme.rs: the keys that a verified certificate's bitmap stands for.
use commonware_restaking.Prelude.{
  ℕ, zero, suc, ◌<◌, ◌≡◌, refl, sym, ap, ◌∙◌, true, some, List, [], ◌∷◌, length, get_elem?, All,
  arith,
}
use commonware_restaking.Prelude.Eq.{TestsEq}
use commonware_restaking.Bn254.{Curve}
use commonware_restaking.Scheme.{
  Signers, Bn254Scheme, Bn254Certificate, entries_at, validate_participants, signer_g1_points,
  signer_g2_keys, verify_certificate,
}
use commonware_restaking.Scheme.Laws.{IsBitmap}
use commonware_restaking.Scheme.Quorum.{verify_certificate-Accepted}

pub get_elem?-lt :
    {A : Type 0} (xs : List A) (i : ℕ) → i < length xs → (a : A) × (get_elem? xs i ≡ some a)
get_elem?-lt [] i h = absurd (omega (arith, h))
get_elem?-lt (x ∷ xs) zero h = (x, refl)
get_elem?-lt (x ∷ xs) (suc i) h = get_elem?-lt xs i (omega arith)

length-entries_at :
    {A : Type 0} (entries : List A) (indices : List ℕ)
    → All (λ i. i < length entries) indices
    → length (entries_at entries indices) ≡ length indices
unfolding entries_at
length-entries_at entries [] h = refl
length-entries_at entries (i ∷ indices) h =
    let found = get_elem?-lt entries i h.0 in
    rw (found.1, entries_at) (ap suc (length-entries_at entries indices h.1))

-- For a certificate that the scheme accepts, over a lawful bitmap and participants that the constructor accepts,
-- the G2 keys and the G1 points of its signers are equally many, one for each signer, and there is at least one.
pub signer_keys-aligned :
    {X Y Z B : Type 0} (c : Curve X Y Z) (bitmap : Signers B) ⦃eq : TestsEq Z⦄ (s : Bn254Scheme c)
    (digest : List ℕ) (certificate : Bn254Certificate B X)
    → IsBitmap bitmap
    → validate_participants c s.participants s.g1_keys ≡ true
    → verify_certificate c bitmap s digest certificate ≡ true
    → (length (signer_g2_keys c bitmap s certificate.signers) ≡ bitmap.count certificate.signers)
      × ((length (signer_g1_points c bitmap s certificate.signers)
            ≡ bitmap.count certificate.signers)
          × (0 < bitmap.count certificate.signers))
unfolding signer_g1_points signer_g2_keys validate_participants
signer_keys-aligned c bitmap s digest certificate l valid v =
    let checks = verify_certificate-Accepted c bitmap s digest certificate v in
    let aligned : length s.participants ≡ length s.g1_keys = ground arith in
    let any : 0 < length s.participants = ground arith in
    let range = rw checks.exact_length at (l.in_range certificate.signers) in
    (
      length-entries_at s.participants (bitmap.iter certificate.signers) range
          ∙ sym (l.count_iter certificate.signers),
      (
        length-entries_at s.g1_keys (bitmap.iter certificate.signers) (rw aligned at range)
            ∙ sym (l.count_iter certificate.signers),
        omega (arith, checks.enough, l.quorum_faults (length s.participants), any),
      ),
    )
