-- ===== src/Scheme/Quorum.antt =====
-- core/src/bn254/scheme.rs: what `verify_certificate` has checked, and the overlap of two certificates.
use commonware_restaking.Prelude.{
  ℕ, ◌-◌, ◌/◌, ◌<◌, ◌≤◌, ◌≡◌, ◌==◌, ltb, true, none, some, inl, inr, List, length, Bool-cases,
  Option-cases, arith,
}
use commonware_restaking.Prelude.Eq.{TestsEq}
use commonware_restaking.Bn254.{Curve, aggregate_verify}
use commonware_restaking.Scheme.{
  Signers, Bn254Scheme, Bn254Certificate, item_digest, all_at, verify_certificate,
}
use commonware_restaking.Scheme.Laws.{IsBitmap}
use commonware_restaking.Scheme.Counting.{shared, length-le-shared}

module _ {X Y Z B : Type 0} (c : Curve X Y Z) (bitmap : Signers B) ⦃eq : TestsEq Z⦄
    (s : Bn254Scheme c) (digest : List ℕ) (certificate : Bn254Certificate B X) where
  -- The checks of an accepted certificate.
  pub record Accepted : Type 0 where
    pub exact_length : bitmap.len certificate.signers ≡ length s.participants
    pub enough : bitmap.quorum (length s.participants) ≤ bitmap.count certificate.signers
    pub raw : List ℕ
    pub raw_digest : item_digest digest ≡ some raw
    pub publics : List Y
    pub keys : all_at s.participants (bitmap.iter certificate.signers) ≡ some publics
    pub paired : aggregate_verify c publics none raw certificate.signature ≡ true

  pub verify_certificate-Accepted :
      verify_certificate c bitmap s digest certificate ≡ true → Accepted
  unfolding verify_certificate
  verify_certificate-Accepted h =
      elim (Bool-cases (bitmap.len certificate.signers == length s.participants)) [
        | inr e ↦ let bad = rw (e, verify_certificate) at h in cc
        | inl e ↦
            elim (Bool-cases
              (ltb (bitmap.count certificate.signers) (bitmap.quorum (length s.participants)))) [
                | inl f ↦ let bad = rw (e, f, verify_certificate) at h in cc
                | inr f ↦ elim (Option-cases (item_digest digest)) [
                  | inl g ↦ let bad = rw (e, f, g, verify_certificate) at h in cc
                  | inr (raw, g) ↦
                      elim (Option-cases
                        (all_at s.participants (bitmap.iter certificate.signers))) [
                          | inl k ↦ let bad = rw (e, f, g, k, verify_certificate) at h in cc
                          | inr (publics, k) ↦ record {
                            exact_length = ground arith;
                            enough = ground arith;
                            raw = raw;
                            raw_digest = g;
                            publics = publics;
                            keys = k;
                            paired = rw (e, f, g, k, verify_certificate) at h;
                          }
                        ]
                ]
              ]
      ]

-- Over a lawful bitmap, two certificates that one scheme with participants accepts, for whatever digests, have
-- more signers in common than the `(n - 1) / 3` of the `n` participants that may be faulty.
pub quorum_intersection :
    {X Y Z B : Type 0} (c : Curve X Y Z) (bitmap : Signers B) ⦃eq : TestsEq Z⦄ (s : Bn254Scheme c)
    (digest other : List ℕ) (a b : Bn254Certificate B X)
    → IsBitmap bitmap
    → 0 < length s.participants
    → verify_certificate c bitmap s digest a ≡ true
    → verify_certificate c bitmap s other b ≡ true
    → (length s.participants - 1) / 3 < shared (bitmap.iter a.signers) (bitmap.iter b.signers)
quorum_intersection c bitmap s digest other a b l some_one va vb =
    let ca = verify_certificate-Accepted c bitmap s digest a va in
    let cb = verify_certificate-Accepted c bitmap s other b vb in
    let n : ℕ = length s.participants in
    let below =
      length-le-shared n (bitmap.iter a.signers) (bitmap.iter b.signers) (l.distinct a.signers)
        (rw ca.exact_length at (l.in_range a.signers)) (l.distinct b.signers)
        (rw cb.exact_length at (l.in_range b.signers)) in
    omega (
      arith,
      below,
      ca.enough,
      cb.enough,
      l.count_iter a.signers,
      l.count_iter b.signers,
      l.quorum_faults n,
    )
