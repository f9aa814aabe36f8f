-- ===== src/Operators/Threshold.antt =====
-- eigenlayer/src/network.rs: what the threshold of a quorum means.
use native.Mathlib.Nat.{
  div-lt_iff_lt-mul, mul-le-mul_right, mod-add-div', mul-mod_left, mod-eq_of_lt, mod-add-mod,
  mod-lt,
}
use commonware_restaking.Prelude.{
  ℕ, suc, ◌+◌, ◌*◌, ◌/◌, ◌%◌, ◌<◌, ◌≤◌, ◌≡◌, refl, sym, ap, ◌∙◌, ◌==◌, ==_iff, ◌≢◌, leb, length,
  List, [], ◌∷◌, ◌^◌, u64_mod, inl, inr, Bool-cases, arith,
}
use commonware_restaking.Prelude.Result.{ok, ok_inj}
use commonware_restaking.Operators.{
  Services, OperatorInfo, operator_infos, total_from, QuorumInfo, div_ceil, quorum_info,
}

leb_iff : (a b c d : ℕ) → (a ≤ b → c ≤ d) → (c ≤ d → a ≤ b) → leb a b ≡ leb c d
leb_iff a b c d f g = elim (Bool-cases (leb a b)) [
  | inl e ↦ let h = f (ground arith) in ground arith
  | inr e ↦ elim (Bool-cases (leb c d)) [
    | inl k ↦ let h = g (ground arith) in ground arith
    | inr k ↦ ground arith
  ]
]

-- The rounded quotient is at most `u` exactly when `u` times the divisor reaches the dividend.
pub leb-div_ceil : (a b u : ℕ) → 0 < b → leb (div_ceil a b) u ≡ leb a (u * b)
unfolding div_ceil
leb-div_ceil a b u h =
    let whole = mod-add-div' a b in
    elim (Bool-cases (a % b == 0)) [
      | inl e ↦
          rw (e, div_ceil)
            (leb_iff (a / b) u a (u * b)
              (λ k.
                omega
                  (arith, mod-add-div' a b, mul-le-mul_right {n = u} b k, (==_iff (a % b) 0).0 e))
              (λ k.
                let q = (div-lt_iff_lt-mul {x = a} {y = suc u} h).1 (grind (arith, k, h)) in
                omega (arith, q)))
      | inr e ↦
          rw (e, div_ceil)
            (leb_iff (suc (a / b)) u a (u * b)
              (λ k. let q = (div-lt_iff_lt-mul {x = a} {y = u} h).0 k in omega (arith, q))
              (λ k.
                let other : a ≢ u * b = λ p. cc (e, ap (λ n. n % b == 0) p, mul-mod_left u b) in
                (div-lt_iff_lt-mul {x = a} {y = u} h).1 (omega (arith, other, k))))
    ]

-- The sum of the stakes, with no bound.
pub stakes : {X Y S : Type 0} → List (OperatorInfo X Y S) → ℕ
stakes [] = 0
stakes (o ∷ os) = o.stake + stakes os

module _ {E X Y S : Type 0} (services : Services E X Y S) where
  length-operator_infos :
      (number : ℕ) (operators : List (ℕ × ℕ))
      → length (operator_infos services number operators) ≡ length operators
  unfolding operator_infos
  length-operator_infos number [] = refl
  length-operator_infos number ((address, stake) ∷ operators) =
      ap suc (length-operator_infos number operators)

  total_from-stakes :
      (number total : ℕ) (operators : List (ℕ × ℕ))
      → total < 2 ^ 256
      → total_from total operators
        ≡ (total + stakes (operator_infos services number operators)) % 2 ^ 256
  unfolding operator_infos total_from stakes
  total_from-stakes number total [] h = omega (arith, h)
  total_from-stakes number total ((address, stake) ∷ operators) h =
      total_from-stakes number ((total + stake) % 2 ^ 256) operators
        (mod-lt (total + stake) (omega arith))
      ∙ mod-add-mod (total + stake) (2 ^ 256) (stakes (operator_infos services number operators))
      ∙ ap (λ n. n % 2 ^ 256) (omega arith)

  -- If the product of the operators with the quorum's share does not overflow, the operators of the quorum are as
  -- many as it says, their stakes add up to its total with the wrap-around of 256 bits, and `u` signers reach
  -- the threshold exactly when they are at least that share of the operators.
  pub quorum_info-threshold :
      (quorum_threshold threshold_denominator number : ℕ) (operators : List (ℕ × ℕ))
      (q : QuorumInfo X Y S) (u : ℕ)
      → quorum_info services quorum_threshold threshold_denominator number operators ≡ ok q
      → length operators * quorum_threshold < u64_mod
      → (length q.operators ≡ q.operator_count)
        × (q.total_stake ≡ stakes q.operators % 2 ^ 256)
        × (leb q.threshold u
            ≡ leb (q.operator_count * quorum_threshold) (u * threshold_denominator))
  unfolding quorum_info
  quorum_info-threshold quorum_threshold threshold_denominator number operators q u h fits =
      elim (Bool-cases (threshold_denominator == 0)) [
        | inl e ↦ let bad = rw (e, quorum_info) at h in cc
        | inr e ↦
            let made = ok_inj (rw (e, quorum_info) at h) in
            let positive : 0 < threshold_denominator = ground arith in
            rw (sym made) (
              length-operator_infos number operators,
              total_from-stakes number 0 operators (omega arith)
                  ∙ ap (λ n. n % 2 ^ 256) (omega arith),
              rw (mod-eq_of_lt fits) (
                  leb-div_ceil (length operators * quorum_threshold) threshold_denominator u
                    positive),
            )
      ]
