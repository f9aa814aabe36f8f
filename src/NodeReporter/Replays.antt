-- ===== src/NodeReporter/Replays.antt =====
-- node/src/reporter.rs: a certificate that was tapped is not tapped again while its height is retained.
use commonware_restaking.Prelude.{
  ℕ, ◌-◌, ◌≤◌, ◌<◌, ◌≡◌, refl, ◌==◌, leb, ltb, is_some, Bool, true, false, ◌⊎◌, inl, inr, List, [],
  ◌∷◌, any, any-append, Bool-cases, if_both, arith,
}
use commonware_restaking.Map
use commonware_restaking.Map.Laws.{get-insert, get-split_off}
use commonware_restaking.TaskBook.{prune_slack}
use commonware_restaking.NodeReporter.{
  CertificateObservation, Activity, certified, tip, ack, NodeReporter, prune, advance, observe,
  handle,
}

module _ {D C : Type 0} where
  abbrev pub tapped_at : ℕ → List (CertificateObservation D C) → Bool
  tapped_at h cs = any cs (λ c. c.height == h)

  -- A height that was tapped is in the set, as long as it is retained.
  abbrev pub Remembers : NodeReporter D C → Type 0
  Remembers r =
      (h : ℕ)
      → tapped_at h r.tapped ≡ true
      → r.tip_handle - prune_slack ≤ h
      → is_some (Map.get r.certified h) ≡ true

  observe-Remembers :
      (is_skip : D → ℕ → Bool) (r : NodeReporter D C) (c : CertificateObservation D C)
      → r.has_tap ≡ true
      → Remembers r
      → Remembers (observe is_skip r c)
  unfolding observe
  observe-Remembers is_skip r c t m h e l = elim (Bool-cases (c.height == h)) [
    | inl f ↦ rw (get-insert r.certified c.height h tt, f) refl
    | inr f ↦
        let before : tapped_at h r.tapped ≡ true =
          ground (arith, any-append r.tapped (c ∷ []) (λ c. c.height == h), t, f, e) in
        rw (get-insert r.certified c.height h tt, f) (m h before l)
  ]

  advance-Remembers : (r : NodeReporter D C) (t : ℕ) → Remembers r → Remembers (advance r t)
  unfolding advance prune
  advance-Remembers r t m = elim (Bool-cases (leb t r.tip_handle)) [
    | inl f ↦ rw (f, advance) m
    | inr f ↦ elim (Bool-cases (ltb 0 (t - prune_slack))) [
      | inl g ↦
          rw (f, g, advance, prune)
            (λ h e l.
              rw (get-split_off r.certified (t - prune_slack) h)
                (ground (arith, m h e (ground arith))))
      | inr g ↦ rw (f, g, advance, prune) (λ h e l. m h e (ground arith))
    ]
  ]

  pub handle-Remembers :
      (is_skip : D → ℕ → Bool) (r : NodeReporter D C) (a : Activity D C)
      → r.has_tap ≡ true
      → Remembers r
      → Remembers (handle is_skip r a)
  unfolding handle
  handle-Remembers is_skip r (certified c) t m =
      if_both Remembers (is_some (Map.get r.certified c.height)) m
        (advance-Remembers (observe is_skip r c) c.height (observe-Remembers is_skip r c t m))
  handle-Remembers is_skip r (tip h) t m = advance-Remembers r h m
  handle-Remembers is_skip r (ack h) t m = m

  -- A certificate changes nothing, unless its height was not tapped or is no longer retained.
  abbrev pub Ignores : (D → ℕ → Bool) → NodeReporter D C → CertificateObservation D C → Type 0
  Ignores is_skip r c =
      (tapped_at c.height r.tapped ≡ false)
      ⊎ ((c.height < r.tip_handle - prune_slack) ⊎ (handle is_skip r (certified c) ≡ r))

  pub Remembers-Ignores :
      (is_skip : D → ℕ → Bool) (r : NodeReporter D C) (c : CertificateObservation D C)
      → Remembers r
      → Ignores is_skip r c
  unfolding handle
  Remembers-Ignores is_skip r c m = elim (Bool-cases (tapped_at c.height r.tapped)) [
    | inr e ↦ inl e
    | inl e ↦ elim (Bool-cases (ltb c.height (r.tip_handle - prune_slack))) [
      | inl f ↦ inr (inl (ground arith))
      | inr f ↦ inr (inr (rw (m c.height e (ground arith), handle) refl))
    ]
  ]
