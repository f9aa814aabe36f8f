-- ===== src/Router/Channels.antt =====
-- The router's process: the two channels, in which nothing is lost or reordered.
use commonware_restaking.Prelude.{
  ◌≡◌, refl, sym, ap, ◌∙◌, Bool, List, [], ◌∷◌, ◌++◌, append-nil, wrapping_add, Option-cases,
  Bool-cases, inl, inr,
}
use commonware_restaking.Map
use commonware_restaking.CertReporter.{
  CertifiedHeight, CertReporter, Message, certified, tip, get_tip, get, handle, handle_certified,
  forward, advance_tip,
}
use commonware_restaking.CertReporter.Window.{forwarded-advance_tip}

module _ {D C : Type 0} where
  forwarded-forward :
      (r : CertReporter D C) (c : CertifiedHeight D C)
      → (sent : List (CertifiedHeight D C)) × ((forward r c).forwarded ≡ r.forwarded ++ sent)
  unfolding forward
  forwarded-forward r c = elim (Bool-cases r.consumer_open) [
    | inl o ↦ (c ∷ [], rw o refl)
    | inr o ↦ ([], rw o (sym (append-nil r.forwarded)))
  ]

  -- The reporter only adds to what it forwarded.
  pub forwarded-handle :
      (verify : CertifiedHeight D C → Bool) (r : CertReporter D C) (m : Message D C)
      → (sent : List (CertifiedHeight D C)) × ((handle verify r m).forwarded ≡ r.forwarded ++ sent)
  unfolding handle handle_certified
  forwarded-handle verify r (certified c) = elim (Option-cases (Map.get r.certified c.height)) [
    | inl n ↦ elim (Bool-cases (verify c)) [
      | inl v ↦
          let inserted : CertReporter D C = record r {
            certified = Map.insert r.certified c.height c.digest;
          } in
          let advanced = advance_tip inserted (wrapping_add c.height 1) in
          let (sent, e) = forwarded-forward advanced c in
          (
            sent,
            rw (n, v, handle, handle_certified)
                (e
                  ∙ ap (λ x. x ++ sent) (forwarded-advance_tip inserted (wrapping_add c.height 1))),
          )
      | inr v ↦ ([], rw (n, v, handle, handle_certified) (sym (append-nil r.forwarded)))
    ]
    | inr (x, n) ↦ ([], rw (n, handle, handle_certified) (sym (append-nil r.forwarded)))
  ]
  forwarded-handle verify r (tip t) = ([], forwarded-advance_tip r t ∙ sym (append-nil r.forwarded))
  forwarded-handle verify r (get_tip x) = ([], sym (append-nil r.forwarded))
  forwarded-handle verify r (get k x) = ([], sym (append-nil r.forwarded))
