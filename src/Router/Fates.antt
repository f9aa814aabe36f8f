-- ===== src/Router/Fates.antt =====
-- The router's process: what may come after a height is driven for a task.
use commonware_restaking.Prelude.{
  IsIn, IsIn-append, IsIn-middle, All-IsIn, ℕ, ◌≡◌, refl, sym, ◌∙◌, ◌==◌, Bool, true, Option, none,
  some, List, [], ◌∷◌, ◌++◌, ◌⊎◌, inl, inr, Bool-cases, ltb, ◌||◌, is_some, arith,
}
use commonware_restaking.Map
use commonware_restaking.TipReports.{TipReports, safe_tip}
use commonware_restaking.CertReporter.{CertifiedHeight}
use commonware_restaking.Sequencer.{
  SequencedTask, Resolution, ResolutionKind, executed, skipped, foreign, resolved, resolution,
  interval, Drive, drive_step, on_resolution, on_interval, disposition,
}
use commonware_restaking.Router.{
  Phase, settling, idle, holding, choosing, driving, ended, Router, start, phase_turned,
  phase_after,
}
use commonware_restaking.Router.Explains.{Explained, IsSound}

module _ {D C : Type 0} (verify : CertifiedHeight D C → Bool) (skip_digest : ℕ → D) where
  -- A verified certificate of the height that the reporter forwarded, for the task or a skip.
  pub record LetsGo (forwarded : List (CertifiedHeight D C)) (h : ℕ) (digest : D) : Type 0 where
    pub certificate : CertifiedHeight D C
    pub is_forwarded : IsIn certificate forwarded
    pub is_verified : verify certificate ≡ true
    pub same_height : certificate.height ≡ h
    pub for_task : (certificate.digest ≡ digest) ⊎ (certificate.digest ≡ skip_digest h)

module _ {T D C : Type 0} (verify : CertifiedHeight D C → Bool) (skip_digest : ℕ → D) where
  pub start-IsSound :
      (participant_count round_timeout coordinator : ℕ) (quorum_numbers : List ℕ)
      → IsSound verify skip_digest
          (start {T = T} participant_count round_timeout coordinator quorum_numbers)
  unfolding Map.get
  start-IsSound participant_count round_timeout coordinator quorum_numbers = record {
    queue = [];
    queued = refl;
    inbox = [];
    inboxed = refl;
    all_verified = tt;
    in_flight = λ h a g. cc;
    agrees = record { current = record { owns = λ h a g. cc }; in_hand = tt; explained = tt };
  }

  forwarded_of :
      {r : Router T D C} (s : IsSound verify skip_digest r) (c : CertifiedHeight D C)
      → IsIn c r.taken
      → IsIn c r.reporter.forwarded
  forwarded_of s c i = rw s.queued (IsIn-append c _ s.queue i)

  -- What may come after a height is driven for a task.
  abbrev pub Fate : List (CertifiedHeight D C) → ℕ → SequencedTask T D → Phase T D → Type 0
  Fate forwarded h sequenced (driving height sequenced' deadline d) =
      (height ≡ h) × (sequenced' ≡ sequenced)
  Fate forwarded h sequenced (holding sequenced') = sequenced' ≡ sequenced
  Fate forwarded h sequenced idle = LetsGo verify skip_digest forwarded h sequenced.digest
  Fate forwarded h sequenced settling = ⊥
  Fate forwarded h sequenced (choosing sequenced' buffered tip) = ⊥
  Fate forwarded h sequenced ended = ⊥

  pub Fate-same :
      (forwarded : List (CertifiedHeight D C)) (h : ℕ) (sequenced : SequencedTask T D)
      (deadline : ℕ) (d : Drive T) (p : Phase T D)
      → p ≡ driving h sequenced deadline d
      → Fate forwarded h sequenced p
  Fate-same forwarded h sequenced deadline d p e = rw e (refl, refl)

  Fate-kind :
      (r : Router T D C) (h : ℕ) (sequenced : SequencedTask T D) (deadline : ℕ) (d : Drive T)
      (kind : ResolutionKind)
      → IsSound verify skip_digest r
      → r.phase ≡ driving h sequenced deadline d
      → Explained skip_digest
          (driving h sequenced deadline d)
          r.sequencer.next_height
          r.taken
          (record { height = h; kind = kind })
      → Fate r.reporter.forwarded h sequenced
          (phase_after sequenced (disposition (some (resolved kind))))
  unfolding phase_after disposition
  Fate-kind r h sequenced deadline d (executed success) s p e = record {
    certificate = e.certificate;
    is_forwarded = forwarded_of s e.certificate e.is_taken;
    is_verified =
        All-IsIn _ e.certificate _ s.all_verified (forwarded_of s e.certificate e.is_taken);
    same_height = e.same_height;
    for_task = inl (e.reason.1 refl);
  }
  Fate-kind r h sequenced deadline d skipped s p e = record {
    certificate = e.certificate;
    is_forwarded = forwarded_of s e.certificate e.is_taken;
    is_verified =
        All-IsIn _ e.certificate _ s.all_verified (forwarded_of s e.certificate e.is_taken);
    same_height = e.same_height;
    for_task = inr e.reason;
  }
  Fate-kind r h sequenced deadline d foreign s p e = refl

  pub Fate-resolution :
      (r : Router T D C) (h : ℕ) (sequenced : SequencedTask T D) (deadline : ℕ) (d : Drive T)
      (x : Resolution) (rest : List Resolution)
      → IsSound verify skip_digest r
      → r.phase ≡ driving h sequenced deadline d
      → r.submitter.notified ≡ r.received ++ x ∷ rest
      → Fate r.reporter.forwarded h sequenced (
          phase_turned h sequenced deadline
            (drive_step h sequenced.announced deadline {D = D} d (resolution x)))
  unfolding phase_turned drive_step on_resolution
  Fate-resolution r h sequenced deadline d x rest s p q =
      let e : Explained skip_digest (driving h sequenced deadline d) _ r.taken x =
        rw p at (All-IsIn _ x _ s.agrees.explained (rw q (IsIn-middle r.received x rest))) in
      elim (Bool-cases (x.height == h)) [
        | inl f ↦
            let same : x.height ≡ h = ground arith in
            rw (f, on_resolution) (Fate-kind r h sequenced deadline d x.kind s p (rw same at e))
        | inr f ↦ rw (f, on_resolution) (refl, refl)
      ]

  pub Fate-interval :
      (forwarded : List (CertifiedHeight D C)) (h : ℕ) (sequenced : SequencedTask T D)
      (deadline : ℕ) (d : Drive T) (now : ℕ) (certificate : Option D) (reports : TipReports)
      → Fate forwarded h sequenced (
          phase_turned h sequenced deadline
            (drive_step h sequenced.announced deadline d (interval now certificate reports)))
  unfolding phase_turned phase_after drive_step on_interval disposition
  Fate-interval forwarded h sequenced deadline d now certificate reports =
      elim (Bool-cases (d.certified || is_some certificate)) [
        | inl e ↦ rw (e, on_interval) (refl, refl)
        | inr e ↦ elim (Bool-cases (ltb h (safe_tip reports))) [
          | inl f ↦ rw (e, f, on_interval) refl
          | inr f ↦ rw (e, f, on_interval) (refl, refl)
        ]
      ]

module _ {T D : Type 0} where
  -- The height and the task that are driven.
  abbrev pub driven : Phase T D → Option (ℕ × SequencedTask T D)
  driven (driving height sequenced deadline d) = some (height, sequenced)
  driven settling = none
  driven idle = none
  driven (holding sequenced) = none
  driven (choosing sequenced buffered tip) = none
  driven ended = none

  pub elsewhere :
      (p : Phase T D) (h : ℕ) (sequenced : SequencedTask T D) (deadline : ℕ) (d : Drive T)
      → p ≡ driving h sequenced deadline d
      → driven p ≡ none
      → ⊥
  elsewhere p h sequenced deadline d e f =
      let bad : ◌≡◌ {A = Option (ℕ × SequencedTask T D)} (some (h, sequenced)) none =
        sym (rw e refl) ∙ f in
      cc

  pub same_drive :
      (p : Phase T D) (h h' : ℕ) (sequenced sequenced' : SequencedTask T D) (deadline deadline' : ℕ)
      (d d' : Drive T)
      → p ≡ driving h sequenced deadline d
      → p ≡ driving h' sequenced' deadline' d'
      → (h' ≡ h) × (sequenced' ≡ sequenced)
  same_drive p h h' sequenced sequenced' deadline deadline' d d' e f =
      let same : ◌≡◌ {A = Phase T D} _ _ = sym f ∙ e in (cc, cc)
