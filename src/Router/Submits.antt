-- ===== src/Router/Submits.antt =====
-- The router's process: the submitter can handle all the certificates that wait.
use commonware_restaking.Prelude.{
  ℕ, ◌≡◌, refl, sym, ap, ◌∙◌, none, some, List, [], ◌∷◌, ◌++◌, Bool, append-nil, append_assoc,
}
use commonware_restaking.Prelude.Eq.{TestsEq}
use commonware_restaking.Map.{Map}
use commonware_restaking.CertReporter.{CertifiedHeight}
use commonware_restaking.Sequencer.{Assignment, Resolution}
use commonware_restaking.Submitter.{Calls, Submitter, handle_certified}
use commonware_restaking.Submitter.Notifies.{handle_certified-OneNotice}
use commonware_restaking.Router.{Router, take}
use commonware_restaking.Router.Steps.{
  Step, reporting, tip_report, taking, finishing, settling_over, draining, pulling, exhausted,
  asking, assigning, receiving, ticking, Reach, here, next,
}
use commonware_restaking.Router.Orders.{heights, resolved_heights}

module _ {T D C : Type 0} (N : Type 0) ⦃eq : TestsEq D⦄ (verify : CertifiedHeight D C → Bool)
    (skip_digest : ℕ → D) where
  -- A step of the submitter, in which the chain and the handler give these answers, or the sequencer's receipt of
  -- a resolution.
  abbrev pub Answered :
      (CertifiedHeight D C → ℕ → Calls T D N)
      → {r r' : Router T D C} → Step N verify skip_digest r r'
      → Type 0
  Answered answers (finishing r c read calls s p q) = calls ≡ answers c
  Answered answers (taking r c rest p q) = Unit {0}
  Answered answers (receiving r height sequenced deadline d x rest p q) = Unit
  Answered answers (reporting r m) = ⊥
  Answered answers (tip_report r peer tip) = ⊥
  Answered answers (settling_over r p) = ⊥
  Answered answers (draining r rs rest p q) = ⊥
  Answered answers (pulling r sequenced p) = ⊥
  Answered answers (exhausted r p) = ⊥
  Answered answers (asking r sequenced buffered rest p q) = ⊥
  Answered answers (assigning r sequenced buffered tip assigned_at started_at p) = ⊥
  Answered answers (ticking r height sequenced deadline d now p) = ⊥

  abbrev pub AllAnswered :
      (CertifiedHeight D C → ℕ → Calls T D N)
      → {s r : Router T D C} → Reach N verify skip_digest s r
      → Type 0
  AllAnswered answers here = Unit {0}
  AllAnswered answers (next w step) = AllAnswered answers w × Answered answers step

  -- The router after the submitter finished what it holds and all that waits, with these answers.
  pub record Drained (answers : CertifiedHeight D C → ℕ → Calls T D N) (s r : Router T D C)
      (waiting : List ℕ) : Type 0 where
    pub after : Router T D C
    pub reached : Reach N verify skip_digest s after
    pub answered : AllAnswered answers reached
    pub same_phase : after.phase ≡ r.phase
    pub same_received : after.received ≡ r.received
    pub same_reporter : after.reporter ≡ r.reporter
    pub same_reports : after.reports ≡ r.reports
    pub sent : List Resolution
    pub noticed : after.submitter.notified ≡ r.submitter.notified ++ sent
    pub sent_heights : resolved_heights sent ≡ waiting

module _ {T D C N : Type 0} ⦃eq : TestsEq D⦄ (skip_digest : ℕ → D) where
  pub finish_turn :
      (r : Router T D C) (calls : ℕ → Calls T D N) (c : CertifiedHeight D C)
      (read : Map (Assignment T D))
      → (x : Submitter) × (sent : Resolution) × (handle_certified 3 skip_digest read calls c.height
            c.digest r.submitter
          ≡ some x)
        × (x.notified ≡ r.submitter.notified ++ sent ∷ [])
        × (sent.height ≡ c.height)
  finish_turn r calls c read =
      let one = handle_certified-OneNotice skip_digest read calls c.height c.digest r.submitter in
      (one.after, record { height = c.height; kind = one.kind }, one.returns, one.noticed, refl)

module _ {T D C N : Type 0} ⦃eq : TestsEq D⦄ {verify : CertifiedHeight D C → Bool}
    {skip_digest : ℕ → D} where
  pub drain_waiting :
      {s : Router T D C} (answers : CertifiedHeight D C → ℕ → Calls T D N)
      (waiting : List (CertifiedHeight D C)) (r : Router T D C)
      → (w : Reach N verify skip_digest s r) → AllAnswered N verify skip_digest answers w
      → r.handling ≡ none
      → r.reporter.forwarded ≡ r.taken ++ waiting
      → Drained N verify skip_digest answers s r (heights waiting)
  unfolding take
  drain_waiting answers [] r w g e f = record {
    after = r;
    reached = w;
    answered = g;
    same_phase = refl;
    same_received = refl;
    same_reporter = refl;
    same_reports = refl;
    sent = [];
    noticed = sym (append-nil _);
    sent_heights = refl;
  }
  drain_waiting answers (c ∷ cs) r w g e f =
      let (x, sent, returns, noticed, same) =
        finish_turn skip_digest (take r c) (answers c) c r.sequencer.assignments in
      let step = finishing (take r c) c r.sequencer.assignments (answers c) x refl returns in
      let rest =
        drain_waiting answers cs (record (take r c) { handling = none; submitter = x })
          (next (next w (taking r c cs e f)) step) ((g, tt), refl) refl
          (f ∙ sym (append_assoc r.taken (c ∷ []) cs)) in
      record {
        after = rest.after;
        reached = rest.reached;
        answered = rest.answered;
        same_phase = rest.same_phase;
        same_received = rest.same_received;
        same_reporter = rest.same_reporter;
        same_reports = rest.same_reports;
        sent = sent ∷ rest.sent;
        noticed =
            rest.noticed
            ∙ ap (λ ns. ns ++ rest.sent) noticed
            ∙ append_assoc r.submitter.notified _ rest.sent;
        sent_heights = rw (same, rest.sent_heights) refl;
      }
