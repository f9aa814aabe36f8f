-- ===== src/Router/Orders.antt =====
-- The router's process: the certificates come out of its channels in order, from the reporter to
-- the sequencer.
use commonware_restaking.Prelude.{
  ℕ, ◌≡◌, refl, sym, ap, ◌∙◌, Bool, Option, none, some, some_inj, List, [], ◌∷◌, ◌++◌, map,
  map-append, append-nil,
}
use commonware_restaking.Prelude.Eq.{TestsEq}
use commonware_restaking.Map.{Map}
use commonware_restaking.CertReporter.{CertifiedHeight}
use commonware_restaking.Sequencer.{Assignment, Resolution}
use commonware_restaking.Submitter.{Submitter}
use commonware_restaking.Submitter.Notifies.{handle_certified-OneNotice}
use commonware_restaking.Router.{Router, start, take, settled, started, progressed}
use commonware_restaking.Router.Steps.{
  Step, reporting, tip_report, taking, finishing, settling_over, draining, pulling, exhausted,
  asking, assigning, receiving, ticking, Reach, here, next,
}
use commonware_restaking.Router.Invariant.{Step-queued, Step-inboxed}

module _ {D C : Type 0} where
  abbrev pub heights : List (CertifiedHeight D C) → List ℕ
  heights cs = map (λ (c : CertifiedHeight D C). c.height) cs

  -- The height that the submitter handles.
  abbrev pub in_hand : {T : Type 0} → Option (CertifiedHeight D C × Map (Assignment T D)) → List ℕ
  in_hand none = []
  in_hand (some (c, read)) = c.height ∷ []

abbrev pub resolved_heights : List Resolution → List ℕ
resolved_heights rs = map (λ (x : Resolution). x.height) rs

-- Where the certificates of a router are.
pub record Ordered {T D C : Type 0} (r : Router T D C) : Type 0 where
  pub waiting : List (CertifiedHeight D C)
  pub unread : List Resolution
  pub forwarded_in_order : r.reporter.forwarded ≡ r.taken ++ waiting
  pub resolved_in_order :
      heights r.taken ≡ resolved_heights r.submitter.notified ++ in_hand r.handling
  pub received_in_order : r.submitter.notified ≡ r.received ++ unread

module _ {T D C N : Type 0} ⦃eq : TestsEq D⦄ {verify : CertifiedHeight D C → Bool}
    {skip_digest : ℕ → D} where
  Step-heights :
      {r r' : Router T D C} (w : Step N verify skip_digest r r')
      → heights r.taken ≡ resolved_heights r.submitter.notified ++ in_hand r.handling
      → heights r'.taken ≡ resolved_heights r'.submitter.notified ++ in_hand r'.handling
  unfolding take settled started progressed
  Step-heights (reporting r m) s = s
  Step-heights (tip_report r peer tip) s = s
  Step-heights (taking r c rest p q) s =
      let before : heights r.taken ≡ resolved_heights r.submitter.notified ++ [] = rw p at s in
      map-append _ r.taken (c ∷ []) ∙ ap (λ hs. hs ++ c.height ∷ []) (before ∙ append-nil _)
  Step-heights (finishing r c read calls x p q) s =
      let before : heights r.taken ≡ resolved_heights r.submitter.notified ++ c.height ∷ [] =
        rw p at s in
      let one = handle_certified-OneNotice skip_digest read calls c.height c.digest r.submitter in
      let same : one.after ≡ x = some_inj (sym one.returns ∙ q) in
      let noticed : x.notified ≡ _ = ap (λ (y : Submitter). y.notified) (sym same) ∙ one.noticed in
      before
      ∙ sym (append-nil _ ∙ ap resolved_heights noticed ∙ map-append _ r.submitter.notified _)
  Step-heights (settling_over r p) s = s
  Step-heights (draining r rs rest p q) s = s
  Step-heights (pulling r sequenced p) s = s
  Step-heights (exhausted r p) s = s
  Step-heights (asking r sequenced buffered rest p q) s = s
  Step-heights (assigning r sequenced buffered tip assigned_at started_at p) s = s
  Step-heights (receiving r height sequenced deadline d x rest p q) s = s
  Step-heights (ticking r height sequenced deadline d now p) s = s

  Step-Ordered : {r r' : Router T D C} (w : Step N verify skip_digest r r') → Ordered r → Ordered r'
  Step-Ordered w s =
      let q = Step-queued w (s.waiting, s.forwarded_in_order) in
      let i = Step-inboxed w (s.unread, s.received_in_order) in
      record {
        waiting = q.0;
        unread = i.0;
        forwarded_in_order = q.1;
        resolved_in_order = Step-heights w s.resolved_in_order;
        received_in_order = i.1;
      }

  -- From the start and for every order of its actors' steps: the submitter received a first part of the
  -- certificates that the reporter forwarded, in their order; it has sent one resolution for each, of
  -- its height and in the same order, but for the one in hand; and the sequencer has received a first
  -- part of these, in their order.
  pub Reach-Ordered :
      (participant_count round_timeout coordinator : ℕ) (quorum_numbers : List ℕ) {r : Router T D C}
      → Reach N verify skip_digest
          (start participant_count round_timeout coordinator quorum_numbers)
          r
      → Ordered r
  Reach-Ordered participant_count round_timeout coordinator quorum_numbers here = record {
    waiting = [];
    unread = [];
    forwarded_in_order = refl;
    resolved_in_order = refl;
    received_in_order = refl;
  }
  Reach-Ordered participant_count round_timeout coordinator quorum_numbers (next w step) =
      Step-Ordered step (Reach-Ordered participant_count round_timeout coordinator quorum_numbers w)
