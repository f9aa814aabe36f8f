-- ===== src/Router/Drains.antt =====
-- The router's process: a certified height that is driven can always be ended by the submitter and the sequencer.
use commonware_restaking.Prelude.{
  ℕ, ◌≡◌, refl, sym, ap, ◌∙◌, ◌==◌, true, false, none, some, List, [], ◌∷◌, ◌++◌, map-append, any,
  any-append, Bool, append-nil, append_assoc, inl, inr, Bool-cases, Option-cases, arith,
}
use commonware_restaking.Prelude.Eq.{TestsEq}
use commonware_restaking.CertReporter.{CertifiedHeight}
use commonware_restaking.Sequencer.{
  SequencedTask, Resolution, resolved, Drive, drive_step, on_resolution, disposition, past,
}
use commonware_restaking.Submitter.{Calls}
use commonware_restaking.Router.{driving, Router, start, progressed, phase_turned, phase_after}
use commonware_restaking.Router.Steps.{receiving, finishing, Reach, here, next}
use commonware_restaking.Router.Orders.{heights, resolved_heights, Ordered, Reach-Ordered}
use commonware_restaking.Router.Submits.{AllAnswered, finish_turn, drain_waiting}

abbrev pub has_height : ℕ → List ℕ → Bool
has_height h hs = any hs (λ k. k == h)

module _ {T D C : Type 0} (N : Type 0) ⦃eq : TestsEq D⦄ (verify : CertifiedHeight D C → Bool)
    (skip_digest : ℕ → D) where
  -- A state that is reached from `s` by receipts and by handling certificates with these answers, in which the
  -- resolution of the height was the last that the sequencer received and the only one of the height since `r`,
  -- and the sequencer goes on as it says.
  pub record Ends (answers : CertifiedHeight D C → ℕ → Calls T D N) (s r : Router T D C) (h : ℕ)
      (sequenced : SequencedTask T D) : Type 0 where
    pub after : Router T D C
    pub reached : Reach N verify skip_digest s after
    pub answered : AllAnswered N verify skip_digest answers reached
    pub others : List Resolution
    pub own : Resolution
    pub own_height : own.height ≡ h
    pub no_earlier : has_height h (resolved_heights others) ≡ false
    pub received : after.received ≡ r.received ++ (others ++ own ∷ [])
    pub by_resolution : after.phase ≡ phase_after sequenced (disposition (some (resolved own.kind)))

-- Nothing is in hand: the heights that were forwarded are those received, unread and waiting.
split_heights :
    {T D C : Type 0} (r : Router T D C) (o : Ordered r)
    → r.handling ≡ none
    → heights r.reporter.forwarded
      ≡ resolved_heights r.received ++ (resolved_heights o.unread ++ heights o.waiting)
split_heights r o e =
    let all_taken : heights r.taken ≡ resolved_heights r.submitter.notified ++ [] =
      rw e at o.resolved_in_order in
    ap heights o.forwarded_in_order
    ∙ map-append _ r.taken o.waiting
    ∙ ap (λ hs. hs ++ heights o.waiting)
        (all_taken
          ∙ append-nil _
          ∙ ap resolved_heights o.received_in_order
          ∙ map-append _ r.received o.unread)
    ∙ append_assoc (resolved_heights r.received) _ _

module _ {T D C N : Type 0} ⦃eq : TestsEq D⦄ {verify : CertifiedHeight D C → Bool}
    {skip_digest : ℕ → D} where
  -- The sequencer receives its resolutions up to the one of the height that it drives.
  receive_until :
      {s : Router T D C} (answers : CertifiedHeight D C → ℕ → Calls T D N) (xs : List Resolution)
      (r : Router T D C) (h : ℕ) (sequenced : SequencedTask T D) (deadline : ℕ) (d : Drive T)
      (w : Reach N verify skip_digest s r)
      → AllAnswered N verify skip_digest answers w
      → r.phase ≡ driving h sequenced deadline d
      → r.submitter.notified ≡ r.received ++ xs
      → has_height h (resolved_heights xs) ≡ true
      → Ends N verify skip_digest answers s r h sequenced
  unfolding progressed phase_turned drive_step on_resolution
  receive_until answers [] r h sequenced deadline d w a e f m = cc
  receive_until answers (x ∷ xs) r h sequenced deadline d w a e f m =
      elim (Bool-cases (x.height == h)) [
        | inl g ↦ record {
          after = _;
          reached = next w (receiving r h sequenced deadline d x xs e f);
          answered = (a, tt);
          others = [];
          own = x;
          own_height = ground arith;
          no_earlier = refl;
          received = refl;
          by_resolution = rw (g, on_resolution) refl;
        }
        | inr g ↦
            let rest =
              receive_until answers xs _ h sequenced deadline
                (record d { next_height = past d.next_height x })
                (next w (receiving r h sequenced deadline d x xs e f)) (a, tt)
                (rw (g, on_resolution) refl) (f ∙ sym (append_assoc r.received (x ∷ []) xs))
                (rw g at m) in
            record {
              after = rest.after;
              reached = rest.reached;
              answered = rest.answered;
              others = x ∷ rest.others;
              own = rest.own;
              own_height = rest.own_height;
              no_earlier = rw g rest.no_earlier;
              received =
                  rest.received ∙ append_assoc r.received (x ∷ []) (rest.others ++ rest.own ∷ []);
              by_resolution = rest.by_resolution;
            }
      ]

  -- What was received since one state, if no more was received at the other.
  since :
      {s : Router T D C} {answers : CertifiedHeight D C → ℕ → Calls T D N}
      {sequenced : SequencedTask T D} (r r' : Router T D C) (h : ℕ)
      → Ends N verify skip_digest answers s r' h sequenced
      → r'.received ≡ r.received
      → Ends N verify skip_digest answers s r h sequenced
  since r r' h ends same = record {
    after = ends.after;
    reached = ends.reached;
    answered = ends.answered;
    others = ends.others;
    own = ends.own;
    own_height = ends.own_height;
    no_earlier = ends.no_earlier;
    received = ends.received ∙ ap (λ rs. rs ++ (ends.others ++ ends.own ∷ [])) same;
    by_resolution = ends.by_resolution;
  }

  end_drained :
      {s : Router T D C} (answers : CertifiedHeight D C → ℕ → Calls T D N) (r : Router T D C)
      (h : ℕ) (sequenced : SequencedTask T D) (deadline : ℕ) (d : Drive T)
      (w : Reach N verify skip_digest s r)
      → AllAnswered N verify skip_digest answers w
      → Ordered r
      → r.handling ≡ none
      → r.phase ≡ driving h sequenced deadline d
      → has_height h (heights r.reporter.forwarded) ≡ true
      → has_height h (resolved_heights r.received) ≡ false
      → Ends N verify skip_digest answers s r h sequenced
  end_drained answers r h sequenced deadline d w a o e p m n =
      let x = drain_waiting answers o.waiting r w a e o.forwarded_in_order in
      let parts =
        any-append (resolved_heights r.received) (resolved_heights o.unread ++ heights o.waiting)
          (λ k. k == h) in
      let all = ap (has_height h) (split_heights r o e) in
      let left : has_height h (resolved_heights o.unread ++ heights o.waiting) ≡ true =
        ground (arith, parts, all) in
      let ends =
        receive_until answers (o.unread ++ x.sent) x.after h sequenced deadline d x.reached
          x.answered (x.same_phase ∙ p)
          (x.noticed
            ∙ ap (λ ns. ns ++ x.sent) o.received_in_order
            ∙ append_assoc r.received o.unread x.sent
            ∙ ap (λ rs. rs ++ (o.unread ++ x.sent)) (sym x.same_received))
          (ap (has_height h) (map-append _ o.unread x.sent)
            ∙ ap (λ hs. has_height h (resolved_heights o.unread ++ hs)) x.sent_heights
            ∙ left) in
      since r x.after h ends x.same_received

  -- In every state that the router's process reaches from its start, if a height is driven whose
  -- certificate the reporter forwarded, and no resolution of it was received yet: whatever the chain and
  -- the handler answer to each certificate, there are steps in which the submitter takes and handles
  -- certificates with those answers and the sequencer receives resolutions, and nothing else, after which
  -- the sequencer has received a resolution of the height, its first and the last received, and goes on as
  -- this resolution says.
  pub certified-Ends :
      (participant_count round_timeout coordinator : ℕ) (quorum_numbers : List ℕ) {r : Router T D C}
      (answers : CertifiedHeight D C → ℕ → Calls T D N)
      (w : Reach N verify skip_digest
        (start participant_count round_timeout coordinator quorum_numbers)
        r)
      (h : ℕ) (sequenced : SequencedTask T D) (deadline : ℕ) (d : Drive T)
      → r.phase ≡ driving h sequenced deadline d
      → has_height h (heights r.reporter.forwarded) ≡ true
      → has_height h (resolved_heights r.received) ≡ false
      → Ends N verify skip_digest answers r r h sequenced
  certified-Ends participant_count round_timeout coordinator quorum_numbers {r} answers w h
        sequenced deadline d p m n =
      elim (Option-cases r.handling) [
        | inl e ↦
            end_drained answers r h sequenced deadline d here tt
              (Reach-Ordered participant_count round_timeout coordinator quorum_numbers w) e p m n
        | inr ((c, read), e) ↦
            let (x, sent, returns, noticed, same) = finish_turn skip_digest r (answers c) c read in
            let step = finishing r c read (answers c) x e returns in
            since r (record r { handling = none; submitter = x }) h
              (end_drained answers (record r { handling = none; submitter = x }) h sequenced
                deadline d (next here step) (tt, refl)
                (Reach-Ordered participant_count round_timeout coordinator quorum_numbers
                  (next w step))
                refl p m n)
              refl
      ]
