-- ===== src/Router/Invariant.antt =====
-- The router's process: every step keeps what its actors agree on.
use commonware_restaking.Prelude.{
  IsIn-append, IsIn-last, ℕ, ◌≡◌, sym, ap, ◌∙◌, Bool, true, some, List, [], ◌∷◌, ◌++◌, All,
  append_assoc, arith,
}
use commonware_restaking.Prelude.Eq.{TestsEq}
use commonware_restaking.Map
use commonware_restaking.Map.{Map}
use commonware_restaking.CertReporter.{CertifiedHeight}
use commonware_restaking.CertReporter.Records.{handle_verified}
use commonware_restaking.Sequencer.{Assignment, Resolution, assign, idle_drained}
use commonware_restaking.Submitter.Notifies.{handle_certified-OneNotice}
use commonware_restaking.Router.{Router, settled, take, started, progressed}
use commonware_restaking.Router.Steps.{
  Step, reporting, tip_report, taking, finishing, settling_over, draining, pulling, exhausted,
  asking, assigning, receiving, ticking, InRange, Reach, here, next, AllInRange,
}
use commonware_restaking.Router.Owned.{Later}
use commonware_restaking.Router.Owned.Steps.{Step-Later}
use commonware_restaking.Router.Channels.{forwarded-handle}
use commonware_restaking.Router.Explains.{InFlight, Agrees, Agrees-Later, IsSound}
use commonware_restaking.Router.Explains.Kept.{
  entry-insert, InFlight-progressed, Agrees-progressed, Agrees-finished, notified-finished,
}

module _ {T D C N : Type 0} ⦃eq : TestsEq D⦄ {verify : CertifiedHeight D C → Bool}
    {skip_digest : ℕ → D} where
  Step-InFlight :
      {r r' : Router T D C} (w : Step N verify skip_digest r r')
      → IsSound verify skip_digest r
      → (h : ℕ) (a : Assignment T D) → Map.get r'.sequencer.assignments h ≡ some a
      → InFlight r'.phase h
  unfolding take settled started idle_drained assign
  Step-InFlight (reporting r m) s h a g = s.in_flight h a g
  Step-InFlight (tip_report r peer tip) s h a g = s.in_flight h a g
  Step-InFlight (taking r c rest p q) s h a g = s.in_flight h a g
  Step-InFlight (finishing r c read calls x p q) s h a g = s.in_flight h a g
  Step-InFlight (settling_over r p) s h a g = rw p at (s.in_flight h a g)
  Step-InFlight (draining r rs rest p q) s h a g = s.in_flight h a g
  Step-InFlight (pulling r sequenced p) s h a g = rw p at (s.in_flight h a g)
  Step-InFlight (exhausted r p) s h a g = rw p at (s.in_flight h a g)
  Step-InFlight (asking r sequenced buffered rest p q) s h a g = rw p at (s.in_flight h a g)
  Step-InFlight (assigning r sequenced buffered tip assigned_at started_at p) s h a g =
      (entry-insert r.sequencer.assignments _ _ h a (λ j b k. rw p at (s.in_flight j b k)) g).0
  Step-InFlight (receiving r height sequenced deadline d x rest p q) s h a g =
      InFlight-progressed (record r { received = r.received ++ x ∷ [] }) height sequenced deadline d
        _ p s.in_flight h a g
  Step-InFlight (ticking r height sequenced deadline d now p) s h a g =
      InFlight-progressed r height sequenced deadline d _ p s.in_flight h a g

  Step-Agrees :
      {r r' : Router T D C} (w : Step N verify skip_digest r r')
      → InRange N verify skip_digest w
      → Later r.phase r.sequencer.next_height r'.phase r'.sequencer.next_height
      → IsSound verify skip_digest r
      → Agrees skip_digest r'.phase r'.sequencer.next_height r'.taken r'.handling
          r'.sequencer.assignments r'.submitter.notified
  unfolding take settled started idle_drained assign
  Step-Agrees (reporting r m) l k s = s.agrees
  Step-Agrees (tip_report r peer tip) l k s = s.agrees
  Step-Agrees (taking r c rest p q) l k s =
      let a = Agrees-Later k (λ b i. IsIn-append b r.taken (c ∷ []) i) s.agrees in
      record {
        current = a.current;
        in_hand = (IsIn-last c r.taken, a.current);
        explained = a.explained;
      }
  Step-Agrees (finishing r c read calls x p q) l k s =
      Agrees-finished skip_digest r.phase _ r.taken c read r.sequencer.assignments r.submitter x _
        (handle_certified-OneNotice skip_digest read calls c.height c.digest r.submitter) q
        (rw p at s.agrees.in_hand) (rw p at s.agrees)
  Step-Agrees (settling_over r p) l k s = Agrees-Later k (λ b i. i) s.agrees
  Step-Agrees (draining r rs rest p q) l k s = Agrees-Later k (λ b i. i) s.agrees
  Step-Agrees (pulling r sequenced p) l k s = Agrees-Later k (λ b i. i) s.agrees
  Step-Agrees (exhausted r p) l k s = Agrees-Later k (λ b i. i) s.agrees
  Step-Agrees (asking r sequenced buffered rest p q) l k s = Agrees-Later k (λ b i. i) s.agrees
  Step-Agrees (assigning r sequenced buffered tip assigned_at started_at p) l k s =
      let a = Agrees-Later k (λ b i. i) s.agrees in
      record {
        current = record {
          owns = λ h b g.
              let (at, same) =
                entry-insert r.sequencer.assignments _ _ h b (λ j x y. rw p at (s.in_flight j x y))
                  g in
              (omega (arith, at, l), λ again. ap (λ (x : Assignment T D). x.digest) (sym same));
        };
        in_hand = a.in_hand;
        explained = a.explained;
      }
  Step-Agrees (receiving r height sequenced deadline d x rest p q) l k s =
      Agrees-progressed (record r { received = r.received ++ x ∷ [] }) height sequenced deadline _ k
        s.agrees
  Step-Agrees (ticking r height sequenced deadline d now p) l k s =
      Agrees-progressed r height sequenced deadline _ k s.agrees

  pub Step-queued :
      {r r' : Router T D C} (w : Step N verify skip_digest r r')
      → (queue : List (CertifiedHeight D C)) × (r.reporter.forwarded ≡ r.taken ++ queue)
      → (queue : List (CertifiedHeight D C)) × (r'.reporter.forwarded ≡ r'.taken ++ queue)
  unfolding take settled started progressed
  Step-queued (reporting r m) (queue, e) =
      let (sent, f) = forwarded-handle verify r.reporter m in
      (queue ++ sent, f ∙ ap (λ x. x ++ sent) e ∙ append_assoc r.taken queue sent)
  Step-queued (tip_report r peer tip) s = s
  Step-queued (taking r c rest p q) s = (rest, q ∙ sym (append_assoc r.taken (c ∷ []) rest))
  Step-queued (finishing r c read calls x p q) s = s
  Step-queued (settling_over r p) s = s
  Step-queued (draining r rs rest p q) s = s
  Step-queued (pulling r sequenced p) s = s
  Step-queued (exhausted r p) s = s
  Step-queued (asking r sequenced buffered rest p q) s = s
  Step-queued (assigning r sequenced buffered tip assigned_at started_at p) s = s
  Step-queued (receiving r height sequenced deadline d x rest p q) s = s
  Step-queued (ticking r height sequenced deadline d now p) s = s

  pub Step-inboxed :
      {r r' : Router T D C} (w : Step N verify skip_digest r r')
      → (inbox : List Resolution) × (r.submitter.notified ≡ r.received ++ inbox)
      → (inbox : List Resolution) × (r'.submitter.notified ≡ r'.received ++ inbox)
  unfolding take settled started progressed
  Step-inboxed (reporting r m) s = s
  Step-inboxed (tip_report r peer tip) s = s
  Step-inboxed (taking r c rest p q) s = s
  Step-inboxed (finishing r c read calls x p q) (inbox, e) =
      let (sent, f) = notified-finished skip_digest c read calls r.submitter x q in
      (inbox ++ sent, f ∙ ap (λ n. n ++ sent) e ∙ append_assoc r.received inbox sent)
  Step-inboxed (settling_over r p) s = s
  Step-inboxed (draining r rs rest p q) s = (rest, q)
  Step-inboxed (pulling r sequenced p) s = s
  Step-inboxed (exhausted r p) s = s
  Step-inboxed (asking r sequenced buffered rest p q) s = (rest, q)
  Step-inboxed (assigning r sequenced buffered tip assigned_at started_at p) s = s
  Step-inboxed (receiving r height sequenced deadline d x rest p q) s =
      (rest, q ∙ sym (append_assoc r.received (x ∷ []) rest))
  Step-inboxed (ticking r height sequenced deadline d now p) s = s

  Step-verified :
      {r r' : Router T D C} (w : Step N verify skip_digest r r')
      → All (λ c. verify c ≡ true) r.reporter.forwarded
      → All (λ c. verify c ≡ true) r'.reporter.forwarded
  unfolding take settled started progressed
  Step-verified (reporting r m) s = handle_verified verify r.reporter m s
  Step-verified (tip_report r peer tip) s = s
  Step-verified (taking r c rest p q) s = s
  Step-verified (finishing r c read calls x p q) s = s
  Step-verified (settling_over r p) s = s
  Step-verified (draining r rs rest p q) s = s
  Step-verified (pulling r sequenced p) s = s
  Step-verified (exhausted r p) s = s
  Step-verified (asking r sequenced buffered rest p q) s = s
  Step-verified (assigning r sequenced buffered tip assigned_at started_at p) s = s
  Step-verified (receiving r height sequenced deadline d x rest p q) s = s
  Step-verified (ticking r height sequenced deadline d now p) s = s

  pub Step-IsSound :
      {r r' : Router T D C} (w : Step N verify skip_digest r r')
      → InRange N verify skip_digest w
      → IsSound verify skip_digest r
      → IsSound verify skip_digest r'
  Step-IsSound w l s =
      let q = Step-queued w (s.queue, s.queued) in
      let i = Step-inboxed w (s.inbox, s.inboxed) in
      record {
        queue = q.0;
        queued = q.1;
        inbox = i.0;
        inboxed = i.1;
        all_verified = Step-verified w s.all_verified;
        in_flight = Step-InFlight w s;
        agrees = Step-Agrees w l (Step-Later w l) s;
      }

  pub Reach-IsSound :
      {s r : Router T D C} (w : Reach N verify skip_digest s r)
      → AllInRange N verify skip_digest w
      → IsSound verify skip_digest s
      → IsSound verify skip_digest r
  Reach-IsSound here l s = s
  Reach-IsSound (next w step) l s = Step-IsSound step l.1 (Reach-IsSound w l.0 s)
