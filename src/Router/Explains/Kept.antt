-- ===== src/Router/Explains/Kept.antt =====
-- The router's process: what one actor's step does to what the actors agree on.
use commonware_restaking.Prelude.{
  IsIn, ℕ, ◌≡◌, ◌≢◌, refl, sym, ap, ◌∙◌, ◌==◌, Bool, true, false, Option, none, some, some_inj,
  List, ◌++◌, All-append, Bool-cases, Option-cases, inl, inr, arith,
}
use commonware_restaking.Prelude.Eq.{TestsEq, ◌=?◌}
use commonware_restaking.Map
use commonware_restaking.Map.{Map}
use commonware_restaking.Map.Laws.{get-insert, get-remove}
use commonware_restaking.CertReporter.{CertifiedHeight}
use commonware_restaking.Sequencer.{
  Assignment, Resolution, ResolutionKind, executed, skipped, foreign, Drive, Progress, more, done,
  SequencedTask,
}
use commonware_restaking.Submitter.{Submitter, Calls, handle_certified}
use commonware_restaking.Submitter.Notifies.{OneNotice, Allowed, handle_certified-OneNotice}
use commonware_restaking.Router.{Phase, driving, Router, progressed}
use commonware_restaking.Router.Owned.{Later}
use commonware_restaking.Router.Explains.{InFlight, Reason, Reads, Agrees, Agrees-Later}

module _ {T D : Type 0} where
  -- After an insertion into an empty map there is one entry.
  pub entry-insert :
      (m : Map (Assignment T D)) (h' : ℕ) (a' : Assignment T D) (h : ℕ) (a : Assignment T D)
      → ((j : ℕ) (b : Assignment T D) → Map.get m j ≡ some b → ⊥)
      → Map.get (Map.insert m h' a') h ≡ some a
      → (h' ≡ h) × (a' ≡ a)
  entry-insert m h' a' h a none_yet g = elim (Bool-cases (h' == h)) [
    | inl e ↦ (ground arith, some_inj (sym (get-insert m h' h a' ∙ rw e refl) ∙ g))
    | inr e ↦ absurd (none_yet h a (sym (get-insert m h' h a' ∙ rw e refl) ∙ g))
  ]

  -- After a removal the entry is another.
  pub entry-remove :
      (m : Map (Assignment T D)) (h' h : ℕ) (a : Assignment T D)
      → Map.get (Map.remove m h') h ≡ some a
      → (h' ≢ h) × (Map.get m h ≡ some a)
  entry-remove m h' h a g = elim (Bool-cases (h' == h)) [
    | inl e ↦
        let bad : ◌≡◌ {A = Option (Assignment T D)} none (some a) =
          sym (get-remove m h' h ∙ rw e refl) ∙ g in
        cc
    | inr e ↦ (ground arith, sym (get-remove m h' h ∙ rw e refl) ∙ g)
  ]

module _ {T D C : Type 0} where
  -- A turn of the drive keeps the entry for its height as long as it lasts.
  pub InFlight-progressed :
      (r : Router T D C) (height : ℕ) (sequenced : SequencedTask T D) (deadline : ℕ) (d : Drive T)
      (p : Progress T)
      → r.phase ≡ driving height sequenced deadline d
      → ((j : ℕ) (b : Assignment T D)
          → Map.get r.sequencer.assignments j ≡ some b
          → InFlight r.phase j)
      → (h : ℕ) (a : Assignment T D)
      → Map.get (progressed r height sequenced deadline p).sequencer.assignments h ≡ some a
      → InFlight (progressed r height sequenced deadline p).phase h
  unfolding progressed
  InFlight-progressed r height sequenced deadline d (more d') e s h a g = rw e at (s h a g)
  InFlight-progressed r height sequenced deadline d (done d' o) e s h a g =
      let (other, old) = entry-remove r.sequencer.assignments height h a g in
      let same : InFlight (driving height sequenced deadline d) h = rw e at (s h a old) in
      absurd (omega arith)

module _ {T D C : Type 0} {skip_digest : ℕ → D} where
  pub Agrees-progressed :
      (r : Router T D C) (height : ℕ) (sequenced : SequencedTask T D) (deadline : ℕ)
      (p : Progress T)
      → let r' = progressed r height sequenced deadline p in
        Later r.phase r.sequencer.next_height r'.phase r'.sequencer.next_height
        → Agrees skip_digest r.phase r.sequencer.next_height r.taken r.handling
            r.sequencer.assignments r.submitter.notified
        → Agrees skip_digest r'.phase r'.sequencer.next_height r'.taken r'.handling
            r'.sequencer.assignments r'.submitter.notified
  unfolding progressed
  Agrees-progressed r height sequenced deadline (more d) k s = Agrees-Later k (λ b i. i) s
  Agrees-progressed r height sequenced deadline (done d o) k s =
      let a = Agrees-Later k (λ b i. i) s in
      record {
        current = record {
          owns = λ h b g. a.current.owns h b (entry-remove r.sequencer.assignments height h b g).1;
        };
        in_hand = a.in_hand;
        explained = a.explained;
      }

module _ {T D C : Type 0} ⦃eq : TestsEq D⦄ (skip_digest : ℕ → D) where
  -- What the submitter sends at the end is explained by what it held.
  Reason-notice :
      (p : Phase T D) (n : ℕ) (c : CertifiedHeight D C) (read : Map (Assignment T D))
      (kind : ResolutionKind)
      → Reads p n read
      → Allowed skip_digest read c.height c.digest kind
      → Reason skip_digest p n c.height c.digest kind
  Reason-notice p n c read (executed success) o (other, same) =
      elim (Option-cases (Map.get read c.height)) [
        | inl e ↦ let bad : ◌≡◌ {A = Bool} false true = rw e at same in cc
        | inr (a, e) ↦
            let carried : (a.digest =? c.digest) ≡ true = rw e at same in
            rw (← ((eq.test_iff a.digest c.digest).0 carried)) (o.owns c.height a e)
      ]
  Reason-notice p n c read skipped o f = (eq.test_iff c.digest (skip_digest c.height)).0 f
  Reason-notice p n c read foreign o f = tt

  pub Agrees-finished :
      (p : Phase T D) (n : ℕ) (taken : List (CertifiedHeight D C)) (c : CertifiedHeight D C)
      (read assignments : Map (Assignment T D)) (s s' : Submitter) (o : Option Submitter)
      → OneNotice c.height (Allowed skip_digest read c.height c.digest) 2 s o
      → o ≡ some s'
      → IsIn c taken × Reads p n read
      → Agrees skip_digest p n taken (some (c, read)) assignments s.notified
      → Agrees skip_digest p n taken none assignments s'.notified
  Agrees-finished p n taken c read assignments s s' o one e i a = record {
    current = a.current;
    in_hand = tt;
    explained =
        let same : one.after ≡ s' = some_inj (sym one.returns ∙ e) in
        let noticed : s'.notified ≡ _ =
          ap (λ (x : Submitter). x.notified) (sym same) ∙ one.noticed in
        rw noticed (
          All-append _ s.notified _ a.explained (
            record {
              certificate = c;
              is_taken = i.0;
              same_height = refl;
              reason = Reason-notice p n c read one.kind i.1 one.fits;
            },
            tt,
          ));
  }

  pub notified-finished :
      {N : Type 0} (c : CertifiedHeight D C) (read : Map (Assignment T D)) (calls : ℕ → Calls T D N)
      (s s' : Submitter)
      → handle_certified 3 skip_digest read calls c.height c.digest s ≡ some s'
      → (sent : List Resolution) × (s'.notified ≡ s.notified ++ sent)
  notified-finished c read calls s s' e =
      let one = handle_certified-OneNotice skip_digest read calls c.height c.digest s in
      (_, ap (λ (x : Submitter). x.notified) (sym (some_inj (sym one.returns ∙ e))) ∙ one.noticed)
