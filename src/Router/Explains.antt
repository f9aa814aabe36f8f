-- ===== src/Router/Explains.antt =====
-- The router's process: what its actors agree on between two steps.
pub mod Kept
use commonware_restaking.Prelude.{
  IsIn, ℕ, ◌≡◌, Bool, true, Option, none, some, List, ◌++◌, All, All-map,
}
use commonware_restaking.Map
use commonware_restaking.Map.{Map}
use commonware_restaking.CertReporter.{CertifiedHeight}
use commonware_restaking.Sequencer.{
  Assignment, Resolution, ResolutionKind, executed, skipped, foreign,
}
use commonware_restaking.Router.{Phase, settling, idle, holding, choosing, driving, ended, Router}
use commonware_restaking.Router.Owned.{Owned, Later}

module _ {T D : Type 0} where
  -- The height is the one that is driven.
  abbrev pub InFlight : Phase T D → ℕ → Type 0
  InFlight (driving height sequenced deadline d) h = height ≡ h
  InFlight settling h = ⊥
  InFlight idle h = ⊥
  InFlight (holding sequenced) h = ⊥
  InFlight (choosing sequenced buffered tip) h = ⊥
  InFlight ended h = ⊥

module _ {T D : Type 0} (skip_digest : ℕ → D) where
  -- What a certificate's digest is, for a height that was resolved so.
  abbrev pub Reason : Phase T D → ℕ → ℕ → D → ResolutionKind → Type 0
  Reason p n h digest (executed success) = Owned p n h digest
  Reason p n h digest skipped = digest ≡ skip_digest h
  Reason p n h digest foreign = Unit {0}

  Reason-Later :
      (p : Phase T D) (n : ℕ) (p' : Phase T D) (n' h : ℕ) (digest : D) (kind : ResolutionKind)
      → Later p n p' n'
      → Reason p n h digest kind
      → Reason p' n' h digest kind
  Reason-Later p n p' n' h digest (executed success) l a = l.keep h digest a
  Reason-Later p n p' n' h digest skipped l a = a
  Reason-Later p n p' n' h digest foreign l a = a

  -- A resolution with the certificate that it is about.
  pub record Explained {C : Type 0} (p : Phase T D) (n : ℕ) (taken : List (CertifiedHeight D C))
      (x : Resolution) : Type 0 where
    pub certificate : CertifiedHeight D C
    pub is_taken : IsIn certificate taken
    pub same_height : certificate.height ≡ x.height
    pub reason : Reason p n x.height certificate.digest x.kind

  Explained-Later :
      {C : Type 0} {p : Phase T D} {n : ℕ} {p' : Phase T D} {n' : ℕ}
      (taken taken' : List (CertifiedHeight D C))
      → Later p n p' n'
      → ((c : CertifiedHeight D C) → IsIn c taken → IsIn c taken')
      → (x : Resolution) → Explained p n taken x
      → Explained p' n' taken' x
  Explained-Later taken taken' l grow x e = record {
    certificate = e.certificate;
    is_taken = grow e.certificate e.is_taken;
    same_height = e.same_height;
    reason = Reason-Later _ _ _ _ x.height e.certificate.digest x.kind l e.reason;
  }

-- Assignments that were read, of heights that were assigned so.
pub record Reads {T D : Type 0} (p : Phase T D) (n : ℕ) (read : Map (Assignment T D)) : Type 0 where
  pub owns : (h : ℕ) (a : Assignment T D) → Map.get read h ≡ some a → Owned p n h a.digest

-- The certificate in hand was taken, and the assignments were read with it.
abbrev pub InHand :
    {T D C : Type 0}
    → Phase T D
    → ℕ
    → List (CertifiedHeight D C)
    → Option (CertifiedHeight D C × Map (Assignment T D))
    → Type 0
InHand p n taken none = Unit
InHand p n taken (some (c, read)) = IsIn c taken × Reads p n read

-- What the submitter holds and what it sent agree with what was assigned.
pub record Agrees {T D C : Type 0} (skip_digest : ℕ → D) (p : Phase T D) (n : ℕ)
    (taken : List (CertifiedHeight D C))
    (handling : Option (CertifiedHeight D C × Map (Assignment T D)))
    (assignments : Map (Assignment T D)) (notified : List Resolution) : Type 0 where
  pub current : Reads p n assignments
  pub in_hand : InHand p n taken handling
  pub explained : All (Explained skip_digest p n taken) notified

pub Reads-Later :
    {T D : Type 0} {p : Phase T D} {n : ℕ} {p' : Phase T D} {n' : ℕ} {read : Map (Assignment T D)}
    → Later p n p' n'
    → Reads p n read
    → Reads p' n' read
Reads-Later l s = record { owns = λ h a g. l.keep h a.digest (s.owns h a g) }

module _ {T D C : Type 0} where
  InHand-Later :
      (p : Phase T D) (n : ℕ) (p' : Phase T D) (n' : ℕ) (taken taken' : List (CertifiedHeight D C))
      (handling : Option (CertifiedHeight D C × Map (Assignment T D)))
      → Later p n p' n'
      → ((c : CertifiedHeight D C) → IsIn c taken → IsIn c taken')
      → InHand p n taken handling
      → InHand p' n' taken' handling
  InHand-Later p n p' n' taken taken' none l grow i = tt
  InHand-Later p n p' n' taken taken' (some (c, read)) l grow i = (grow c i.0, Reads-Later l i.1)

  -- With more assigned and more taken, all of it still agrees.
  pub Agrees-Later :
      {skip_digest : ℕ → D} {p : Phase T D} {n : ℕ} {p' : Phase T D} {n' : ℕ}
      {taken taken' : List (CertifiedHeight D C)}
      {handling : Option (CertifiedHeight D C × Map (Assignment T D))}
      {assignments : Map (Assignment T D)} {notified : List Resolution}
      → Later p n p' n'
      → ((c : CertifiedHeight D C) → IsIn c taken → IsIn c taken')
      → Agrees skip_digest p n taken handling assignments notified
      → Agrees skip_digest p' n' taken' handling assignments notified
  Agrees-Later {skip_digest = skip_digest} {taken = taken} {taken' = taken'} {handling = handling}
        {notified = notified} l grow s =
      record {
        current = Reads-Later l s.current;
        in_hand = InHand-Later _ _ _ _ taken taken' handling l grow s.in_hand;
        explained =
            All-map _ _ notified (Explained-Later skip_digest taken taken' l grow) s.explained;
      }

pub record IsSound {T D C : Type 0} (verify : CertifiedHeight D C → Bool) (skip_digest : ℕ → D)
    (r : Router T D C) : Type 0 where
  pub queue : List (CertifiedHeight D C)
  pub queued : r.reporter.forwarded ≡ r.taken ++ queue
  pub inbox : List Resolution
  pub inboxed : r.submitter.notified ≡ r.received ++ inbox
  pub all_verified : All (λ c. verify c ≡ true) r.reporter.forwarded
  pub in_flight :
      (h : ℕ) (a : Assignment T D) → Map.get r.sequencer.assignments h ≡ some a → InFlight r.phase h
  pub agrees :
      Agrees skip_digest r.phase r.sequencer.next_height r.taken r.handling r.sequencer.assignments
        r.submitter.notified
