-- ===== src/Router/Releases.antt =====
-- The router's process: what becomes of a task that has a height.
use commonware_restaking.Prelude.{List, ℕ, ◌≡◌, refl, Bool, some}
use commonware_restaking.Prelude.Eq.{TestsEq}
use commonware_restaking.Map
use commonware_restaking.CertReporter.{CertifiedHeight}
use commonware_restaking.Sequencer.{SequencedTask, Assignment, Drive}
use commonware_restaking.Router.{driving, Router, start, take, settled, started, progressed}
use commonware_restaking.Router.Steps.{
  Step, reporting, tip_report, taking, finishing, settling_over, draining, pulling, exhausted,
  asking, assigning, receiving, ticking, Reach, AllInRange,
}
use commonware_restaking.Router.Owned.{Matches}
use commonware_restaking.Router.Explains.{InFlight, IsSound}
use commonware_restaking.Router.Invariant.{Reach-IsSound}
use commonware_restaking.Router.Fates.{
  Fate, Fate-same, Fate-resolution, Fate-interval, same_drive, elsewhere, start-IsSound,
}

module _ {T D C N : Type 0} ⦃eq : TestsEq D⦄ {verify : CertifiedHeight D C → Bool}
    {skip_digest : ℕ → D} where
  Step-Fate :
      {r r' : Router T D C} (w : Step N verify skip_digest r r') (h : ℕ)
      (sequenced : SequencedTask T D) (deadline : ℕ) (d : Drive T)
      → IsSound verify skip_digest r
      → r.phase ≡ driving h sequenced deadline d
      → Fate verify skip_digest r.reporter.forwarded h sequenced r'.phase
  unfolding take settled started progressed
  Step-Fate (reporting r m) h sequenced deadline d s e =
      Fate-same verify skip_digest _ h sequenced deadline d _ e
  Step-Fate (tip_report r peer tip) h sequenced deadline d s e =
      Fate-same verify skip_digest _ h sequenced deadline d _ e
  Step-Fate (taking r c rest p q) h sequenced deadline d s e =
      Fate-same verify skip_digest _ h sequenced deadline d _ e
  Step-Fate (finishing r c read calls x p q) h sequenced deadline d s e =
      Fate-same verify skip_digest _ h sequenced deadline d _ e
  Step-Fate (settling_over r p) h sequenced deadline d s e =
      absurd (elsewhere r.phase h sequenced deadline d e (rw p refl))
  Step-Fate (draining r rs rest p q) h sequenced deadline d s e =
      absurd (elsewhere r.phase h sequenced deadline d e (rw p refl))
  Step-Fate (pulling r sequenced' p) h sequenced deadline d s e =
      absurd (elsewhere r.phase h sequenced deadline d e (rw p refl))
  Step-Fate (exhausted r p) h sequenced deadline d s e =
      absurd (elsewhere r.phase h sequenced deadline d e (rw p refl))
  Step-Fate (asking r sequenced' buffered rest p q) h sequenced deadline d s e =
      absurd (elsewhere r.phase h sequenced deadline d e (rw p refl))
  Step-Fate (assigning r sequenced' buffered tip assigned_at started_at p) h sequenced deadline d s
        e =
      absurd (elsewhere r.phase h sequenced deadline d e (rw p refl))
  Step-Fate (receiving r height sequenced' deadline' d' x rest p q) h sequenced deadline d s e =
      let (a, b) = same_drive r.phase h height sequenced sequenced' deadline deadline' d d' e p in
      rw (← a, ← b)
        (Fate-resolution verify skip_digest r height sequenced' deadline' d' x rest s p q)
  Step-Fate (ticking r height sequenced' deadline' d' now p) h sequenced deadline d s e =
      let (a, b) = same_drive r.phase h height sequenced sequenced' deadline deadline' d d' e p in
      rw (← a, ← b)
        (Fate-interval verify skip_digest _ height sequenced' deadline' d' now _ r.reports)

  -- In the router's process, from its start and for every order of its actors' steps in which the last `u64` is
  -- not assigned: a height that is driven for a task goes on being driven for it after a step, or the
  -- task is held for another height, or the sequencer is free for a new task, and that only if the
  -- reporter had forwarded a verified certificate of this height whose digest is the task's or the
  -- height's skip digest.
  pub Reach-Fate :
      (participant_count round_timeout coordinator : ℕ) (quorum_numbers : List ℕ)
      {r r' : Router T D C}
      (w : Reach N verify skip_digest
        (start participant_count round_timeout coordinator quorum_numbers)
        r)
      (step : Step N verify skip_digest r r') (h : ℕ) (sequenced : SequencedTask T D) (deadline : ℕ)
      (d : Drive T)
      → AllInRange N verify skip_digest w
      → r.phase ≡ driving h sequenced deadline d
      → Fate verify skip_digest r.reporter.forwarded h sequenced r'.phase
  Reach-Fate participant_count round_timeout coordinator quorum_numbers w step h sequenced deadline
        d l e =
      let s =
        start-IsSound verify skip_digest participant_count round_timeout coordinator
          quorum_numbers in
      Step-Fate step h sequenced deadline d (Reach-IsSound w l s) e

  -- In the router's process, from its start and for every order of its actors' steps in which the last `u64` is
  -- not assigned: an assignment that the actors share is that of the height that is driven, and
  -- carries the digest of the task for which it is driven.
  pub Reach-InFlight :
      (participant_count round_timeout coordinator : ℕ) (quorum_numbers : List ℕ) {r : Router T D C}
      (w : Reach N verify skip_digest
        (start participant_count round_timeout coordinator quorum_numbers)
        r)
      → AllInRange N verify skip_digest w
      → (h : ℕ) (a : Assignment T D) → Map.get r.sequencer.assignments h ≡ some a
      → InFlight r.phase h × Matches r.phase h a.digest
  Reach-InFlight participant_count round_timeout coordinator quorum_numbers w l h a g =
      let s = Reach-IsSound w l (
        start-IsSound verify skip_digest participant_count round_timeout coordinator
          quorum_numbers) in
      (s.in_flight h a g, (s.agrees.current.owns h a g).1)
