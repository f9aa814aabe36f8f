-- ===== src/Router/Owned/Steps.antt =====
-- The router's process: no step lets go of a height that was assigned.
use commonware_restaking.Prelude.{ℕ, ◌≤◌, ◌≡◌, refl, Bool, some, [], ◌∷◌, ◌++◌}
use commonware_restaking.Prelude.Eq.{TestsEq}
use commonware_restaking.Map
use commonware_restaking.Map.{Map}
use commonware_restaking.CertReporter.{CertifiedHeight}
use commonware_restaking.Sequencer.{
  resolution, interval, Drive, Progress, more, done, disposition, assign, idle_drained,
  SequencedTask,
}
use commonware_restaking.Router.{idle, driving, Router, chosen, settled, take, started, progressed}
use commonware_restaking.Router.Steps.{
  Step, reporting, tip_report, taking, finishing, settling_over, draining, pulling, exhausted,
  asking, assigning, receiving, ticking, InRange,
}
use commonware_restaking.Router.Owned.{
  Later, Later-refl, Later-from, Later-settling, Later-drain, Later-assign, Later-driving,
  Later-after, le-drive_step, drive_of,
}

module _ {T D C : Type 0} where
  Later-progressed :
      (r : Router T D C) (height : ℕ) (sequenced : SequencedTask T D) (deadline : ℕ) (d : Drive T)
      (p : Progress T)
      → r.phase ≡ driving height sequenced deadline d
      → d.next_height ≤ (drive_of p).next_height
      → let r' = progressed r height sequenced deadline p in
        Later r.phase r.sequencer.next_height r'.phase r'.sequencer.next_height
  unfolding progressed
  Later-progressed r height sequenced deadline d (more d') e l =
      Later-from _ _ _ _ _ e (Later-driving height sequenced deadline d d' _ _ l)
  Later-progressed r height sequenced deadline d (done d' o) e l =
      Later-from _ _ _ _ _ e (Later-after height sequenced deadline d _ _ (disposition (some o)) l)

module _ {T D C N : Type 0} ⦃eq : TestsEq D⦄ {verify : CertifiedHeight D C → Bool}
    {skip_digest : ℕ → D} where
  -- No step lets go of what was assigned.
  pub Step-Later :
      {r r' : Router T D C} (w : Step N verify skip_digest r r')
      → InRange N verify skip_digest w
      → Later r.phase r.sequencer.next_height r'.phase r'.sequencer.next_height
  unfolding settled take started idle_drained assign
  Step-Later (reporting r m) l = Later-refl _ _
  Step-Later (tip_report r peer tip) l = Later-refl _ _
  Step-Later (taking r c rest p q) l = Later-refl _ _
  Step-Later (finishing r c read calls s p q) l = Later-refl _ _
  Step-Later (settling_over r p) l = Later-settling r.phase idle _ _ p refl
  Step-Later (draining r rs rest p q) l = Later-drain r.phase _ rs p
  Step-Later (pulling r sequenced p) l = Later-from _ _ _ _ _ p (record { keep = λ h digest o. o })
  Step-Later (exhausted r p) l = Later-from _ _ _ _ _ p (record { keep = λ h digest o. o })
  Step-Later (asking r sequenced buffered rest p q) l =
      Later-from _ _ _ _ _ p (record { keep = λ h digest o. o })
  Step-Later (assigning r sequenced buffered tip assigned_at started_at p) l =
      Later-from _ _ _ _ _ p (
        Later-assign r.sequencer sequenced (chosen buffered tip r.reports assigned_at started_at)
          buffered tip _ _ _ l refl)
  Step-Later (receiving r height sequenced deadline d x rest p q) l =
      Later-progressed (record r { received = r.received ++ x ∷ [] }) height sequenced deadline d _
        p (le-drive_step {D = D} height sequenced.announced deadline d (resolution x))
  Step-Later (ticking r height sequenced deadline d now p) l =
      Later-progressed r height sequenced deadline d _ p (
        le-drive_step height sequenced.announced deadline d
          (interval now (Map.get r.reporter.certified height) r.reports))
