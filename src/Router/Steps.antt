-- ===== src/Router/Steps.antt =====
-- examples/counter/router/src/app.rs: the steps of the actors that the router's process spawns.
use commonware_restaking.Prelude.{ℕ, ◌≡◌, ◌<◌, u64_max, Bool, none, some, List, [], ◌∷◌, ◌++◌}
use commonware_restaking.Prelude.Eq.{TestsEq}
use commonware_restaking.Map
use commonware_restaking.Map.{Map}
use commonware_restaking.TipReports.{record_tip}
use commonware_restaking.CertReporter.{CertifiedHeight, Message, handle}
use commonware_restaking.Sequencer.{
  SequencedTask, Assignment, Resolution, resolution, interval, Drive, drive_step, next_assigned,
  idle_drained,
}
use commonware_restaking.Submitter.{Submitter, Calls, handle_certified}
use commonware_restaking.Router.{
  settling, idle, holding, choosing, driving, ended, Router, chosen, settled, take, started,
  progressed,
}

module _ {T D C : Type 0} (N : Type 0) ⦃eq : TestsEq D⦄ (verify : CertifiedHeight D C → Bool)
    (skip_digest : ℕ → D) where
  -- The steps: a message of the engine or a query to the reporter; a node's tip report; the submitter's
  -- receipt of a certificate and the end of its handling; and those of the sequencer. It may miss
  -- resolutions that arrive after it looked.
  pub data Step : Router T D C → Router T D C → Type 0 where
    reporting :
        (r : Router T D C) (m : Message D C)
        → Step r (record r { reporter = handle verify r.reporter m })
    tip_report :
        (r : Router T D C) (peer tip : ℕ)
        → Step r (record r { reports = record_tip r.reports peer tip })
    taking :
        (r : Router T D C) (c : CertifiedHeight D C) (rest : List (CertifiedHeight D C))
        → r.handling ≡ none
        → r.reporter.forwarded ≡ r.taken ++ c ∷ rest
        → Step r (take r c)
    finishing :
        (r : Router T D C) (c : CertifiedHeight D C) (read : Map (Assignment T D))
        (calls : ℕ → Calls T D N) (s : Submitter)
        → r.handling ≡ some (c, read)
        → handle_certified 3 skip_digest read calls c.height c.digest r.submitter ≡ some s
        → Step r (record r { handling = none; submitter = s })
    settling_over : (r : Router T D C) → r.phase ≡ settling → Step r (settled r)
    draining :
        (r : Router T D C) (rs rest : List Resolution)
        → r.phase ≡ idle
        → r.submitter.notified ≡ r.received ++ rs ++ rest
        → Step r (record r { received = r.received ++ rs; sequencer = idle_drained r.sequencer rs })
    pulling :
        (r : Router T D C) (sequenced : SequencedTask T D)
        → r.phase ≡ idle
        → Step r (record r { phase = holding sequenced })
    exhausted : (r : Router T D C) → r.phase ≡ idle → Step r (record r { phase = ended })
    asking :
        (r : Router T D C) (sequenced : SequencedTask T D) (buffered rest : List Resolution)
        → r.phase ≡ holding sequenced
        → r.submitter.notified ≡ r.received ++ buffered ++ rest
        → Step r (record r {
          received = r.received ++ buffered;
          phase = choosing sequenced buffered r.reporter.tip;
        })
    assigning :
        (r : Router T D C) (sequenced : SequencedTask T D) (buffered : List Resolution)
        (tip assigned_at started_at : ℕ)
        → r.phase ≡ choosing sequenced buffered tip
        → Step r (started r sequenced (chosen buffered tip r.reports assigned_at started_at))
    receiving :
        (r : Router T D C) (height : ℕ) (sequenced : SequencedTask T D) (deadline : ℕ) (d : Drive T)
        (x : Resolution) (rest : List Resolution)
        → r.phase ≡ driving height sequenced deadline d
        → r.submitter.notified ≡ r.received ++ x ∷ rest
        → Step r (
            progressed
              (record r { received = r.received ++ x ∷ [] })
              height
              sequenced
              deadline
              (drive_step height sequenced.announced deadline {D = D} d (resolution x)))
    ticking :
        (r : Router T D C) (height : ℕ) (sequenced : SequencedTask T D) (deadline : ℕ) (d : Drive T)
        (now : ℕ)
        → r.phase ≡ driving height sequenced deadline d
        → Step r (
            progressed r height sequenced deadline (
              drive_step height sequenced.announced deadline d
                (interval now (Map.get r.reporter.certified height) r.reports)))

  pub data Reach (s : Router T D C) : Router T D C → Type 0 where
    here : Reach s s
    next : {r r' : Router T D C} → Reach s r → Step r r' → Reach s r'

  -- The last `u64` is not assigned in a step.
  abbrev pub InRange : {r r' : Router T D C} → Step r r' → Type 0
  InRange (assigning r sequenced buffered tip assigned_at started_at p) =
      next_assigned r.sequencer (chosen buffered tip r.reports assigned_at started_at) < u64_max
  InRange (reporting r m) = Unit {0}
  InRange (tip_report r peer tip) = Unit
  InRange (taking r c rest p q) = Unit
  InRange (finishing r c read calls s p q) = Unit
  InRange (settling_over r p) = Unit
  InRange (draining r rs rest p q) = Unit
  InRange (pulling r sequenced p) = Unit
  InRange (exhausted r p) = Unit
  InRange (asking r sequenced buffered rest p q) = Unit
  InRange (receiving r height sequenced deadline d x rest p q) = Unit
  InRange (ticking r height sequenced deadline d now p) = Unit

  abbrev pub AllInRange : {s r : Router T D C} → Reach s r → Type 0
  AllInRange here = Unit {0}
  AllInRange (next w step) = AllInRange w × InRange step
