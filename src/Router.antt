-- ===== src/Router.antt =====
-- examples/counter/router/src/app.rs: the actors that the router's process spawns, side by side. The
-- reporter (router/src/reporter.rs), the ingest of the tip reports and the sequencer
-- (router/src/sequencer.rs) and the submitter (router/src/submitter.rs) share the assignments, the
-- tip reports and two unbounded channels. A step is what one actor does between two points at which
-- the others may come between; but a turn of the interval and the end of the settle delay ask the reporter and
-- then read the tip reports in one step. The channels stay open.
pub mod Steps
pub mod Channels
pub mod Owned
pub mod Explains
pub mod Invariant
pub mod Fates
pub mod Releases
pub mod Orders
pub mod Submits
pub mod Drains
mod Tests
use commonware_restaking.Prelude.{
  ℕ, ◌+◌, ◌≡◌, ◌<◌, u64_max, max, Bool, true, false, Option, none, some, List, [], ◌∷◌, ◌++◌,
}
use commonware_restaking.Prelude.Eq.{TestsEq}
use commonware_restaking.Map
use commonware_restaking.Map.{Map}
use commonware_restaking.TipReports
use commonware_restaking.TipReports.{TipReports, record_tip, safe_tip}
use commonware_restaking.CertReporter as Reporter
use commonware_restaking.CertReporter.{CertReporter, CertifiedHeight, Message, handle}
use commonware_restaking.Sequencer as Sequencing
use commonware_restaking.Submitter as Submitting
use commonware_restaking.Sequencer.{
  SequencedTask, Assignment, Resolution, HeightOutcome, Event, resolution, interval, Drive,
  Progress, more, done, drive_step, Sequencer, Attempt, Disposition, released, pending, stopped,
  waiting, disposition, next_assigned, assign, settle, idle_drained,
}
use commonware_restaking.Wire.{announce}
use commonware_restaking.Submitter.{Submitter, Calls, handle_certified}

-- Where `Sequencer::run` waits: for the settle delay, for a task, with a task that needs a height, with
-- the resolutions that were buffered and the tip that the reporter answered, or in `drive_height`.
pub data Phase (T D : Type 0) : Type 0 where
  settling : Phase T D
  idle : Phase T D
  holding : SequencedTask T D → Phase T D
  choosing : SequencedTask T D → List Resolution → ℕ → Phase T D
  driving : ℕ → SequencedTask T D → ℕ → Drive T → Phase T D
  ended : Phase T D

-- `taken` are the certificates that the submitter received so far, `received` the resolutions that the
-- sequencer received. `handling` is the certificate in hand, with the assignments as they were read.
pub record Router (T D C : Type 0) : Type 0 where
  pub reporter : CertReporter D C
  pub reports : TipReports
  pub taken : List (CertifiedHeight D C)
  pub handling : Option (CertifiedHeight D C × Map (Assignment T D))
  pub submitter : Submitter
  pub received : List Resolution
  pub sequencer : Sequencer T D
  pub phase : Phase T D

module _ {T D : Type 0} where
  -- Where `run` goes on after a height.
  unfoldable pub phase_after : SequencedTask T D → Disposition → Phase T D
  phase_after sequenced released = idle
  phase_after sequenced pending = holding sequenced
  phase_after sequenced stopped = ended
  phase_after sequenced waiting = ended

abbrev pub chosen : {D : Type 0} → List Resolution → ℕ → TipReports → ℕ → ℕ → Attempt D
chosen buffered tip reports assigned_at started_at = record {
  buffered = buffered;
  tip = tip;
  reports = reports;
  assigned_at = assigned_at;
  started_at = started_at;
  events = [];
}

module _ {T D : Type 0} where
  -- The sequencer and its place in the code after a turn of `drive_height`.
  unfoldable pub sequencer_turned : Sequencer T D → ℕ → Progress T → Sequencer T D
  sequencer_turned s height (more d) = s
  sequencer_turned s height (done d o) = settle s height (d, some o)

  unfoldable pub phase_turned : ℕ → SequencedTask T D → ℕ → Progress T → Phase T D
  unfolding phase_after disposition
  phase_turned height sequenced deadline (more d) = driving height sequenced deadline d
  phase_turned height sequenced deadline (done d o) = phase_after sequenced (disposition (some o))

module _ {T D C : Type 0} where
  -- The process when its actors are spawned.
  abbrev pub start : ℕ → ℕ → ℕ → List ℕ → Router T D C
  start participant_count round_timeout coordinator quorum_numbers = record {
    reporter = Reporter.new true;
    reports = TipReports.new participant_count;
    taken = [];
    handling = none;
    submitter = Submitting.new coordinator quorum_numbers;
    received = [];
    sequencer = Sequencing.new round_timeout;
    phase = settling;
  }

  -- The settle delay is over.
  unfoldable pub settled : Router T D C → Router T D C
  settled r = record r {
    sequencer = record r.sequencer { next_height = max r.reporter.tip (safe_tip r.reports) };
    phase = idle;
  }

  -- The submitter receives a certificate and reads the assignments.
  unfoldable pub take : Router T D C → CertifiedHeight D C → Router T D C
  take r c = record r { taken = r.taken ++ c ∷ []; handling = some (c, r.sequencer.assignments) }

  -- The height is assigned and its drive starts.
  unfoldable pub started : Router T D C → SequencedTask T D → Attempt D → Router T D C
  unfolding assign
  started r sequenced a =
      let s = assign r.sequencer sequenced a in
      let height = next_assigned r.sequencer a in
      record r {
        sequencer = s;
        phase = driving height sequenced (a.started_at + s.round_timeout) (record {
          skipping = false;
          certified = false;
          next_height = s.next_height;
          broadcasts = s.broadcasts ++ announce height sequenced.announced ∷ [];
        });
      }

  -- What the router is after a turn of `drive_height`.
  unfoldable pub progressed : Router T D C → ℕ → SequencedTask T D → ℕ → Progress T → Router T D C
  unfolding phase_turned sequencer_turned
  progressed r height sequenced deadline p = record r {
    sequencer = sequencer_turned r.sequencer height p;
    phase = phase_turned height sequenced deadline p;
  }
