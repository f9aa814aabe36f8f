-- ===== src/Sequencer.antt =====
-- router/src/sequencer.rs: the sequencer assigns heights to tasks and drives one height at a time.
-- What `tokio::select!` and the other actors decide stands in the inputs: the events that a height
-- sees in their order, and what the reporter and the tip reports say at each look. Directives are
-- listed as they are broadcast, before they are encoded. A lock is never poisoned.
pub mod Driving
pub mod Heights
mod Tests
use commonware_restaking.Prelude.{
  ℕ, ◌+◌, ◌==◌, ltb, leb, if◌then◌else◌, is_some, ◌||◌, wrapping_add, max, Bool, true, false,
  Option, none, some, List, [], ◌∷◌, ◌++◌,
}
use commonware_restaking.Map
use commonware_restaking.Map.{Map}
use commonware_restaking.Wire.{TaskDirective, announce, skip}
use commonware_restaking.TipReports.{TipReports, safe_tip}

pub record SequencedTask (T D : Type 0) : Type 0 where
  pub task : T
  pub announced : T
  pub digest : D

pub record Assignment (T D : Type 0) : Type 0 where
  pub digest : D
  pub task : T

pub data ResolutionKind : Type 0 where
  executed : Bool → ResolutionKind
  skipped : ResolutionKind
  foreign : ResolutionKind

pub record Resolution : Type 0 where
  pub height : ℕ
  pub kind : ResolutionKind

pub data HeightOutcome : Type 0 where
  resolved : ResolutionKind → HeightOutcome
  superseded : HeightOutcome
  closed : HeightOutcome

-- `times.retain(|&h, _| h >= height)`, then the new entry.
unfoldable pub stamp_dispatch_time : Map ℕ → ℕ → ℕ → Map ℕ
stamp_dispatch_time times height now = Map.insert (Map.split_off times height) height now

unfoldable pub take_dispatch_time : Map ℕ → ℕ → Option ℕ × Map ℕ
take_dispatch_time times height = (Map.get times height, Map.remove times height)

-- What one turn of the `select!` in `drive_height` sees: a resolution, the closed channel, or the end
-- of the rebroadcast interval at a time, with the reporter's answer for the height and the reports.
pub data Event (D : Type 0) : Type 0 where
  resolution : Resolution → Event D
  channel_closed : Event D
  interval : ℕ → Option D → TipReports → Event D

-- The local state of `drive_height`, `self.next_height`, and what was broadcast so far.
pub record Drive (T : Type 0) : Type 0 where
  pub skipping : Bool
  pub certified : Bool
  pub next_height : ℕ
  pub broadcasts : List (TaskDirective T)

pub data Progress (T : Type 0) : Type 0 where
  more : Drive T → Progress T
  done : Drive T → HeightOutcome → Progress T

-- `next_height` past the height of a resolution.
abbrev pub past : ℕ → Resolution → ℕ
past next r = max next (wrapping_add r.height 1)

module _ {T : Type 0} (height : ℕ) (announced : T) (deadline : ℕ) where
  unfoldable pub on_resolution : Drive T → Resolution → Progress T
  on_resolution d r =
      if r.height == height
      then done d (resolved r.kind)
      else more (record d { next_height = past d.next_height r })

  unfoldable pub rebroadcast : Drive T → ℕ → Drive T
  rebroadcast d now =
      let skips = d.skipping || leb deadline now in
      let directive = if skips then skip height else announce height announced in
      record d { skipping = skips; broadcasts = d.broadcasts ++ directive ∷ [] }

  unfoldable pub on_interval : {D : Type 0} → Drive T → ℕ → Option D → TipReports → Progress T
  unfolding rebroadcast
  on_interval d now certificate reports =
      if d.certified || is_some certificate
      then more (record d { certified = true })
      else if ltb height (safe_tip reports)
      then done d superseded
      else more (rebroadcast d now)

  -- One turn of the loop in `drive_height`.
  unfoldable pub drive_step : {D : Type 0} → Drive T → Event D → Progress T
  unfolding on_resolution on_interval
  drive_step d (resolution r) = on_resolution d r
  drive_step d channel_closed = done d closed
  drive_step d (interval now certificate reports) = on_interval d now certificate reports

  -- The loop over the events so far: `none` if it still waits.
  pub drive_loop : {D : Type 0} → Drive T → List (Event D) → Drive T × Option HeightOutcome
  drive_loop d [] = (d, none)
  drive_loop d (e ∷ es) = elim (drive_step d e) [
    | more d' ↦ drive_loop d' es
    | done d' o ↦ (d', some o)
  ]

-- The sequencer's own fields, and what it broadcast so far. `round_timeout` is fixed.
pub record Sequencer (T D : Type 0) : Type 0 where
  pub next_height : ℕ
  pub assignments : Map (Assignment T D)
  pub dispatch_time : Map ℕ
  pub broadcasts : List (TaskDirective T)
  pub round_timeout : ℕ

-- With the round timeout.
abbrev pub new : {T D : Type 0} → ℕ → Sequencer T D
new round_timeout = record {
  next_height = 0;
  assignments = [];
  dispatch_time = [];
  broadcasts = [];
  round_timeout = round_timeout;
}

-- What the sequencer reads while it drives a task at one height: the resolutions that were buffered,
-- the reporter's tip, the tip reports, the clock at the assignment and at the start of the drive, and
-- then the events.
pub record Attempt (D : Type 0) : Type 0 where
  pub buffered : List Resolution
  pub tip : ℕ
  pub reports : TipReports
  pub assigned_at : ℕ
  pub started_at : ℕ
  pub events : List (Event D)

-- What becomes of the task after a height: it is released, or still ours to assign, or the
-- sequencer stops, or the height is not over.
pub data Disposition : Type 0 where
  released pending stopped waiting : Disposition

unfoldable pub disposition : Option HeightOutcome → Disposition
disposition (some (resolved (executed success))) = released
disposition (some (resolved skipped)) = released
disposition (some (resolved foreign)) = pending
disposition (some superseded) = pending
disposition (some closed) = stopped
disposition none = waiting

unfoldable pub drain_resolutions : ℕ → List Resolution → ℕ
drain_resolutions next [] = next
drain_resolutions next (r ∷ rs) = drain_resolutions (past next r) rs

module _ {T D : Type 0} where
  -- The drive of a height: the first broadcast, then the loop.
  unfoldable pub drive_height :
      Sequencer T D → ℕ → SequencedTask T D → ℕ → List (Event D) → Drive T × Option HeightOutcome
  drive_height s height sequenced now events =
      drive_loop height sequenced.announced (now + s.round_timeout)
        (record {
          skipping = false;
          certified = false;
          next_height = s.next_height;
          broadcasts = s.broadcasts ++ announce height sequenced.announced ∷ [];
        })
        events

  -- The height that an attempt assigns.
  unfoldable pub next_assigned : Sequencer T D → Attempt D → ℕ
  unfolding drain_resolutions
  next_assigned s a =
      max (max (drain_resolutions s.next_height a.buffered) a.tip) (safe_tip a.reports)

  -- The assignment of a height, up to the drive.
  unfoldable pub assign : Sequencer T D → SequencedTask T D → Attempt D → Sequencer T D
  unfolding next_assigned stamp_dispatch_time
  assign s sequenced a =
      let height = next_assigned s a in
      record s {
        next_height = wrapping_add height 1;
        assignments =
            Map.insert s.assignments height
              (record { digest = sequenced.digest; task = sequenced.task });
        dispatch_time = stamp_dispatch_time s.dispatch_time height a.assigned_at;
      }

  -- The sequencer after a drive; the assignment stands until the height is over.
  abbrev pub settle : Sequencer T D → ℕ → Drive T × Option HeightOutcome → Sequencer T D
  settle s height (d, o) = record s {
    next_height = d.next_height;
    broadcasts = d.broadcasts;
    assignments = if is_some o then Map.remove s.assignments height else s.assignments;
  }

  pub attempt : Sequencer T D → SequencedTask T D → Attempt D → Sequencer T D × Disposition
  unfolding assign drive_height disposition
  attempt s sequenced a =
      let height = next_assigned s a in
      let s' = assign s sequenced a in
      let driven = drive_height s' height sequenced a.started_at a.events in
      (settle s' height driven, disposition driven.1)

  -- The inner loop of `run`, over the attempts at one task.
  pub drive_task :
      Sequencer T D → SequencedTask T D → List (Attempt D) → Sequencer T D × Disposition
  drive_task s sequenced [] = (s, pending)
  drive_task s sequenced (a ∷ rest) =
      let (s', d) = attempt s sequenced a in
      elim d [
        | pending ↦ drive_task s' sequenced rest
        | released ↦ (s', released)
        | stopped ↦ (s', stopped)
        | waiting ↦ (s', waiting)
      ]

-- One round of the outer loop: the resolutions that were buffered while idle, what the source
-- yields, and the attempts at that task.
pub record Round (T D : Type 0) : Type 0 where
  pub idle : List Resolution
  pub next_task : Option (SequencedTask T D)
  pub attempts : List (Attempt D)

module _ {T D : Type 0} where
  unfoldable pub idle_drained : Sequencer T D → List Resolution → Sequencer T D
  unfolding drain_resolutions
  idle_drained s rs = record s { next_height = drain_resolutions s.next_height rs }

  -- The outer loop; it goes on where the task was released.
  pub run_rounds : Sequencer T D → List (Round T D) → Sequencer T D
  unfolding idle_drained
  run_rounds s [] = s
  run_rounds s (r ∷ rs) =
      let s' = idle_drained s r.idle in
      elim r.next_task [
        | none ↦ s'
        | some sequenced ↦
            let (s'', d) = drive_task s' sequenced r.attempts in
            elim d [ released ↦ run_rounds s'' rs | _ ↦ s'' ]
      ]

  -- After the settle delay, from the reporter's tip and the tip reports.
  pub run : Sequencer T D → ℕ → TipReports → List (Round T D) → Sequencer T D
  run s tip reports rs = run_rounds (record s { next_height = max tip (safe_tip reports) }) rs
