-- ===== src/Router/Owned.antt =====
-- router/src/sequencer.rs in the router's process: a height that was assigned is not assigned again, so
-- that its digest stays that of the task for which it was assigned.
pub mod Steps
use commonware_restaking.Prelude.{
  ℕ, ◌≤◌, ◌<◌, ◌≡◌, refl, sym, ◌==◌, leb, ltb, ◌||◌, is_some, max, wrapping_add, u64_max, some,
  none, Option, List, arith,
}
use commonware_restaking.Sequencer.{
  SequencedTask, Resolution, Event, resolution, interval, channel_closed, Drive, Progress, more,
  done, drive_step, on_resolution, on_interval, rebroadcast, HeightOutcome, resolved, superseded,
  closed, executed, skipped, foreign, disposition, drain_resolutions, Sequencer, Attempt,
  next_assigned, assign, Disposition, released, pending, stopped, waiting,
}
use commonware_restaking.Sequencer.Heights.{le-drain_resolutions}
use commonware_restaking.Router.{
  Phase, settling, idle, holding, choosing, driving, ended, phase_after,
}

abbrev pub drive_of : {T : Type 0} → Progress T → Drive T
drive_of (more d) = d
drive_of (done d o) = d

module _ {T D : Type 0} where
  -- Heights from here on were not assigned yet.
  abbrev pub unassigned : Phase T D → ℕ → ℕ
  unassigned settling n = 0
  unassigned idle n = n
  unassigned (holding sequenced) n = n
  unassigned (choosing sequenced buffered tip) n = n
  unassigned (driving height sequenced deadline d) n = d.next_height
  unassigned ended n = n

  -- A digest is that of the task for which the height is driven, if it is driven.
  abbrev pub Matches : Phase T D → ℕ → D → Type 0
  Matches (driving height sequenced deadline d) h digest = height ≡ h → digest ≡ sequenced.digest
  Matches settling h digest = Unit
  Matches idle h digest = Unit
  Matches (holding sequenced) h digest = Unit
  Matches (choosing sequenced buffered tip) h digest = Unit
  Matches ended h digest = Unit

  -- The height was assigned, with the digest if it is the one that is driven.
  abbrev pub Owned : Phase T D → ℕ → ℕ → D → Type 0
  Owned p n h digest = (h < unassigned p n) × Matches p h digest

  -- What was assigned stays so.
  pub record Later (p : Phase T D) (n : ℕ) (p' : Phase T D) (n' : ℕ) : Type 0 where
    pub keep : (h : ℕ) (digest : D) → Owned p n h digest → Owned p' n' h digest

  pub Later-refl : (p : Phase T D) (n : ℕ) → Later p n p n
  Later-refl p n = record { keep = λ h digest o. o }

  pub Later-from :
      (p q : Phase T D) (n : ℕ) (p' : Phase T D) (n' : ℕ)
      → p ≡ q
      → Later q n p' n'
      → Later p n p' n'
  Later-from p q n p' n' e l = rw e l

  pub Later-settling : (p q : Phase T D) (n n' : ℕ) → p ≡ settling → q ≡ idle → Later p n q n'
  Later-settling p q n n' e f =
      rw (e, f) (record { keep = λ h digest o. (absurd (omega (arith, o.0)), tt) })

  pub Later-drain :
      (p : Phase T D) (n : ℕ) (rs : List Resolution)
      → p ≡ idle
      → Later p n p (drain_resolutions n rs)
  Later-drain p n rs e =
      rw e (record { keep = λ h digest o. (omega (arith, o.0, le-drain_resolutions n rs), tt) })

  le-next_assigned : (s : Sequencer T D) (a : Attempt D) → s.next_height ≤ next_assigned s a
  unfolding next_assigned
  le-next_assigned s a = omega (arith, le-drain_resolutions s.next_height a.buffered)

  -- The new height is above all those that were assigned.
  pub Later-assign :
      (s : Sequencer T D) (sequenced : SequencedTask T D) (a : Attempt D)
      (buffered : List Resolution) (tip deadline : ℕ) (d : Drive T) (n' : ℕ)
      → next_assigned s a < u64_max
      → d.next_height ≡ wrapping_add (next_assigned s a) 1
      → Later
          (choosing sequenced buffered tip)
          s.next_height
          (driving (next_assigned s a) sequenced deadline d)
          n'
  Later-assign s sequenced a buffered tip deadline d n' l e = record {
    keep = λ h digest o. (
      omega (arith, o.0, le-next_assigned s a, e, l),
      λ (same : next_assigned s a ≡ h). absurd (omega (arith, same, o.0, le-next_assigned s a)),
    );
  }

  pub le-drive_step :
      (height : ℕ) (announced : T) (deadline : ℕ) (d : Drive T) (e : Event D)
      → d.next_height ≤ (drive_of (drive_step height announced deadline d e)).next_height
  unfolding drive_step on_resolution on_interval rebroadcast
  le-drive_step height announced deadline d (resolution x) = ground arith
  le-drive_step height announced deadline d channel_closed = omega arith
  le-drive_step height announced deadline d (interval now c reports) = ground arith

  pub Later-driving :
      (height : ℕ) (sequenced : SequencedTask T D) (deadline : ℕ) (d d' : Drive T) (n n' : ℕ)
      → d.next_height ≤ d'.next_height
      → Later (driving height sequenced deadline d) n (driving height sequenced deadline d') n'
  Later-driving height sequenced deadline d d' n n' l = record {
    keep = λ h digest o. (omega (arith, o.0, l), o.1);
  }

  pub Later-after :
      (height : ℕ) (sequenced : SequencedTask T D) (deadline : ℕ) (d : Drive T) (n n' : ℕ)
      (x : Disposition)
      → d.next_height ≤ n'
      → Later (driving height sequenced deadline d) n (phase_after sequenced x) n'
  unfolding phase_after
  Later-after height sequenced deadline d n n' released l = record {
    keep = λ h digest o. (omega (arith, o.0, l), tt);
  }
  Later-after height sequenced deadline d n n' pending l = record {
    keep = λ h digest o. (omega (arith, o.0, l), tt);
  }
  Later-after height sequenced deadline d n n' stopped l = record {
    keep = λ h digest o. (omega (arith, o.0, l), tt);
  }
  Later-after height sequenced deadline d n n' waiting l = record {
    keep = λ h digest o. (omega (arith, o.0, l), tt);
  }
