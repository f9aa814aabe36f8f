-- ===== src/NodeReporter.antt =====
-- node/src/reporter.rs: the node's actor that follows what its engine certifies. The skip digest of a
-- height and the test of digests are parameters; the tip handle, the gauge, the counters, what was
-- tapped and which floors the TaskBook was sent are fields. The gauge is an `i64`: to set it to a height that
-- is none fails, and the code drops that failure.
pub mod Replays
pub mod Follows
pub mod Tips
pub mod Floors
mod Tests
use commonware_restaking.Prelude.{
  ℕ, suc, ◌-◌, ◌^◌, leb, ltb, if◌then◌else◌, is_some, Bool, Option, none, some, List, [], ◌∷◌, ◌++◌,
}
use commonware_restaking.Map
use commonware_restaking.Map.{Map}
use commonware_restaking.TaskBook.{prune_slack}

pub record CertificateObservation (D C : Type 0) : Type 0 where
  pub height : ℕ
  pub digest : D
  pub certificate : C

pub data Activity (D C : Type 0) : Type 0 where
  certified : CertificateObservation D C → Activity D C
  tip : ℕ → Activity D C
  ack : ℕ → Activity D C

-- A set of heights is a map to the only value of `Unit`.
pub record NodeReporter (D C : Type 0) : Type 0 where
  pub certified : Map (Unit {0})
  pub tip_handle : ℕ
  pub height_gauge : ℕ
  pub certified_counter : ℕ
  pub skipped_counter : ℕ
  pub has_tap : Bool
  pub tapped : List (CertificateObservation D C)
  pub floors : List ℕ

-- The heights that are an `i64`.
abbrev pub gauge_limit : ℕ
gauge_limit = 2 ^ 63

-- `let _ = try_set(..)`.
abbrev pub try_set : ℕ → ℕ → ℕ
try_set gauge height = if ltb height gauge_limit then height else gauge

module _ {D C : Type 0} where
  abbrev pub new : Bool → NodeReporter D C
  new has_tap = record {
    certified = [];
    tip_handle = 0;
    height_gauge = 0;
    certified_counter = 0;
    skipped_counter = 0;
    has_tap = has_tap;
    tapped = [];
    floors = [];
  }

  unfoldable pub prune : NodeReporter D C → ℕ → NodeReporter D C
  prune r floor =
      if ltb 0 floor
      then record r { floors = r.floors ++ floor ∷ []; certified = Map.split_off r.certified floor }
      else r

  unfoldable pub advance : NodeReporter D C → ℕ → NodeReporter D C
  unfolding prune
  advance r h =
      if leb h r.tip_handle
      then r
      else prune (record r { tip_handle = h; height_gauge = try_set r.height_gauge h })
          (h - prune_slack)

  -- A certificate for a height that is not in the set.
  unfoldable pub observe :
      (D → ℕ → Bool) → NodeReporter D C → CertificateObservation D C → NodeReporter D C
  observe is_skip r c = record r {
    certified = Map.insert r.certified c.height tt;
    certified_counter = suc r.certified_counter;
    skipped_counter =
        if is_skip c.digest c.height then suc r.skipped_counter else r.skipped_counter;
    tapped = if r.has_tap then r.tapped ++ c ∷ [] else r.tapped;
  }

  unfoldable pub handle : (D → ℕ → Bool) → NodeReporter D C → Activity D C → NodeReporter D C
  unfolding observe advance
  handle is_skip r (certified c) =
      if is_some (Map.get r.certified c.height) then r else advance (observe is_skip r c) c.height
  handle is_skip r (tip t) = advance r t
  handle is_skip r (ack h) = r

  pub run : (D → ℕ → Bool) → NodeReporter D C → List (Activity D C) → NodeReporter D C
  unfolding handle
  run is_skip r [] = r
  run is_skip r (a ∷ rest) = run is_skip (handle is_skip r a) rest
