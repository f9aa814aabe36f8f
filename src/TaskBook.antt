-- ===== src/TaskBook.antt =====
-- node/src/task_book.rs: the actor that resolves aggregation heights to the router's directives.
-- A oneshot sender is a number. `sent` is what the senders were used for so far, oldest first; a
-- send to a receiver that is gone changes nothing in the actor.
pub mod PassOver
pub mod Invariant
pub mod Recorded
pub mod SkipRules
pub mod Answers
pub mod Log
pub mod Waiters
pub mod Decision
pub mod Reads
pub mod Refines
pub mod Announced
pub mod Traces
mod Tests
use commonware_restaking.Prelude.{
  ℕ, ◌-◌, ltb, if◌then◌else◌, or_default, Bool, true, false, Option, none, some, List, [], ◌∷◌,
  ◌++◌, map,
}
use commonware_restaking.Map
use commonware_restaking.Map.{Map}
use commonware_restaking.Wire.{TaskDirective, announce, skip, tip_report, height}

-- core/src/consensus/mod.rs
abbrev pub prune_slack : ℕ
prune_slack = 1024

pub data Resolution {ℓ} (T : Type ℓ) : Type ℓ where
  announced : T → Resolution T
  skipped : Resolution T

pub record TaskBook (T : Type 0) : Type 0 where
  pub directives : Map (TaskDirective T)
  pub max_seen : Option ℕ
  pub waiters : Map (List ℕ)
  pub sent : List (ℕ × Resolution T)

pub data Message (T : Type 0) : Type 0 where
  directive : TaskDirective T → Message T
  subscribe : ℕ → ℕ → Message T
  prune_below_floor : ℕ → Message T

-- `None` for a missing key: the senders parked at a height.
abbrev pub parked : Map (List ℕ) → ℕ → List ℕ
parked m h = or_default (Map.get m h) []

abbrev pub is_above : Option ℕ → ℕ → Bool
is_above none h = true
is_above (some m) h = ltb m h

-- A first directive for its height is stale below the prune horizon.
abbrev pub is_stale : Option ℕ → ℕ → Bool
is_stale none h = false
is_stale (some m) h = ltb h (m - prune_slack)

module _ {T : Type 0} where
  unfoldable pub resolution : TaskDirective T → Resolution T
  resolution (announce h t) = announced t
  resolution (skip h) = skipped
  resolution (tip_report h) = skipped

  abbrev pub new : TaskBook T
  new = record { directives = []; max_seen = none; waiters = []; sent = [] }

  -- `if let Some(waiters) = self.waiters.remove(&height) { for waiter in waiters { .. } }`
  unfoldable pub resolve_parked : TaskBook T → ℕ → Resolution T → TaskBook T
  resolve_parked b h r = record b {
    waiters = Map.remove b.waiters h;
    sent = b.sent ++ map (λ w. (w, r)) (parked b.waiters h);
  }

  unfoldable pub prune_below : TaskBook T → ℕ → TaskBook T
  prune_below b floor = record b { directives = Map.split_off b.directives floor }

  -- One round of `for h in passed_over`.
  unfoldable pub pass_over : TaskBook T → ℕ → TaskBook T
  pass_over b h = if Map.contains b.directives h then b else resolve_parked b h skipped

  unfoldable pub pass_over_all : TaskBook T → List ℕ → TaskBook T
  pass_over_all b [] = b
  pass_over_all b (h ∷ hs) = pass_over_all (pass_over b h) hs

  -- The end of `handle_directive`: skip rule 2, for a height above `max_seen`.
  unfoldable pub raise_max_seen : TaskBook T → ℕ → TaskBook T
  raise_max_seen b h =
      let raised = record b { max_seen = some h } in
      prune_below (pass_over_all raised (Map.keys_below raised.waiters h)) (h - prune_slack)

  unfoldable pub record_first : TaskBook T → ℕ → TaskDirective T → TaskBook T
  unfolding resolution
  record_first b h d =
      let stored = record b { directives = Map.insert b.directives h d } in
      let answered = resolve_parked stored h (resolution d) in
      if is_above b.max_seen h then raise_max_seen answered h else answered

  -- A directive for a height that has one. A replay and a conflicting directive are both dropped;
  -- only a skip after an announcement changes the book.
  unfoldable pub override : TaskBook T → ℕ → TaskDirective T → TaskDirective T → TaskBook T
  override b h (announce i t) (skip j) =
      resolve_parked (record b { directives = Map.insert b.directives h (skip j) }) h skipped
  override b h existing d = b

  unfoldable pub handle_height_directive : TaskBook T → ℕ → TaskDirective T → TaskBook T
  handle_height_directive b h d = elim (Map.get b.directives h) [
    | some existing ↦ override b h existing d
    | none ↦ if is_stale b.max_seen h then b else record_first b h d
  ]

  unfoldable pub handle_directive : TaskBook T → TaskDirective T → TaskBook T
  unfolding height
  handle_directive b (tip_report h) = b
  handle_directive b d = handle_height_directive b (height d) d

  -- A height that has a directive, or that a directive passed.
  abbrev pub answer : TaskBook T → ℕ → Option (Resolution T)
  answer b h = elim (Map.get b.directives h) [
    | some d ↦ some (resolution d)
    | none ↦ elim b.max_seen [ none ↦ none | some m ↦ if ltb h m then some skipped else none ]
  ]

  unfoldable pub handle_subscribe : TaskBook T → ℕ → ℕ → TaskBook T
  unfolding resolution
  handle_subscribe b h w = elim (answer b h) [
    | some r ↦ record b { sent = b.sent ++ (w, r) ∷ [] }
    | none ↦ record b { waiters = Map.insert b.waiters h (parked b.waiters h ++ w ∷ []) }
  ]

  unfoldable pub handle : TaskBook T → Message T → TaskBook T
  handle b (directive d) = handle_directive b d
  handle b (subscribe h w) = handle_subscribe b h w
  handle b (prune_below_floor floor) = prune_below b floor

  -- The messages that `run` received, in their order.
  unfoldable pub run : TaskBook T → List (Message T) → TaskBook T
  run b [] = b
  run b (m ∷ ms) = run (handle b m) ms
