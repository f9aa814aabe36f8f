-- ===== src/TaskBook/Recorded.antt =====
-- node/src/task_book.rs: `max_seen` bounds the heights with a directive, and only rises.
use commonware_restaking.Prelude.{
  ℕ, ◌-◌, ◌≤◌, ◌≡◌, true, false, Option, none, some, inl, inr, List, [], ◌∷◌, Option-cases,
  Bool-cases, if_both, arith,
}
use commonware_restaking.Map
use commonware_restaking.Map.Laws.{get-insert, get-split_off}
use commonware_restaking.Wire.{TaskDirective, announce, skip, tip_report}
use commonware_restaking.TaskBook.{
  TaskBook, Message, Resolution, directive, subscribe, prune_below_floor, new, resolve_parked,
  prune_below, raise_max_seen, record_first, override, handle_height_directive, handle_directive,
  handle_subscribe, handle, run, resolution, prune_slack, is_above, is_stale, skipped, answer,
}
use commonware_restaking.TaskBook.PassOver.{directives-raise_max_seen, max_seen-raise_max_seen}

-- A height up to the highest one with a directive.
abbrev pub Seen : Option ℕ → ℕ → Type 0
Seen none h = ⊥
Seen (some m) h = h ≤ m

pub record Recorded {T : Type 0} (b : TaskBook T) : Type 0 where
  pub seen : (h : ℕ) → Map.contains b.directives h ≡ true → Seen b.max_seen h

Seen-above : (o : Option ℕ) (h j : ℕ) → is_above o h ≡ true → Seen o j → j ≤ h
Seen-above none h j e s = absurd s
Seen-above (some m) h j e s = ground arith

pub Seen-not-above : (o : Option ℕ) (h : ℕ) → is_above o h ≡ false → Seen o h
Seen-not-above none h e = cc
Seen-not-above (some m) h e = ground arith

module _ {T : Type 0} where
  raise-Recorded :
      (b : TaskBook T) (h : ℕ) (d : TaskDirective T) (r : Resolution T)
      → is_above b.max_seen h ≡ true
      → Recorded b
      → Recorded (
          raise_max_seen
            (resolve_parked (record b { directives = Map.insert b.directives h d }) h r)
            h)
  unfolding resolve_parked
  raise-Recorded b h d r e v = record {
    seen = λ j p.
        let stored : TaskBook T =
          resolve_parked (record b { directives = Map.insert b.directives h d }) h r in
        rw (max_seen-raise_max_seen stored h) (
          ground (
            arith,
            directives-raise_max_seen stored h,
            get-insert b.directives h j d,
            get-split_off (Map.insert b.directives h d) (h - prune_slack) j,
            v.seen j,
            Seen-above b.max_seen h j e,
          ));
  }

  store-Recorded :
      (b : TaskBook T) (h : ℕ) (d : TaskDirective T) (r : Resolution T)
      → Seen b.max_seen h
      → Recorded b
      → Recorded (resolve_parked (record b { directives = Map.insert b.directives h d }) h r)
  unfolding resolve_parked
  store-Recorded b h d r s v = record {
    seen = λ j p. ground (arith, get-insert b.directives h j d, v.seen j);
  }

  record_first-Recorded :
      (b : TaskBook T) (h : ℕ) (d : TaskDirective T) → Recorded b → Recorded (record_first b h d)
  unfolding record_first
  record_first-Recorded b h d v = elim (Bool-cases (is_above b.max_seen h)) [
    | inl e ↦ rw e (raise-Recorded b h d (resolution d) e v)
    | inr e ↦ rw e (store-Recorded b h d (resolution d) (Seen-not-above b.max_seen h e) v)
  ]

  override-Recorded :
      (b : TaskBook T) (h : ℕ) (e d : TaskDirective T)
      → Map.get b.directives h ≡ some e
      → Recorded b
      → Recorded (override b h e d)
  unfolding override
  override-Recorded b h (announce i t) (skip j) e v =
      store-Recorded b h (skip j) skipped (v.seen h (rw e)) v
  override-Recorded b h (announce i t) d e v = v
  override-Recorded b h (skip i) d e v = v
  override-Recorded b h (tip_report i) d e v = v

  handle_height_directive-Recorded :
      (b : TaskBook T) (h : ℕ) (d : TaskDirective T)
      → Recorded b
      → Recorded (handle_height_directive b h d)
  unfolding handle_height_directive
  handle_height_directive-Recorded b h d v = elim (Option-cases (Map.get b.directives h)) [
    | inl e ↦
        rw (e, handle_height_directive)
          (if_both Recorded (is_stale b.max_seen h) v (record_first-Recorded b h d v))
    | inr (x, e) ↦ rw (e, handle_height_directive) (override-Recorded b h x d e v)
  ]

  handle_subscribe-Recorded :
      (b : TaskBook T) (h w : ℕ) → Recorded b → Recorded (handle_subscribe b h w)
  unfolding handle_subscribe
  handle_subscribe-Recorded b h w v = elim (Option-cases (answer b h)) [
    | inl e ↦ rw (e, handle_subscribe) (record { seen = v.seen })
    | inr (r, e) ↦ rw (e, handle_subscribe) (record { seen = v.seen })
  ]

  pub handle-Recorded : (b : TaskBook T) (m : Message T) → Recorded b → Recorded (handle b m)
  unfolding handle handle_directive prune_below
  handle-Recorded b (directive (announce h t)) v =
      handle_height_directive-Recorded b h (announce h t) v
  handle-Recorded b (directive (skip h)) v = handle_height_directive-Recorded b h (skip h) v
  handle-Recorded b (directive (tip_report h)) v = v
  handle-Recorded b (subscribe h w) v = handle_subscribe-Recorded b h w v
  handle-Recorded b (prune_below_floor floor) v = record {
    seen = λ j p. ground (arith, get-split_off b.directives floor j, v.seen j);
  }

  pub new-Recorded : Recorded (new {T = T})
  unfolding Map.get
  new-Recorded = record { seen = λ h e. cc }

  run-Recorded : (b : TaskBook T) (ms : List (Message T)) → Recorded b → Recorded (run b ms)
  unfolding run
  run-Recorded b [] v = v
  run-Recorded b (m ∷ ms) v = run-Recorded (handle b m) ms (handle-Recorded b m v)

  pub run-new-Recorded : (ms : List (Message T)) → Recorded (run (new {T = T}) ms)
  run-new-Recorded ms = run-Recorded new ms new-Recorded
