-- ===== src/TaskBook/Invariant.antt =====
-- node/src/task_book.rs: the invariant of the parked senders, under every message.
use commonware_restaking.Prelude.{
  ℕ, ◌-◌, ◌≤◌, ◌≡◌, refl, true, none, some, inl, inr, List, [], ◌∷◌, Option-cases, if_both, arith,
}
use commonware_restaking.Map
use commonware_restaking.Map.Laws.{get-insert, get-remove, get-split_off}
use commonware_restaking.Map.Order.{From, insert-From, remove-From}
use commonware_restaking.Wire.{TaskDirective, announce, skip, tip_report}
use commonware_restaking.TaskBook.{
  TaskBook, Message, directive, subscribe, prune_below_floor, new, resolve_parked, prune_below,
  raise_max_seen, record_first, override, handle_height_directive, handle_directive,
  handle_subscribe, handle, run, resolution, prune_slack, is_above, is_stale, skipped, answer,
}
use commonware_restaking.TaskBook.PassOver.{
  directives-raise_max_seen, max_seen-raise_max_seen, raise_max_seen-From,
  get-waiters-raise_max_seen,
}

-- Each height's senders stand in one entry; a parked height has no directive, and lies at the
-- highest height with a directive or above it.
pub record Inv {T : Type 0} (b : TaskBook T) : Type 0 where
  pub ordered : From 0 b.waiters
  pub undecided : (h : ℕ) → Map.contains b.waiters h ≡ true → Map.get b.directives h ≡ none
  pub ahead : (h m : ℕ) → Map.contains b.waiters h ≡ true → b.max_seen ≡ some m → m ≤ h

module _ {T : Type 0} where
  pub new-Inv : Inv (new {T = T})
  unfolding Map.get
  new-Inv = record { ordered = tt; undecided = λ h e. refl; ahead = λ h m e f. cc }

  -- A directive stored where its senders are answered.
  store-Inv :
      (b : TaskBook T) (h : ℕ) (d : TaskDirective T) (r : _)
      → Inv b
      → Inv (resolve_parked (record b { directives = Map.insert b.directives h d }) h r)
  unfolding resolve_parked
  store-Inv b h d r v = record {
    ordered = remove-From 0 h b.waiters v.ordered;
    undecided = λ j p.
        ground (arith, get-remove b.waiters h j, get-insert b.directives h j d, v.undecided j);
    ahead = λ j m p q. ground (arith, get-remove b.waiters h j, v.ahead j m);
  }

  prune_below-Inv : (b : TaskBook T) (floor : ℕ) → Inv b → Inv (prune_below b floor)
  unfolding prune_below
  prune_below-Inv b floor v = record {
    ordered = v.ordered;
    undecided = λ j p. ground (arith, get-split_off b.directives floor j, v.undecided j);
    ahead = v.ahead;
  }

  raise_max_seen-Inv : (b : TaskBook T) (h : ℕ) → Inv b → Inv (raise_max_seen b h)
  raise_max_seen-Inv b h v = record {
    ordered = raise_max_seen-From b h v.ordered;
    undecided = λ j p. ground (
      arith,
      get-waiters-raise_max_seen b h j,
      directives-raise_max_seen b h,
      get-split_off b.directives (h - prune_slack) j,
      v.undecided j,
    );
    ahead = λ j m p q.
        ground
          (arith, get-waiters-raise_max_seen b h j, max_seen-raise_max_seen b h, v.undecided j);
  }

  record_first-Inv :
      (b : TaskBook T) (h : ℕ) (d : TaskDirective T) → Inv b → Inv (record_first b h d)
  unfolding record_first
  record_first-Inv b h d v =
      let stored = store-Inv b h d (resolution d) v in
      if_both Inv (is_above b.max_seen h) (raise_max_seen-Inv _ h stored) stored

  override-Inv : (b : TaskBook T) (h : ℕ) (e d : TaskDirective T) → Inv b → Inv (override b h e d)
  unfolding override
  override-Inv b h (announce i t) (skip j) v = store-Inv b h (skip j) skipped v
  override-Inv b h (announce i t) d v = v
  override-Inv b h (skip i) d v = v
  override-Inv b h (tip_report i) d v = v

  handle_height_directive-Inv :
      (b : TaskBook T) (h : ℕ) (d : TaskDirective T) → Inv b → Inv (handle_height_directive b h d)
  unfolding handle_height_directive
  handle_height_directive-Inv b h d v = elim (Option-cases (Map.get b.directives h)) [
    | inl e ↦
        rw (e, handle_height_directive)
          (if_both Inv (is_stale b.max_seen h) v (record_first-Inv b h d v))
    | inr (x, e) ↦ rw (e, handle_height_directive) (override-Inv b h x d v)
  ]

  handle_directive-Inv : (b : TaskBook T) (d : TaskDirective T) → Inv b → Inv (handle_directive b d)
  unfolding handle_directive
  handle_directive-Inv b (tip_report h) v = v
  handle_directive-Inv b d v = handle_height_directive-Inv b _ d v

  park-Inv :
      (b : TaskBook T) (h : ℕ) (ws : List ℕ)
      → answer b h ≡ none
      → Inv b
      → Inv (record b { waiters = Map.insert b.waiters h ws })
  park-Inv b h ws e v = record {
    ordered = insert-From 0 h ws b.waiters (omega arith) v.ordered;
    undecided = λ j p. ground (arith, get-insert b.waiters h j ws, v.undecided j);
    ahead = λ j m p q. ground (arith, get-insert b.waiters h j ws, v.ahead j m);
  }

  handle_subscribe-Inv : (b : TaskBook T) (h w : ℕ) → Inv b → Inv (handle_subscribe b h w)
  unfolding handle_subscribe
  handle_subscribe-Inv b h w v = elim (Option-cases (answer b h)) [
    | inl e ↦ rw (e, handle_subscribe) (park-Inv b h _ e v)
    | inr (r, e) ↦
        rw (e, handle_subscribe)
          (record { ordered = v.ordered; undecided = v.undecided; ahead = v.ahead })
  ]

  -- Every message keeps the invariant.
  pub handle-Inv : (b : TaskBook T) (m : Message T) → Inv b → Inv (handle b m)
  unfolding handle
  handle-Inv b (directive d) v = handle_directive-Inv b d v
  handle-Inv b (subscribe h w) v = handle_subscribe-Inv b h w v
  handle-Inv b (prune_below_floor floor) v = prune_below-Inv b floor v

  run-Inv : (b : TaskBook T) (ms : List (Message T)) → Inv b → Inv (run b ms)
  unfolding run
  run-Inv b [] v = v
  run-Inv b (m ∷ ms) v = run-Inv (handle b m) ms (handle-Inv b m v)

  pub run-new-Inv : (ms : List (Message T)) → Inv (run (new {T = T}) ms)
  run-new-Inv ms = run-Inv new ms new-Inv
