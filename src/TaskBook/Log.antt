-- ===== src/TaskBook/Log.antt =====
-- node/src/task_book.rs: what becomes of a recorded directive.
use commonware_restaking.Prelude.{
  ℕ, ◌-◌, ◌<◌, ◌≡◌, refl, sym, ◌∙◌, ◌==◌, true, leb, [], ◌∷◌, ◌++◌, Option, none, some, inl, inr,
  Option-cases, Bool-cases, ◌≢◌, ◌⊎◌, ==_iff, arith,
}
use commonware_restaking.Map
use commonware_restaking.Map.Laws.{get-insert, get-split_off}
use commonware_restaking.Wire.{TaskDirective, announce, skip, tip_report, height}
use commonware_restaking.TaskBook.{
  TaskBook, Message, parked, directive, subscribe, prune_below_floor, resolve_parked, prune_below,
  record_first, override, handle_height_directive, handle_directive, handle_subscribe, handle,
  resolution, prune_slack, is_above, is_stale, answer,
}
use commonware_restaking.TaskBook.PassOver.{directives-raise_max_seen}

-- The floor below which a message may prune.
abbrev pub floor_of : {T : Type 0} → Message T → ℕ
floor_of (directive (announce h t)) = h - prune_slack
floor_of (directive (skip h)) = h - prune_slack
floor_of (directive (tip_report h)) = 0
floor_of (subscribe h w) = 0
floor_of (prune_below_floor floor) = floor

-- A recorded directive `d` of height `h` after the message `m`, which leaves `o`.
pub data Fate {T : Type 0} (m : Message T) (h : ℕ) (d : TaskDirective T)
    (o : Option (TaskDirective T)) : Type 0 where
  kept : o ≡ some d → Fate m h d o
  pruned : o ≡ none → h < floor_of m → Fate m h d o
  overridden :
      (i : ℕ) (t : T) → d ≡ announce i t → m ≡ directive (skip h) → o ≡ some (skip h) → Fate m h d o

module _ {T : Type 0} where
  pub directives-subscribe :
      (b : TaskBook T) (h w j : ℕ)
      → Map.get (handle_subscribe b h w).directives j ≡ Map.get b.directives j
  unfolding handle_subscribe
  directives-subscribe b h w j = elim (Option-cases (answer b h)) [
    | inl e ↦ rw (e, handle_subscribe)
    | inr (r, e) ↦ rw (e, handle_subscribe)
  ]

  record_first-ne :
      (b : TaskBook T) (h j : ℕ) (d : TaskDirective T)
      → h ≢ j
      → (Map.get (record_first b h d).directives j ≡ Map.get b.directives j)
        ⊎ ((Map.get (record_first b h d).directives j ≡ none) × (j < h - prune_slack))
  unfolding record_first resolve_parked
  record_first-ne b h j d ne =
      let stored : TaskBook T = record b { directives = Map.insert b.directives h d } in
      let answered = resolve_parked stored h (resolution d) in
      elim (Bool-cases (is_above b.max_seen h)) [
        | inl e ↦ rw e (
            ground (
              arith,
              directives-raise_max_seen answered h,
              get-split_off (Map.insert b.directives h d) (h - prune_slack) j,
              get-insert b.directives h j d,
            ))
        | inr e ↦ rw e (ground (arith, get-insert b.directives h j d))
      ]

  override-ne :
      (b : TaskBook T) (h j : ℕ) (e d : TaskDirective T)
      → h ≢ j
      → Map.get (override b h e d).directives j ≡ Map.get b.directives j
  unfolding override resolve_parked
  override-ne b h j (announce i t) (skip k) ne =
      ground (arith, get-insert b.directives h j (skip k))
  override-ne b h j (announce i t) d ne = refl
  override-ne b h j (skip i) d ne = refl
  override-ne b h j (tip_report i) d ne = refl

  pub other_height :
      (b : TaskBook T) (h j : ℕ) (d : TaskDirective T)
      → h ≢ j
      → (Map.get (handle_height_directive b h d).directives j ≡ Map.get b.directives j)
        ⊎ ((Map.get (handle_height_directive b h d).directives j ≡ none) × (j < h - prune_slack))
  unfolding handle_height_directive
  other_height b h j d ne = elim (Option-cases (Map.get b.directives h)) [
    | inl e ↦
        rw (e, handle_height_directive)
          (elim (Bool-cases (is_stale b.max_seen h)) [
            | inl stale ↦ rw stale (inl refl)
            | inr fresh ↦ rw fresh (record_first-ne b h j d ne)
          ])
    | inr (x, e) ↦ rw (e, handle_height_directive) (inl (override-ne b h j x d ne))
  ]

  -- The recorded directive of the very height that a directive is for.
  override-Fate :
      (b : TaskBook T) (h : ℕ) (x d : TaskDirective T)
      → height d ≡ h
      → Map.get b.directives h ≡ some x
      → Fate (directive d) h x (Map.get (override b h x d).directives h)
  unfolding override resolve_parked height
  override-Fate b h (announce i t) (skip k) e g =
      rw e (overridden i t refl refl (ground (arith, get-insert b.directives h h (skip h))))
  override-Fate b h (announce i t) d e g = kept g
  override-Fate b h (skip i) d e g = kept g
  override-Fate b h (tip_report i) d e g = kept g

  same_height-Fate :
      (b : TaskBook T) (h : ℕ) (x d : TaskDirective T)
      → height d ≡ h
      → Map.get b.directives h ≡ some x
      → Fate (directive d) h x (Map.get (handle_height_directive b h d).directives h)
  unfolding handle_height_directive
  same_height-Fate b h x d e g = rw (g, handle_height_directive) (override-Fate b h x d e g)

  height-Fate :
      (b : TaskBook T) (h j : ℕ) (x d : TaskDirective T)
      → height d ≡ h
      → floor_of (directive d) ≡ h - prune_slack
      → Map.get b.directives j ≡ some x
      → Fate (directive d) j x (Map.get (handle_height_directive b h d).directives j)
  height-Fate b h j x d e f g = elim (Bool-cases (h == j)) [
    | inl same ↦
        let p : j ≡ h = sym ((==_iff h j).0 same) in rw p (same_height-Fate b h x d e (rw p at g))
    | inr other ↦ elim (other_height b h j d (λ p. cc (other, (==_iff h j).1 p))) [
      | inl p ↦ kept (p ∙ g)
      | inr (p, low) ↦ pruned p (rw f low)
    ]
  ]

  -- A message leaves a recorded directive as it is, or it prunes it, below its floor only, or it is a
  -- skip for the same height and replaces an announcement. So the first directive of a height wins,
  -- a skip is never taken back, and conflicting announcements change nothing.
  pub handle-Fate :
      (b : TaskBook T) (m : Message T) (j : ℕ) (x : TaskDirective T)
      → Map.get b.directives j ≡ some x
      → Fate m j x (Map.get (handle b m).directives j)
  unfolding handle handle_directive prune_below height
  handle-Fate b (directive (announce h t)) j x g = height-Fate b h j x (announce h t) refl refl g
  handle-Fate b (directive (skip h)) j x g = height-Fate b h j x (skip h) refl refl g
  handle-Fate b (directive (tip_report h)) j x g = kept g
  handle-Fate b (subscribe h w) j x g = kept (directives-subscribe b h w j ∙ g)
  handle-Fate b (prune_below_floor floor) j x g = elim (Bool-cases (leb floor j)) [
    | inl e ↦ kept (ground (arith, get-split_off b.directives floor j))
    | inr e ↦ pruned (ground (arith, get-split_off b.directives floor j)) (ground arith)
  ]

  -- Pruning may go past the highest height with a directive. A subscription at that height is then
  -- parked there, not above it.
  pub parked_at_max_seen :
      (b : TaskBook T) (m floor w : ℕ)
      → b.max_seen ≡ some m
      → m < floor
      → let c = handle_subscribe (prune_below b floor) m w in
        (c.max_seen ≡ some m) × (Map.contains c.waiters m ≡ true)
  unfolding handle_subscribe prune_below
  parked_at_max_seen b m floor w e f = ground (
    arith,
    get-split_off b.directives floor m,
    get-insert b.waiters m m (parked b.waiters m ++ w ∷ []),
  )
