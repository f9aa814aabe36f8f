-- ===== src/TaskBook/Reads.antt =====
-- node/src/task_book.rs: what a directive does to the record of any one height, pruning included.
use commonware_restaking.Prelude.{
  ℕ, ◌+◌, ◌-◌, ◌≡◌, refl, ◌==◌, ltb, if◌then◌else◌, ◌||◌, Bool, true, false, Option, none, some,
  inl, inr, Option-cases, Bool-cases, arith,
}
use commonware_restaking.Map
use commonware_restaking.Map.Laws.{get-insert, get-split_off}
use commonware_restaking.Wire.{TaskDirective, announce, skip, tip_report}
use commonware_restaking.TaskBook.{
  TaskBook, resolve_parked, record_first, override, handle_height_directive, resolution,
  prune_slack, is_above, is_stale,
}
use commonware_restaking.TaskBook.PassOver.{directives-raise_max_seen, max_seen-raise_max_seen}
use commonware_restaking.TaskBook.Recorded.{Seen, Recorded}
use commonware_restaking.TaskBook.Decision.{merge}

-- A directive past `j` was seen.
abbrev pub past : Option ℕ → ℕ → Bool
past none j = false
past (some m) j = ltb j m

past-Seen : (o : Option ℕ) (i j : ℕ) → Seen o i → past o j ≡ (past o j || ltb j i)
past-Seen none i j s = absurd s
past-Seen (some m) i j s = ground arith

past-is_stale : (o : Option ℕ) (i j : ℕ) → is_stale o i ≡ true → past o j ≡ (past o j || ltb j i)
past-is_stale none i j s = cc
past-is_stale (some m) i j s = ground arith

past-horizon : (o : Option ℕ) (i : ℕ) → is_stale o i ≡ true → past o (i + prune_slack) ≡ true
past-horizon none i s = cc
past-horizon (some m) i s = ground arith

module _ {T : Type 0} where
  -- Once a directive is further past a height than the slack, that height has none on record.
  abbrev pub Forgets : TaskBook T → ℕ → Type 0
  Forgets b h = past b.max_seen (h + prune_slack) ≡ true → Map.get b.directives h ≡ none

  max_seen-record_first :
      (b : TaskBook T) (i : ℕ) (d : TaskDirective T)
      → (record_first b i d).max_seen ≡ (if is_above b.max_seen i then some i else b.max_seen)
  unfolding record_first resolve_parked
  max_seen-record_first b i d =
      let stored : TaskBook T = record b { directives = Map.insert b.directives i d } in
      let answered = resolve_parked stored i (resolution d) in
      ground (arith, max_seen-raise_max_seen answered i)

  directives-record_first :
      (b : TaskBook T) (i : ℕ) (d : TaskDirective T)
      → (record_first b i d).directives ≡ (
          if is_above b.max_seen i
          then Map.split_off (Map.insert b.directives i d) (i - prune_slack)
          else Map.insert b.directives i d)
  unfolding record_first resolve_parked
  directives-record_first b i d =
      let stored : TaskBook T = record b { directives = Map.insert b.directives i d } in
      let answered = resolve_parked stored i (resolution d) in
      ground (arith, directives-raise_max_seen answered i)

  past-record_first :
      (b : TaskBook T) (i j : ℕ) (d : TaskDirective T)
      → past (record_first b i d).max_seen j ≡ (past b.max_seen j || ltb j i)
  past-record_first b i j d = elim (Option-cases b.max_seen) [
    | inl n ↦ rw (max_seen-record_first b i d, n) refl
    | inr (m, n) ↦ rw (max_seen-record_first b i d, n) (ground arith)
  ]

  get-record_first :
      (b : TaskBook T) (i h : ℕ) (d : TaskDirective T)
      → Map.get b.directives i ≡ none
      → is_stale b.max_seen i ≡ false
      → Forgets b h
      → Map.get (record_first b i d).directives h ≡ (
          if past b.max_seen (h + prune_slack) || ltb (h + prune_slack) i
          then none
          else if i == h
          then merge (Map.get b.directives h) d
          else Map.get b.directives h)
  unfolding merge
  get-record_first b i h d g fresh f = elim (Option-cases b.max_seen) [
    | inl n ↦
        rw (directives-record_first b i d, n)
          (ground (
            arith,
            n,
            g,
            get-insert b.directives i h d,
            get-split_off (Map.insert b.directives i d) (i - prune_slack) h,
          ))
    | inr (m, n) ↦
        rw (directives-record_first b i d, n)
          (ground (
            arith,
            n,
            g,
            rw n at fresh,
            rw n at f,
            get-insert b.directives i h d,
            get-split_off (Map.insert b.directives i d) (i - prune_slack) h,
          ))
  ]

  get-override :
      (b : TaskBook T) (i h : ℕ) (x d : TaskDirective T)
      → Map.get b.directives i ≡ some x
      → Map.get (override b i x d).directives h
        ≡ (if i == h then merge (Map.get b.directives h) d else Map.get b.directives h)
  unfolding override resolve_parked merge
  get-override b i h (announce k t) (skip j) g =
      ground (arith, g, get-insert b.directives i h (skip j))
  get-override b i h (announce k t) (announce j u) g = ground (arith, g)
  get-override b i h (announce k t) (tip_report j) g = ground (arith, g)
  get-override b i h (skip k) d g = ground (arith, g)
  get-override b i h (tip_report k) d g = ground (arith, g)

  max_seen-override :
      (b : TaskBook T) (i : ℕ) (x d : TaskDirective T) → (override b i x d).max_seen ≡ b.max_seen
  unfolding override resolve_parked
  max_seen-override b i (announce k t) (skip j) = refl
  max_seen-override b i (announce k t) (announce j u) = refl
  max_seen-override b i (announce k t) (tip_report j) = refl
  max_seen-override b i (skip k) d = refl
  max_seen-override b i (tip_report k) d = refl

  pub past-handle_height_directive :
      (b : TaskBook T) (i j : ℕ) (d : TaskDirective T)
      → Recorded b
      → past (handle_height_directive b i d).max_seen j ≡ (past b.max_seen j || ltb j i)
  unfolding handle_height_directive
  past-handle_height_directive b i j d v = elim (Option-cases (Map.get b.directives i)) [
    | inr (x, g) ↦
        rw (g, handle_height_directive, max_seen-override b i x d)
          (past-Seen b.max_seen i j (v.seen i (rw g)))
    | inl g ↦ elim (Bool-cases (is_stale b.max_seen i)) [
      | inl stale ↦ rw (g, stale, handle_height_directive) (past-is_stale b.max_seen i j stale)
      | inr fresh ↦ rw (g, fresh, handle_height_directive) (past-record_first b i j d)
    ]
  ]

  pub get-handle_height_directive :
      (b : TaskBook T) (i h : ℕ) (d : TaskDirective T)
      → Recorded b
      → Forgets b h
      → Map.get (handle_height_directive b i d).directives h ≡ (
          if past b.max_seen (h + prune_slack) || ltb (h + prune_slack) i
          then none
          else if i == h
          then merge (Map.get b.directives h) d
          else Map.get b.directives h)
  unfolding handle_height_directive
  get-handle_height_directive b i h d v f = elim (Option-cases (Map.get b.directives i)) [
    | inr (x, g) ↦
        rw (g, handle_height_directive)
          (ground (
            arith,
            g,
            f,
            get-override b i h x d g,
            past-Seen b.max_seen i (h + prune_slack) (v.seen i (rw g)),
          ))
    | inl g ↦ elim (Bool-cases (is_stale b.max_seen i)) [
      | inl stale ↦
          rw (g, stale, handle_height_directive)
            (ground (
              arith,
              g,
              f,
              past-is_stale b.max_seen i (h + prune_slack) stale,
              past-horizon b.max_seen i stale,
            ))
      | inr fresh ↦ rw (g, fresh, handle_height_directive) (get-record_first b i h d g fresh f)
    ]
  ]
