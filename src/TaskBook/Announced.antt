-- ===== src/TaskBook/Announced.antt =====
-- node/src/task_book.rs: an announcement on record came with the directive or was there before.
use commonware_restaking.Prelude.{
  ℕ, ◌-◌, ◌≡◌, sym, ◌∙◌, ◌==◌, ==_iff, Option, none, some, ◌⊎◌, inl, inr, Option-cases, Bool-cases,
  arith,
}
use commonware_restaking.Map
use commonware_restaking.Map.{Map}
use commonware_restaking.Map.Laws.{get-insert, get-split_off}
use commonware_restaking.Wire.{TaskDirective, announce, skip, tip_report}
use commonware_restaking.TaskBook.{
  TaskBook, resolve_parked, record_first, override, handle_height_directive, resolution,
  prune_slack, is_above, is_stale,
}
use commonware_restaking.TaskBook.PassOver.{directives-raise_max_seen}
use commonware_restaking.TaskBook.Log.{other_height}

module _ {T : Type 0} where
  -- An announcement on record after a directive was there before, or is that directive.
  get-record_first :
      (b : TaskBook T) (h : ℕ) (d x : TaskDirective T)
      → Map.get (record_first b h d).directives h ≡ some x
      → d ≡ x
  unfolding record_first resolve_parked
  get-record_first b h d x g =
      let stored : TaskBook T = record b { directives = Map.insert b.directives h d } in
      let answered = resolve_parked stored h (resolution d) in
      elim (Bool-cases (is_above b.max_seen h)) [
        | inl e ↦ ground (
          arith,
          e,
          g,
          directives-raise_max_seen answered h,
          get-split_off (Map.insert b.directives h d) (h - prune_slack) h,
          get-insert b.directives h h d,
        )
        | inr e ↦ ground (arith, e, g, get-insert b.directives h h d)
      ]

  get-override :
      (b : TaskBook T) (h : ℕ) (e d : TaskDirective T) (i : ℕ) (t : T)
      → Map.get b.directives h ≡ some e
      → Map.get (override b h e d).directives h ≡ some (announce i t)
      → Map.get b.directives h ≡ some (announce i t)
  unfolding override resolve_parked
  get-override b h (announce k u) (skip j) i t p g =
      let bad : ◌≡◌ {A = Option (TaskDirective T)} (some (skip j)) (some (announce i t)) =
        sym (ground (arith, get-insert b.directives h h (skip j))) ∙ g in
      cc
  get-override b h (announce k u) d i t p g = g
  get-override b h (skip k) d i t p g = g
  get-override b h (tip_report k) d i t p g = g

  same_height :
      (b : TaskBook T) (h : ℕ) (d : TaskDirective T) (i : ℕ) (t : T)
      → Map.get (handle_height_directive b h d).directives h ≡ some (announce i t)
      → (Map.get b.directives h ≡ some (announce i t)) ⊎ (d ≡ announce i t)
  unfolding handle_height_directive
  same_height b h d i t g = elim (Option-cases (Map.get b.directives h)) [
    | inl e ↦ elim (Bool-cases (is_stale b.max_seen h)) [
      | inl stale ↦ inl (rw (e, stale, handle_height_directive) at g)
      | inr fresh ↦
          inr (get-record_first b h d (announce i t) (rw (e, fresh, handle_height_directive) at g))
    ]
    | inr (x, e) ↦ inl (get-override b h x d i t e (rw (e, handle_height_directive) at g))
  ]

  pub announced_before :
      (b : TaskBook T) (h j : ℕ) (d : TaskDirective T) (i : ℕ) (t : T)
      → Map.get (handle_height_directive b h d).directives j ≡ some (announce i t)
      → (Map.get b.directives j ≡ some (announce i t)) ⊎ ((j ≡ h) × (d ≡ announce i t))
  announced_before b h j d i t g = elim (Bool-cases (h == j)) [
    | inl same ↦
        let p : j ≡ h = sym ((==_iff h j).0 same) in
        elim (same_height b h d i t (rw p at g)) [ inl q ↦ inl (rw p q) | inr q ↦ inr (p, q) ]
    | inr other ↦ elim (other_height b h j d (λ p. cc (other, (==_iff h j).1 p))) [
      | inl q ↦ inl (sym q ∙ g)
      | inr (q, low) ↦
          let bad : ◌≡◌ {A = Option (TaskDirective T)} none (some (announce i t)) = sym q ∙ g in cc
    ]
  ]
