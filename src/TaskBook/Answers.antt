-- ===== src/TaskBook/Answers.antt =====
-- node/src/task_book.rs: the normative skip rules, as a bound on what is sent.
use commonware_restaking.Prelude.{
  if_both, ℕ, ◌<◌, ◌≡◌, refl, sym, ◌⊎◌, Option, some, inl, inr, List, [], ◌∷◌, ◌++◌, map,
  Option-cases, All, All-append, append-nil, append_assoc, arith,
}
use commonware_restaking.Map
use commonware_restaking.Map.{Map}
use commonware_restaking.Map.Laws.{get-remove}
use commonware_restaking.Wire.{TaskDirective, announce, skip, tip_report}
use commonware_restaking.TaskBook.{
  TaskBook, Resolution, skipped, resolve_parked, prune_below, pass_over, pass_over_all,
  raise_max_seen, record_first, override, handle_height_directive, handle_directive, parked,
  resolution, is_above, is_stale,
}
use commonware_restaking.TaskBook.Waiters.{count}
use commonware_restaking.TaskBook.SkipRules.{rule_at, rule}

module _ {T : Type 0} where
  -- The sender was parked at a height for which the rule gives the answer that it got.
  abbrev pub Justified : (ℕ → Option (Resolution T)) → TaskBook T → ℕ × Resolution T → Type 0
  Justified rl b p = (j : ℕ) × (rl j ≡ some p.1) × (0 < count p.0 (parked b.waiters j))

  -- What a step from `b` to `c` may do: park nobody, and send justified answers.
  pub record Answers (rl : ℕ → Option (Resolution T)) (b c : TaskBook T) : Type 0 where
    pub parks : (j : ℕ) → (parked c.waiters j ≡ parked b.waiters j) ⊎ (parked c.waiters j ≡ [])
    pub new : List (ℕ × Resolution T)
    pub grown : c.sent ≡ b.sent ++ new
    pub justified : All (Justified rl b) new

  Answers-refl : (rl : ℕ → Option (Resolution T)) (b : TaskBook T) → Answers rl b b
  Answers-refl rl b = record {
    parks = λ j. inl refl;
    new = [];
    grown = sym (append-nil b.sent);
    justified = tt;
  }

  Justified-map :
      (rl : ℕ → Option (Resolution T)) (b : TaskBook T) (j : ℕ) (r : Resolution T) (ws : List ℕ)
      → rl j ≡ some r
      → ((w : ℕ) → 0 < count w ws → 0 < count w (parked b.waiters j))
      → All (Justified rl b) (map (λ w. (w, r)) ws)
  Justified-map rl b j r [] e sub = tt
  Justified-map rl b j r (w ∷ ws) e sub =
      ((j, e, sub w (ground arith)), Justified-map rl b j r ws e (λ x p. sub x (ground arith)))

  resolve_parked-Answers :
      (rl : ℕ → Option (Resolution T)) (b c : TaskBook T) (j : ℕ) (r : Resolution T)
      → rl j ≡ some r
      → Answers rl b c
      → Answers rl b (resolve_parked c j r)
  unfolding resolve_parked
  resolve_parked-Answers rl b c j r e a = record {
    parks = λ i. ground (arith, get-remove c.waiters j i, a.parks i);
    new = a.new ++ map (λ w. (w, r)) (parked c.waiters j);
    grown = rw (a.grown) (append_assoc b.sent a.new _);
    justified =
        All-append (Justified rl b) a.new _ a.justified
          (Justified-map rl b j r _ e (λ w p. ground (arith, a.parks j)));
  }

  pass_over-Answers :
      (rl : ℕ → Option (Resolution T)) (b c : TaskBook T) (h : ℕ)
      → rl h ≡ some skipped
      → Answers rl b c
      → Answers rl b (pass_over c h)
  unfolding pass_over
  pass_over-Answers rl b c h e a =
      if_both (Answers rl b) (Map.contains c.directives h) a
        (resolve_parked-Answers rl b c h skipped e a)

  pass_over_all-Answers :
      (rl : ℕ → Option (Resolution T)) (b c : TaskBook T) (hs : List ℕ)
      → All (λ j. rl j ≡ some skipped) hs
      → Answers rl b c
      → Answers rl b (pass_over_all c hs)
  unfolding pass_over_all
  pass_over_all-Answers rl b c [] e a = a
  pass_over_all-Answers rl b c (h ∷ hs) e a =
      pass_over_all-Answers rl b (pass_over c h) hs e.1 (pass_over-Answers rl b c h e.0 a)

  keys_below-All :
      {V : Type 0} (h : ℕ) (r : Resolution T) (m : Map V)
      → All (λ j. rule_at h r j ≡ some skipped) (Map.keys_below m h)
  unfolding Map.keys_below
  keys_below-All h r [] = tt
  keys_below-All h r ((j, v) ∷ m) = ground (arith, keys_below-All h r m)

  raise_max_seen-Answers :
      (b c : TaskBook T) (h : ℕ) (r : Resolution T)
      → Answers (rule_at h r) b c
      → Answers (rule_at h r) b (raise_max_seen c h)
  unfolding raise_max_seen prune_below
  raise_max_seen-Answers b c h r a =
      let raised : TaskBook T = record c { max_seen = some h } in
      let start : Answers (rule_at h r) b raised = record {
        parks = a.parks;
        new = a.new;
        grown = a.grown;
        justified = a.justified;
      } in
      let passed =
        pass_over_all-Answers (rule_at h r) b raised (Map.keys_below c.waiters h)
          (keys_below-All h r c.waiters) start in
      record {
        parks = passed.parks;
        new = passed.new;
        grown = passed.grown;
        justified = passed.justified;
      }

  store-Answers :
      (b : TaskBook T) (h : ℕ) (d : TaskDirective T) (r : Resolution T)
      → Answers
          (rule_at h r)
          b
          (resolve_parked (record b { directives = Map.insert b.directives h d }) h r)
  store-Answers b h d r =
      resolve_parked-Answers (rule_at h r) b (record b { directives = Map.insert b.directives h d })
        h r (ground arith)
        (record {
          parks = λ j. inl refl;
          new = [];
          grown = sym (append-nil b.sent);
          justified = tt;
        })

  record_first-Answers :
      (b : TaskBook T) (h : ℕ) (d : TaskDirective T)
      → Answers (rule_at h (resolution d)) b (record_first b h d)
  unfolding record_first
  record_first-Answers b h d =
      let stored = store-Answers b h d (resolution d) in
      if_both (Answers (rule_at h (resolution d)) b) (is_above b.max_seen h)
        (raise_max_seen-Answers b _ h (resolution d) stored) stored

  override-Answers :
      (b : TaskBook T) (h : ℕ) (e d : TaskDirective T)
      → Answers (rule_at h (resolution d)) b (override b h e d)
  unfolding override resolution
  override-Answers b h (announce i t) (skip j) = store-Answers b h (skip j) skipped
  override-Answers b h (announce i t) d = Answers-refl _ b
  override-Answers b h (skip i) d = Answers-refl _ b
  override-Answers b h (tip_report i) d = Answers-refl _ b

  handle_height_directive-Answers :
      (b : TaskBook T) (h : ℕ) (d : TaskDirective T)
      → Answers (rule_at h (resolution d)) b (handle_height_directive b h d)
  unfolding handle_height_directive
  handle_height_directive-Answers b h d = elim (Option-cases (Map.get b.directives h)) [
    | inl e ↦
        rw (e, handle_height_directive)
          (if_both (Answers (rule_at h (resolution d)) b) (is_stale b.max_seen h) (Answers-refl _ b)
            (record_first-Answers b h d))
    | inr (x, e) ↦ rw (e, handle_height_directive) (override-Answers b h x d)
  ]

  -- What a directive makes the actor send goes to senders that were parked, and answers each by the
  -- rules: the directive's own resolution at its height, a skip at a lower height, and nothing at a
  -- higher one. A directive parks nobody, and what was sent before stays.
  pub handle_directive-Answers :
      (b : TaskBook T) (d : TaskDirective T) → Answers (rule d) b (handle_directive b d)
  unfolding handle_directive resolution
  handle_directive-Answers b (announce h t) = handle_height_directive-Answers b h (announce h t)
  handle_directive-Answers b (skip h) = handle_height_directive-Answers b h (skip h)
  handle_directive-Answers b (tip_report h) = Answers-refl _ b
