-- ===== src/TaskBook/Traces.antt =====
-- node/src/task_book.rs: where the answers that the actor gives come from.
use commonware_restaking.Prelude.{
  ℕ, ◌<◌, ◌≡◌, refl, sym, ap, ◌∙◌, some, some_inj, List, [], ◌∷◌, ◌++◌, ◌⊎◌, inl, inr, All,
  All-append, All-map, IsIn, IsIn-append, IsIn-last, Option-cases, append-nil, append_assoc, arith,
}
use commonware_restaking.Map
use commonware_restaking.Map.{Map}
use commonware_restaking.Map.Laws.{get-insert, get-split_off}
use commonware_restaking.Wire.{TaskDirective, announce, skip, tip_report, height}
use commonware_restaking.TaskBook.{
  TaskBook, Resolution, announced, skipped, Message, directive, subscribe, prune_below_floor, new,
  parked, prune_below, handle_height_directive, handle_directive, handle_subscribe, handle, run,
  resolution, answer,
}
use commonware_restaking.TaskBook.Announced.{announced_before}
use commonware_restaking.TaskBook.Waiters.{count, count-append}
use commonware_restaking.TaskBook.SkipRules.{rule, rule_at}
use commonware_restaking.TaskBook.Answers.{Justified, handle_directive-Answers}

pub run-snoc :
    {T : Type 0} (b : TaskBook T) (ms : List (Message T)) (m : Message T)
    → run b (ms ++ m ∷ []) ≡ handle (run b ms) m
unfolding run
run-snoc b [] m = refl
run-snoc b (k ∷ ms) m = run-snoc (handle b k) ms m

parked-subscribe :
    (m : Map (List ℕ)) (h w j x : ℕ)
    → 0 < count x (parked (Map.insert m h (parked m h ++ w ∷ [])) j)
    → ((j ≡ h) × (x ≡ w)) ⊎ (0 < count x (parked m j))
parked-subscribe m h w j x c =
    ground (arith, get-insert m h j (parked m h ++ w ∷ []), count-append x (parked m h) (w ∷ []))

module _ {T : Type 0} where
  -- A sender got an answer for the height that it came with, and a task only if it was announced for
  -- that height.
  abbrev pub Traced : List (Message T) → ℕ × Resolution T → Type 0
  Traced ms (w, skipped) = (h : ℕ) × IsIn (subscribe h w) ms
  Traced ms (w, announced t) =
      (h : ℕ) × IsIn (subscribe h w) ms × IsIn (directive (announce h t)) ms

  -- The book after the messages `ms`.
  record Sourced (ms : List (Message T)) (b : TaskBook T) : Type 0 where
    pub parks : (j w : ℕ) → 0 < count w (parked b.waiters j) → IsIn (subscribe j w) ms
    pub records :
        (j i : ℕ) (t : T)
        → Map.get b.directives j ≡ some (announce i t)
        → IsIn (directive (announce j t)) ms
    pub answers : All (Traced ms) b.sent

  Traced-append :
      (ms ns : List (Message T)) (p : ℕ × Resolution T) → Traced ms p → Traced (ms ++ ns) p
  Traced-append ms ns (w, skipped) (h, i) = (h, IsIn-append _ ms ns i)
  Traced-append ms ns (w, announced t) (h, i, d) = (h, IsIn-append _ ms ns i, IsIn-append _ ms ns d)

  -- The directive of a message, recorded at its height.
  directive-records :
      (ms : List (Message T)) (b : TaskBook T) (h : ℕ) (d : TaskDirective T) (j i : ℕ) (t : T)
      → height d ≡ h
      → Sourced ms b
      → Map.get (handle_height_directive b h d).directives j ≡ some (announce i t)
      → IsIn (directive (announce j t)) (ms ++ directive d ∷ [])
  unfolding height
  directive-records ms b h d j i t at_h s g = elim (announced_before b h j d i t g) [
    | inl q ↦ IsIn-append _ ms (directive d ∷ []) (s.records j i t q)
    | inr (p, q) ↦
        let e : i ≡ h = sym (ap height q) ∙ at_h in
        let same : d ≡ announce j t = rw p (rw (← e) q) in rw (← same) (IsIn-last (directive d) ms)
  ]

  rule-announced :
      (h : ℕ) (r : Resolution T) (j : ℕ) (t : T)
      → rule_at h r j ≡ some (announced t)
      → (j ≡ h) × (r ≡ announced t)
  rule-announced h r j t e = ground arith

  directive-answers :
      (ms : List (Message T)) (b : TaskBook T) (d : TaskDirective T) (p : ℕ × Resolution T)
      → Sourced ms b
      → Justified (rule d) b p
      → Traced (ms ++ directive d ∷ []) p
  directive-answers ms b d (w, skipped) s (j, e, c) =
      (j, IsIn-append _ ms (directive d ∷ []) (s.parks j w c))
  directive-answers ms b (announce h u) (w, announced t) s (j, e, c) =
      let (p, q) = rule-announced h (announced u) j t e in
      let same : directive (announce h u) ≡ directive (announce j t) = rw p (cc) in
      (
        j,
        IsIn-append _ ms (directive (announce h u) ∷ []) (s.parks j w c),
        rw (← same) (IsIn-last (directive (announce h u)) ms),
      )
  directive-answers ms b (skip h) (w, announced t) s (j, e, c) =
      let bad = (rule-announced h skipped j t e).1 in cc
  directive-answers ms b (tip_report h) (w, announced t) s (j, e, c) = cc

  -- A directive of the height `h`.
  directive-Sourced :
      (ms : List (Message T)) (b : TaskBook T) (d : TaskDirective T)
      → ((j i : ℕ) (t : T)
          → Map.get (handle_directive b d).directives j ≡ some (announce i t)
          → IsIn (directive (announce j t)) (ms ++ directive d ∷ []))
      → Sourced ms b
      → Sourced (ms ++ directive d ∷ []) (handle_directive b d)
  directive-Sourced ms b d recorded s =
      let a = handle_directive-Answers b d in
      record {
        parks = λ j w c. IsIn-append _ ms (directive d ∷ []) (
            s.parks j w (elim (a.parks j) [
              | inl e ↦ rw e at c
              | inr e ↦ let empty : 0 < count w [] = rw e at c in absurd (omega arith)
            ]));
        records = recorded;
        answers = rw a.grown (
            All-append _ b.sent a.new
              (All-map _ _ b.sent (Traced-append ms (directive d ∷ [])) s.answers)
              (All-map _ _ a.new (λ p. directive-answers ms b d p s) a.justified));
      }

  resolution-announced :
      (d : TaskDirective T) (t : T) → resolution d ≡ announced t → (i : ℕ) × (d ≡ announce i t)
  unfolding resolution
  resolution-announced (announce i u) t e = (i, cc)
  resolution-announced (skip i) t e = cc
  resolution-announced (tip_report i) t e = cc

  answer-announced :
      (b : TaskBook T) (h : ℕ) (t : T)
      → answer b h ≡ some (announced t)
      → (i : ℕ) × (Map.get b.directives h ≡ some (announce i t))
  answer-announced b h t e = elim (Option-cases (Map.get b.directives h)) [
    | inl n ↦ absurd (ground (arith, e, n))
    | inr (d, n) ↦
        let (i, f) = resolution-announced d t (some_inj (rw (n, answer) at e)) in (i, n ∙ ap some f)
  ]

  answered-Traced :
      (ms : List (Message T)) (b : TaskBook T) (h w : ℕ) (r : Resolution T)
      → answer b h ≡ some r
      → Sourced ms b
      → Traced (ms ++ subscribe h w ∷ []) (w, r)
  answered-Traced ms b h w skipped e s = (h, IsIn-last (subscribe h w) ms)
  answered-Traced ms b h w (announced t) e s =
      let (i, g) = answer-announced b h t e in
      (h, IsIn-last (subscribe h w) ms, IsIn-append _ ms _ (s.records h i t g))

  subscribe-Sourced :
      (ms : List (Message T)) (b : TaskBook T) (h w : ℕ)
      → Sourced ms b
      → Sourced (ms ++ subscribe h w ∷ []) (handle_subscribe b h w)
  unfolding handle_subscribe
  subscribe-Sourced ms b h w s = elim (Option-cases (answer b h)) [
    | inl e ↦
        rw (e, handle_subscribe)
          (record {
            parks = λ j x c. elim (parked-subscribe b.waiters h w j x c) [
              | inl (p, q) ↦ rw (p, q) (IsIn-last (subscribe h w) ms)
              | inr before ↦ IsIn-append _ ms _ (s.parks j x before)
            ];
            records = λ j i t g. IsIn-append _ ms _ (s.records j i t g);
            answers = All-map _ _ b.sent (Traced-append ms (subscribe h w ∷ [])) s.answers;
          })
    | inr (r, e) ↦
        rw (e, handle_subscribe)
          (record {
            parks = λ j x c. IsIn-append _ ms _ (s.parks j x c);
            records = λ j i t g. IsIn-append _ ms _ (s.records j i t g);
            answers =
                All-append _ b.sent ((w, r) ∷ [])
                  (All-map _ _ b.sent (Traced-append ms (subscribe h w ∷ [])) s.answers)
                  (answered-Traced ms b h w r e s, tt);
          })
  ]

  handle-Sourced :
      (ms : List (Message T)) (b : TaskBook T) (m : Message T)
      → Sourced ms b
      → Sourced (ms ++ m ∷ []) (handle b m)
  unfolding handle handle_directive prune_below
  handle-Sourced ms b (directive (announce h t)) s =
      directive-Sourced ms b (announce h t)
        (λ j i u g. directive-records ms b h (announce h t) j i u refl s g) s
  handle-Sourced ms b (directive (skip h)) s =
      directive-Sourced ms b (skip h) (λ j i u g. directive-records ms b h (skip h) j i u refl s g)
        s
  handle-Sourced ms b (directive (tip_report h)) s =
      directive-Sourced ms b (tip_report h) (λ j i u g. IsIn-append _ ms _ (s.records j i u g)) s
  handle-Sourced ms b (subscribe h w) s = subscribe-Sourced ms b h w s
  handle-Sourced ms b (prune_below_floor floor) s = record {
    parks = λ j w c. IsIn-append _ ms _ (s.parks j w c);
    records = λ j i t g.
        IsIn-append _ ms _
          (s.records j i t (ground (arith, g, get-split_off b.directives floor j)));
    answers = All-map _ _ b.sent (Traced-append ms (prune_below_floor floor ∷ [])) s.answers;
  }

  run-Sourced :
      (before : List (Message T)) (b : TaskBook T) (ms : List (Message T))
      → Sourced before b
      → Sourced (before ++ ms) (run b ms)
  unfolding run
  run-Sourced before b [] s = rw (append-nil before) s
  run-Sourced before b (m ∷ ms) s =
      rw (← append_assoc before (m ∷ []) ms)
        (run-Sourced (before ++ m ∷ []) (handle b m) ms (handle-Sourced before b m s))

  -- After any messages to a new actor, each answer that it sent went to the sender of a subscription,
  -- and the answer is a task only if a directive that the actor was sent announced this task for the height of
  -- that subscription.
  pub sent-run-new : (ms : List (Message T)) → All (Traced ms) (run new ms).sent
  unfolding Map.get
  sent-run-new ms =
      (run-Sourced [] new ms (record {
        parks = λ j w c. absurd (omega arith);
        records = λ j i t g. cc;
        answers = tt;
      })).answers
