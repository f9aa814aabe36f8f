-- ===== src/TaskBook/Refines.antt =====
-- node/src/task_book.rs: the actor answers as the history decides.
use commonware_restaking.Prelude.{
  ℕ, ◌+◌, ◌≤◌, ◌≡◌, refl, ap, ◌∙◌, ◌==◌, ltb, if◌then◌else◌, true, Option, none, some, List, [],
  ◌∷◌, ◌++◌, append-nil, append_assoc, any, any-snoc, All, inl, inr, Option-cases, arith,
}
use commonware_restaking.Map
use commonware_restaking.Map.Laws.{get-split_off}
use commonware_restaking.Wire.{TaskDirective, announce, skip, tip_report, height}
use commonware_restaking.TaskBook.{
  TaskBook, Message, directive, subscribe, prune_below_floor, new, prune_below,
  handle_height_directive, handle_directive, handle_subscribe, handle, run, resolution, prune_slack,
  skipped, answer,
}
use commonware_restaking.TaskBook.Recorded.{Recorded, handle-Recorded, new-Recorded}
use commonware_restaking.TaskBook.Log.{directives-subscribe}
use commonware_restaking.TaskBook.Reads.{
  past, past-handle_height_directive, get-handle_height_directive,
}
use commonware_restaking.TaskBook.Decision.{
  delivered, passes, first_task, decision, on_record, merge, on_record-announce, on_record-skip,
}

past-less : (o : Option ℕ) (h k : ℕ) → past o (h + k) ≡ true → past o h ≡ true
past-less none h k e = e
past-less (some m) h k e = ground arith

module _ {T : Type 0} where
  -- The floor of a prune request; the actor prunes by itself only what is out of the slack.
  abbrev pub requested_floor : Message T → ℕ
  requested_floor (prune_below_floor floor) = floor
  requested_floor (directive d) = 0
  requested_floor (subscribe h w) = 0

  -- The book stands for the directives `ds`, as far as the height `h` is concerned.
  record Decides (h : ℕ) (ds : List (TaskDirective T)) (b : TaskBook T) : Type 0 where
    pub book : Recorded b
    pub highest : (j : ℕ) → past b.max_seen j ≡ any ds (passes j)
    pub reads :
        Map.get b.directives h
        ≡ (if any ds (passes (h + prune_slack)) then none else on_record h ds)

  answer-past :
      (b : TaskBook T) (h : ℕ)
      → answer b h ≡ elim (Map.get b.directives h) [
        | some d ↦ some (resolution d)
        | none ↦ if past b.max_seen h then some skipped else none
      ]
  answer-past b h = ground arith

  answer-Decides :
      (h : ℕ) (ds : List (TaskDirective T)) (b : TaskBook T)
      → Decides h ds b
      → answer b h ≡ decision h ds
  unfolding decision on_record resolution
  answer-Decides h ds b v =
      answer-past b h
      ∙ ground (
        arith,
        v.reads,
        v.highest h,
        v.highest (h + prune_slack),
        past-less b.max_seen h prune_slack,
      )

  -- One more directive of the height `i`.
  directive-Decides :
      (h i : ℕ) (d : TaskDirective T) (ds : List (TaskDirective T)) (b : TaskBook T)
      → ((j : ℕ) → passes j d ≡ ltb j i)
      → on_record h (ds ++ d ∷ []) ≡ (if i == h then merge (on_record h ds) d else on_record h ds)
      → Recorded (handle_height_directive b i d)
      → Decides h ds b
      → Decides h (ds ++ d ∷ []) (handle_height_directive b i d)
  directive-Decides h i d ds b p e r v = record {
    book = r;
    highest = λ j.
        past-handle_height_directive b i j d v.book
        ∙ ground (arith, v.highest j, any-snoc ds d (passes j), p j);
    reads =
        get-handle_height_directive b i h d v.book
          (λ q. ground (arith, v.reads, v.highest (h + prune_slack), q))
        ∙ ground (
          arith,
          v.highest (h + prune_slack),
          v.reads,
          any-snoc ds d (passes (h + prune_slack)),
          p (h + prune_slack),
          e,
        );
  }

  max_seen-subscribe : (b : TaskBook T) (h w : ℕ) → (handle_subscribe b h w).max_seen ≡ b.max_seen
  unfolding handle_subscribe
  max_seen-subscribe b h w = elim (Option-cases (answer b h)) [
    | inl e ↦ rw (e, handle_subscribe) refl
    | inr (r, e) ↦ rw (e, handle_subscribe) refl
  ]

  handle-Decides :
      (h : ℕ) (ds : List (TaskDirective T)) (b : TaskBook T) (m : Message T)
      → requested_floor m ≤ h
      → Decides h ds b
      → Decides h (ds ++ delivered (m ∷ [])) (handle b m)
  unfolding handle handle_directive delivered prune_below passes height
  handle-Decides h ds b (directive (announce i t)) low v =
      directive-Decides h i (announce i t) ds b (λ j. refl) (on_record-announce h i t ds)
        (handle-Recorded b (directive (announce i t)) v.book) v
  handle-Decides h ds b (directive (skip i)) low v =
      directive-Decides h i (skip i) ds b (λ j. refl) (on_record-skip h i ds)
        (handle-Recorded b (directive (skip i)) v.book) v
  handle-Decides h ds b (directive (tip_report i)) low v = rw (append-nil ds) v
  handle-Decides h ds b (subscribe i w) low v = rw (append-nil ds) (record {
    book = handle-Recorded b (subscribe i w) v.book;
    highest = λ j. ap (λ o. past o j) (max_seen-subscribe b i w) ∙ v.highest j;
    reads = directives-subscribe b i w h ∙ v.reads;
  })
  handle-Decides h ds b (prune_below_floor floor) low v = rw (append-nil ds) (record {
    book = handle-Recorded b (prune_below_floor floor) v.book;
    highest = v.highest;
    reads = ground (arith, get-split_off b.directives floor h) ∙ v.reads;
  })

  delivered-cons :
      (m : Message T) (ms : List (Message T))
      → delivered (m ∷ ms) ≡ delivered (m ∷ []) ++ delivered ms
  unfolding delivered
  delivered-cons (directive (announce i t)) ms = refl
  delivered-cons (directive (skip i)) ms = refl
  delivered-cons (directive (tip_report i)) ms = refl
  delivered-cons (subscribe i w) ms = refl
  delivered-cons (prune_below_floor floor) ms = refl

  run-Decides :
      (h : ℕ) (ds : List (TaskDirective T)) (b : TaskBook T) (ms : List (Message T))
      → All (λ m. requested_floor m ≤ h) ms
      → Decides h ds b
      → Decides h (ds ++ delivered ms) (run b ms)
  unfolding run delivered
  run-Decides h ds b [] low v = rw (append-nil ds) v
  run-Decides h ds b (m ∷ ms) low v =
      let after =
        run-Decides h (ds ++ delivered (m ∷ [])) (handle b m) ms low.1
          (handle-Decides h ds b m low.0 v) in
      rw (delivered-cons m ms) (rw (append_assoc ds (delivered (m ∷ [])) (delivered ms)) at after)

  -- After any messages to a new actor of which no prune request goes past a height, the answer to the height is
  -- what the delivered directives decide: skipped if one of them skips the height or is further past it than
  -- the slack, else the task of its first announcement, else skipped if any directive is past it, else none.
  pub answer-run :
      (h : ℕ) (ms : List (Message T))
      → All (λ m. requested_floor m ≤ h) ms
      → answer (run new ms) h ≡ decision h (delivered ms)
  unfolding Map.get on_record first_task
  answer-run h ms low = answer-Decides h (delivered ms) (run new ms) (
      run-Decides h [] new ms low
        (record { book = new-Recorded; highest = λ j. refl; reads = refl }))
