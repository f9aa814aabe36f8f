-- ===== src/TaskBook/Decision.antt =====
-- node/src/task_book.rs: the answer to a height as a function of the directives that were delivered so
-- far, oldest first. It has no state, no map and no pruning.
use commonware_restaking.Prelude.{
  ℕ, ◌+◌, ◌≡◌, refl, ◌==◌, ltb, if◌then◌else◌, ◌||◌, Bool, false, Option, none, some, List, [], ◌∷◌,
  ◌++◌, any, any-snoc, arith,
}
use commonware_restaking.Wire.{TaskDirective, announce, skip, tip_report, height}
use commonware_restaking.TaskBook.{
  Message, Resolution, directive, subscribe, prune_below_floor, announced, skipped, prune_slack,
}

module _ {T : Type 0} where
  -- The directives that reach the actor; a tip report is no directive of a height.
  unfoldable pub delivered : List (Message T) → List (TaskDirective T)
  delivered [] = []
  delivered (directive (tip_report h) ∷ ms) = delivered ms
  delivered (directive d ∷ ms) = d ∷ delivered ms
  delivered (subscribe h w ∷ ms) = delivered ms
  delivered (prune_below_floor floor ∷ ms) = delivered ms

  abbrev pub skips : ℕ → TaskDirective T → Bool
  skips h (skip j) = j == h
  skips h (announce j t) = false
  skips h (tip_report j) = false

  unfoldable pub passes : ℕ → TaskDirective T → Bool
  unfolding height
  passes h d = ltb h (height d)

  -- The task of the first announcement of a height.
  unfoldable pub first_task : ℕ → List (TaskDirective T) → Option T
  first_task h [] = none
  first_task h (announce j t ∷ ds) = if j == h then some t else first_task h ds
  first_task h (skip j ∷ ds) = first_task h ds
  first_task h (tip_report j ∷ ds) = first_task h ds

  -- A skip of the height decides it for good, and so does a directive that is further past it than the
  -- slack; else the first announcement does, and where there is none, any directive past it.
  unfoldable pub decision : ℕ → List (TaskDirective T) → Option (Resolution T)
  decision h ds =
      if any ds (passes (h + prune_slack)) || any ds (skips h)
      then some skipped
      else elim (first_task h ds) [
        | some t ↦ some (announced t)
        | none ↦ if any ds (passes h) then some skipped else none
      ]

  -- The directive on record for a height, while no directive is further past it than the slack.
  unfoldable pub on_record : ℕ → List (TaskDirective T) → Option (TaskDirective T)
  on_record h ds =
      if any ds (skips h)
      then some (skip h)
      else elim (first_task h ds) [ some t ↦ some (announce h t) | none ↦ none ]

  -- A further directive of a height.
  unfoldable pub merge : Option (TaskDirective T) → TaskDirective T → Option (TaskDirective T)
  merge none d = some d
  merge (some (announce i t)) (skip j) = some (skip j)
  merge (some e) d = some e

  first_task-announce :
      (h j : ℕ) (t : T) (ds : List (TaskDirective T))
      → first_task h (ds ++ announce j t ∷ [])
        ≡ elim (first_task h ds) [ some u ↦ some u | none ↦ if j == h then some t else none ]
  unfolding first_task
  first_task-announce h j t [] = refl
  first_task-announce h j t (announce i u ∷ ds) = ground (arith, first_task-announce h j t ds)
  first_task-announce h j t (skip i ∷ ds) = first_task-announce h j t ds
  first_task-announce h j t (tip_report i ∷ ds) = first_task-announce h j t ds

  first_task-skip :
      (h j : ℕ) (ds : List (TaskDirective T)) → first_task h (ds ++ skip j ∷ []) ≡ first_task h ds
  unfolding first_task
  first_task-skip h j [] = refl
  first_task-skip h j (announce i u ∷ ds) = ground (arith, first_task-skip h j ds)
  first_task-skip h j (skip i ∷ ds) = first_task-skip h j ds
  first_task-skip h j (tip_report i ∷ ds) = first_task-skip h j ds

  pub on_record-announce :
      (h j : ℕ) (t : T) (ds : List (TaskDirective T))
      → on_record h (ds ++ announce j t ∷ [])
        ≡ (if j == h then merge (on_record h ds) (announce j t) else on_record h ds)
  unfolding on_record merge
  on_record-announce h j t ds =
      ground (arith, any-snoc ds (announce j t) (skips h), first_task-announce h j t ds)

  pub on_record-skip :
      (h j : ℕ) (ds : List (TaskDirective T))
      → on_record h (ds ++ skip j ∷ [])
        ≡ (if j == h then merge (on_record h ds) (skip j) else on_record h ds)
  unfolding on_record merge
  on_record-skip h j ds = ground (arith, any-snoc ds (skip j) (skips h), first_task-skip h j ds)
