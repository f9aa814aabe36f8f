-- ===== src/TaskBook/Tests.antt =====
-- Runs of the task book, those of the tests in node/src/task_book.rs among them, and the theorems
-- about it at concrete inputs.
use commonware_restaking.Prelude.{ℕ, ◌≡◌, refl, some, List, [], ◌∷◌, arith}
use commonware_restaking.Map
use commonware_restaking.Wire.{announce, skip, height}
use commonware_restaking.TaskBook.{
  TaskBook, Message, announced, skipped, directive, subscribe, new, handle, run, handle_directive,
  handle_subscribe, prune_below, parked, answer, prune_below_floor, handle_height_directive,
  record_first, override, raise_max_seen, pass_over_all, pass_over, resolve_parked,
}
use commonware_restaking.TaskBook.Invariant.{run-new-Inv}
use commonware_restaking.TaskBook.Recorded.{run-new-Recorded}
use commonware_restaking.TaskBook.Waiters.{held, held-run-new}
use commonware_restaking.TaskBook.SkipRules.{rule, parked-handle_directive}
use commonware_restaking.TaskBook.Answers.{Answers, handle_directive-Answers}
use commonware_restaking.TaskBook.Decision.{decision, delivered, first_task, passes}
use commonware_restaking.TaskBook.Refines.{answer-run}

-- Senders 1, 2 and 3 wait for the heights 1, 2 and 3.
abbrev three_parked : List (Message ℕ)
three_parked = subscribe 1 1 ∷ subscribe 2 2 ∷ subscribe 3 3 ∷ []

abbrev all_steps : List (Message ℕ)
all_steps =
    subscribe 1 1 ∷ subscribe 2 2 ∷ subscribe 3 3 ∷ directive (announce 3 7) ∷ subscribe 0 4 ∷ []

higher_directive_skips_passed_over_heights :
    (run new all_steps).sent ≡ (3, announced 7) ∷ (1, skipped) ∷ (2, skipped) ∷ (4, skipped) ∷ []
unfolding run handle handle_directive handle_subscribe handle_height_directive record_first override
    raise_max_seen prune_below pass_over_all pass_over resolve_parked Map.get Map.insert Map.remove
    Map.split_off Map.keys_below
higher_directive_skips_passed_over_heights = refl

abbrev override_steps : List (Message ℕ)
override_steps =
    directive (announce 4 4) ∷ directive (skip 4) ∷ directive (announce 4 4) ∷ subscribe 4 9 ∷ []

skip_override_is_sticky : (run new override_steps).sent ≡ (9, skipped) ∷ []
unfolding run handle handle_directive handle_subscribe handle_height_directive record_first override
    raise_max_seen prune_below pass_over_all pass_over resolve_parked Map.get Map.insert Map.remove
    Map.split_off Map.keys_below
skip_override_is_sticky = refl

-- The book of a node that saw an announcement for height 2 and waits for height 5.
abbrev waiting : TaskBook ℕ
waiting = record {
  directives = (2, announce 2 20) ∷ [];
  max_seen = some 2;
  waiters = (5, 9 ∷ []) ∷ [];
  sent = [];
}

held-run-new_example : held 3 (run new all_steps) ≡ 1
held-run-new_example = held-run-new 3 all_steps

parked-handle_directive_example :
    parked (handle_directive (run new three_parked) (announce 3 7)).waiters 2 ≡ []
parked-handle_directive_example =
    parked-handle_directive (run new three_parked) (announce 3 7) 2 (run-new-Inv three_parked)
      (run-new-Recorded three_parked)

handle_directive-Answers_example :
    Answers (rule (announce 6 60)) waiting (handle_directive waiting (announce 6 60))
handle_directive-Answers_example = handle_directive-Answers waiting (announce 6 60)

-- Height 4 is announced, announced again, passed by height 6, and pruned up to itself.
abbrev decided_steps : List (Message ℕ)
decided_steps =
    subscribe 4 1
    ∷ directive (announce 4 40)
    ∷ directive (announce 4 41)
    ∷ directive (skip 6)
    ∷ prune_below_floor 4
    ∷ []

first_announcement_decides : decision 4 (delivered decided_steps) ≡ some (announced 40)
unfolding decision delivered first_task passes height
first_announcement_decides = refl

answer-run_example : answer (run new decided_steps) 4 ≡ decision 4 (delivered decided_steps)
answer-run_example =
    answer-run 4 decided_steps
      (omega arith, (omega arith, (omega arith, (omega arith, (omega arith, tt)))))
