-- ===== src/Node/Tests.antt =====
-- The node's process: a height from the engine's request to its digest, and the theorems there.
use commonware_restaking.Prelude.{ℕ, ◌+◌, ◌≡◌, refl, ◌==◌, List, [], ◌∷◌, All, arith}
use commonware_restaking.Prelude.Result.{Result, ok, err}
use commonware_restaking.Map
use commonware_restaking.Wire.{TaskDirective, announce, height}
use commonware_restaking.TaskBook as Book
use commonware_restaking.TaskBook.{
  Resolution, announced, directive, subscribe, answer, resolution, resolve_parked, pass_over_all,
  prune_below, handle_directive, handle_height_directive, handle_subscribe, record_first,
  raise_max_seen,
}
use commonware_restaking.TaskBook.Decision.{decision, delivered}
use commonware_restaking.DirectiveIngest.{
  on_message, on_directive, report_tip, warn_beyond_window, beyond_window,
}
use commonware_restaking.Automaton.{Validator, resolve, digest_for_announce, digest_loop}
use commonware_restaking.Node.{Node, start, deliver, propose}
use commonware_restaking.Node.Steps.{
  Settings, ingested, hearing, proposing, handling, signing, Reach, here, next,
}
use commonware_restaking.Node.Signs.{Vouched, Reach-Vouched, Reach-decision}

-- A directive is the height and the task that it announces.
abbrev decode : List ℕ → Result ℕ (TaskDirective ℕ)
decode (h ∷ t ∷ []) = ok (announce h t)
decode bytes = err 0

abbrev validator : Validator ℕ ℕ
validator = record { expected_digest = λ task n. ok (task + 100); duration = λ task n. 20 }

-- The router is peer 9.
abbrev settings : Settings ℕ ℕ
settings = record {
  decode = decode;
  router = 9;
  window = 8;
  min_report_interval = 5;
  skip_digest = λ h. h + 900;
  is_skip = λ digest h. digest == h + 900;
  validator = validator;
  retry_budget = 2000;
}

abbrev spawned : Node ℕ ℕ ℕ
spawned = start

abbrev asked : Node ℕ ℕ ℕ
asked = propose spawned 4

abbrev told : Node ℕ ℕ ℕ
told =
    deliver
      (record asked {
        heard = (9, 4 ∷ 70 ∷ []) ∷ [];
        ingest = ingested settings asked.ingest 0 9 (4 ∷ 70 ∷ []) 1;
      })
      (announce 4 70 ∷ [])

abbrev parked_node : Node ℕ ℕ ℕ
parked_node = record told {
  handled = subscribe 4 0 ∷ [];
  book = Book.handle told.book (subscribe 4 0);
}

abbrev answered : Node ℕ ℕ ℕ
answered = record parked_node {
  handled = subscribe 4 0 ∷ directive (announce 4 70) ∷ [];
  book = Book.handle parked_node.book (directive (announce 4 70));
}

abbrev to_answered : Reach settings spawned answered
unfolding propose deliver on_message on_directive report_tip warn_beyond_window beyond_window
to_answered =
    next
      (next
        (next (next here (proposing spawned 4))
          (hearing asked 9 (4 ∷ 70 ∷ []) 1 (announce 4 70 ∷ []) refl))
        (handling told (subscribe 4 0) (directive (announce 4 70) ∷ []) refl))
      (handling parked_node (directive (announce 4 70)) [] refl)

abbrev to_signed : Reach settings spawned (record answered { signed = (4, 170) ∷ [] })
unfolding propose deliver resolve digest_for_announce digest_loop Book.handle handle_directive
    handle_height_directive record_first handle_subscribe resolve_parked raise_max_seen prune_below
    pass_over_all Map.get Map.insert Map.remove Map.keys_below Map.split_off height resolution
to_signed = next to_answered (signing answered 4 0 (announced 70) 1 170 refl (0, refl) refl)

Reach-Vouched_example : All (Vouched settings ((9, 4 ∷ 70 ∷ []) ∷ [])) ((4, 170) ∷ [])
unfolding propose deliver
Reach-Vouched_example = Reach-Vouched settings to_signed

Reach-decision_example : answer answered.book 4 ≡ decision 4 (announce 4 70 ∷ [])
unfolding delivered propose deliver
Reach-decision_example = Reach-decision settings 4 to_answered (omega arith)
