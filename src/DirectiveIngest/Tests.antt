-- ===== src/DirectiveIngest/Tests.antt =====
-- node/src/task_book.rs: a stale directive twice, a stranger, and the theorems there.
use commonware_restaking.Prelude.{ℕ, ◌==◌, if◌then◌else◌, List, [], ◌∷◌}
use commonware_restaking.Prelude.Result.{Result, ok, err}
use commonware_restaking.Wire.{TaskDirective, skip, tip_report}
use commonware_restaking.DirectiveIngest.{
  Received, message, closed, Report, ingest, on_message, on_directive, report_tip,
  warn_beyond_window, beyond_window,
}
use commonware_restaking.DirectiveIngest.Delivers.{Spaced, ingest-start-Spaced}

-- The first byte is the tag, the second the height.
abbrev decode : List ℕ → Result ℕ (TaskDirective ℕ)
decode (tag ∷ h ∷ []) = if tag == 2 then ok (tip_report h) else ok (skip h)
decode bytes = err 0

-- The router is peer 9. The tip is 10; the second report waits for the interval of 5.
abbrev received : List Received
received =
    message 9 (1 ∷ 4 ∷ []) 10 100
    ∷ message 9 (1 ∷ 5 ∷ []) 10 103
    ∷ message 3 (1 ∷ 6 ∷ []) 10 104
    ∷ message 9 (1 ∷ 7 ∷ []) 10 106
    ∷ closed
    ∷ []

abbrev reports_of_run : List Report
reports_of_run =
    record { tip = 10; directive_height = 7; at = 106 }
    ∷ record { tip = 10; directive_height = 4; at = 100 }
    ∷ []

ingest-start-Spaced_example : Spaced 5 reports_of_run
unfolding ingest on_message on_directive report_tip warn_beyond_window beyond_window
ingest-start-Spaced_example = ingest-start-Spaced 8 5 decode 9 received
