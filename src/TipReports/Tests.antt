-- ===== src/TipReports/Tests.antt =====
-- The safe tip of four nodes, one of them faulty, and the theorems at that input.
use commonware_restaking.Prelude.{
  ℕ, ◌≡◌, ◌≤◌, ◌<◌, ◌↔◌, refl, Bool, ◌==◌, if◌then◌else◌, List, [], ◌∷◌, arith,
}
use commonware_restaking.Prelude.Result.{Result, ok, err}
use commonware_restaking.Map
use commonware_restaking.Wire.{TaskDirective, tip_report, skip}
use commonware_restaking.TipReports.{TipReports, new, safe_tip}
use commonware_restaking.TipReports.SafeTip.{at_least, le-safe_tip, safe_tip_honest}
use commonware_restaking.TipReports.Ingest.{message, closed, Received}

-- Node 3 is faulty and claims a far tip.
abbrev four : TipReports
four = record { reports = (0, 5) ∷ (1, 9) ∷ (2, 4) ∷ (3, 1000) ∷ []; max_faults = 1 }

four_faults : (new 4).max_faults ≡ 1
unfolding new
four_faults = refl

safe_tip-four : safe_tip four ≡ 9
unfolding safe_tip Map.values
safe_tip-four = refl

le-safe_tip_example : (7 ≤ safe_tip four) ↔ (1 < at_least 7 (Map.values four.reports))
le-safe_tip_example = le-safe_tip four 7 (omega arith)

abbrev is_faulty : ℕ → Bool
is_faulty p = p == 3

safe_tip_honest_example : safe_tip four ≤ 9
safe_tip_honest_example = safe_tip_honest is_faulty four 9 (ground arith) (omega arith)

-- The first byte is the tag, the second the tip.
abbrev decode_pair : List ℕ → Result ℕ (TaskDirective ℕ)
decode_pair (tag ∷ h ∷ []) = if tag == 2 then ok (tip_report h) else ok (skip h)
decode_pair bytes = err 0

abbrev reports_of_one : List Received
reports_of_one =
    message 1 (2 ∷ 12 ∷ []) ∷ message 1 (2 ∷ 11 ∷ []) ∷ message 8 (2 ∷ 99 ∷ []) ∷ closed ∷ []
