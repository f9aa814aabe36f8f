-- ===== src/TipReports.antt =====
-- router/src/sequencer.rs: the tips that the nodes report, and the tip that the router may trust.
-- An operator's identity is a number. A lock is never poisoned.
pub mod SafeTip
pub mod Ingest
mod Tests
use commonware_restaking.Prelude.{
  ℕ, ◌-◌, ◌/◌, leb, if◌then◌else◌, or_default, max, List, [], ◌∷◌, get_elem?,
}
use commonware_restaking.Map
use commonware_restaking.Map.{Map}

pub record TipReports : Type 0 where
  pub reports : Map ℕ
  pub max_faults : ℕ

unfoldable pub new : ℕ → TipReports
new participant_count = record { reports = []; max_faults = (participant_count - 1) / 3 }

-- `entry(peer).or_insert(0)`, raised to the new tip.
unfoldable pub record_tip : TipReports → ℕ → ℕ → TipReports
record_tip t peer tip =
    let entry = or_default (Map.get t.reports peer) 0 in
    record t { reports = Map.insert t.reports peer (max entry tip) }

-- `sort_unstable_by(|a, b| b.cmp(a))`: numbers that compare equal are equal, so every sort agrees.
insert_desc : ℕ → List ℕ → List ℕ
insert_desc x [] = x ∷ []
insert_desc x (y ∷ ys) = let rest = insert_desc x ys in if leb y x then x ∷ y ∷ ys else y ∷ rest

sort_desc : List ℕ → List ℕ
sort_desc [] = []
sort_desc (x ∷ xs) = insert_desc x (sort_desc xs)

unfoldable pub safe_tip : TipReports → ℕ
unfolding insert_desc sort_desc
safe_tip t = or_default (get_elem? (sort_desc (Map.values t.reports)) t.max_faults) 0
