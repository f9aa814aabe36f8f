-- ===== src/NodeReporter/Tests.antt =====
-- node/src/reporter.rs: a task, a skip, a replay and a far tip, and the theorems there.
use commonware_restaking.Prelude.{ℕ, ◌≡◌, refl, Bool, true, ◌==◌, List, [], ◌∷◌}
use commonware_restaking.Map
use commonware_restaking.NodeReporter.{
  Activity, certified, tip, ack, new, run, handle, observe, advance, prune,
}
use commonware_restaking.NodeReporter.Follows.{Accounted, run-new-Accounted}

-- A height is its own skip digest.
abbrev is_skip : ℕ → ℕ → Bool
is_skip d h = d == h

abbrev activity : List (Activity ℕ ℕ)
activity =
    certified (record { height = 3; digest = 50; certificate = 1 })
    ∷ certified (record { height = 4; digest = 4; certificate = 2 })
    ∷ certified (record { height = 3; digest = 50; certificate = 1 })
    ∷ tip 1030
    ∷ ack 7
    ∷ []

floors_of_run : (run is_skip (new true) activity).floors ≡ 6 ∷ []
unfolding run handle observe advance prune Map.get Map.insert
floors_of_run = refl

counted : (run is_skip (new true) activity).certified_counter ≡ 2
unfolding run handle observe advance prune Map.get Map.insert
counted = refl

run-new-Accounted_example : Accounted is_skip (run is_skip (new true) activity)
run-new-Accounted_example = run-new-Accounted is_skip activity
