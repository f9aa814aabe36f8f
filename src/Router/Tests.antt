-- ===== src/Router/Tests.antt =====
-- The router's process: a task from its height to its resolution, and the theorems on the way.
use commonware_restaking.Prelude.{ℕ, ◌+◌, ◌≡◌, refl, ◌==◌, Bool, false, none, [], ◌∷◌, arith}
use commonware_restaking.Prelude.Result.{err}
use commonware_restaking.Map
use commonware_restaking.Bn254.Toy.{number_eq}
use commonware_restaking.TipReports.{safe_tip, new}
use commonware_restaking.CertReporter.{CertifiedHeight, certified, handle}
use commonware_restaking.Sequencer.{
  SequencedTask, Drive, executed, drive_step, assign, next_assigned, drain_resolutions, disposition,
}
use commonware_restaking.Submitter.{Calls, Submitter, handle_certified, submit}
use commonware_restaking.Wire.{announce}
use commonware_restaking.Router.{
  Router, holding, choosing, start, settled, take, started, chosen, progressed, phase_turned,
  sequencer_turned,
}
use commonware_restaking.Router.Steps.{
  reporting, taking, finishing, settling_over, pulling, asking, assigning, receiving, Reach, here,
  next,
}
use commonware_restaking.Router.Fates.{LetsGo}
use commonware_restaking.Router.Releases.{Reach-Fate, Reach-InFlight}
use commonware_restaking.Router.Orders.{Ordered, Reach-Ordered}
use commonware_restaking.Router.Drains.{Ends, certified-Ends}

-- A certificate is a number, and 1 is the one that verifies.
abbrev is_one : CertifiedHeight ℕ ℕ → Bool
is_one c = c.certificate == 1

abbrev skip_of : ℕ → ℕ
skip_of h = h + 1000

abbrev chores : SequencedTask ℕ ℕ
chores = record { task = 70; announced = 71; digest = 72 }

abbrev signed : CertifiedHeight ℕ ℕ
signed = record { height = 0; digest = 72; certificate = 1 }

-- The chain does not answer.
abbrev unreachable : ℕ → Calls ℕ ℕ ℕ
unreachable attempt = record {
  signer_keys = [];
  signer_points = [];
  sigma = err 5;
  block_number = err 5;
  pubkey_hash = λ k. err 5;
  operator_of_hash = λ block k. err 5;
  non_signer_data = λ coordinator quorums sigma operators block pinned. err 5;
  handle_verification = λ height digest quorums block stakes task. err 5;
}

abbrev spawned : Router ℕ ℕ ℕ
spawned = start 4 10 8 (0 ∷ [])

abbrev asked : Router ℕ ℕ ℕ
asked = record (settled spawned) { phase = choosing chores [] 0 }

abbrev announced : Router ℕ ℕ ℕ
announced = started asked chores (chosen [] 0 (new 4) 100 101)

abbrev certified_now : Router ℕ ℕ ℕ
certified_now = record announced { reporter = handle is_one announced.reporter (certified signed) }

abbrev gave_up : Submitter
gave_up = record {
  registry_coordinator_address = 8;
  quorum_numbers = 0 ∷ [];
  operator_cache = [];
  notified = record { height = 0; kind = executed false } ∷ [];
  slept = 2 ∷ 4 ∷ [];
}

abbrev resolved_now : Router ℕ ℕ ℕ
resolved_now = record (take certified_now signed) { handling = none; submitter = gave_up }

abbrev to_announced : Reach ℕ is_one skip_of spawned announced
unfolding settled new
to_announced =
    next
      (next (next (next here (settling_over spawned refl)) (pulling (settled spawned) chores refl))
        (asking (record (settled spawned) { phase = holding chores }) chores [] [] refl refl))
      (assigning asked chores [] 0 100 101 refl)

abbrev to_certified : Reach ℕ is_one skip_of spawned certified_now
to_certified = next to_announced (reporting announced (certified signed))

abbrev to_resolved : Reach ℕ is_one skip_of spawned resolved_now
unfolding settled started take handle handle_certified assign submit Map.get Map.insert
    next_assigned drain_resolutions safe_tip new Map.values
to_resolved = next (next to_certified (taking certified_now signed [] refl refl)) (
    finishing (take certified_now signed) signed certified_now.sequencer.assignments unreachable
      gave_up refl refl)

abbrev drive_of_chores : Drive ℕ
drive_of_chores = record {
  skipping = false;
  certified = false;
  next_height = 1;
  broadcasts = announce 0 71 ∷ [];
}

-- The resolution is received, and the task is let go although its execution failed.
Reach-Fate_example : LetsGo is_one skip_of (signed ∷ []) 0 72
unfolding settled started take handle handle_certified assign submit Map.get Map.insert
    next_assigned drain_resolutions safe_tip new Map.values progressed drive_step disposition
    phase_turned sequencer_turned
Reach-Fate_example =
    Reach-Fate 4 10 8 (0 ∷ []) to_resolved
      (receiving resolved_now 0 chores 111 drive_of_chores
        (record { height = 0; kind = executed false }) [] refl refl)
      0 chores 111 drive_of_chores (((((((tt, tt), tt), tt), omega arith), tt), tt), tt) refl

Reach-InFlight_example : ◌≡◌ {A = ℕ} 0 0 × (◌≡◌ {A = ℕ} 0 0 → ◌≡◌ {A = ℕ} 72 72)
unfolding settled started assign Map.get Map.insert next_assigned drain_resolutions safe_tip new
    Map.values
Reach-InFlight_example =
    Reach-InFlight 4 10 8 (0 ∷ []) to_announced (((((tt, tt), tt), tt), omega arith)) 0
      (record { digest = 72; task = 70 }) refl

Reach-Ordered_example : Ordered resolved_now
Reach-Ordered_example = Reach-Ordered 4 10 8 (0 ∷ []) to_resolved

certified-Ends_example :
    Ends ℕ is_one skip_of (λ c. unreachable) certified_now certified_now 0 chores
unfolding settled started assign Map.get Map.insert next_assigned drain_resolutions safe_tip new
    Map.values handle
certified-Ends_example =
    certified-Ends 4 10 8 (0 ∷ []) (λ c. unreachable) to_certified 0 chores 111 drive_of_chores refl
      refl refl
