-- ===== src/Sequencer/Tests.antt =====
-- router/src/sequencer.rs: one round of four nodes, in which a height is passed over and the next one
-- carries the task, and the theorems at that input.
use commonware_restaking.Prelude.{ℕ, ◌≡◌, refl, true, false, none, some, [], ◌∷◌, arith}
use commonware_restaking.Map
use commonware_restaking.Wire.{announce, skip}
use commonware_restaking.TipReports.{TipReports, safe_tip}
use commonware_restaking.Sequencer.{
  SequencedTask, executed, resolution, interval, Sequencer, Drive, Attempt, Round, drive_loop,
  drive_step, drive_height, drain_resolutions, next_assigned, assign, attempt, drive_task,
  idle_drained, run_rounds, run, disposition,
}
use commonware_restaking.Sequencer.Driving.{drive_height-Announces, Announces}
use commonware_restaking.Sequencer.Heights.{Rises, run_heights, run-Rises}

-- Task 70 was announced as 71 and has the digest 72.
abbrev first_task : SequencedTask ℕ ℕ
first_task = record { task = 70; announced = 71; digest = 72 }

abbrev fresh : Sequencer ℕ ℕ
fresh = record {
  next_height = 3;
  assignments = [];
  dispatch_time = [];
  broadcasts = [];
  round_timeout = 10;
}

abbrev no_reports : TipReports
no_reports = record { reports = (0, 0) ∷ (1, 0) ∷ (2, 0) ∷ (3, 0) ∷ []; max_faults = 1 }

-- Three nodes are past height 4.
abbrev ahead : TipReports
ahead = record { reports = (0, 6) ∷ (1, 5) ∷ (2, 7) ∷ (3, 0) ∷ []; max_faults = 1 }

-- Nothing in time, so a skip; then the nodes turn out to be past it.
abbrev passed_over : Attempt ℕ
passed_over = record {
  buffered = [];
  tip = 0;
  reports = no_reports;
  assigned_at = 100;
  started_at = 100;
  events =
      interval 105 none no_reports ∷ interval 110 none no_reports ∷ interval 115 none ahead ∷ [];
}

abbrev carried : Attempt ℕ
carried = record {
  buffered = [];
  tip = 0;
  reports = ahead;
  assigned_at = 120;
  started_at = 120;
  events = resolution (record { height = 6; kind = executed true }) ∷ [];
}

abbrev one_round : Round ℕ ℕ
one_round = record { idle = []; next_task = some first_task; attempts = passed_over ∷ carried ∷ [] }

heights_of_round : run_heights fresh (one_round ∷ []) ≡ 3 ∷ 6 ∷ []
unfolding drive_task attempt assign next_assigned drive_height drive_loop safe_tip idle_drained
    drain_resolutions disposition Map.values drive_step
heights_of_round = refl

broadcasts_of_round :
    (run_rounds fresh (one_round ∷ [])).broadcasts
    ≡ announce 3 71 ∷ announce 3 71 ∷ skip 3 ∷ announce 6 71 ∷ []
unfolding run_rounds drive_task attempt assign next_assigned drive_height drive_loop safe_tip
    idle_drained drain_resolutions disposition Map.values drive_step
broadcasts_of_round = refl

drive_height-Announces_example :
    Announces 3 71 [] (drive_height fresh 3 first_task 100 passed_over.events).0.broadcasts
drive_height-Announces_example = drive_height-Announces fresh 3 first_task 100 passed_over.events

abbrev settled_drive : Drive ℕ
settled_drive = record {
  skipping = false;
  certified = true;
  next_height = 4;
  broadcasts = announce 3 71 ∷ [];
}

run-Rises_example : Rises 3 (3 ∷ 6 ∷ []) (run fresh 3 no_reports (one_round ∷ [])).next_height
unfolding drive_task attempt assign next_assigned drive_height drive_loop safe_tip idle_drained
    drain_resolutions disposition Map.values drive_step run run_rounds
run-Rises_example = run-Rises fresh 3 no_reports (one_round ∷ []) (omega arith, (omega arith, tt))
