-- ===== src/Automaton/Tests.antt =====
-- node/src/automaton.rs and router/src/automaton.rs: a validator that fails once, and the theorems there.
use commonware_restaking.Prelude.{ℕ, true, ◌+◌, ◌≡◌, refl, ◌==◌, if◌then◌else◌, some, [], ◌∷◌}
use commonware_restaking.Prelude.Result.{ok, err}
use commonware_restaking.Sequencer.{Sequencer, SequencedTask, Attempt, resolution, executed}
use commonware_restaking.TaskBook.{Resolution}
use commonware_restaking.Automaton.{Validator, digest_for_announce, digest_loop, resolve}
use commonware_restaking.Automaton.Resolves.{Signed, resolve-Signed}

abbrev flaky : Validator ℕ ℕ
flaky = record {
  expected_digest = λ task n. if n == 0 then err 1 else ok (task + 100);
  duration = λ task n. 20;
}

abbrev failing : Validator ℕ ℕ
failing = record { expected_digest = λ task n. err 1; duration = λ task n. 20 }

flaky_digest : digest_for_announce flaky 6 999 2000 70 0 ≡ some (170, 540)
unfolding digest_for_announce digest_loop
flaky_digest = refl

failing_digest : digest_for_announce failing 6 999 2000 70 0 ≡ some (999, 1560)
unfolding digest_for_announce digest_loop
failing_digest = refl

resolve-Signed_example :
    Signed flaky 904
      (Resolution.announced 70)
      (resolve flaky 6 (λ h. h + 900) 2000 4 (some (Resolution.announced 70)) 0)
resolve-Signed_example = resolve-Signed flaky (λ h. h + 900) 2000 4 (Resolution.announced 70) 0

abbrev idle : Sequencer ℕ ℕ
idle = record {
  next_height = 3;
  assignments = [];
  dispatch_time = [];
  broadcasts = [];
  round_timeout = 10;
}

abbrev sequenced : SequencedTask ℕ ℕ
sequenced = record { task = 70; announced = 71; digest = 72 }

abbrev resolved_at_once : Attempt ℕ
resolved_at_once = record {
  buffered = [];
  tip = 0;
  reports = record { reports = []; max_faults = 0 };
  assigned_at = 1;
  started_at = 1;
  events = resolution (record { height = 3; kind = executed true }) ∷ [];
}
