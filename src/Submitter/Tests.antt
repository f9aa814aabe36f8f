-- ===== src/Submitter/Tests.antt =====
-- router/src/submitter.rs: a height whose first attempt fails, and the theorems there.
use commonware_restaking.Prelude.{
  ℕ, ◌≡◌, ◌+◌, refl, ◌==◌, if◌then◌else◌, true, none, some, List, [], ◌∷◌, ◌++◌, ◌*◌, ◌≤◌, length,
}
use commonware_restaking.Prelude.Result.{Result, ok, err}
use commonware_restaking.Bn254.Toy.{number_eq}
use commonware_restaking.Map
use commonware_restaking.Map.{Map}
use commonware_restaking.Sequencer.{Assignment, Resolution}
use commonware_restaking.Submitter.{
  Calls, Submitter, new, handle_certified, resolve_operators, Turn, run,
}
use commonware_restaking.Submitter.Operators.{resolve_operators-operators_of}
use commonware_restaking.Submitter.Runs.{Resolves, run-Resolves}
use commonware_restaking.Submitter.Notifies.{OneNotice, Allowed, handle_certified-OneNotice}

abbrev hash_of : ℕ → Result ℕ ℕ
hash_of point = ok (point + 1000)

abbrev registry : ℕ → Result ℕ ℕ
registry hash = ok (hash + 7)

abbrev three_signers : List (ℕ × ℕ)
three_signers = (1, 11) ∷ (2, 12) ∷ (3, 13) ∷ []

-- Signer 2 is cached.
resolve_operators-operators_of_example :
    (resolve_operators hash_of registry ((2, 500) ∷ []) three_signers).1
    ≡ ok (1018 ∷ 500 ∷ 1020 ∷ [])
unfolding Map.get
resolve_operators-operators_of_example =
    resolve_operators-operators_of hash_of registry ((2, 500) ∷ []) three_signers
      (1018 ∷ 500 ∷ 1020 ∷ []) refl

-- The block number cannot be read at the first attempt.
abbrev calls : ℕ → Calls ℕ ℕ ℕ
calls attempt = record {
  signer_keys = 1 ∷ 2 ∷ [];
  signer_points = 11 ∷ 12 ∷ [];
  sigma = ok 5;
  block_number = if attempt == 1 then err 9 else ok 600;
  pubkey_hash = hash_of;
  operator_of_hash = λ block. registry;
  non_signer_data = λ coordinator quorums sigma operators block pinned. ok block;
  handle_verification = λ height digest quorums block stakes task. ok (record {
    transaction_hash = 1;
    block_number = some block;
    gas_used = none;
    status = some true;
    contract_address = none;
  });
}

abbrev skip_of : ℕ → ℕ
skip_of height = height + 5000

abbrev assigned : Map (Assignment ℕ ℕ)
assigned = (4, record { digest = 44; task = 70 }) ∷ []

abbrev idle : Submitter
idle = new 8 (0 ∷ [])

handle_certified-OneNotice_example :
    OneNotice 4
      (Allowed skip_of assigned 4 44)
      2
      idle
      (handle_certified 3 skip_of assigned calls 4 44 idle)
handle_certified-OneNotice_example = handle_certified-OneNotice skip_of assigned calls 4 44 idle

-- Height 4 with its assignment, then height 5 with the skip digest.
abbrev turns : List (Turn ℕ ℕ ℕ)
turns =
    record { height = 4; digest = 44; assignments = assigned; calls = calls }
    ∷ record { height = 5; digest = 5005; assignments = assigned; calls = calls }
    ∷ []

run-Resolves_example :
    (after : Submitter) × (rs : List Resolution) × (run 3 skip_of turns idle ≡ some after)
    × (after.notified ≡ [] ++ rs)
    × Resolves skip_of turns rs
    × (length after.slept ≤ 0 + 2 * 2)
run-Resolves_example = run-Resolves skip_of turns idle
