-- ===== src/Counter/Tests.antt =====
-- examples/counter: a contract at round 70 that first fails, and an environment of one setting.
use commonware_restaking.Prelude.{
  ℕ, ◌+◌, ◌/◌, ◌≡◌, refl, ◌==◌, ltb, suc, if◌then◌else◌, true, none, some, Option, List, [], ◌∷◌,
  ◌⊎◌,
}
use commonware_restaking.Prelude.Result.{Result, ok, err}
use commonware_restaking.Sequencer.{
  Sequencer, SequencedTask, Attempt, resolution, executed, attempt, next_assigned,
}
use commonware_restaking.Sequencer.Heights.{is_waiting}
use commonware_restaking.TaskBook.{Resolution}
use commonware_restaking.Automaton.{resolve, propose}
use commonware_restaking.Counter.{
  CounterTaskData, Hashing, expected_digest, counter_validator, read_round, next_task,
}
use commonware_restaking.Counter.Signs.{resolve-next_task}
use commonware_restaking.Counter.Config.{Parsers, Environment}
use commonware_restaking.Counter.Usable.{Usable, environment-Usable}
use commonware_restaking.Map
use commonware_restaking.Bn254.Toy.{number_eq}
use commonware_restaking.Map.{Map}
use commonware_restaking.Sequencer.{Assignment, executed}
use commonware_restaking.Submitter.{Calls, Submitter, new, submit, handle_certified}
use commonware_restaking.Counter.Handler.{quorum_numbers}
use commonware_restaking.Counter.Handler.{
  NonSignerStakesAndSignature, CounterContract, handle_verification,
}
use commonware_restaking.Counter.Handler.Executed.{Increased, handle_certified-Increased}
use commonware_restaking.Counter.Deployment.{
  Variable, http_rpc, avs_deployment_path, private_key, polling_interval_ms, Host, SubmitterClients,
  create_submitter, load, registry_coordinator_address, bls_apk_registry_address,
  bls_sig_check_operator_state_retriever_address, counter_address, custom_address,
}
use commonware_restaking.Counter.Deployment.Contracts.{Built, create_submitter-Built}

abbrev hashing : Hashing (List ℕ)
hashing = record { abi_encode = λ n. n ∷ []; sha256 = λ bytes. bytes }

abbrev answers : List (Result ℕ ℕ)
answers = err 1 ∷ ok 70 ∷ ok 71 ∷ []

abbrev sequenced : SequencedTask CounterTaskData (List ℕ)
sequenced = record {
  task = record { round = 70 };
  announced = record { round = 70 };
  digest = 70 ∷ [];
}

-- One error costs one more interval.
polled : next_task hashing 2000 answers ≡ some (sequenced, 4000)
unfolding next_task read_round expected_digest
polled = refl

abbrev idle : Sequencer CounterTaskData (List ℕ)
idle = record {
  next_height = 3;
  assignments = [];
  dispatch_time = [];
  broadcasts = [];
  round_timeout = 10;
}

abbrev resolved_at_once : Attempt (List ℕ)
resolved_at_once = record {
  buffered = [];
  tip = 0;
  reports = record { reports = []; max_faults = 0 };
  assigned_at = 1;
  started_at = 1;
  events = resolution (record { height = 3; kind = executed true }) ∷ [];
}

-- The node's provider lags one attempt behind.
abbrev number : ℕ → Result ℕ ℕ
number attempts = if attempts == 0 then ok 69 else ok 70

resolve-next_task_example :
    (d : List ℕ) × (propose
        (attempt idle sequenced resolved_at_once).0.assignments
        (next_assigned idle resolved_at_once)
      ≡ (if is_waiting (attempt idle sequenced resolved_at_once).1 then some (70 ∷ []) else none))
    × (resolve
          (counter_validator hashing 9 number (λ n. 20))
          (suc (suc (2000 / 500)))
          (λ h. h ∷ h ∷ [])
          2000
          (next_assigned idle resolved_at_once)
          (some (Resolution.announced (record { round = 70 })))
          0
        ≡ some (some d))
    × ((d ≡ next_assigned idle resolved_at_once ∷ next_assigned idle resolved_at_once ∷ [])
        ⊎ ((d ≡ 70 ∷ []) × ((n : ℕ) × (number n ≡ ok 70))))
unfolding next_task read_round expected_digest
resolve-next_task_example =
    resolve-next_task hashing idle sequenced resolved_at_once 2000 4000 answers 9 number (λ n. 20)
      (λ h. h ∷ h ∷ []) 2000 0 refl

-- Numbers for floats and strings of one number; a duration has as many seconds.
abbrev parse_first : List ℕ → Option ℕ
parse_first [] = none
parse_first (n ∷ ns) = some n

abbrev parsers : Parsers ℕ
parsers = record {
  trim = λ s. s;
  parse_usize = parse_first;
  parse_u64 = parse_first;
  parse_u32 = parse_first;
  parse_f64 = parse_first;
  is_positive = λ v. ltb 0 v;
  is_finite = λ v. true;
  reciprocal = λ v. 60 / v;
  try_from_secs_f64 = λ v. some (v + 0);
  quotient_ceil_u32 = λ a d. a / d;
}

-- A window of zero, a round timeout of 45, and a rate with a period of zero.
abbrev settings : Environment
settings = record {
  backlog_var = none;
  rate_var = some (90 ∷ []);
  window_var = some (0 ∷ []);
  activity_var = some (5000 ∷ []);
  round_var = some (45 ∷ []);
  rebroadcast_var = none;
  ack_var = none;
}

environment-Usable_example : Usable parsers settings
environment-Usable_example = environment-Usable parsers settings

-- Two signers at block 600, one of them cached, and a contract that mines at block 601.
abbrev non_signers : List ℕ → ℕ → NonSignerStakesAndSignature
non_signers operators block = record {
  non_signer_quorum_bitmap_indices = operators;
  non_signer_pubkeys = record { x = 1; y = 2 } ∷ [];
  quorum_apks = record { x = 3; y = 4 } ∷ [];
  apk_g2 = record { x = 5 ∷ 6 ∷ []; y = 7 ∷ 8 ∷ [] };
  sigma = record { x = 9; y = 10 };
  quorum_apk_indices = block ∷ [];
  total_stake_indices = 0 ∷ [];
  non_signer_stake_indices = (0 ∷ []) ∷ [];
}

-- At the first attempt the transaction cannot be sent.
abbrev contract : ℕ → CounterContract ℕ
contract attempt = record {
  increment = λ digest quorums block n. if attempt == 1 then err 8 else ok 77;
  get_receipt = λ sent. ok (record {
    transaction_hash = sent;
    block_number = some 601;
    gas_used = 21000;
    status = true;
    contract_address = none;
  });
}

abbrev chain : ℕ → Calls CounterTaskData ℕ NonSignerStakesAndSignature
chain attempt = record {
  signer_keys = 1 ∷ 2 ∷ [];
  signer_points = 11 ∷ 12 ∷ [];
  sigma = ok 5;
  block_number = ok 600;
  pubkey_hash = λ k. ok (k + 100);
  operator_of_hash = λ block h. ok (h + 900);
  non_signer_data =
      λ coordinator quorums sigma operators block pinned. ok (non_signers operators block);
  handle_verification = handle_verification (contract attempt);
}

abbrev assigned : Map (Assignment CounterTaskData ℕ)
assigned = (3, record { digest = 70; task = record { round = 70 } }) ∷ []

abbrev submitter_after : Submitter
submitter_after = record {
  registry_coordinator_address = 8;
  quorum_numbers = quorum_numbers;
  operator_cache = (1, 1011) ∷ (2, 1012) ∷ [];
  notified = record { height = 3; kind = executed true } ∷ [];
  slept = 2 ∷ [];
}

handle_certified-Increased_example : Increased chain contract assigned 3 70 (new 8 quorum_numbers)
unfolding handle_certified submit Map.get Map.insert handle_verification
handle_certified-Increased_example =
    handle_certified-Increased chain contract (λ h. h + 5000) assigned 3 70 (new 8 quorum_numbers)
      submitter_after (λ n. refl) refl refl

-- A host without an interval for the polling, whose file names the counter at 14.
abbrev variable : Variable → Option ℕ
variable http_rpc = some 1
variable avs_deployment_path = some 2
variable private_key = some 3
variable polling_interval_ms = none

abbrev host : Host ℕ ℕ ℕ ℕ ℕ
host = record {
  var = variable;
  read_to_string = λ path. some path;
  from_str = λ content. some (record {
    addresses = record {
      registry_coordinator = 11;
      bls_apk_registry = 12;
      bls_sig_check_operator_state_retriever = 13;
      extra = λ name. if name == 5 then some 14 else none;
    };
  });
  parse_address = λ text. some (text + 100);
  parse_url = λ text. some text;
  parse_u64 = λ text. some text;
  parse_signer = λ text. some text;
  connect = λ key rpc. some (key + rpc);
  counter_name = 5;
}

abbrev clients : SubmitterClients ℕ ℕ ℕ
clients = record {
  bls_apk_registry = record { address = 112; provider = 1 };
  bls_operator_state_retriever = record { address = 113; provider = 1 };
  registry_coordinator_address = 111;
  counter = record { address = 114; provider = 4 };
  quorums = 0 ∷ [];
}

create_submitter-Built_example : Built host clients
unfolding create_submitter load registry_coordinator_address bls_apk_registry_address
    bls_sig_check_operator_state_retriever_address counter_address custom_address
create_submitter-Built_example = create_submitter-Built host clients refl
