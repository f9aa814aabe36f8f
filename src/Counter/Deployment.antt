-- ===== src/Counter/Deployment.antt =====
-- eigenlayer/src/config.rs, and the construction of the counter's parts: `CounterDeployment` in
-- examples/counter/common/src/config.rs, `CounterValidator::new` in common/src/validator.rs and
-- router/src/factories.rs there. The variables, the file system, the JSON of the serde_json crate, the parsers
-- and the wallet's connection are a record of functions. A client is the address of its contract and its node.
pub mod Contracts
use mathlib.Core.Option
use commonware_restaking.Prelude.{ℕ, Option, none, some, List}
use commonware_restaking.Prelude.Result.{Result, ok, err, ◌>>=◌}
use commonware_restaking.Counter.Handler.{quorum_numbers}

pub data Variable : Type 0 where
  http_rpc : Variable
  avs_deployment_path : Variable
  private_key : Variable
  polling_interval_ms : Variable

pub data StartError : Type 0 where
  panic_unset : Variable → StartError
  unset : Variable → StartError
  unreadable : StartError
  not_json : StartError
  bad_url : StartError
  not_found : StartError
  not_an_address : StartError
  bad_signer : StartError
  not_connected : StartError

-- The JSON object of addresses, with the members that have no field of their own.
pub record ContractAddresses (T : Type 0) : Type 0 where
  pub registry_coordinator : T
  pub bls_apk_registry : T
  pub bls_sig_check_operator_state_retriever : T
  pub extra : T → Option T

pub record AvsDeployment (T : Type 0) : Type 0 where
  pub addresses : ContractAddresses T

-- What the crates and the host answer; `counter_name` is the text "counter".
pub record Host (T A U K W : Type 0) : Type 0 where
  pub var : Variable → Option T
  pub read_to_string : T → Option T
  pub from_str : T → Option (AvsDeployment T)
  pub parse_address : T → Option A
  pub parse_url : T → Option U
  pub parse_u64 : T → Option ℕ
  pub parse_signer : T → Option K
  pub connect : K → T → Option W
  pub counter_name : T

pub record Client (A P : Type 0) : Type 0 where
  pub address : A
  pub provider : P

pub record CounterTaskSource (A U : Type 0) : Type 0 where
  pub counter : Client A U
  pub poll_interval : ℕ

-- The clients that the submitter is made of.
pub record SubmitterClients (A U W : Type 0) : Type 0 where
  pub bls_apk_registry : Client A U
  pub bls_operator_state_retriever : Client A U
  pub registry_coordinator_address : A
  pub counter : Client A W
  pub quorums : List ℕ

abbrev pub ok_or : {A : Type 0} → Option A → StartError → Result StartError A
ok_or none e = err e
ok_or (some a) e = ok a

abbrev pub default_polling_interval : Option ℕ → ℕ
default_polling_interval none = 2000
default_polling_interval (some n) = n

module _ {T A U K W : Type 0} (host : Host T A U K W) where
  unfoldable pub load : Result StartError (AvsDeployment T)
  load = ok_or (host.var avs_deployment_path) (unset avs_deployment_path) >>= λ path.
      ok_or (host.read_to_string path) unreadable >>= λ content.
      ok_or (host.from_str content) not_json

  unfoldable pub registry_coordinator_address : AvsDeployment T → Result StartError A
  registry_coordinator_address d =
      ok_or (host.parse_address d.addresses.registry_coordinator) not_an_address

  unfoldable pub bls_apk_registry_address : AvsDeployment T → Result StartError A
  bls_apk_registry_address d =
      ok_or (host.parse_address d.addresses.bls_apk_registry) not_an_address

  unfoldable pub bls_sig_check_operator_state_retriever_address :
      AvsDeployment T → Result StartError A
  bls_sig_check_operator_state_retriever_address d =
      ok_or (host.parse_address d.addresses.bls_sig_check_operator_state_retriever) not_an_address

  unfoldable pub custom_address : AvsDeployment T → T → Result StartError A
  custom_address d name = ok_or (d.addresses.extra name) not_found >>= λ text.
      ok_or (host.parse_address text) not_an_address

  unfoldable pub counter_address : AvsDeployment T → Result StartError A
  unfolding custom_address
  counter_address d = custom_address d host.counter_name

  -- `CounterValidator::new`.
  unfoldable pub new_validator : Result StartError (Client A U)
  unfolding load counter_address
  new_validator = ok_or (host.var http_rpc) (panic_unset http_rpc) >>= λ rpc.
      ok_or (host.parse_url rpc) bad_url >>= λ url. load >>= λ deployment.
      counter_address deployment >>= λ address. ok (record { address = address; provider = url })

  unfoldable pub create_task_source : Result StartError (CounterTaskSource A U)
  unfolding load counter_address
  create_task_source = ok_or (host.var http_rpc) (panic_unset http_rpc) >>= λ rpc.
      ok_or (host.parse_url rpc) bad_url >>= λ url. load >>= λ deployment.
      counter_address deployment >>= λ address. ok (record {
        counter = record { address = address; provider = url };
        poll_interval =
            default_polling_interval (Option.bind (host.var polling_interval_ms) host.parse_u64);
      })

  unfoldable pub create_submitter : Result StartError (SubmitterClients A U W)
  unfolding load registry_coordinator_address bls_apk_registry_address
      bls_sig_check_operator_state_retriever_address counter_address
  create_submitter = ok_or (host.var http_rpc) (panic_unset http_rpc) >>= λ rpc.
      ok_or (host.var private_key) (panic_unset private_key) >>= λ secret. load >>= λ deployment.
      ok_or (host.parse_url rpc) bad_url >>= λ url.
      bls_apk_registry_address deployment >>= λ registry.
      registry_coordinator_address deployment >>= λ coordinator.
      bls_sig_check_operator_state_retriever_address deployment >>= λ retriever.
      counter_address deployment >>= λ counter.
      ok_or (host.parse_signer secret) bad_signer >>= λ signer.
      ok_or (host.connect signer rpc) not_connected >>= λ wallet. ok (record {
        bls_apk_registry = record { address = registry; provider = url };
        bls_operator_state_retriever = record { address = retriever; provider = url };
        registry_coordinator_address = coordinator;
        counter = record { address = counter; provider = wallet };
        quorums = quorum_numbers;
      })
