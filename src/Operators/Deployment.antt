-- ===== src/Operators/Deployment.antt =====
-- eigenlayer/src/network.rs: the deployment file. The file system, the JSON of the serde_json crate and the
-- parsing of numbers and addresses are a record of functions. A member of a value that is not there is null;
-- of an object, whose type is `O`, it is a panic.
pub mod Reports
use commonware_restaking.Prelude.{
  ℕ, ◌≡◌, refl, sym, ap, ◌∙◌, ◌⊎◌, Bool, true, false, Option, none, some, inl, inr, Option-cases,
}
use commonware_restaking.Prelude.Result.{Result, ok, err, ok_inj, err_inj, failed_step, ◌>>=◌}

pub data Field : Type 0 where
  addresses : Field
  registry_coordinator : Field
  bls_sig_check : Field
  last_update : Field
  block_number : Field
  avs_service_manager : Field
  avs_service_manager_wrapper : Field

pub data DeploymentError : Type 0 where
  unreadable : DeploymentError
  not_json : DeploymentError
  missing : Field → DeploymentError
  not_a_number : DeploymentError
  not_an_address : Field → DeploymentError
  no_service_manager : DeploymentError
  panic_on_key : Field → DeploymentError

pub record Json (J O S A : Type 0) : Type 0 where
  pub read_to_string : S → Option S
  pub from_str : S → Option J
  pub member : J → Field → J
  pub as_object : J → Option O
  pub get : O → Field → Option J
  pub as_str : J → Option S
  pub parse_u64 : S → Option ℕ
  pub parse_address : S → Option A

pub record AvsDeploymentConfig (A : Type 0) : Type 0 where
  pub registry_coordinator_address : A
  pub deploy_block : ℕ
  pub operator_state_retriever_address : A
  pub service_manager_address : A
  pub service_manager_is_wrapper : Bool

-- `ok_or`.
unfoldable pub ok_or : {A : Type 0} → Option A → DeploymentError → Result DeploymentError A
ok_or none e = err e
ok_or (some a) e = ok a

module _ {J O S A : Type 0} (json : Json J O S A) where
  -- `object["field"].as_str().ok_or(..)`: the index panics before `as_str` is asked.
  unfoldable pub text_at : O → Field → Result DeploymentError S
  unfolding ok_or
  text_at object field = ok_or (json.get object field) (panic_on_key field) >>= λ value.
      ok_or (json.as_str value) (missing field)

  -- `get("field").and_then(|v| v.as_str())`.
  unfoldable pub optional_text : O → Field → Option S
  optional_text object field = elim (json.get object field) [
    | none ↦ none
    | some value ↦ json.as_str value
  ]

  unfoldable pub service_manager : O → Result DeploymentError (A × Bool)
  unfolding ok_or optional_text
  service_manager object = elim (optional_text object avs_service_manager) [
    | some text ↦
        (ok_or (json.parse_address text) (not_an_address avs_service_manager) >>= λ a.
        ok (a, false))
    | none ↦ elim (optional_text object avs_service_manager_wrapper) [
      | some text ↦
          (ok_or (json.parse_address text) (not_an_address avs_service_manager) >>= λ a.
          ok (a, true))
      | none ↦ err no_service_manager
    ]
  ]

  -- The end of `read_avs_deployment_config`, which parses.
  unfoldable pub read_parsed : O → S → S → S → Result DeploymentError (AvsDeploymentConfig A)
  unfolding ok_or service_manager
  read_parsed object coordinator retriever block =
      ok_or (json.parse_u64 block) not_a_number >>= λ deploy_block.
      service_manager object >>= λ (manager, is_wrapper).
      ok_or (json.parse_address coordinator) (not_an_address registry_coordinator)
      >>= λ coordinator_address.
          ok_or (json.parse_address retriever) (not_an_address bls_sig_check)
          >>= λ retriever_address. ok (record {
            registry_coordinator_address = coordinator_address;
            deploy_block = deploy_block;
            operator_state_retriever_address = retriever_address;
            service_manager_address = manager;
            service_manager_is_wrapper = is_wrapper;
          })

  -- The part of `read_avs_deployment_config` that looks into the two objects.
  unfoldable pub read_fields : J → O → Result DeploymentError (AvsDeploymentConfig A)
  unfolding ok_or text_at read_parsed
  read_fields value object = text_at object registry_coordinator >>= λ coordinator.
      text_at object bls_sig_check >>= λ retriever.
      ok_or (json.as_object (json.member value last_update)) (missing last_update) >>= λ update.
      text_at update block_number >>= λ block. read_parsed object coordinator retriever block

  unfoldable pub read_avs_deployment_config : S → Result DeploymentError (AvsDeploymentConfig A)
  unfolding ok_or read_fields
  read_avs_deployment_config path = ok_or (json.read_to_string path) unreadable >>= λ contents.
      ok_or (json.from_str contents) not_json >>= λ value.
      ok_or (json.as_object (json.member value addresses)) (missing addresses) >>= λ object.
      read_fields value object
