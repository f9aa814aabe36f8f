-- ===== src/Counter/Deployment/Contracts.antt =====
-- examples/counter: common/src/validator.rs and router/src/factories.rs: the contracts that the parts of the
-- application talk to.
use mathlib.Core.Option
use commonware_restaking.Prelude.{◌≡◌, refl, sym, ap}
use commonware_restaking.Prelude.Result.{ok, ok_inj, first_step}
use commonware_restaking.Counter.Deployment.{
  http_rpc, private_key, polling_interval_ms, panic_unset, bad_url, bad_signer, not_connected,
  AvsDeployment, Host, SubmitterClients, ok_or, default_polling_interval, load,
  registry_coordinator_address, bls_apk_registry_address,
  bls_sig_check_operator_state_retriever_address, counter_address, new_validator,
  create_task_source, create_submitter,
}

module _ {T A U K W : Type 0} (host : Host T A U K W) where
  -- The validator and the task source are built, for the contract of a submitter.
  pub record Built (s : SubmitterClients A U W) : Type 0 where
    pub url : U
    pub validator_built :
        new_validator host ≡ ok (record { address = s.counter.address; provider = url })
    pub source_built :
        create_task_source host
        ≡ ok (record {
          counter = record { address = s.counter.address; provider = url };
          poll_interval =
              default_polling_interval (Option.bind (host.var polling_interval_ms) host.parse_u64);
        })
    pub registry_provider : s.bls_apk_registry.provider ≡ url
    pub retriever_provider : s.bls_operator_state_retriever.provider ≡ url

  counter-Built :
      (rpc : T) (url : U) (deployment : AvsDeployment T) (address : A) (s : SubmitterClients A U W)
      → ok_or (host.var http_rpc) (panic_unset http_rpc) ≡ ok rpc
      → ok_or (host.parse_url rpc) bad_url ≡ ok url
      → load host ≡ ok deployment
      → counter_address host deployment ≡ ok address
      → s.counter.address ≡ address
      → s.bls_apk_registry.provider ≡ url
      → s.bls_operator_state_retriever.provider ≡ url
      → Built s
  unfolding new_validator create_task_source
  counter-Built rpc url deployment address s e f g h same registry retriever = record {
    url = url;
    validator_built = rw (e, f, g, h, same) refl;
    source_built = rw (e, f, g, h, same) refl;
    registry_provider = registry;
    retriever_provider = retriever;
  }

  -- If the submitter of the router can be built, the task source of the router and the validator of a node in
  -- the same environment can, all three for the same counter contract; the registry and the retriever are
  -- asked at the node at which those two read the contract.
  pub create_submitter-Built : (s : SubmitterClients A U W) → create_submitter host ≡ ok s → Built s
  unfolding create_submitter
  create_submitter-Built s h =
      let (rpc, (e, h1)) = first_step (ok_or (host.var http_rpc) (panic_unset http_rpc)) _ h in
      let (secret, (_, h2)) =
        first_step (ok_or (host.var private_key) (panic_unset private_key)) _ h1 in
      let (d, (g, h3)) = first_step (load host) _ h2 in
      let (url, (f, h4)) = first_step (ok_or (host.parse_url rpc) bad_url) _ h3 in
      let (registry, (_, h5)) = first_step (bls_apk_registry_address host d) _ h4 in
      let (coordinator, (_, h6)) = first_step (registry_coordinator_address host d) _ h5 in
      let (retriever, (_, h7)) =
        first_step (bls_sig_check_operator_state_retriever_address host d) _ h6 in
      let (address, (c, h8)) = first_step (counter_address host d) _ h7 in
      let (signer, (_, h9)) = first_step (ok_or (host.parse_signer secret) bad_signer) _ h8 in
      let (wallet, (_, last)) = first_step (ok_or (host.connect signer rpc) not_connected) _ h9 in
      let same = sym (ok_inj last) in
      counter-Built rpc url d address s e f g c
        (ap (λ (s : SubmitterClients A U W). s.counter.address) same)
        (ap (λ (s : SubmitterClients A U W). s.bls_apk_registry.provider) same)
        (ap (λ (s : SubmitterClients A U W). s.bls_operator_state_retriever.provider) same)
