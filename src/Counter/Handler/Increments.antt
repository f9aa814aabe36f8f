-- ===== src/Counter/Handler/Increments.antt =====
-- examples/counter/router/src/executor.rs with router/src/submitter.rs: what the contract is sent for a
-- certified height.
use commonware_restaking.Prelude.{
  ℕ, ◌<◌, ◌^◌, ◌≡◌, refl, sym, ap, ◌∙◌, ◌==◌, ◌||◌, not, List, [], ◌∷◌, length, map, Bool-cases,
  inl, inr, arith,
}
use commonware_restaking.Prelude.Result.{Result, ok, err, ok_inj, first_step, Result-cases}
use commonware_restaking.Submitter.{
  Calls, Submitter, ExecutionResult, resolve_operators, submit_operators, submit, to_u32, zip,
}
use commonware_restaking.Counter.Handler.{
  G1Point, g1_pair, NonSignerStakesAndSignature, CounterNonSigners, convert_non_signer_data,
  counter_struct, Receipt, CounterContract, execution_result, handle_verification,
}

-- The retriever's data as the contract's binding spells it.
abbrev pub as_counter : NonSignerStakesAndSignature → CounterNonSigners
as_counter n = record {
  bitmap_indices = n.non_signer_quorum_bitmap_indices;
  pubkeys = map g1_pair n.non_signer_pubkeys;
  apks = map g1_pair n.quorum_apks;
  apk_g2 = (n.apk_g2.x, n.apk_g2.y);
  sigma = (n.sigma.x, n.sigma.y);
  apk_indices = n.quorum_apk_indices;
  total_indices = n.total_stake_indices;
  stake_indices = n.non_signer_stake_indices;
}

pairs_of_rebuilt :
    (ps : List G1Point)
    → map g1_pair (map (λ (p : G1Point). record { x = p.x; y = p.y }) ps) ≡ map g1_pair ps
pairs_of_rebuilt [] = refl
pairs_of_rebuilt (p ∷ ps) = ap (λ rest. g1_pair p ∷ rest) (pairs_of_rebuilt ps)

-- Two field-by-field copies lose nothing.
counter_struct_lem : (n : NonSignerStakesAndSignature) → counter_struct n ≡ as_counter n
unfolding counter_struct convert_non_signer_data
counter_struct_lem n =
    rw (pairs_of_rebuilt n.non_signer_pubkeys, pairs_of_rebuilt n.quorum_apks) refl

module _ {T D : Type 0} (contract : CounterContract D)
    (calls : Calls T D NonSignerStakesAndSignature) (s : Submitter) where
  -- The contract was sent the digest with what the chain answered at one block and the submitter's own
  -- quorums, and a receipt came back.
  pub record Increments (digest : D) (receipt : Receipt) : Type 0 where
    pub sigma : ℕ
    pub block : ℕ
    pub operators : List ℕ
    pub non_signers : NonSignerStakesAndSignature
    pub sent : ℕ
    pub aligned : length calls.signer_keys ≡ length calls.signer_points
    pub has_sigma : calls.sigma ≡ ok sigma
    pub has_block : calls.block_number ≡ ok block
    pub block_fits : block < 2 ^ 32
    pub resolved :
        (resolve_operators calls.pubkey_hash
          (calls.operator_of_hash block)
          s.operator_cache
          (zip calls.signer_keys calls.signer_points)).1
        ≡ ok operators
    pub retrieved :
        calls.non_signer_data s.registry_coordinator_address s.quorum_numbers sigma operators block
          block
        ≡ ok non_signers
    pub incremented :
        contract.increment digest s.quorum_numbers block (as_counter non_signers) ≡ ok sent
    pub mined : contract.get_receipt sent ≡ ok receipt

  to_u32-fits : (n m : ℕ) → to_u32 n ≡ ok m → (n < 2 ^ 32) × (n ≡ m)
  to_u32-fits n m e = ground arith

  retrieved_at :
      (sigma : ℕ) (operators : List ℕ) (block arg : ℕ) (n : NonSignerStakesAndSignature)
      → block ≡ arg
      → calls.non_signer_data s.registry_coordinator_address s.quorum_numbers sigma operators arg
          block
        ≡ ok n
      → calls.non_signer_data s.registry_coordinator_address s.quorum_numbers sigma operators block
          block
        ≡ ok n
  retrieved_at sigma operators block arg n same e =
      ap
        (λ (k : ℕ).
          calls.non_signer_data s.registry_coordinator_address s.quorum_numbers sigma operators k
            block)
        same
      ∙ e

  incremented_at :
      (digest : D) (block arg : ℕ) (n : NonSignerStakesAndSignature) (sent : ℕ)
      → block ≡ arg
      → contract.increment digest s.quorum_numbers arg (counter_struct n) ≡ ok sent
      → contract.increment digest s.quorum_numbers block (as_counter n) ≡ ok sent
  incremented_at digest block arg n sent same e =
      ap (λ c. contract.increment digest s.quorum_numbers block c) (sym (counter_struct_lem n))
      ∙ ap (λ (k : ℕ). contract.increment digest s.quorum_numbers k (counter_struct n)) same
      ∙ e

  -- The handler's own part of an attempt.
  handle_verification-sent :
      (height : ℕ) (digest : D) (task : T) (block : ℕ) (n : NonSignerStakesAndSignature)
      {result : ExecutionResult}
      → handle_verification contract height digest s.quorum_numbers block n task ≡ ok result
      → (sent : ℕ) × (receipt : Receipt) × (contract.increment digest s.quorum_numbers block
            (counter_struct n)
          ≡ ok sent)
        × (contract.get_receipt sent ≡ ok receipt)
        × (result ≡ execution_result receipt)
  unfolding handle_verification
  handle_verification-sent height digest task block n e =
      let (sent, (incremented, e1)) =
        first_step (contract.increment digest s.quorum_numbers block (counter_struct n)) _ e in
      let (receipt, (mined, e2)) = first_step (contract.get_receipt sent) _ e1 in
      (sent, receipt, incremented, mined, sym (ok_inj e2))

  operators-Increments :
      (height : ℕ) (digest : D) (task : T) (sigma block : ℕ) (operators : List ℕ)
      {result : ExecutionResult}
      → calls.handle_verification ≡ handle_verification contract
      → length calls.signer_keys ≡ length calls.signer_points
      → calls.sigma ≡ ok sigma
      → calls.block_number ≡ ok block
      → (resolve_operators calls.pubkey_hash
          (calls.operator_of_hash block)
          s.operator_cache
          (zip calls.signer_keys calls.signer_points)).1
        ≡ ok operators
      → submit_operators calls s height digest task sigma block operators ≡ ok result
      → (receipt : Receipt) × (result ≡ execution_result receipt) × Increments digest receipt
  unfolding submit_operators
  operators-Increments height digest task sigma block operators wired aligned g b r e =
      let (arg, (fits, e1)) = first_step (to_u32 block) _ e in
      let (n, (retrieved, e2)) =
        first_step
          (calls.non_signer_data s.registry_coordinator_address s.quorum_numbers sigma operators arg
            block)
          _ e1 in
      let (block', (fits', e3)) = first_step (to_u32 block) _ e2 in
      let (sent, receipt, incremented, mined, is_result) =
        handle_verification-sent height digest task block' n
          (sym (ap (λ f. f height digest s.quorum_numbers block' n task) wired) ∙ e3) in
      let same : block ≡ arg = (to_u32-fits block arg fits).1 in
      let same' : block ≡ block' = (to_u32-fits block block' fits').1 in
      (
        receipt,
        is_result,
        record {
          sigma = sigma;
          block = block;
          operators = operators;
          non_signers = n;
          sent = sent;
          aligned = aligned;
          has_sigma = g;
          has_block = b;
          block_fits = (to_u32-fits block arg fits).0;
          resolved = r;
          retrieved = retrieved_at sigma operators block arg n same retrieved;
          incremented = incremented_at digest block block' n sent same' incremented;
          mined = mined;
        },
      )

  -- What the contract was sent in an attempt that succeeds.
  pub submit-Increments :
      (height : ℕ) (digest : D) (task : T) {result : ExecutionResult}
      → calls.handle_verification ≡ handle_verification contract
      → (submit calls s height digest task).1 ≡ ok result
      → (receipt : Receipt) × (result ≡ execution_result receipt) × Increments digest receipt
  unfolding submit
  submit-Increments height digest task {result} wired e =
      let refused =
        (length calls.signer_keys == 0)
        || not (length calls.signer_keys == length calls.signer_points) in
      elim (Bool-cases refused) [
        | inl b ↦
            let bad : ◌≡◌ {A = Result ℕ ExecutionResult} (err 2) (ok result) =
              rw (b, submit) at e in
            cc
        | inr b ↦ elim (Result-cases calls.sigma) [
          | inr (x, f) ↦
              let bad : ◌≡◌ {A = Result ℕ ExecutionResult} (err x) (ok result) =
                rw (b, f, submit) at e in
              cc
          | inl (sigma, f) ↦ elim (Result-cases calls.block_number) [
            | inr (x, g) ↦
                let bad : ◌≡◌ {A = Result ℕ ExecutionResult} (err x) (ok result) =
                  rw (b, f, g, submit) at e in
                cc
            | inl (block, g) ↦
                let chain = rw (b, f, g, submit) at e in
                let (operators, (r, last)) = first_step _ _ chain in
                operators-Increments height digest task sigma block operators wired (ground arith) f
                  g r last
          ]
        ]
      ]
