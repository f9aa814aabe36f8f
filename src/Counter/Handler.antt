-- ===== src/Counter/Handler.antt =====
-- examples/counter/router/src/executor.rs, with `convert_non_signer_data` of router/src/executor.rs: the
-- application's call of its contract. The contract, its receipts and the number of a hash are
-- parameters; a point's coordinate, an error and an address are numbers.
pub mod Increments
pub mod Executed
use commonware_restaking.Prelude.{ℕ, Bool, Option, some, List, [], ◌∷◌, map}
use commonware_restaking.Prelude.Result.{Result, ok, err, ◌>>=◌}
use commonware_restaking.Submitter.{ExecutionResult}

pub record G1Point : Type 0 where
  pub x : ℕ
  pub y : ℕ

pub record G2Point : Type 0 where
  pub x : List ℕ
  pub y : List ℕ

pub record NonSignerStakesAndSignature : Type 0 where
  pub non_signer_quorum_bitmap_indices : List ℕ
  pub non_signer_pubkeys : List G1Point
  pub quorum_apks : List G1Point
  pub apk_g2 : G2Point
  pub sigma : G1Point
  pub quorum_apk_indices : List ℕ
  pub total_stake_indices : List ℕ
  pub non_signer_stake_indices : List (List ℕ)

-- The contract's own binding of the same structure, with the points as pairs.
pub record CounterNonSigners : Type 0 where
  pub bitmap_indices : List ℕ
  pub pubkeys : List (ℕ × ℕ)
  pub apks : List (ℕ × ℕ)
  pub apk_g2 : List ℕ × List ℕ
  pub sigma : ℕ × ℕ
  pub apk_indices : List ℕ
  pub total_indices : List ℕ
  pub stake_indices : List (List ℕ)

abbrev rebuild_g1 : G1Point → G1Point
rebuild_g1 p = record { x = p.x; y = p.y }

abbrev pub g1_pair : G1Point → ℕ × ℕ
g1_pair p = (p.x, p.y)

unfoldable pub convert_non_signer_data : NonSignerStakesAndSignature → NonSignerStakesAndSignature
unfolding rebuild_g1
convert_non_signer_data n = record {
  non_signer_quorum_bitmap_indices = n.non_signer_quorum_bitmap_indices;
  non_signer_pubkeys = map rebuild_g1 n.non_signer_pubkeys;
  quorum_apks = map rebuild_g1 n.quorum_apks;
  apk_g2 = record { x = n.apk_g2.x; y = n.apk_g2.y };
  sigma = record { x = n.sigma.x; y = n.sigma.y };
  quorum_apk_indices = n.quorum_apk_indices;
  total_stake_indices = n.total_stake_indices;
  non_signer_stake_indices = n.non_signer_stake_indices;
}

unfoldable pub counter_struct : NonSignerStakesAndSignature → CounterNonSigners
unfolding convert_non_signer_data
counter_struct n =
    let c = convert_non_signer_data n in
    record {
      bitmap_indices = c.non_signer_quorum_bitmap_indices;
      pubkeys = map g1_pair c.non_signer_pubkeys;
      apks = map g1_pair c.quorum_apks;
      apk_g2 = (c.apk_g2.x, c.apk_g2.y);
      sigma = (c.sigma.x, c.sigma.y);
      apk_indices = c.quorum_apk_indices;
      total_indices = c.total_stake_indices;
      stake_indices = c.non_signer_stake_indices;
    }

pub record Receipt : Type 0 where
  pub transaction_hash : ℕ
  pub block_number : Option ℕ
  pub gas_used : ℕ
  pub status : Bool
  pub contract_address : Option ℕ

-- What the contract answers: a transaction that was sent is a number.
pub record CounterContract (D : Type 0) : Type 0 where
  pub increment : D → List ℕ → ℕ → CounterNonSigners → Result ℕ ℕ
  pub get_receipt : ℕ → Result ℕ Receipt

abbrev pub execution_result : Receipt → ExecutionResult
execution_result r = record {
  transaction_hash = r.transaction_hash;
  block_number = r.block_number;
  gas_used = some r.gas_used;
  status = some r.status;
  contract_address = r.contract_address;
}

-- `QUORUM_NUMBERS`.
abbrev pub quorum_numbers : List ℕ
quorum_numbers = 0 ∷ []

module _ {T D : Type 0} (contract : CounterContract D) where
  -- `CounterHandler::handle_verification`; an error is renamed by its step.
  unfoldable pub handle_verification :
      ℕ → D → List ℕ → ℕ → NonSignerStakesAndSignature → T → Result ℕ ExecutionResult
  unfolding counter_struct
  handle_verification height msg_hash quorums reference_block non_signers task =
      contract.increment msg_hash quorums reference_block (counter_struct non_signers) >>= λ sent.
      contract.get_receipt sent >>= λ receipt. ok (execution_result receipt)
