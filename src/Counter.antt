-- ===== src/Counter.antt =====
-- examples/counter: common/src/types.rs, common/src/validator.rs and router/src/source.rs: the task of the
-- counter application, its digest, the validator of the nodes and the task source of the router. The varint
-- codec, the ABI encoding and SHA-256 are parameters, as is what the contract answers; its number is taken to
-- fit a `u64`. Times are in milliseconds.
pub mod Config
pub mod Codecs
pub mod Signs
pub mod Usable
pub mod Handler
pub mod Deployment
mod Storage
mod Tests
use commonware_restaking.Prelude.{ℕ, ◌+◌, ◌==◌, if◌then◌else◌, Option, none, some, List, [], ◌∷◌}
use commonware_restaking.Prelude.Result.{Result, ok, err, ◌>>=◌}
use commonware_restaking.Codec.{Codec}
use commonware_restaking.Sequencer.{SequencedTask}
use commonware_restaking.Automaton.{Validator}

pub record CounterTaskData : Type 0 where
  pub round : ℕ

-- The task is written as the varint of its round.
module _ {E : Type 0} (varint : Codec E ℕ) where
  unfoldable pub write : CounterTaskData → List ℕ
  write task = varint.write task.round

  unfoldable pub read_cfg : List ℕ → Result E (CounterTaskData × List ℕ)
  read_cfg buf = varint.read buf >>= λ (round, rest). ok (record { round = round }, rest)

  unfoldable pub encode_size : CounterTaskData → ℕ
  encode_size task = varint.encode_size task.round

-- `U256::from(round).abi_encode()` and the hash.
pub record Hashing (D : Type 0) : Type 0 where
  pub abi_encode : ℕ → List ℕ
  pub sha256 : List ℕ → D

-- `read_round` over the answers of the contract, with the time that was slept so far: `none` while every
-- answer is an error.
unfoldable pub read_round : ℕ → ℕ → List (Result ℕ ℕ) → Option (ℕ × ℕ)
read_round poll_interval slept [] = none
read_round poll_interval slept (ok round ∷ answers) = some (round, slept)
read_round poll_interval slept (err e ∷ answers) =
    read_round poll_interval (slept + poll_interval) answers

module _ {D : Type 0} (hashing : Hashing D) where
  -- The function of the module, for router and nodes.
  unfoldable pub expected_digest : ℕ → D
  expected_digest round = hashing.sha256 (hashing.abi_encode round)

  -- The validator's method: `number` is the answer of the contract, an error of the call is passed on.
  unfoldable pub validate : ℕ → Result ℕ ℕ → CounterTaskData → Result ℕ D
  unfolding expected_digest
  validate stale_round number task = number >>= λ current_number.
      if task.round == current_number then ok (expected_digest task.round) else err stale_round

  -- The validator as the automaton uses it: the contract is asked at each attempt.
  unfoldable pub counter_validator : ℕ → (ℕ → Result ℕ ℕ) → (ℕ → ℕ) → Validator CounterTaskData D
  unfolding validate
  counter_validator stale_round number duration = record {
    expected_digest = λ task attempt. validate stale_round (number attempt) task;
    duration = λ task attempt. duration attempt;
  }

  unfoldable pub next_task : ℕ → List (Result ℕ ℕ) → Option (SequencedTask CounterTaskData D × ℕ)
  unfolding read_round expected_digest
  next_task poll_interval answers = elim (read_round poll_interval poll_interval answers) [
    | none ↦ none
    | some (round, slept) ↦ some (
      record {
        task = record { round = round };
        announced = record { round = round };
        digest = expected_digest round;
      },
      slept,
    )
  ]
