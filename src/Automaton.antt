-- ===== src/Automaton.antt =====
-- node/src/automaton.rs and router/src/automaton.rs: the digest of a height, for the engine. Times are
-- in milliseconds. What the validator answers at each attempt and how long it takes are parameters.
pub mod Resolves
mod Tests
use commonware_restaking.Prelude.{
  ℕ, zero, suc, ◌+◌, ◌*◌, ltb, min, if◌then◌else◌, Option, none, some,
}
use commonware_restaking.Prelude.Result.{Result, ok, err}
use commonware_restaking.Map
use commonware_restaking.Map.{Map}
use commonware_restaking.Sequencer.{Assignment}
use commonware_restaking.TaskBook
use commonware_restaking.TaskBook.{Resolution}

abbrev pub initial_retry_backoff : ℕ
initial_retry_backoff = 500

abbrev pub max_retry_backoff : ℕ
max_retry_backoff = 5000

-- The `n`-th attempt to compute the expected digest of a task, and its duration.
pub record Validator (T D : Type 0) : Type 0 where
  pub expected_digest : T → ℕ → Result ℕ D
  pub duration : T → ℕ → ℕ

module _ {T D : Type 0} (validator : Validator T D) (skip_digest : D) (task : T)
    (deadline : ℕ) where
  -- The loop of `digest_for_announce`: the digest and the time. `none` if the fuel runs out.
  unfoldable pub digest_loop : ℕ → ℕ → ℕ → ℕ → Option (D × ℕ)
  digest_loop zero attempts now backoff = none
  digest_loop (suc fuel) attempts now backoff =
      let now' = now + validator.duration task attempts in
      let again =
        digest_loop fuel (suc attempts) (now' + backoff) (min (backoff * 2) max_retry_backoff) in
      elim (validator.expected_digest task attempts) [
        | ok digest ↦ some (digest, now')
        | err e ↦ if ltb (now' + backoff) deadline then again else some (skip_digest, now')
      ]

module _ {T D : Type 0} (validator : Validator T D) where
  unfoldable pub digest_for_announce : ℕ → D → ℕ → T → ℕ → Option (D × ℕ)
  unfolding digest_loop
  digest_for_announce fuel skip_digest retry_budget task now =
      digest_loop validator skip_digest task (now + retry_budget) fuel 0 now initial_retry_backoff

  -- What the engine is sent. The outer `none` is the fuel's, the inner one a sender that was dropped
  -- since the TaskBook is gone.
  unfoldable pub resolve : ℕ → (ℕ → D) → ℕ → ℕ → Option (Resolution T) → ℕ → Option (Option D)
  unfolding digest_for_announce
  resolve fuel skip_digest retry_budget h none now = some none
  resolve fuel skip_digest retry_budget h (some Resolution.skipped) now =
      some (some (skip_digest h))
  resolve fuel skip_digest retry_budget h (some (Resolution.announced task)) now =
      elim (digest_for_announce fuel (skip_digest h) retry_budget task now) [
        | none ↦ none
        | some (digest, at) ↦ some (some digest)
      ]

-- The router's automaton: the digest of the assignment, if there is one.
pub propose : {T D : Type 0} → Map (Assignment T D) → ℕ → Option D
propose assignments h = elim (Map.get assignments h) [ none ↦ none | some a ↦ some a.digest ]
