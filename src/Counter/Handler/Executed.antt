-- ===== src/Counter/Handler/Executed.antt =====
-- router/src/submitter.rs with examples/counter/router/src/executor.rs: what a resolution as executed with
-- success means for the contract.
use commonware_restaking.Prelude.{
  ℕ, zero, suc, ◌+◌, ◌*◌, ◌≤◌, ◌≡◌, refl, sym, ap, ◌∙◌, leb, or_default, append_inj_front, Bool,
  true, false, some, some_inj, List, [], ◌∷◌, ◌++◌, inl, inr, Bool-cases, Option-cases, arith,
}
use commonware_restaking.Prelude.Result.{ok, Result-cases}
use commonware_restaking.Prelude.Eq.{TestsEq, ◌=?◌}
use commonware_restaking.Map
use commonware_restaking.Map.{Map}
use commonware_restaking.Sequencer.{
  Assignment, Resolution, ResolutionKind, executed, skipped, foreign,
}
use commonware_restaking.Submitter.{
  Calls, Submitter, ExecutionResult, submit, retry, notify, handle_certified, max_retries,
  initial_retry_backoff,
}
use commonware_restaking.Submitter.Notifies.{carries}
use commonware_restaking.Counter.Handler.{
  NonSignerStakesAndSignature, Receipt, CounterContract, handle_verification,
}
use commonware_restaking.Counter.Handler.Increments.{Increments, submit-Increments}

-- Two single resolutions of a height after the same ones have the same kind.
same_kind :
    (before : List Resolution) (height : ℕ) (a b : ResolutionKind)
    → before ++ record { height = height; kind = a } ∷ []
      ≡ before ++ record { height = height; kind = b } ∷ []
    → a ≡ b
same_kind before height a b e = let tails = append_inj_front before _ _ e in cc

executed_inj : {a b : Bool} → executed a ≡ executed b → a ≡ b
executed_inj e = cc

module _ {T D : Type 0} (calls : ℕ → Calls T D NonSignerStakesAndSignature) (height : ℕ)
    (digest : D) (task : T) where
  -- One of the attempts succeeded, with the submitter as it was then.
  record Succeeds (s : Submitter) (last : ℕ) : Type 0 where
    attempt : ℕ
    in_time : attempt ≤ last
    at_attempt : Submitter
    same_coordinator : at_attempt.registry_coordinator_address ≡ s.registry_coordinator_address
    same_quorums : at_attempt.quorum_numbers ≡ s.quorum_numbers
    result : ExecutionResult
    submitted : (submit (calls attempt) at_attempt height digest task).1 ≡ ok result
    success : or_default result.status true ≡ true

  retry-Succeeds :
      (fuel : ℕ) (s : Submitter) (backoff attempts : ℕ) (after : Submitter)
      → retry fuel calls height digest task s backoff attempts ≡ some after
      → after.notified ≡ s.notified ++ record { height = height; kind = executed true } ∷ []
      → Succeeds s (fuel + attempts)
  unfolding retry
  retry-Succeeds zero s backoff attempts after h n = cc
  retry-Succeeds (suc fuel) s backoff attempts after h n =
      let r = (submit (calls (suc attempts)) s height digest task).1 in
      elim (Result-cases r) [
        | inl (x, f) ↦
            let last = some_inj (rw (f, retry) at h) in
            let kind =
              same_kind s.notified height (executed (or_default x.status true)) (executed true)
                (ap (λ (s : Submitter). s.notified) last ∙ n) in
            record {
              attempt = suc attempts;
              in_time = omega arith;
              at_attempt = s;
              same_coordinator = refl;
              same_quorums = refl;
              result = x;
              submitted = f;
              success = executed_inj kind;
            }
        | inr (x, f) ↦ elim (Bool-cases (leb (suc attempts) max_retries)) [
          | inl g ↦
              let rest =
                retry-Succeeds fuel _ (backoff * 2) (suc attempts) after (rw (f, g, retry) at h)
                  n in
              record {
                attempt = rest.attempt;
                in_time = omega (arith, rest.in_time);
                at_attempt = rest.at_attempt;
                same_coordinator = rest.same_coordinator;
                same_quorums = rest.same_quorums;
                result = rest.result;
                submitted = rest.submitted;
                success = rest.success;
              }
          | inr g ↦
              let last = some_inj (rw (f, g, retry) at h) in
              let kind =
                same_kind s.notified height (executed false) (executed true)
                  (ap (λ (s : Submitter). s.notified) last ∙ n) in
              cc
        ]
      ]

-- The contract was sent the digest in one of three attempts, by the submitter with its coordinator and
-- quorums, and the receipt says success; the height was assigned that digest.
pub record Increased {T D : Type 0} ⦃eq : TestsEq D⦄
    (calls : ℕ → Calls T D NonSignerStakesAndSignature) (contract : ℕ → CounterContract D)
    (assignments : Map (Assignment T D)) (height : ℕ) (digest : D) (s : Submitter) : Type 0 where
  pub assigned : carries (Map.get assignments height) digest ≡ true
  pub attempt : ℕ
  pub in_time : attempt ≤ 3
  pub at_attempt : Submitter
  pub same_coordinator : at_attempt.registry_coordinator_address ≡ s.registry_coordinator_address
  pub same_quorums : at_attempt.quorum_numbers ≡ s.quorum_numbers
  pub receipt : Receipt
  pub increments : Increments (contract attempt) (calls attempt) at_attempt digest receipt
  pub success : receipt.status ≡ true

module _ {T D : Type 0} ⦃eq : TestsEq D⦄ (calls : ℕ → Calls T D NonSignerStakesAndSignature)
    (contract : ℕ → CounterContract D) where
  attempt-Increased :
      (assignments : Map (Assignment T D)) (height : ℕ) (digest : D) (task : T) (s : Submitter)
      → ((n : ℕ) → (calls n).handle_verification ≡ handle_verification (contract n))
      → carries (Map.get assignments height) digest ≡ true
      → Succeeds calls height digest task s 3
      → Increased calls contract assignments height digest s
  attempt-Increased assignments height digest task s wired a x =
      let (receipt, is_result, increments) =
        submit-Increments (contract x.attempt) (calls x.attempt) x.at_attempt height digest task
          (wired x.attempt) x.submitted in
      record {
        assigned = a;
        attempt = x.attempt;
        in_time = x.in_time;
        at_attempt = x.at_attempt;
        same_coordinator = x.same_coordinator;
        same_quorums = x.same_quorums;
        receipt = receipt;
        increments = increments;
        success =
            sym (ap (λ (r : ExecutionResult). or_default r.status true) is_result) ∙ x.success;
      }

  -- If the handler of the submitter's calls is the counter's, and the handling of a certified height with three
  -- rounds of fuel sends a resolution as executed with success: the height was assigned the certified
  -- digest, and in one of at most three attempts the contract was sent that digest with the submitter's
  -- quorums, a block that fits a `u32` and, field for field, the data of the non-signers that the chain
  -- gave at that block for the operators of all signers; and the receipt of that transaction says success.
  pub handle_certified-Increased :
      (skip_digest : ℕ → D) (assignments : Map (Assignment T D)) (height : ℕ) (digest : D)
      (s after : Submitter)
      → ((n : ℕ) → (calls n).handle_verification ≡ handle_verification (contract n))
      → handle_certified 3 skip_digest assignments calls height digest s ≡ some after
      → after.notified ≡ s.notified ++ record { height = height; kind = executed true } ∷ []
      → Increased calls contract assignments height digest s
  unfolding handle_certified
  handle_certified-Increased skip_digest assignments height digest s after wired h n =
      let kind_of : (k : ResolutionKind)
          → some (notify s height k) ≡ some after
          → k ≡ executed true =
        λ k e.
          same_kind s.notified height k (executed true)
            (ap (λ (s : Submitter). s.notified) (some_inj e) ∙ n) in
      elim (Bool-cases (digest =? skip_digest height)) [
        | inl e ↦ let k = kind_of skipped (rw (e, handle_certified) at h) in cc
        | inr e ↦ elim (Option-cases (Map.get assignments height)) [
          | inl f ↦ let k = kind_of foreign (rw (e, f, handle_certified) at h) in cc
          | inr (a, f) ↦ elim (Bool-cases (a.digest =? digest)) [
            | inr g ↦ let k = kind_of foreign (rw (e, f, g, handle_certified) at h) in cc
            | inl g ↦ attempt-Increased assignments height digest a.task s wired (rw f g) (
                retry-Succeeds calls height digest a.task 3 s initial_retry_backoff 0 after
                  (rw (e, f, g, handle_certified) at h) n)
          ]
        ]
      ]
