-- ===== src/Submitter.antt =====
-- router/src/submitter.rs: the router's part that takes certified heights to the chain. What the chain
-- and the application's handler answer in an attempt is a record of functions; errors and addresses
-- are numbers. A lock is never poisoned.
pub mod Operators
pub mod Notifies
pub mod Runs
mod Tests
use commonware_restaking.Prelude.{
  ℕ, suc, zero, ◌+◌, ◌*◌, ◌==◌, leb, ltb, ◌^◌, length, or_default, if◌then◌else◌, ◌||◌, not, Bool,
  true, false, Option, none, some, List, [], ◌∷◌, ◌++◌, map,
}
use commonware_restaking.Prelude.Result.{Result, ok, err, ◌>>=◌}
use commonware_restaking.Prelude.Eq.{TestsEq, ◌=?◌}
use commonware_restaking.Map
use commonware_restaking.Map.{Map}
use commonware_restaking.Sequencer.{
  Resolution, ResolutionKind, executed, skipped, foreign, Assignment,
}

-- router/src/executor.rs
pub record ExecutionResult : Type 0 where
  pub transaction_hash : ℕ
  pub block_number : Option ℕ
  pub gas_used : Option ℕ
  pub status : Option Bool
  pub contract_address : Option ℕ

-- What the chain, the scheme's key arithmetic and the handler answer: `signers` are the signer's keys and
-- G1 points by the bitmap, `sigma` the converted signature, `pubkey_hash` the hash of a G1 point.
-- `operator_of_hash` is pinned to the block before the hash. `non_signer_data` takes the registry coordinator,
-- the quorums, the signature, the operators, the block as an argument and the block that it is pinned to.
pub record Calls (T D N : Type 0) : Type 0 where
  pub signer_keys : List ℕ
  pub signer_points : List ℕ
  pub sigma : Result ℕ ℕ
  pub block_number : Result ℕ ℕ
  pub pubkey_hash : ℕ → Result ℕ ℕ
  pub operator_of_hash : ℕ → ℕ → Result ℕ ℕ
  pub non_signer_data : ℕ → List ℕ → ℕ → List ℕ → ℕ → ℕ → Result ℕ N
  pub handle_verification : ℕ → D → List ℕ → ℕ → N → T → Result ℕ ExecutionResult

-- A key whose operator is not cached: its slot, the key and the hash.
pub record Miss : Type 0 where
  pub index : ℕ
  pub operator : ℕ
  pub hash : ℕ

-- The list with the entry at an index replaced.
abbrev pub set_at : List (Option ℕ) → ℕ → ℕ → List (Option ℕ)
set_at [] i a = []
set_at (o ∷ os) zero a = some a ∷ os
set_at (o ∷ os) (suc i) a = o ∷ set_at os i a

abbrev pub zip : List ℕ → List ℕ → List (ℕ × ℕ)
zip [] ys = []
zip (x ∷ xs) [] = []
zip (x ∷ xs) (y ∷ ys) = (x, y) ∷ zip xs ys

-- One slot of the first phase, before the slots of the others.
abbrev pub add_slot :
    Option ℕ
    → ℕ
    → ℕ
    → Result ℕ ℕ
    → Result ℕ (List (Option ℕ) × List Miss)
    → Result ℕ (List (Option ℕ) × List Miss)
add_slot (some a) index operator hashed (ok (os, ms)) = ok (some a ∷ os, ms)
add_slot (some a) index operator hashed (err e) = err e
add_slot none index operator (err e) rest = err e
add_slot none index operator (ok h) (err e) = err e
add_slot none index operator (ok h) (ok (os, ms)) =
    ok (none ∷ os, record { index = index; operator = operator; hash = h } ∷ ms)

-- Phase 1: the cached operators, and the misses with the hashes of their points.
unfoldable pub cache_hits :
    (ℕ → Result ℕ ℕ) → Map ℕ → ℕ → List (ℕ × ℕ) → Result ℕ (List (Option ℕ) × List Miss)
cache_hits pubkey_hash cache index [] = ok ([], [])
cache_hits pubkey_hash cache index ((operator, point) ∷ signers) =
    add_slot (Map.get cache operator) index operator (pubkey_hash point)
      (cache_hits pubkey_hash cache (suc index) signers)

-- Phase 2: the operators of the misses, into the cache and the slots. The first error ends it; what was
-- cached before stays.
unfoldable pub resolve_misses :
    (ℕ → Result ℕ ℕ) → Map ℕ → List (Option ℕ) → List Miss → Map ℕ × Result ℕ (List (Option ℕ))
resolve_misses operator_of_hash cache operators [] = (cache, ok operators)
resolve_misses operator_of_hash cache operators (m ∷ ms) = elim (operator_of_hash m.hash) [
  | err e ↦ (cache, err e)
  | ok address ↦
      resolve_misses operator_of_hash (Map.insert cache m.operator address)
        (set_at operators m.index address) ms
]

-- `collect::<Option<Vec<_>>>().ok_or_else(...)`.
unfoldable pub collect : List (Option ℕ) → Result ℕ (List ℕ)
collect [] = ok []
collect (none ∷ os) = err 0
collect (some a ∷ os) = collect os >>= λ addresses. ok (a ∷ addresses)

unfoldable pub resolve_operators :
    (ℕ → Result ℕ ℕ) → (ℕ → Result ℕ ℕ) → Map ℕ → List (ℕ × ℕ) → Map ℕ × Result ℕ (List ℕ)
unfolding cache_hits resolve_misses collect
resolve_operators pubkey_hash operator_of_hash cache signers =
    elim (cache_hits pubkey_hash cache 0 signers) [
      | err e ↦ (cache, err e)
      | ok (operators, misses) ↦
          let (cache', resolved) = resolve_misses operator_of_hash cache operators misses in
          (cache', resolved >>= collect)
    ]

-- The submitter's own state: what it was built with, the cache, the resolutions it sent, and the delays it
-- slept, in seconds.
pub record Submitter : Type 0 where
  pub registry_coordinator_address : ℕ
  pub quorum_numbers : List ℕ
  pub operator_cache : Map ℕ
  pub notified : List Resolution
  pub slept : List ℕ

abbrev pub new : ℕ → List ℕ → Submitter
new registry_coordinator_address quorum_numbers = record {
  registry_coordinator_address = registry_coordinator_address;
  quorum_numbers = quorum_numbers;
  operator_cache = [];
  notified = [];
  slept = [];
}

abbrev pub notify : Submitter → ℕ → ResolutionKind → Submitter
notify s height kind = record s {
  notified = s.notified ++ record { height = height; kind = kind } ∷ [];
}

abbrev pub max_retries : ℕ
max_retries = 2

abbrev pub initial_retry_backoff : ℕ
initial_retry_backoff = 2

abbrev pub to_u32 : ℕ → Result ℕ ℕ
to_u32 n = if ltb n (2 ^ 32) then ok n else err 1

module _ {T D N : Type 0} where
  -- The calls after the operators are known.
  unfoldable pub submit_operators :
      Calls T D N → Submitter → ℕ → D → T → ℕ → ℕ → List ℕ → Result ℕ ExecutionResult
  submit_operators calls s height digest task sigma block operators = to_u32 block >>= λ block_arg.
      calls.non_signer_data s.registry_coordinator_address s.quorum_numbers sigma operators
        block_arg block
      >>= λ stakes. to_u32 block >>= λ block_u32.
          calls.handle_verification height digest s.quorum_numbers block_u32 stakes task

  -- One attempt for a certified digest; the cache is what it changes.
  unfoldable pub submit : Calls T D N → Submitter → ℕ → D → T → Map ℕ × Result ℕ ExecutionResult
  unfolding resolve_operators submit_operators
  submit calls s height digest task =
      if (length calls.signer_keys == 0)
        || not (length calls.signer_keys == length calls.signer_points)
      then (s.operator_cache, err 2)
      else elim calls.sigma [
        | err e ↦ (s.operator_cache, err e)
        | ok sigma ↦ elim calls.block_number [
          | err e ↦ (s.operator_cache, err e)
          | ok block ↦
              let (cache', resolved) =
                resolve_operators calls.pubkey_hash (calls.operator_of_hash block) s.operator_cache
                  (zip calls.signer_keys calls.signer_points) in
              (cache', resolved >>= submit_operators calls s height digest task sigma block)
        ]
      ]

  -- The retry loop; `none` if the fuel runs out. The calls of each attempt are their own.
  unfoldable pub retry : ℕ → (ℕ → Calls T D N) → ℕ → D → T → Submitter → ℕ → ℕ → Option Submitter
  unfolding submit
  retry zero calls height digest task s backoff attempts = none
  retry (suc fuel) calls height digest task s backoff attempts =
      let attempt = suc attempts in
      let (cache', result) = submit (calls attempt) s height digest task in
      let s' : Submitter = record s { operator_cache = cache' } in
      let again =
        retry fuel calls height digest task (record s' { slept = s'.slept ++ backoff ∷ [] })
          (backoff * 2) attempt in
      elim result [
        | ok r ↦ some (notify s' height (executed (or_default r.status true)))
        | err e ↦
            if leb attempt max_retries then again else some (notify s' height (executed false))
      ]

  module _ ⦃eq : TestsEq D⦄ where
    -- The whole handler, with fuel for the retries.
    unfoldable pub handle_certified :
        ℕ
        → (ℕ → D)
        → Map (Assignment T D)
        → (ℕ → Calls T D N)
        → ℕ
        → D
        → Submitter
        → Option Submitter
    unfolding retry
    handle_certified fuel skip_digest assignments calls height digest s =
        if digest =? skip_digest height
        then some (notify s height skipped)
        else elim (Map.get assignments height) [
          | none ↦ some (notify s height foreign)
          | some assignment ↦
              if not (assignment.digest =? digest)
              then some (notify s height foreign)
              else retry fuel calls height digest assignment.task s initial_retry_backoff 0
        ]

-- One certified height from the channel, with the assignments when it is handled and the calls of its attempts.
pub record Turn (T D N : Type 0) : Type 0 where
  pub height : ℕ
  pub digest : D
  pub assignments : Map (Assignment T D)
  pub calls : ℕ → Calls T D N

-- The heights that `run` received until the channel closed, in their order.
unfoldable pub run :
    {T D N : Type 0} ⦃eq : TestsEq D⦄
    → ℕ
    → (ℕ → D)
    → List (Turn T D N)
    → Submitter
    → Option Submitter
unfolding handle_certified
run fuel skip_digest [] s = some s
run fuel skip_digest (c ∷ cs) s =
    elim (handle_certified fuel skip_digest c.assignments c.calls c.height c.digest s) [
      | none ↦ none
      | some s' ↦ run fuel skip_digest cs s'
    ]
