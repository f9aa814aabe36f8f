-- ===== src/Automaton/Resolves.antt =====
-- node/src/automaton.rs and router/src/automaton.rs: what the engines are given.
use commonware_restaking.Prelude.{
  ℕ, zero, suc, ◌+◌, ◌*◌, ◌/◌, ◌≤◌, ◌<◌, ◌≡◌, refl, ◌==◌, ltb, min, if◌then◌else◌, true, Option,
  none, some, ◌⊎◌, inl, inr, Bool-cases, arith,
}
use commonware_restaking.Prelude.Result.{ok, err, Result-cases}
use commonware_restaking.Sequencer.{Sequencer, SequencedTask, Attempt, attempt, next_assigned}
use commonware_restaking.Sequencer.Heights.{assignments-attempt, is_waiting}
use commonware_restaking.TaskBook.{Resolution}
use commonware_restaking.Automaton.{
  Validator, digest_loop, digest_for_announce, resolve, propose, max_retry_backoff,
  initial_retry_backoff,
}

module _ {T D : Type 0} (validator : Validator T D) (skip_digest : D) (task : T)
    (deadline : ℕ) where
  -- How the loop ends after some attempts: the last one is the first that did not fail, or it failed with
  -- too little time left for another.
  pub record Ends (attempts : ℕ) (o : Option (D × ℕ)) : Type 0 where
    pub digest : D
    pub at : ℕ
    pub returns : o ≡ some (digest, at)
    pub last : ℕ
    pub last_counts : attempts ≤ last
    pub failed_before :
        (n : ℕ) → attempts ≤ n → n < last → (e : ℕ) × (validator.expected_digest task n ≡ err e)
    pub ended :
        (validator.expected_digest task last ≡ ok digest)
        ⊎ ((digest ≡ skip_digest)
            × ((deadline ≤ at + max_retry_backoff)
                × ((e : ℕ) × (validator.expected_digest task last ≡ err e))))

  -- One more failed attempt before the rest.
  Ends-suc :
      (attempts : ℕ) (o : Option (D × ℕ)) (x : ℕ)
      → validator.expected_digest task attempts ≡ err x
      → Ends (suc attempts) o
      → Ends attempts o
  Ends-suc attempts o x e rest = record {
    digest = rest.digest;
    at = rest.at;
    returns = rest.returns;
    last = rest.last;
    last_counts = omega (arith, rest.last_counts);
    failed_before = λ n l h. elim (Bool-cases (n == attempts)) [
      | inl same ↦ let m : n ≡ attempts = ground arith in (x, rw m e)
      | inr other ↦ rest.failed_before n (ground arith) h
    ];
    ended = rest.ended;
  }

  -- One turn of the loop, from its later turns.
  digest_loop-step :
      (fuel attempts now backoff : ℕ)
      → backoff ≤ max_retry_backoff
      → (ltb (now + validator.duration task attempts + backoff) deadline ≡ true
          → Ends (suc attempts) (
              digest_loop validator skip_digest task deadline fuel
                (suc attempts)
                (now + validator.duration task attempts + backoff)
                (min (backoff * 2) max_retry_backoff)))
      → Ends attempts
          (digest_loop validator skip_digest task deadline (suc fuel) attempts now backoff)
  unfolding digest_loop
  digest_loop-step fuel attempts now backoff hi again =
      let now' = now + validator.duration task attempts in
      elim (Result-cases (validator.expected_digest task attempts)) [
        | inl (d, e) ↦
            rw (e, digest_loop)
              (record {
                digest = d;
                at = now';
                returns = refl;
                last = attempts;
                last_counts = omega arith;
                failed_before = λ n l h. absurd (omega (arith, l, h));
                ended = inl e;
              })
        | inr (x, e) ↦ elim (Bool-cases (ltb (now' + backoff) deadline)) [
          | inl g ↦ rw (e, g, digest_loop) (Ends-suc attempts _ x e (again g))
          | inr g ↦
              rw (e, g, digest_loop)
                (record {
                  digest = skip_digest;
                  at = now';
                  returns = refl;
                  last = attempts;
                  last_counts = omega arith;
                  failed_before = λ n l h. absurd (omega (arith, l, h));
                  ended = inr (refl, (ground arith, (x, e)));
                })
        ]
      ]

  digest_loop-Ends :
      (fuel attempts now backoff : ℕ)
      → 500 ≤ backoff
      → backoff ≤ max_retry_backoff
      → deadline < now + 500 * fuel + 500
      → Ends attempts
          (digest_loop validator skip_digest task deadline (suc fuel) attempts now backoff)
  digest_loop-Ends zero attempts now backoff lo hi f =
      digest_loop-step zero attempts now backoff hi (λ g. absurd (ground (arith, g, f, lo)))
  digest_loop-Ends (suc fuel) attempts now backoff lo hi f =
      digest_loop-step (suc fuel) attempts now backoff hi (λ g.
        digest_loop-Ends fuel (suc attempts) (now + validator.duration task attempts + backoff)
          (min (backoff * 2) max_retry_backoff) (omega arith) (omega arith) (omega arith))

module _ {T D : Type 0} (validator : Validator T D) where
  -- With one round of fuel for each half second of the budget and two more, the node's computation of a
  -- digest returns, whatever the validator does: the digest is what the validator answered at its first
  -- success, or the skip digest after every attempt failed, and then at most the longest backoff was left
  -- of the budget.
  pub digest_for_announce-Ends :
      (skip_digest : D) (retry_budget : ℕ) (task : T) (now : ℕ)
      → Ends validator skip_digest task (now + retry_budget) 0 (
          digest_for_announce validator
            (suc (suc (retry_budget / 500)))
            skip_digest
            retry_budget
            task
            now)
  unfolding digest_for_announce
  digest_for_announce-Ends skip_digest retry_budget task now =
      digest_loop-Ends validator skip_digest task (now + retry_budget) (suc (retry_budget / 500)) 0
        now initial_retry_backoff (omega arith) (omega arith) (omega arith)

  -- What the node's engine is given for a height.
  pub record Signed (skip_digest : D) (r : Resolution T) (o : Option (Option D)) : Type 0 where
    pub digest : D
    pub returns : o ≡ some (some digest)
    pub sound :
        (digest ≡ skip_digest)
        ⊎ ((task : T) × ((r ≡ Resolution.announced task)
              × ((n : ℕ) × (validator.expected_digest task n ≡ ok digest))))

  -- With one round of fuel for each half second of the budget and two more, once the TaskBook resolves a
  -- height the node's engine is always given a digest for it: the skip digest of the height, or one that
  -- the validator gave for the task that was announced.
  pub resolve-Signed :
      (skip_digest : ℕ → D) (retry_budget h : ℕ) (r : Resolution T) (now : ℕ)
      → Signed (skip_digest h) r (
          resolve validator
            (suc (suc (retry_budget / 500)))
            skip_digest
            retry_budget
            h
            (some r)
            now)
  unfolding resolve
  resolve-Signed skip_digest retry_budget h Resolution.skipped now = record {
    digest = skip_digest h;
    returns = refl;
    sound = inl refl;
  }
  resolve-Signed skip_digest retry_budget h (Resolution.announced task) now =
      let ends = digest_for_announce-Ends (skip_digest h) retry_budget task now in
      record {
        digest = ends.digest;
        returns = rw (ends.returns, resolve) refl;
        sound = elim ends.ended [ inl e ↦ inr (task, (refl, (ends.last, e))) | inr e ↦ inl e.0 ];
      }

-- The router's engine is given the digest of the task that the sequencer drives at a height while that
-- height is not over, and no digest for it after; an attempt changes nothing for the other heights.
pub propose-attempt :
    {T D : Type 0} (s : Sequencer T D) (sequenced : SequencedTask T D) (a : Attempt D) (h : ℕ)
    → propose (attempt s sequenced a).0.assignments h ≡ (
        if next_assigned s a == h
        then (if is_waiting (attempt s sequenced a).1 then some sequenced.digest else none)
        else propose s.assignments h)
unfolding propose
propose-attempt s sequenced a h =
    let digests = assignments-attempt s sequenced a h in
    elim (Bool-cases (next_assigned s a == h)) [
      | inl e ↦ elim (Bool-cases (is_waiting (attempt s sequenced a).1)) [
        | inl w ↦ rw (e, w, propose, rw (e, w) at digests) refl
        | inr w ↦ rw (e, w, propose, rw (e, w) at digests) refl
      ]
      | inr e ↦ rw (e, propose, rw e at digests) refl
    ]
