-- ===== src/Counter/Signs.antt =====
-- examples/counter: the digest that a node signs for a task of the router's source is the one that the router
-- announced, or the skip digest.
use commonware_restaking.Prelude.{
  ℕ, suc, ◌/◌, ◌≡◌, refl, sym, ap, ◌∙◌, ◌==◌, ==_iff, ==_refl, if◌then◌else◌, none, some, List, ◌⊎◌,
  inl, inr, some_inj, Bool-cases, Option-cases,
}
use commonware_restaking.Prelude.Result.{Result, ok, err, ok_inj}
use commonware_restaking.Sequencer.{Sequencer, SequencedTask, Attempt, attempt, next_assigned}
use commonware_restaking.Sequencer.Heights.{is_waiting}
use commonware_restaking.TaskBook.{Resolution}
use commonware_restaking.Automaton.{resolve, propose}
use commonware_restaking.Automaton.Resolves.{resolve-Signed, propose-attempt}
use commonware_restaking.Counter.{
  CounterTaskData, Hashing, expected_digest, validate, counter_validator, read_round, next_task,
}

module _ {D : Type 0} (hashing : Hashing D) where
  -- A digest that the validator gives is that of the task, and the contract was at its round.
  validate_sound :
      (stale_round : ℕ) (number : Result ℕ ℕ) (task : CounterTaskData) (digest : D)
      → validate hashing stale_round number task ≡ ok digest
      → (digest ≡ expected_digest hashing task.round) × (number ≡ ok task.round)
  unfolding validate
  validate_sound stale_round (err e) task digest h = cc
  validate_sound stale_round (ok current) task digest h =
      elim (Bool-cases (task.round == current)) [
        | inr e ↦ let bad = rw (e, validate) at h in cc
        | inl e ↦
            let same : current ≡ task.round = sym ((==_iff task.round current).0 e) in
            (sym (ok_inj (rw (e, validate) at h)), ap ok same)
      ]

  -- What the source hands to the sequencer.
  next_task_sound :
      (poll_interval : ℕ) (answers : List (Result ℕ ℕ))
      (sequenced : SequencedTask CounterTaskData D) (slept : ℕ)
      → next_task hashing poll_interval answers ≡ some (sequenced, slept)
      → sequenced.digest ≡ expected_digest hashing sequenced.announced.round
  unfolding next_task
  next_task_sound poll_interval answers sequenced slept h =
      elim (Option-cases (read_round poll_interval poll_interval answers)) [
        | inl e ↦ let bad = rw (e, next_task) at h in cc
        | inr (r, e) ↦
            let made = some_inj (rw (e, next_task) at h) in rw (sym (ap (λ p. p.0) made)) refl
      ]

announced_inj :
    {T : Type 0} {x y : T}
    → ◌≡◌ {A = Resolution T} (Resolution.announced x) (Resolution.announced y)
    → x ≡ y
announced_inj h = cc

-- The router's source gave a task to the sequencer, which assigns it to a height. While that height is not
-- over, the router's engine is given the digest of the task. With the fuel for its budget, the engine of a node
-- that got the announcement is given the skip digest of the height, or the very digest of the router, and
-- then the contract answered the round of the task at some attempt of the node, whatever it answers at others.
pub resolve-next_task :
    {D : Type 0} (hashing : Hashing D) (router : Sequencer CounterTaskData D)
    (sequenced : SequencedTask CounterTaskData D) (a : Attempt D) (poll_interval slept : ℕ)
    (answers : List (Result ℕ ℕ)) (stale_round : ℕ) (number : ℕ → Result ℕ ℕ) (duration : ℕ → ℕ)
    (skip_digest : ℕ → D) (retry_budget now : ℕ)
    → next_task hashing poll_interval answers ≡ some (sequenced, slept)
    → (d : D) × (propose (attempt router sequenced a).0.assignments (next_assigned router a)
        ≡ (if is_waiting (attempt router sequenced a).1 then some sequenced.digest else none))
      × (resolve
            (counter_validator hashing stale_round number duration)
            (suc (suc (retry_budget / 500)))
            skip_digest
            retry_budget
            (next_assigned router a)
            (some (Resolution.announced sequenced.announced))
            now
          ≡ some (some d))
      × ((d ≡ skip_digest (next_assigned router a))
          ⊎ ((d ≡ sequenced.digest) × ((n : ℕ) × (number n ≡ ok sequenced.announced.round))))
unfolding counter_validator
resolve-next_task hashing router sequenced a poll_interval slept answers stale_round number duration
      skip_digest retry_budget now h =
    let height = next_assigned router a in
    let node =
      resolve-Signed (counter_validator hashing stale_round number duration) skip_digest
        retry_budget height (Resolution.announced sequenced.announced) now in
    let proposed = rw (==_refl height) at (propose-attempt router sequenced a height) in
    (
      node.digest,
      proposed,
      node.returns,
      elim node.sound [
        | inl e ↦ inl e
        | inr (task, (same, (n, valid))) ↦
            let own : task ≡ sequenced.announced = sym (announced_inj same) in
            let checked = validate_sound hashing stale_round (number n) task node.digest valid in
            let digests =
              checked.0
              ∙ ap (λ t. expected_digest hashing t.round) own
              ∙ sym (next_task_sound hashing poll_interval answers sequenced slept h) in
            inr (digests, (n, checked.1 ∙ ap (λ t. ok t.round) own))
      ],
    )
