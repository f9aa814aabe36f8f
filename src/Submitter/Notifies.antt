-- ===== src/Submitter/Notifies.antt =====
-- router/src/submitter.rs: every certified height ends in one notification of the sequencer.
use commonware_restaking.Prelude.{
  ℕ, zero, suc, ◌+◌, ◌*◌, ◌≤◌, ◌≡◌, refl, leb, or_default, Bool, true, false, Option, none, some,
  inl, inr, [], ◌∷◌, ◌++◌, length, length-snoc, Bool-cases, Option-cases, arith,
}
use commonware_restaking.Prelude.Result.{Result-cases}
use commonware_restaking.Prelude.Eq.{TestsEq, ◌=?◌}
use commonware_restaking.Map
use commonware_restaking.Map.{Map}
use commonware_restaking.Sequencer.{ResolutionKind, executed, skipped, foreign, Assignment}
use commonware_restaking.Submitter.{
  Calls, Submitter, submit, retry, handle_certified, max_retries, initial_retry_backoff,
}

-- The state after exactly one notification, which is of an allowed kind, and some more delays.
pub record OneNotice (height : ℕ) (allowed : ResolutionKind → Type 0) (delays : ℕ) (s : Submitter)
    (o : Option Submitter) : Type 0 where
  pub after : Submitter
  pub returns : o ≡ some after
  pub kind : ResolutionKind
  pub fits : allowed kind
  pub noticed : after.notified ≡ s.notified ++ record { height = height; kind = kind } ∷ []
  pub delayed : length after.slept ≤ length s.slept + delays

abbrev pub is_executed : ResolutionKind → Bool
is_executed (executed b) = true
is_executed skipped = false
is_executed foreign = false

module _ {T D N : Type 0} (calls : ℕ → Calls T D N) (height : ℕ) (digest : D) (task : T) where
  -- With as much fuel as attempts are left, the loop returns.
  retry-OneNotice :
      (left : ℕ) (s : Submitter) (backoff attempts : ℕ)
      → left + attempts ≡ max_retries
      → OneNotice height
          (λ k. is_executed k ≡ true)
          left
          s
          (retry (suc left) calls height digest task s backoff attempts)
  unfolding retry
  retry-OneNotice zero s backoff attempts e =
      let r = (submit (calls (suc attempts)) s height digest task).1 in
      let last : leb (suc attempts) max_retries ≡ false = ground arith in
      elim (Result-cases r) [
        | inl (x, f) ↦
            rw (f, retry)
              (record {
                after = _;
                returns = refl;
                kind = executed (or_default x.status true);
                fits = refl;
                noticed = refl;
                delayed = omega arith;
              })
        | inr (x, f) ↦
            rw (f, last, retry)
              (record {
                after = _;
                returns = refl;
                kind = executed false;
                fits = refl;
                noticed = refl;
                delayed = omega arith;
              })
      ]
  retry-OneNotice (suc left) s backoff attempts e =
      let r = (submit (calls (suc attempts)) s height digest task).1 in
      let again : leb (suc attempts) max_retries ≡ true = ground arith in
      elim (Result-cases r) [
        | inl (x, f) ↦
            rw (f, retry)
              (record {
                after = _;
                returns = refl;
                kind = executed (or_default x.status true);
                fits = refl;
                noticed = refl;
                delayed = omega arith;
              })
        | inr (x, f) ↦
            let rest =
              retry-OneNotice left
                (record s {
                  operator_cache = (submit (calls (suc attempts)) s height digest task).0;
                  slept = s.slept ++ backoff ∷ [];
                })
                (backoff * 2) (suc attempts) (omega (arith, e)) in
            rw (f, again, retry)
              (record {
                after = rest.after;
                returns = rest.returns;
                kind = rest.kind;
                fits = rest.fits;
                noticed = rest.noticed;
                delayed = omega (arith, rest.delayed, length-snoc s.slept backoff);
              })
      ]

-- Whether the assignment of a height carries a digest.
abbrev pub carries : {T D : Type 0} ⦃eq : TestsEq D⦄ → Option (Assignment T D) → D → Bool
carries none digest = false
carries (some a) digest = a.digest =? digest

module _ {T D : Type 0} ⦃eq : TestsEq D⦄ where
  -- What a certified height may be resolved as.
  abbrev pub Allowed : (ℕ → D) → Map (Assignment T D) → ℕ → D → ResolutionKind → Type 0
  Allowed skip_digest assignments height digest skipped = (digest =? skip_digest height) ≡ true
  Allowed skip_digest assignments height digest foreign =
      ((digest =? skip_digest height) ≡ false)
      × (carries (Map.get assignments height) digest ≡ false)
  Allowed skip_digest assignments height digest (executed b) =
      ((digest =? skip_digest height) ≡ false)
      × (carries (Map.get assignments height) digest ≡ true)

  Allowed-executed :
      (skip_digest : ℕ → D) (assignments : Map (Assignment T D)) (height : ℕ) (digest : D)
      (k : ResolutionKind)
      → (digest =? skip_digest height) ≡ false
      → carries (Map.get assignments height) digest ≡ true
      → is_executed k ≡ true
      → Allowed skip_digest assignments height digest k
  Allowed-executed skip_digest assignments height digest (executed b) p q e = (p, q)
  Allowed-executed skip_digest assignments height digest skipped p q e = cc
  Allowed-executed skip_digest assignments height digest foreign p q e = cc

  -- Three rounds of fuel are enough for a certified height, whatever the chain answers: the handler
  -- returns, having slept at most twice, and has sent the sequencer exactly one resolution, for that
  -- height: skipped for the skip digest, executed for the digest of the height's assignment, foreign
  -- for everything else.
  pub handle_certified-OneNotice :
      {N : Type 0} (skip_digest : ℕ → D) (assignments : Map (Assignment T D))
      (calls : ℕ → Calls T D N) (height : ℕ) (digest : D) (s : Submitter)
      → OneNotice height
          (Allowed skip_digest assignments height digest)
          2
          s
          (handle_certified 3 skip_digest assignments calls height digest s)
  unfolding handle_certified
  handle_certified-OneNotice skip_digest assignments calls height digest s =
      elim (Bool-cases (digest =? skip_digest height)) [
        | inl e ↦
            rw (e, handle_certified)
              (record {
                after = _;
                returns = refl;
                kind = skipped;
                fits = e;
                noticed = refl;
                delayed = omega arith;
              })
        | inr e ↦ elim (Option-cases (Map.get assignments height)) [
          | inl f ↦
              rw (e, f, handle_certified)
                (record {
                  after = _;
                  returns = refl;
                  kind = foreign;
                  fits = (e, rw f refl);
                  noticed = refl;
                  delayed = omega arith;
                })
          | inr (a, f) ↦ elim (Bool-cases (a.digest =? digest)) [
            | inl g ↦
                let rest =
                  retry-OneNotice calls height digest a.task 2 s initial_retry_backoff 0 refl in
                rw (e, f, g, handle_certified)
                  (record {
                    after = rest.after;
                    returns = rest.returns;
                    kind = rest.kind;
                    fits =
                        Allowed-executed skip_digest assignments height digest rest.kind e (rw f g)
                          rest.fits;
                    noticed = rest.noticed;
                    delayed = rest.delayed;
                  })
            | inr g ↦
                rw (e, f, g, handle_certified)
                  (record {
                    after = _;
                    returns = refl;
                    kind = foreign;
                    fits = (e, rw f g);
                    noticed = refl;
                    delayed = omega arith;
                  })
          ]
        ]
      ]
