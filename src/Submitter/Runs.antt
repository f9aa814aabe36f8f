-- ===== src/Submitter/Runs.antt =====
-- router/src/submitter.rs with router/src/reporter.rs: the certificates that the reporter forwards come out as
-- resolutions.
use commonware_restaking.Prelude.{
  ℕ, ◌+◌, ◌*◌, ◌≤◌, ◌≡◌, refl, sym, ap, ◌∙◌, some, List, [], ◌∷◌, ◌++◌, append-nil, append_assoc,
  length, arith,
}
use commonware_restaking.Prelude.Eq.{TestsEq}
use commonware_restaking.Sequencer.{Resolution}
use commonware_restaking.Submitter.{Submitter, Turn, run}
use commonware_restaking.Submitter.Notifies.{Allowed, handle_certified-OneNotice}

module _ {T D N : Type 0} ⦃eq : TestsEq D⦄ where
  -- A resolution for each height, of a kind that the height may have.
  abbrev pub Resolves : (ℕ → D) → List (Turn T D N) → List Resolution → Type 0
  Resolves skip_digest [] [] = Unit {0}
  Resolves skip_digest [] (r ∷ rs) = ⊥
  Resolves skip_digest (c ∷ cs) [] = ⊥
  Resolves skip_digest (c ∷ cs) (r ∷ rs) =
      (r.height ≡ c.height)
      × Allowed skip_digest c.assignments c.height c.digest r.kind
      × Resolves skip_digest cs rs

  -- With three rounds of fuel for each certified height, whatever the chain answers, the submitter handles all
  -- the heights that it receives, with at most two delays for each, and sends the sequencer one resolution for
  -- each, in their order, of a kind that the digest of the height and its assignment allow.
  pub run-Resolves :
      (skip_digest : ℕ → D) (cs : List (Turn T D N)) (s : Submitter)
      → (after : Submitter) × (rs : List Resolution) × (run 3 skip_digest cs s ≡ some after)
        × (after.notified ≡ s.notified ++ rs)
        × Resolves skip_digest cs rs
        × (length after.slept ≤ length s.slept + 2 * length cs)
  unfolding run
  run-Resolves skip_digest [] s = (s, [], refl, sym (append-nil s.notified), tt, omega arith)
  run-Resolves skip_digest (c ∷ cs) s =
      let one = handle_certified-OneNotice skip_digest c.assignments c.calls c.height c.digest s in
      let (after, rs, returns, noticed, resolves, delayed) =
        run-Resolves skip_digest cs one.after in
      (
        after,
        record { height = c.height; kind = one.kind } ∷ rs,
        rw (one.returns, run) returns,
        noticed ∙ ap (λ ns. ns ++ rs) one.noticed ∙ append_assoc s.notified _ rs,
        (refl, one.fits, resolves),
        omega (arith, one.delayed, delayed),
      )
