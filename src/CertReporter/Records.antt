-- ===== src/CertReporter/Records.antt =====
-- router/src/reporter.rs: what a run of the reporter forwards, and what it has on record.
use commonware_restaking.Prelude.{
  ℕ, ◌-◌, ◌≤◌, ◌<◌, ◌≡◌, refl, sym, ◌∙◌, ◌==◌, wrapping_add, u64_max, Bool, true, some, inl, inr,
  List, [], ◌∷◌, All, All-append, Bool-cases, Option-cases, if_both, arith,
}
use commonware_restaking.Map
use commonware_restaking.Map.{Map}
use commonware_restaking.Map.Laws.{get-insert, get-split_off}
use commonware_restaking.TaskBook.{prune_slack}
use commonware_restaking.CertReporter.{
  CertifiedHeight, Message, certified, tip, get_tip, get, CertReporter, new, advance_tip, forward,
  handle_certified, handle, run,
}
use commonware_restaking.CertReporter.Window.{forwarded-advance_tip}

module _ {D C : Type 0} where
  -- What a run from the start has forwarded was verified.
  pub handle_verified :
      (verify : CertifiedHeight D C → Bool) (r : CertReporter D C) (m : Message D C)
      → All (λ c. verify c ≡ true) r.forwarded
      → All (λ c. verify c ≡ true) (handle verify r m).forwarded
  unfolding handle handle_certified forward
  handle_verified verify r (certified c) a = elim (Option-cases (Map.get r.certified c.height)) [
    | inl n ↦ elim (Bool-cases (verify c)) [
      | inl v ↦
          rw (n, v, handle, handle_certified, forwarded-advance_tip)
            (if_both (All (λ x. verify x ≡ true)) _ (All-append _ r.forwarded (c ∷ []) a (v, tt)) a)
      | inr v ↦ rw (n, v, handle, handle_certified) a
    ]
    | inr (x, n) ↦ rw (n, handle, handle_certified) a
  ]
  handle_verified verify r (tip t) a = rw (forwarded-advance_tip r t) a
  handle_verified verify r (get_tip x) a = a
  handle_verified verify r (get k x) a = a

  run_only_verified :
      (verify : CertifiedHeight D C → Bool) (r : CertReporter D C) (ms : List (Message D C))
      → All (λ c. verify c ≡ true) r.forwarded
      → All (λ c. verify c ≡ true) (run verify r ms).forwarded
  unfolding run
  run_only_verified verify r [] a = a
  run_only_verified verify r (m ∷ ms) a =
      run_only_verified verify (handle verify r m) ms (handle_verified verify r m a)

  -- Every certificate that a run from the start forwards to the height's consumer was verified,
  -- whatever the engine reports.
  pub run-new-verified :
      (verify : CertifiedHeight D C → Bool) (consumer_open : Bool) (ms : List (Message D C))
      → All (λ c. verify c ≡ true) (run verify (new consumer_open) ms).forwarded
  run-new-verified verify consumer_open ms = run_only_verified verify (new consumer_open) ms tt

  -- The last `u64` is not certified.
  abbrev pub InRange : Message D C → Type 0
  InRange (certified c) = c.height < u64_max
  InRange (tip h) = Unit
  InRange (get_tip x) = Unit
  InRange (get k x) = Unit

  abbrev pub BelowTip : CertReporter D C → Type 0
  BelowTip r = (h : ℕ) (d : D) → Map.get r.certified h ≡ some d → h < r.tip

  advance_tip_below :
      (r : CertReporter D C) (t h : ℕ) (d : D)
      → Map.get (advance_tip r t).certified h ≡ some d
      → (Map.get r.certified h ≡ some d) × (t ≤ (advance_tip r t).tip)
  unfolding advance_tip
  advance_tip_below r t h d g = ground (arith, get-split_off r.certified (t - prune_slack) h)

  le-advance_tip : (r : CertReporter D C) (t : ℕ) → r.tip ≤ (advance_tip r t).tip
  unfolding advance_tip
  le-advance_tip r t = ground arith

  accepted_below :
      (r : CertReporter D C) (c : CertifiedHeight D C)
      → c.height < u64_max
      → BelowTip r
      → BelowTip (
          advance_tip
            (record r { certified = Map.insert r.certified c.height c.digest })
            (wrapping_add c.height 1))
  accepted_below r c l b h d g =
      let inserted : CertReporter D C = record r {
        certified = Map.insert r.certified c.height c.digest;
      } in
      let kept = advance_tip_below inserted (wrapping_add c.height 1) h d g in
      let up = le-advance_tip inserted (wrapping_add c.height 1) in
      elim (Bool-cases (c.height == h)) [
        | inl e ↦ let same : c.height ≡ h = ground arith in omega (arith, kept.1, l, same)
        | inr e ↦ omega (
          arith,
          up,
          b h d (sym (get-insert r.certified c.height h c.digest ∙ rw e refl) ∙ kept.0),
        )
      ]

  handle_below :
      (verify : CertifiedHeight D C → Bool) (r : CertReporter D C) (m : Message D C)
      → InRange m
      → BelowTip r
      → BelowTip (handle verify r m)
  unfolding handle handle_certified forward
  handle_below verify r (certified c) l b = elim (Option-cases (Map.get r.certified c.height)) [
    | inl n ↦ elim (Bool-cases (verify c)) [
      | inl v ↦ rw (n, v, handle, handle_certified) (accepted_below r c l b)
      | inr v ↦ rw (n, v, handle, handle_certified) b
    ]
    | inr (x, n) ↦ rw (n, handle, handle_certified) b
  ]
  handle_below verify r (tip t) l b =
      λ h d g. omega (arith, le-advance_tip r t, b h d (advance_tip_below r t h d g).0)
  handle_below verify r (get_tip x) l b = b
  handle_below verify r (get k x) l b = b

  run_below :
      (verify : CertifiedHeight D C → Bool) (r : CertReporter D C) (ms : List (Message D C))
      → All InRange ms
      → BelowTip r
      → BelowTip (run verify r ms)
  unfolding run
  run_below verify r [] l b = b
  run_below verify r (m ∷ ms) l b =
      run_below verify (handle verify r m) ms l.1 (handle_below verify r m l.0 b)

  -- In a run from the start, a height with a certificate on record is below the tip, so the tip is
  -- never a height that was certified already. The last `u64` must not be certified.
  pub run-new-BelowTip :
      (verify : CertifiedHeight D C → Bool) (consumer_open : Bool) (ms : List (Message D C))
      → All InRange ms
      → BelowTip (run verify (new consumer_open) ms)
  unfolding Map.get
  run-new-BelowTip verify consumer_open ms l =
      run_below verify (new consumer_open) ms l (λ h d g. cc)
