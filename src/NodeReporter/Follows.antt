-- ===== src/NodeReporter/Follows.antt =====
-- node/src/reporter.rs: the counters, the gauge and the floors after any activity of the engine.
use commonware_restaking.Prelude.{
  ℕ, suc, ◌-◌, ◌≤◌, ◌<◌, ◌⊎◌, ◌≡◌, refl, ap, leb, ltb, if◌then◌else◌, is_some, Bool, true, inl, inr,
  List, [], ◌∷◌, ◌++◌, All, All-append, All-map, Bool-cases, if_both, arith,
}
use commonware_restaking.Map
use commonware_restaking.Map.{Map}
use commonware_restaking.TaskBook.{prune_slack}
use commonware_restaking.NodeReporter.{
  CertificateObservation, Activity, certified, tip, ack, NodeReporter, new, prune, advance, observe,
  handle, run, gauge_limit, try_set,
}
use commonware_restaking.NodeReporter.Replays.{
  Remembers, handle-Remembers, Ignores, Remembers-Ignores,
}

set_gauge :
    (gauge h : ℕ)
    → gauge < gauge_limit
    → (try_set gauge h < gauge_limit) × ((try_set gauge h ≡ h) ⊎ (gauge_limit ≤ h))
set_gauge gauge h l = elim (Bool-cases (ltb h gauge_limit)) [
  | inl f ↦ rw f (ground arith, inl refl)
  | inr f ↦ rw f (l, inr (ground arith))
]

module _ {D C : Type 0} where
  -- The tapped observations that carry a skip digest.
  abbrev pub skips : (D → ℕ → Bool) → List (CertificateObservation D C) → ℕ
  skips is_skip [] = 0
  skips is_skip (c ∷ cs) =
      let n = skips is_skip cs in if is_skip c.digest c.height then suc n else n

  abbrev pub taps : List (CertificateObservation D C) → ℕ
  taps [] = 0
  taps (c ∷ cs) = suc (taps cs)

  -- The counters count what is tapped; the gauge shows the tip, or an earlier one if the tip is no `i64`; no
  -- floor is above the tip less the slack; no certificate is counted again while its height is retained.
  pub record Accounted (is_skip : D → ℕ → Bool) (r : NodeReporter D C) : Type 0 where
    pub tap_on : r.has_tap ≡ true
    pub counted : r.certified_counter ≡ taps r.tapped
    pub skips_counted : r.skipped_counter ≡ skips is_skip r.tapped
    pub gauge :
        (r.height_gauge < gauge_limit)
        × ((r.height_gauge ≡ r.tip_handle) ⊎ (gauge_limit ≤ r.tip_handle))
    pub floors_low : All (λ f. f ≤ r.tip_handle - prune_slack) r.floors
    pub ignores : (c : CertificateObservation D C) → Ignores is_skip r c

  -- What a turn keeps; `ignores` follows from what the set remembers.
  record Counted (is_skip : D → ℕ → Bool) (r : NodeReporter D C) : Type 0 where
    tap_on : r.has_tap ≡ true
    counted : r.certified_counter ≡ taps r.tapped
    skips_counted : r.skipped_counter ≡ skips is_skip r.tapped
    gauge :
        (r.height_gauge < gauge_limit)
        × ((r.height_gauge ≡ r.tip_handle) ⊎ (gauge_limit ≤ r.tip_handle))
    floors_low : All (λ f. f ≤ r.tip_handle - prune_slack) r.floors

  taps-append :
      (cs : List (CertificateObservation D C)) (c : CertificateObservation D C)
      → taps (cs ++ c ∷ []) ≡ suc (taps cs)
  taps-append [] c = refl
  taps-append (b ∷ cs) c = ap suc (taps-append cs c)

  skips-append :
      (is_skip : D → ℕ → Bool) (cs : List (CertificateObservation D C))
      (c : CertificateObservation D C)
      → skips is_skip (cs ++ c ∷ [])
        ≡ (if is_skip c.digest c.height then suc (skips is_skip cs) else skips is_skip cs)
  skips-append is_skip [] c = refl
  skips-append is_skip (b ∷ cs) c = rw (skips-append is_skip cs c) (ground arith)

  observe-Counted :
      (is_skip : D → ℕ → Bool) (r : NodeReporter D C) (c : CertificateObservation D C)
      → Counted is_skip r
      → Counted is_skip (observe is_skip r c)
  unfolding observe
  observe-Counted is_skip r c i = record {
    tap_on = i.tap_on;
    counted = rw (i.tap_on, taps-append r.tapped c) (ap suc i.counted);
    skips_counted = rw (i.tap_on, skips-append is_skip r.tapped c, i.skips_counted) refl;
    gauge = i.gauge;
    floors_low = i.floors_low;
  }

  prune-Counted :
      (is_skip : D → ℕ → Bool) (r : NodeReporter D C) (floor : ℕ)
      → floor ≤ r.tip_handle - prune_slack
      → Counted is_skip r
      → Counted is_skip (prune r floor)
  unfolding prune
  prune-Counted is_skip r floor l i =
      if_both (Counted is_skip) (ltb 0 floor)
        (record {
          tap_on = i.tap_on;
          counted = i.counted;
          skips_counted = i.skips_counted;
          gauge = i.gauge;
          floors_low = All-append _ r.floors (floor ∷ []) i.floors_low (l, tt);
        })
        i

  advance-Counted :
      (is_skip : D → ℕ → Bool) (r : NodeReporter D C) (h : ℕ)
      → Counted is_skip r
      → Counted is_skip (advance r h)
  unfolding advance
  advance-Counted is_skip r h i = elim (Bool-cases (leb h r.tip_handle)) [
    | inl e ↦ rw (e, advance) i
    | inr e ↦
        rw (e, advance)
          (prune-Counted is_skip
            (record r { tip_handle = h; height_gauge = try_set r.height_gauge h }) (h - prune_slack)
            (omega arith)
            (record {
              tap_on = i.tap_on;
              counted = i.counted;
              skips_counted = i.skips_counted;
              gauge = set_gauge r.height_gauge h i.gauge.0;
              floors_low = All-map _ _ r.floors (λ f l. ground (arith, l)) i.floors_low;
            }))
  ]

  handle-Counted :
      (is_skip : D → ℕ → Bool) (r : NodeReporter D C) (a : Activity D C)
      → Counted is_skip r
      → Counted is_skip (handle is_skip r a)
  unfolding handle
  handle-Counted is_skip r (certified c) i =
      if_both (Counted is_skip) (is_some (Map.get r.certified c.height)) i
        (advance-Counted is_skip (observe is_skip r c) c.height (observe-Counted is_skip r c i))
  handle-Counted is_skip r (tip t) i = advance-Counted is_skip r t i
  handle-Counted is_skip r (ack h) i = i

  run-Counted :
      (is_skip : D → ℕ → Bool) (r : NodeReporter D C) (activity : List (Activity D C))
      → Counted is_skip r
      → Remembers r
      → Counted is_skip (run is_skip r activity) × Remembers (run is_skip r activity)
  unfolding run
  run-Counted is_skip r [] i m = (i, m)
  run-Counted is_skip r (a ∷ rest) i m =
      run-Counted is_skip (handle is_skip r a) rest (handle-Counted is_skip r a i)
        (handle-Remembers is_skip r a i.tap_on m)

  -- With a tap, whatever the engine reports from the start: the counters are the number of tapped
  -- certificates and of those with a skip digest; the gauge shows the tip, unless that is 2^63 or more and
  -- the gauge less than that; every floor that the TaskBook was sent is at most the tip less the slack; and
  -- a certificate whose height was tapped and is not below the tip less the slack changes nothing.
  pub run-new-Accounted :
      (is_skip : D → ℕ → Bool) (activity : List (Activity D C))
      → Accounted is_skip (run is_skip (new true) activity)
  run-new-Accounted is_skip activity =
      let (i, m) =
        run-Counted is_skip (new true) activity
          (record {
            tap_on = refl;
            counted = refl;
            skips_counted = refl;
            gauge = (ground arith, inl refl);
            floors_low = tt;
          })
          (λ h e l. cc) in
      record {
        tap_on = i.tap_on;
        counted = i.counted;
        skips_counted = i.skips_counted;
        gauge = i.gauge;
        floors_low = i.floors_low;
        ignores = λ c. Remembers-Ignores is_skip (run is_skip (new true) activity) c m;
      }
