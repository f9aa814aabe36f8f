-- ===== src/CertReporter/Window.antt =====
-- router/src/reporter.rs: what a run of the reporter keeps.
use commonware_restaking.Prelude.{
  ℕ, ◌+◌, ◌-◌, ◌≤◌, ◌≡◌, refl, ap, ◌∙◌, ◌==◌, leb, if◌then◌else◌, wrapping_add, Bool, false, none,
  some, inl, inr, List, [], ◌∷◌, ◌++◌, Bool-cases, Option-cases, if_both, arith,
}
use commonware_restaking.Map
use commonware_restaking.Map.{Map}
use commonware_restaking.Map.Laws.{get-insert, get-split_off}
use commonware_restaking.TaskBook.{prune_slack}
use commonware_restaking.CertReporter.{
  CertifiedHeight, Message, certified, tip, get_tip, get, CertReporter, advance_tip, forward,
  handle_certified, handle, run,
}

other_height :
    {D : Type 0} (m : Map D) (k h : ℕ) (d : D)
    → Map.get m k ≡ none
    → Map.get m h ≡ some d
    → (k == h) ≡ false
other_height m k h d a b = elim (Bool-cases (k == h)) [
  | inl e ↦ let same : k ≡ h = ground arith in cc
  | inr e ↦ e
]

module _ {D C : Type 0} where
  -- The certificates of one height among those forwarded.
  abbrev pub at_height : ℕ → List (CertifiedHeight D C) → List (CertifiedHeight D C)
  at_height h [] = []
  at_height h (c ∷ cs) = let rest = at_height h cs in if c.height == h then c ∷ rest else rest

  at_height-append :
      (h : ℕ) (cs : List (CertifiedHeight D C)) (c : CertifiedHeight D C)
      → (c.height == h) ≡ false
      → at_height h (cs ++ c ∷ []) ≡ at_height h cs
  at_height-append h [] c e = rw e refl
  at_height-append h (b ∷ cs) c e = rw (at_height-append h cs c e) refl

  pub le-handle :
      (verify : CertifiedHeight D C → Bool) (r : CertReporter D C) (m : Message D C)
      → r.tip ≤ (handle verify r m).tip
  unfolding handle handle_certified advance_tip forward
  le-handle verify r (certified c) = ground arith
  le-handle verify r (tip h) = ground arith
  le-handle verify r (get_tip a) = ground arith
  le-handle verify r (get h a) = ground arith

  pub le-run :
      (verify : CertifiedHeight D C → Bool) (r : CertReporter D C) (ms : List (Message D C))
      → r.tip ≤ (run verify r ms).tip
  unfolding run
  le-run verify r [] = omega arith
  le-run verify r (m ∷ ms) =
      omega (arith, le-handle verify r m, le-run verify (handle verify r m) ms)

  advance_tip_keeps :
      (r : CertReporter D C) (t h : ℕ) (d : D)
      → Map.get r.certified h ≡ some d
      → (advance_tip r t).tip ≤ h + prune_slack
      → Map.get (advance_tip r t).certified h ≡ some d
  unfolding advance_tip
  advance_tip_keeps r t h d g l = ground (arith, get-split_off r.certified (t - prune_slack) h)

  pub forwarded-advance_tip :
      (r : CertReporter D C) (t : ℕ) → (advance_tip r t).forwarded ≡ r.forwarded
  unfolding advance_tip
  forwarded-advance_tip r t =
      if_both {A = CertReporter D C} (λ x. x.forwarded ≡ r.forwarded) (leb t r.tip) refl refl

  at_height-forward :
      (h : ℕ) (r : CertReporter D C) (c : CertifiedHeight D C)
      → (c.height == h) ≡ false
      → at_height h (forward r c).forwarded ≡ at_height h r.forwarded
  unfolding forward
  at_height-forward h r c e =
      if_both (λ x. at_height h x ≡ at_height h r.forwarded) r.consumer_open
        (at_height-append h r.forwarded c e) refl

  -- A new certificate for another height.
  accepted_keeps :
      (r : CertReporter D C) (c : CertifiedHeight D C) (h : ℕ) (d : D)
      → Map.get r.certified c.height ≡ none
      → Map.get r.certified h ≡ some d
      → (advance_tip
          (record r { certified = Map.insert r.certified c.height c.digest })
          (wrapping_add c.height 1)).tip
        ≤ h + prune_slack
      → (Map.get
            (forward
              (advance_tip
                (record r { certified = Map.insert r.certified c.height c.digest })
                (wrapping_add c.height 1))
              c).certified
            h
          ≡ some d)
        × (at_height h
              (forward
                (advance_tip
                  (record r { certified = Map.insert r.certified c.height c.digest })
                  (wrapping_add c.height 1))
                c).forwarded
            ≡ at_height h r.forwarded)
  unfolding forward
  accepted_keeps r c h d n g l =
      let inserted : CertReporter D C = record r {
        certified = Map.insert r.certified c.height c.digest;
      } in
      let e = other_height r.certified c.height h d n g in
      (
        advance_tip_keeps inserted (wrapping_add c.height 1) h d
            (get-insert r.certified c.height h c.digest ∙ (rw e g)) l,
        at_height-forward h (advance_tip inserted (wrapping_add c.height 1)) c e
            ∙ ap (at_height h) (forwarded-advance_tip inserted (wrapping_add c.height 1)),
      )

  handle_keeps :
      (verify : CertifiedHeight D C → Bool) (r : CertReporter D C) (m : Message D C) (h : ℕ) (d : D)
      → Map.get r.certified h ≡ some d
      → (handle verify r m).tip ≤ h + prune_slack
      → (Map.get (handle verify r m).certified h ≡ some d)
        × (at_height h (handle verify r m).forwarded ≡ at_height h r.forwarded)
  unfolding handle handle_certified forward
  handle_keeps verify r (certified c) h d g l = elim (Option-cases (Map.get r.certified c.height)) [
    | inl n ↦ elim (Bool-cases (verify c)) [
      | inl v ↦
          rw (n, v, handle, handle_certified)
            (accepted_keeps r c h d n g (rw (n, v, handle, handle_certified) at l))
      | inr v ↦ rw (n, v, handle, handle_certified) (g, refl)
    ]
    | inr (x, n) ↦ rw (n, handle, handle_certified) (g, refl)
  ]
  handle_keeps verify r (tip t) h d g l =
      (advance_tip_keeps r t h d g l, ap (at_height h) (forwarded-advance_tip r t))
  handle_keeps verify r (get_tip a) h d g l = (g, refl)
  handle_keeps verify r (get k a) h d g l = (g, refl)

  -- As long as the tip is not more than the slack past a certified height, nothing that the engine
  -- reports or replays changes the digest that is on record for it, and no certificate of that
  -- height is forwarded again.
  pub run_keeps :
      (verify : CertifiedHeight D C → Bool) (r : CertReporter D C) (ms : List (Message D C)) (h : ℕ)
      (d : D)
      → Map.get r.certified h ≡ some d
      → (run verify r ms).tip ≤ h + prune_slack
      → (Map.get (run verify r ms).certified h ≡ some d)
        × (at_height h (run verify r ms).forwarded ≡ at_height h r.forwarded)
  unfolding run
  run_keeps verify r [] h d g l = (g, refl)
  run_keeps verify r (m ∷ ms) h d g l =
      let r' = handle verify r m in
      let step = handle_keeps verify r m h d g (omega (arith, le-run verify r' ms, l)) in
      let rest = run_keeps verify r' ms h d step.0 l in (rest.0, rest.1 ∙ step.1)
