-- ===== src/NodeReporter/Tips.antt =====
-- node/src/reporter.rs: the tip that the node's actor shows.
use commonware_restaking.Prelude.{
  ℕ, ◌-◌, ◌≤◌, ◌≡◌, refl, sym, ap, ◌∙◌, ◌==◌, is_some, Bool, true, max, inl, inr, List, [], ◌∷◌,
  Bool-cases, arith,
}
use commonware_restaking.Map
use commonware_restaking.Map.{Map}
use commonware_restaking.Map.Laws.{get-insert, get-split_off}
use commonware_restaking.TaskBook.{prune_slack}
use commonware_restaking.NodeReporter.{
  Activity, certified, tip, ack, NodeReporter, new, prune, advance, observe, handle, run,
}

-- A set within a tip, after one more height that the tip then covers.
observed_below :
    (m : Map (Unit {0})) (t h k : ℕ) {u : ℕ}
    → ((j : ℕ) → is_some (Map.get m j) ≡ true → j ≤ t)
    → is_some (Map.get (Map.insert m h tt) k) ≡ true
    → u ≡ max t h
    → k ≤ u
observed_below m t h k i g e = elim (Bool-cases (h == k)) [
  | inl f ↦ ground arith
  | inr f ↦ omega (arith, e, i k (ap is_some (sym (get-insert m h k tt ∙ rw f refl)) ∙ g))
]

module _ {D C : Type 0} where
  -- The highest height among the certificates and the tips.
  abbrev pub highest : List (Activity D C) → ℕ → ℕ
  highest [] n = n
  highest (certified c ∷ rest) n = highest rest (max n c.height)
  highest (tip t ∷ rest) n = highest rest (max n t)
  highest (ack h ∷ rest) n = highest rest n

  highest_cons :
      (a : Activity D C) (rest : List (Activity D C)) (n : ℕ)
      → highest (a ∷ rest) n ≡ highest rest (highest (a ∷ []) n)
  highest_cons (certified c) rest n = refl
  highest_cons (tip t) rest n = refl
  highest_cons (ack h) rest n = refl

  abbrev Within : NodeReporter D C → Type 0
  Within r = (h : ℕ) → is_some (Map.get r.certified h) ≡ true → h ≤ r.tip_handle

  advance_tip_handle :
      (r : NodeReporter D C) (h : ℕ)
      → ((advance r h).tip_handle ≡ max r.tip_handle h)
        × ((k : ℕ)
            → is_some (Map.get (advance r h).certified k) ≡ true
            → is_some (Map.get r.certified k) ≡ true)
  unfolding advance prune
  advance_tip_handle r h =
      (ground arith, λ k g. ground (arith, get-split_off r.certified (h - prune_slack) k))

  handle-Within :
      (is_skip : D → ℕ → Bool) (r : NodeReporter D C) (a : Activity D C)
      → Within r
      → Within (handle is_skip r a)
        × ((handle is_skip r a).tip_handle ≡ highest (a ∷ []) r.tip_handle)
  unfolding handle observe
  handle-Within is_skip r (certified c) i =
      elim (Bool-cases (is_some (Map.get r.certified c.height))) [
        | inl e ↦ rw (e, handle) (i, omega (arith, i c.height e))
        | inr e ↦
            let up = advance_tip_handle (observe is_skip r c) c.height in
            rw (e, handle)
              ((λ k g. observed_below r.certified r.tip_handle c.height k i (up.1 k g) up.0), up.0)
      ]
  handle-Within is_skip r (tip t) i =
      let up = advance_tip_handle r t in (λ k g. omega (arith, up.0, i k (up.1 k g)), up.0)
  handle-Within is_skip r (ack h) i = (i, refl)

  run_tip :
      (is_skip : D → ℕ → Bool) (r : NodeReporter D C) (activity : List (Activity D C))
      → Within r
      → (run is_skip r activity).tip_handle ≡ highest activity r.tip_handle
  unfolding run
  run_tip is_skip r [] i = refl
  run_tip is_skip r (a ∷ rest) i =
      let step = handle-Within is_skip r a i in
      run_tip is_skip (handle is_skip r a) rest step.0
      ∙ ap (highest rest) step.1
      ∙ sym (highest_cons a rest r.tip_handle)

  -- From the start, the tip handle is the highest height of any certificate or tip that the engine
  -- reported, replays included.
  pub run-new-tip :
      (is_skip : D → ℕ → Bool) (has_tap : Bool) (activity : List (Activity D C))
      → (run is_skip (new has_tap) activity).tip_handle ≡ highest activity 0
  unfolding Map.get
  run-new-tip is_skip has_tap activity = run_tip is_skip (new has_tap) activity (λ h g. cc)
