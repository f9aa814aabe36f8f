-- ===== src/Node/Heard.antt =====
-- The node's process: what stands in the TaskBook's mailbox.
use commonware_restaking.Prelude.{
  ℕ, ◌-◌, ◌≤◌, ◌≡◌, refl, ◌==◌, ==_iff, some, List, [], ◌∷◌, ◌++◌, map, All, get_elem?, IsIn,
  IsIn-last, inl, inr, Bool-cases, arith,
}
use commonware_restaking.Prelude.Result.{Result, ok, err}
use commonware_restaking.Wire.{TaskDirective, announce, skip, tip_report}
use commonware_restaking.TaskBook.{Message, directive, subscribe, prune_below_floor, prune_slack}
use commonware_restaking.DirectiveIngest.Delivers.{kept, accepted}
use commonware_restaking.Node.Steps.{Settings}

module _ {T D : Type 0} (g : Settings T D) where
  -- The router's peer sent this directive.
  abbrev pub FromRouter : List (ℕ × List ℕ) → TaskDirective T → Type 0
  FromRouter heard d = (bytes : List ℕ) × IsIn (g.router, bytes) heard × (g.decode bytes ≡ ok d)

  -- Where a message to the TaskBook comes from.
  abbrev pub Mail : List (ℕ × List ℕ) → List ℕ → ℕ → Message T → Type 0
  Mail heard proposed tip (directive d) = FromRouter heard d
  Mail heard proposed tip (subscribe h w) = get_elem? proposed w ≡ some h
  Mail heard proposed tip (prune_below_floor floor) = floor ≤ tip - prune_slack

  pub FromRouter-more :
      (heard heard' : List (ℕ × List ℕ)) (d : TaskDirective T)
      → ((x : ℕ × List ℕ) → IsIn x heard → IsIn x heard')
      → FromRouter heard d
      → FromRouter heard' d
  FromRouter-more heard heard' d grows (bytes, i, e) = (bytes, grows (g.router, bytes) i, e)

  pub Mail-more :
      (heard heard' : List (ℕ × List ℕ)) (proposed proposed' : List ℕ) (tip tip' : ℕ)
      (m : Message T)
      → ((x : ℕ × List ℕ) → IsIn x heard → IsIn x heard')
      → ((w h : ℕ) → get_elem? proposed w ≡ some h → get_elem? proposed' w ≡ some h)
      → tip ≤ tip'
      → Mail heard proposed tip m
      → Mail heard' proposed' tip' m
  Mail-more heard heard' proposed proposed' tip tip' (directive d) grows asks l f =
      FromRouter-more heard heard' d grows f
  Mail-more heard heard' proposed proposed' tip tip' (subscribe h w) grows asks l e = asks w h e
  Mail-more heard heard' proposed proposed' tip tip' (prune_below_floor floor) grows asks l e =
      omega (arith, e)

  kept-FromRouter :
      (heard : List (ℕ × List ℕ)) (bytes : List ℕ) (r : Result ℕ (TaskDirective T))
      → g.decode bytes ≡ r
      → IsIn (g.router, bytes) heard
      → All (FromRouter heard) (kept r)
  kept-FromRouter heard bytes (ok (announce h t)) e i = ((bytes, i, e), tt)
  kept-FromRouter heard bytes (ok (skip h)) e i = ((bytes, i, e), tt)
  kept-FromRouter heard bytes (ok (tip_report h)) e i = tt
  kept-FromRouter heard bytes (err x) e i = tt

  pub accepted-FromRouter :
      (heard : List (ℕ × List ℕ)) (peer : ℕ) (bytes : List ℕ)
      → All (FromRouter (heard ++ (peer, bytes) ∷ [])) (accepted g.decode g.router peer bytes)
  accepted-FromRouter heard peer bytes = elim (Bool-cases (peer == g.router)) [
    | inl e ↦
        let same : peer ≡ g.router = (==_iff peer g.router).0 e in
        rw (e, same)
          (kept-FromRouter (heard ++ (g.router, bytes) ∷ []) bytes (g.decode bytes) refl
            (IsIn-last (g.router, bytes) heard))
    | inr e ↦ rw e tt
  ]

  pub All-directives :
      (heard : List (ℕ × List ℕ)) (proposed : List ℕ) (tip : ℕ) (ds : List (TaskDirective T))
      → All (FromRouter heard) ds
      → All (Mail heard proposed tip) (map directive ds)
  All-directives heard proposed tip [] a = tt
  All-directives heard proposed tip (d ∷ ds) a = (a.0, All-directives heard proposed tip ds a.1)

  pub All-floors :
      (heard : List (ℕ × List ℕ)) (proposed : List ℕ) (tip : ℕ) (floors : List ℕ)
      → All (λ f. f ≤ tip - prune_slack) floors
      → All (Mail heard proposed tip) (map prune_below_floor floors)
  All-floors heard proposed tip [] a = tt
  All-floors heard proposed tip (f ∷ fs) a = (a.0, All-floors heard proposed tip fs a.1)
