-- ===== src/NodeReporter/Floors.antt =====
-- node/src/reporter.rs: the floors that one turn of the actor sends the TaskBook.
use commonware_restaking.Prelude.{
  ℕ, ◌-◌, ◌≤◌, ◌≡◌, refl, sym, leb, ltb, is_some, Bool, List, [], ◌∷◌, ◌++◌, All, append-nil, inl,
  inr, Bool-cases, if_both, arith,
}
use commonware_restaking.Map
use commonware_restaking.TaskBook.{prune_slack}
use commonware_restaking.NodeReporter.{
  NodeReporter, Activity, certified, tip, ack, advance, prune, observe, handle,
}

module _ {D C : Type 0} where
  -- What the turn sends lies below the new tip by the slack, and the tip does not fall.
  pub record Lowers (r r' : NodeReporter D C) : Type 0 where
    pub floors : List ℕ
    pub grown : r'.floors ≡ r.floors ++ floors
    pub low : All (λ f. f ≤ r'.tip_handle - prune_slack) floors
    pub rises : r.tip_handle ≤ r'.tip_handle

  Lowers-none :
      (r r' : NodeReporter D C) → r'.floors ≡ r.floors → r.tip_handle ≤ r'.tip_handle → Lowers r r'
  Lowers-none r r' e l = record {
    floors = [];
    grown = rw e (sym (append-nil r.floors));
    low = tt;
    rises = l;
  }

  advance-Lowers : (r : NodeReporter D C) (h : ℕ) → Lowers r (advance r h)
  unfolding advance prune
  advance-Lowers r h = elim (Bool-cases (leb h r.tip_handle)) [
    | inl e ↦ rw (e, advance) (Lowers-none r r refl (omega arith))
    | inr e ↦ elim (Bool-cases (ltb 0 (h - prune_slack))) [
      | inl f ↦
          rw (e, f, advance, prune)
            (record {
              floors = (h - prune_slack) ∷ [];
              grown = refl;
              low = (omega arith, tt);
              rises = ground arith;
            })
      | inr f ↦ rw (e, f, advance, prune) (Lowers-none r _ refl (ground arith))
    ]
  ]

  pub handle-Lowers :
      (is_skip : D → ℕ → Bool) (r : NodeReporter D C) (a : Activity D C)
      → Lowers r (handle is_skip r a)
  unfolding handle observe
  handle-Lowers is_skip r (certified c) =
      if_both (Lowers r) (is_some (Map.get r.certified c.height))
        (Lowers-none r r refl (omega arith))
        (let l = advance-Lowers (observe is_skip r c) c.height in
          record { floors = l.floors; grown = l.grown; low = l.low; rises = l.rises })
  handle-Lowers is_skip r (tip t) = advance-Lowers r t
  handle-Lowers is_skip r (ack h) = Lowers-none r r refl (omega arith)
