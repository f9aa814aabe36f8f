-- ===== src/TaskBook/SkipRules.antt =====
-- node/src/task_book.rs: the normative skip rules. Which parked senders a directive answers, and
-- with what.
use commonware_restaking.Prelude.{
  ℕ, ◌≤◌, ◌≡◌, refl, sym, ◌∙◌, ◌==◌, ltb, if◌then◌else◌, Option, none, some, inl, inr, List, [],
  true, Option-cases, Bool-cases, arith,
}
use commonware_restaking.Map
use commonware_restaking.Map.Laws.{get-remove, get-insert}
use commonware_restaking.Wire.{TaskDirective, announce, skip, tip_report}
use commonware_restaking.TaskBook.{
  TaskBook, Resolution, announced, skipped, resolve_parked, record_first, override,
  handle_height_directive, handle_directive, parked, resolution, is_above, is_stale,
}
use commonware_restaking.TaskBook.PassOver.{get-waiters-raise_max_seen}
use commonware_restaking.TaskBook.Invariant.{Inv}
use commonware_restaking.TaskBook.Recorded.{Seen, Seen-not-above, Recorded}

-- The rules for a height that nothing decided so far: a directive answers its own height, and is
-- evidence that the router moved past every lower one.
abbrev pub rule_at : {T : Type 0} → ℕ → Resolution T → ℕ → Option (Resolution T)
rule_at h r j = if j == h then some r else if ltb j h then some skipped else none

abbrev pub rule : {T : Type 0} → TaskDirective T → ℕ → Option (Resolution T)
rule (announce h t) j = rule_at h (announced t) j
rule (skip h) j = rule_at h skipped j
rule (tip_report h) j = none

abbrev pub left_by {ℓ} : {A : Type ℓ} → Option A → List ℕ → List ℕ
left_by none ws = ws
left_by (some r) ws = []

Seen-stale : (o : Option ℕ) (h : ℕ) → is_stale o h ≡ true → Seen o h
Seen-stale none h e = cc
Seen-stale (some m) h e = ground arith

module _ {T : Type 0} where
  -- Nobody is parked below a height up to the highest one.
  parked-below :
      (b : TaskBook T) (h j : ℕ)
      → Inv b
      → Seen b.max_seen h
      → ltb j h ≡ true
      → parked b.waiters j ≡ []
  parked-below b h j v s q = elim (Option-cases b.max_seen) [
    | inl e ↦ absurd (rw e at s)
    | inr (m, e) ↦ let s' : h ≤ m = rw e at s in ground (arith, v.ahead j m)
  ]

  parked_recorded :
      (b : TaskBook T) (h : ℕ) (d : TaskDirective T)
      → Inv b
      → Map.get b.directives h ≡ some d
      → parked b.waiters h ≡ []
  parked_recorded b h d v e = ground (arith, v.undecided h)

  parked_at_stale :
      (b : TaskBook T) (h : ℕ) → Inv b → is_stale b.max_seen h ≡ true → parked b.waiters h ≡ []
  parked_at_stale b h v s = elim (Option-cases b.max_seen) [
    | inl e ↦ ground arith
    | inr (m, e) ↦ ground (arith, v.ahead h m)
  ]

  -- Where the rule asks for an answer, there is nobody to answer once the height was seen.
  rule_idle :
      (b : TaskBook T) (h j : ℕ) (r : Resolution T)
      → Inv b
      → Seen b.max_seen h
      → parked b.waiters h ≡ []
      → left_by (rule_at h r j) (parked b.waiters j) ≡ parked b.waiters j
  rule_idle b h j r v s e = ground (arith, parked-below b h j v s)

  parked-record_first :
      (b : TaskBook T) (h j : ℕ) (d : TaskDirective T)
      → Inv b
      → parked (record_first b h d).waiters j
        ≡ left_by (rule_at h (resolution d) j) (parked b.waiters j)
  unfolding record_first resolve_parked
  parked-record_first b h j d v =
      let stored : TaskBook T = record b { directives = Map.insert b.directives h d } in
      let answered = resolve_parked stored h (resolution d) in
      elim (Bool-cases (is_above b.max_seen h)) [
        | inl e ↦ ground (
          arith,
          get-waiters-raise_max_seen answered h j,
          get-remove b.waiters h j,
          get-insert b.directives h j d,
          v.undecided j,
        )
        | inr e ↦
            ground (
              arith,
              get-remove b.waiters h j,
              parked-below b h j v (Seen-not-above b.max_seen h e),
            )
      ]

  parked-override :
      (b : TaskBook T) (h j : ℕ) (e d : TaskDirective T)
      → parked b.waiters h ≡ []
      → parked (override b h e d).waiters j ≡ parked b.waiters j
  unfolding override resolve_parked
  parked-override b h j (announce i t) (skip k) p = ground (arith, get-remove b.waiters h j)
  parked-override b h j (announce i t) d p = refl
  parked-override b h j (skip i) d p = refl
  parked-override b h j (tip_report i) d p = refl

  parked-handle_height_directive :
      (b : TaskBook T) (h j : ℕ) (d : TaskDirective T)
      → Inv b
      → Recorded b
      → parked (handle_height_directive b h d).waiters j
        ≡ left_by (rule_at h (resolution d) j) (parked b.waiters j)
  unfolding handle_height_directive
  parked-handle_height_directive b h j d v s = elim (Option-cases (Map.get b.directives h)) [
    | inl e ↦
        rw (e, handle_height_directive)
          (elim (Bool-cases (is_stale b.max_seen h)) [
            | inl stale ↦ rw stale (
                sym (
                  rule_idle b h j (resolution d) v (Seen-stale b.max_seen h stale)
                    (parked_at_stale b h v stale)))
            | inr fresh ↦ rw fresh (parked-record_first b h j d v)
          ])
    | inr (x, e) ↦
        rw (e, handle_height_directive)
          (let p = parked_recorded b h x v e in
            parked-override b h j x d p
            ∙ sym (rule_idle b h j (resolution d) v (s.seen h (rw e)) p))
  ]

  -- In a book that meets the two invariants of a run, a directive releases exactly the senders that the
  -- rules answer: those at its own height and at every lower one. All others stay parked as they were.
  pub parked-handle_directive :
      (b : TaskBook T) (d : TaskDirective T) (j : ℕ)
      → Inv b
      → Recorded b
      → parked (handle_directive b d).waiters j ≡ left_by (rule d j) (parked b.waiters j)
  unfolding handle_directive resolution
  parked-handle_directive b (announce h t) j v s =
      parked-handle_height_directive b h j (announce h t) v s
  parked-handle_directive b (skip h) j v s = parked-handle_height_directive b h j (skip h) v s
  parked-handle_directive b (tip_report h) j v s = refl
