-- ===== src/TaskBook/Waiters.antt =====
-- node/src/task_book.rs: no sender of a subscription is lost, and none is used twice.
use commonware_restaking.Prelude.{
  ℕ, suc, ◌+◌, ◌≡◌, refl, ◌==◌, if◌then◌else◌, List, [], ◌∷◌, ◌++◌, map, append-nil, ◌<◌, ◌∙◌, some,
  inl, inr, Option-cases, arith,
}
use mathlib.Core.List.{map-append}
use commonware_restaking.Map
use commonware_restaking.Map.{Map}
use commonware_restaking.Map.Order.{From, get_below}
use commonware_restaking.Wire.{TaskDirective, announce, skip, tip_report}
use commonware_restaking.TaskBook.{
  TaskBook, Message, Resolution, directive, subscribe, prune_below_floor, new, resolve_parked,
  prune_below, raise_max_seen, record_first, override, handle_height_directive, handle_directive,
  handle_subscribe, handle, run, parked, pass_over, pass_over_all, answer, resolution, skipped,
}
use commonware_restaking.TaskBook.PassOver.{resolve_parked-From, pass_over-From}
use commonware_restaking.TaskBook.Invariant.{Inv, handle-Inv, new-Inv}

abbrev pub count : ℕ → List ℕ → ℕ
count a [] = 0
count a (x ∷ xs) = if x == a then suc (count a xs) else count a xs

abbrev pub all_parked : Map (List ℕ) → List ℕ
all_parked [] = []
all_parked ((h, ws) ∷ m) = ws ++ all_parked m

abbrev pub used : {T : Type 0} → List (ℕ × Resolution T) → List ℕ
used = map (λ p. p.0)

-- How often a sender is parked or was used.
abbrev pub held : {T : Type 0} → ℕ → TaskBook T → ℕ
held w b = count w (all_parked b.waiters) + count w (used b.sent)

pub count-append : (a : ℕ) (xs ys : List ℕ) → count a (xs ++ ys) ≡ count a xs + count a ys
count-append a [] ys = omega arith
count-append a (x ∷ xs) ys = ground (arith, count-append a xs ys)

remove_absent : {V : Type 0} (n k : ℕ) (m : Map V) → From n m → k < n → Map.remove m k ≡ m
unfolding Map.remove
remove_absent n k [] f h = refl
remove_absent n k ((j, v) ∷ m) f h = ground (arith, remove_absent (suc j) k m f.1)

-- Removing a height's entry takes its senders.
count-remove :
    (a n h : ℕ) (m : Map (List ℕ))
    → From n m
    → count a (parked m h) + count a (all_parked (Map.remove m h)) ≡ count a (all_parked m)
unfolding Map.get Map.remove
count-remove a n h [] f = omega arith
count-remove a n h ((j, ws) ∷ m) f = ground (
  arith,
  count-remove a (suc j) h m f.1,
  remove_absent (suc j) h m f.1,
  count-append a ws (all_parked m),
  count-append a ws (all_parked (Map.remove m h)),
)

-- A new entry for a height stands in the place of the old one.
count-insert :
    (a n h : ℕ) (ws : List ℕ) (m : Map (List ℕ))
    → From n m
    → count a (all_parked (Map.insert m h ws)) + count a (parked m h)
      ≡ count a ws + count a (all_parked m)
unfolding Map.get Map.insert
count-insert a n h ws [] f = rw append-nil (omega arith)
count-insert a n h ws ((j, us) ∷ m) f = ground (
  arith,
  count-insert a (suc j) h ws m f.1,
  get_below (suc j) h m f.1,
  count-append a us (all_parked m),
  count-append a ws (all_parked m),
  count-append a ws (us ++ all_parked m),
  count-append a us (all_parked (Map.insert m h ws)),
)

module _ {T : Type 0} where
  used-map : (r : Resolution T) (ws : List ℕ) → used (map (λ w. (w, r)) ws) ≡ ws
  used-map r [] = refl
  used-map r (w ∷ ws) = rw (used-map r ws)

  held-resolve_parked :
      (a : ℕ) (b : TaskBook T) (h : ℕ) (r : Resolution T)
      → From 0 b.waiters
      → held a (resolve_parked b h r) ≡ held a b
  unfolding resolve_parked
  held-resolve_parked a b h r f =
      rw (map-append, used-map r (parked b.waiters h))
        (omega (
          arith,
          count-remove a 0 h b.waiters f,
          count-append a (used b.sent) (parked b.waiters h),
        ))

  held-pass_over :
      (a : ℕ) (b : TaskBook T) (h : ℕ) → From 0 b.waiters → held a (pass_over b h) ≡ held a b
  unfolding pass_over
  held-pass_over a b h f = ground (arith, held-resolve_parked a b h skipped f)

  held-pass_over_all :
      (a : ℕ) (b : TaskBook T) (hs : List ℕ)
      → From 0 b.waiters
      → held a (pass_over_all b hs) ≡ held a b
  unfolding pass_over_all
  held-pass_over_all a b [] f = refl
  held-pass_over_all a b (h ∷ hs) f =
      held-pass_over_all a (pass_over b h) hs (pass_over-From 0 b h f) ∙ held-pass_over a b h f

  held-raise_max_seen :
      (a : ℕ) (b : TaskBook T) (h : ℕ) → From 0 b.waiters → held a (raise_max_seen b h) ≡ held a b
  unfolding raise_max_seen prune_below
  held-raise_max_seen a b h f =
      held-pass_over_all a (record b { max_seen = some h }) (Map.keys_below b.waiters h) f

  held-record_first :
      (a : ℕ) (b : TaskBook T) (h : ℕ) (d : TaskDirective T)
      → From 0 b.waiters
      → held a (record_first b h d) ≡ held a b
  unfolding record_first
  held-record_first a b h d f =
      let stored : TaskBook T = record b { directives = Map.insert b.directives h d } in
      let once = held-resolve_parked a stored h (resolution d) f in
      let answered = resolve_parked stored h (resolution d) in
      ground (
        arith,
        once,
        held-raise_max_seen a answered h (resolve_parked-From 0 stored h (resolution d) f),
      )

  held-override :
      (a : ℕ) (b : TaskBook T) (h : ℕ) (e d : TaskDirective T)
      → From 0 b.waiters
      → held a (override b h e d) ≡ held a b
  unfolding override
  held-override a b h (announce i t) (skip j) f =
      held-resolve_parked a (record b { directives = Map.insert b.directives h (skip j) }) h skipped
        f
  held-override a b h (announce i t) d f = refl
  held-override a b h (skip i) d f = refl
  held-override a b h (tip_report i) d f = refl

  held-handle_height_directive :
      (a : ℕ) (b : TaskBook T) (h : ℕ) (d : TaskDirective T)
      → From 0 b.waiters
      → held a (handle_height_directive b h d) ≡ held a b
  unfolding handle_height_directive
  held-handle_height_directive a b h d f = elim (Option-cases (Map.get b.directives h)) [
    | inl e ↦ rw (e, handle_height_directive) (ground (arith, held-record_first a b h d f))
    | inr (x, e) ↦ rw (e, handle_height_directive) (held-override a b h x d f)
  ]

  -- The senders that a message brings to the actor.
  abbrev pub brought : Message T → List ℕ
  brought (subscribe h w) = w ∷ []
  brought (directive d) = []
  brought (prune_below_floor floor) = []

  held-handle_subscribe :
      (a : ℕ) (b : TaskBook T) (h w : ℕ)
      → From 0 b.waiters
      → held a (handle_subscribe b h w) ≡ count a (w ∷ []) + held a b
  unfolding handle_subscribe
  held-handle_subscribe a b h w f = elim (Option-cases (answer b h)) [
    | inl e ↦
        rw (e, handle_subscribe)
          (omega (
            arith,
            count-insert a 0 h (parked b.waiters h ++ w ∷ []) b.waiters f,
            count-append a (parked b.waiters h) (w ∷ []),
          ))
    | inr (r, e) ↦
        rw (e, handle_subscribe, map-append) (omega (arith, count-append a (used b.sent) (w ∷ [])))
  ]

  held-handle :
      (a : ℕ) (b : TaskBook T) (m : Message T)
      → From 0 b.waiters
      → held a (handle b m) ≡ count a (brought m) + held a b
  unfolding handle handle_directive prune_below
  held-handle a b (directive (announce h t)) f =
      omega (arith, held-handle_height_directive a b h (announce h t) f)
  held-handle a b (directive (skip h)) f =
      omega (arith, held-handle_height_directive a b h (skip h) f)
  held-handle a b (directive (tip_report h)) f = omega arith
  held-handle a b (subscribe h w) f = held-handle_subscribe a b h w f
  held-handle a b (prune_below_floor floor) f = omega arith

  abbrev pub brought_all : List (Message T) → List ℕ
  brought_all [] = []
  brought_all (m ∷ ms) = brought m ++ brought_all ms

  held-run :
      (a : ℕ) (b : TaskBook T) (ms : List (Message T))
      → Inv b
      → held a (run b ms) ≡ count a (brought_all ms) + held a b
  unfolding run
  held-run a b [] v = omega arith
  held-run a b (m ∷ ms) v = omega (
    arith,
    held-run a (handle b m) ms (handle-Inv b m v),
    held-handle a b m v.ordered,
    count-append a (brought m) (brought_all ms),
  )

  -- After any messages every sender that came with a subscription is still parked or was used, each
  -- as often as it came; no other sender is.
  pub held-run-new :
      (a : ℕ) (ms : List (Message T)) → held a (run (new {T = T}) ms) ≡ count a (brought_all ms)
  held-run-new a ms = omega (arith, held-run a new ms new-Inv)
