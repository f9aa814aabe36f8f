-- ===== src/TaskBook/PassOver.antt =====
-- node/src/task_book.rs: what the loop over the passed heights leaves in the book.
use commonware_restaking.Prelude.{
  ℕ, ◌-◌, ◌≡◌, refl, ◌∙◌, ◌==◌, ltb, if◌then◌else◌, not, ◌&&◌, none, some, List, [], ◌∷◌, arith,
}
use commonware_restaking.Map
use commonware_restaking.Map.{Map}
use commonware_restaking.Map.Laws.{get-remove, mem, mem-keys_below}
use commonware_restaking.Map.Order.{From, remove-From}
use commonware_restaking.TaskBook.{
  TaskBook, Resolution, resolve_parked, prune_below, pass_over, pass_over_all, raise_max_seen,
  prune_slack,
}

module _ {T : Type 0} where
  directives-pass_over : (b : TaskBook T) (h : ℕ) → (pass_over b h).directives ≡ b.directives
  unfolding pass_over resolve_parked
  directives-pass_over b h = ground arith

  pub directives-pass_over_all :
      (b : TaskBook T) (hs : List ℕ) → (pass_over_all b hs).directives ≡ b.directives
  unfolding pass_over_all
  directives-pass_over_all b [] = refl
  directives-pass_over_all b (h ∷ hs) =
      directives-pass_over_all (pass_over b h) hs ∙ directives-pass_over b h

  max_seen-pass_over : (b : TaskBook T) (h : ℕ) → (pass_over b h).max_seen ≡ b.max_seen
  unfolding pass_over resolve_parked
  max_seen-pass_over b h = ground arith

  pub max_seen-pass_over_all :
      (b : TaskBook T) (hs : List ℕ) → (pass_over_all b hs).max_seen ≡ b.max_seen
  unfolding pass_over_all
  max_seen-pass_over_all b [] = refl
  max_seen-pass_over_all b (h ∷ hs) =
      max_seen-pass_over_all (pass_over b h) hs ∙ max_seen-pass_over b h

  get-waiters-pass_over :
      (b : TaskBook T) (h j : ℕ)
      → Map.get (pass_over b h).waiters j
        ≡ (if (h == j) && not (Map.contains b.directives j) then none else Map.get b.waiters j)
  unfolding pass_over resolve_parked
  get-waiters-pass_over b h j = ground (arith, get-remove b.waiters h j)

  -- The loop takes the senders of the listed heights that have no directive.
  pub get-waiters-pass_over_all :
      (b : TaskBook T) (hs : List ℕ) (j : ℕ)
      → Map.get (pass_over_all b hs).waiters j
        ≡ (if mem j hs && not (Map.contains b.directives j) then none else Map.get b.waiters j)
  unfolding pass_over_all
  get-waiters-pass_over_all b [] j = refl
  get-waiters-pass_over_all b (h ∷ hs) j = ground (
    arith,
    get-waiters-pass_over_all (pass_over b h) hs j,
    get-waiters-pass_over b h j,
    directives-pass_over b h,
  )

  pub resolve_parked-From :
      (n : ℕ) (b : TaskBook T) (h : ℕ) (r : Resolution T)
      → From n b.waiters
      → From n (resolve_parked b h r).waiters
  unfolding resolve_parked
  resolve_parked-From n b h r f = remove-From n h b.waiters f

  pub pass_over-From :
      (n : ℕ) (b : TaskBook T) (h : ℕ) → From n b.waiters → From n (pass_over b h).waiters
  unfolding pass_over resolve_parked
  pass_over-From n b h f = ground (arith, remove-From n h b.waiters f)

  pub pass_over_all-From :
      (n : ℕ) (b : TaskBook T) (hs : List ℕ)
      → From n b.waiters
      → From n (pass_over_all b hs).waiters
  unfolding pass_over_all
  pass_over_all-From n b [] f = f
  pass_over_all-From n b (h ∷ hs) f =
      pass_over_all-From n (pass_over b h) hs (pass_over-From n b h f)

  pub directives-raise_max_seen :
      (b : TaskBook T) (h : ℕ)
      → (raise_max_seen b h).directives ≡ Map.split_off b.directives (h - prune_slack)
  unfolding raise_max_seen prune_below
  directives-raise_max_seen b h =
      let raised : TaskBook T = record b { max_seen = some h } in
      rw (directives-pass_over_all raised (Map.keys_below b.waiters h))

  pub max_seen-raise_max_seen : (b : TaskBook T) (h : ℕ) → (raise_max_seen b h).max_seen ≡ some h
  unfolding raise_max_seen prune_below
  max_seen-raise_max_seen b h = max_seen-pass_over_all _ _

  pub raise_max_seen-From :
      (b : TaskBook T) (h : ℕ) → From 0 b.waiters → From 0 (raise_max_seen b h).waiters
  unfolding raise_max_seen prune_below
  raise_max_seen-From b h f = pass_over_all-From 0 _ _ f

  -- After a directive for a new highest height `h`, nobody is parked below `h` but at heights with
  -- a directive.
  pub get-waiters-raise_max_seen :
      (b : TaskBook T) (h j : ℕ)
      → Map.get (raise_max_seen b h).waiters j
        ≡ (if ltb j h && not (Map.contains b.directives j) then none else Map.get b.waiters j)
  unfolding raise_max_seen prune_below
  get-waiters-raise_max_seen b h j =
      let raised : TaskBook T = record b { max_seen = some h } in
      ground (
        arith,
        get-waiters-pass_over_all raised (Map.keys_below b.waiters h) j,
        mem-keys_below b.waiters h j,
      )
