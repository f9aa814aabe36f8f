-- ===== src/Sequencer/Heights.antt =====
-- router/src/sequencer.rs: the heights that `run` assigns, and what it keeps for them.
use commonware_restaking.Prelude.{
  All-front, All-back, ℕ, suc, ◌≤◌, ◌<◌, ◌≡◌, refl, ◌+◌, ◌==◌, if◌then◌else◌, is_some, max,
  wrapping_add, u64_max, Bool, true, false, Option, none, some, List, [], ◌∷◌, ◌++◌, ◌⊎◌, inl, inr,
  All, Option-cases, not, arith,
}
use commonware_restaking.Map
use commonware_restaking.Map.{Map}
use commonware_restaking.Map.Laws.{get-insert, get-remove}
use commonware_restaking.Wire.{announce}
use commonware_restaking.TipReports.{TipReports, safe_tip}
use commonware_restaking.Sequencer.{
  SequencedTask, Resolution, Sequencer, Attempt, Round, HeightOutcome, resolved, superseded, closed,
  executed, skipped, foreign, Disposition, released, pending, stopped, waiting, drain_resolutions,
  next_assigned, assign, attempt, drive_task, idle_drained, run_rounds, run, drive_height, past,
  stamp_dispatch_time, disposition,
}
use commonware_restaking.Sequencer.Driving.{next_height-drive_loop}

-- Heights that rise strictly, from `n` up to below `m`.
abbrev pub Rises : ℕ → List ℕ → ℕ → Type 0
Rises n [] m = n ≤ m
Rises n (h ∷ hs) m = (n ≤ h) × Rises (suc h) hs m

Rises-mono : (n p : ℕ) (hs : List ℕ) (m : ℕ) → n ≤ p → Rises p hs m → Rises n hs m
Rises-mono n p [] m a r = omega arith
Rises-mono n p (h ∷ hs) m a r = (omega arith, r.1)

Rises-append :
    (n : ℕ) (hs : List ℕ) (m : ℕ) (ks : List ℕ) (p : ℕ)
    → Rises n hs m
    → Rises m ks p
    → Rises n (hs ++ ks) p
Rises-append n [] m ks p r q = Rises-mono n m ks p r q
Rises-append n (h ∷ hs) m ks p r q = (r.0, Rises-append (suc h) hs m ks p r.1 q)

module _ {T D : Type 0} where
  -- The heights that the attempts at one task assign.
  abbrev pub task_heights : Sequencer T D → SequencedTask T D → List (Attempt D) → List ℕ
  task_heights s sequenced [] = []
  task_heights s sequenced (a ∷ rest) =
      let (s', d) = attempt s sequenced a in
      next_assigned s a ∷ elim d [ pending ↦ task_heights s' sequenced rest | _ ↦ [] ]

  -- The heights that all rounds assign.
  abbrev pub run_heights : Sequencer T D → List (Round T D) → List ℕ
  run_heights s [] = []
  run_heights s (r ∷ rs) =
      let s' = idle_drained s r.idle in
      elim r.next_task [
        | none ↦ []
        | some sequenced ↦
            let (s'', d) = drive_task s' sequenced r.attempts in
            task_heights s' sequenced r.attempts
            ++ elim d [ released ↦ run_heights s'' rs | _ ↦ [] ]
      ]

pub le-drain_resolutions : (n : ℕ) (rs : List Resolution) → n ≤ drain_resolutions n rs
unfolding drain_resolutions
le-drain_resolutions n [] = omega arith
le-drain_resolutions n (r ∷ rs) = omega (arith, le-drain_resolutions (past n r) rs)

abbrev pub is_waiting : Disposition → Bool
is_waiting waiting = true
is_waiting released = false
is_waiting pending = false
is_waiting stopped = false

-- The keys of a map are below `n`.
abbrev pub Below : ℕ → Map ℕ → Type 0
Below n [] = Unit
Below n ((k, t) ∷ m) = (k < n) × Below n m

-- The stamp of a height above all stamped ones is the only one left.
pub stamp_dispatch_time_fresh :
    (times : Map ℕ) (h now : ℕ) → Below h times → stamp_dispatch_time times h now ≡ (h, now) ∷ []
unfolding stamp_dispatch_time Map.split_off Map.insert
stamp_dispatch_time_fresh [] h now b = refl
stamp_dispatch_time_fresh ((k, t) ∷ m) h now b =
    ground (arith, stamp_dispatch_time_fresh m h now b.1)

get_or_removed :
    {V : Type 0} (m : Map V) (k h : ℕ) (v : V) (b : Bool)
    → Map.get (if b then Map.remove (Map.insert m k v) k else Map.insert m k v) h
      ≡ (if k == h then (if b then none else some v) else Map.get m h)
get_or_removed m k h v true = ground (arith, get-remove (Map.insert m k v) k h, get-insert m k h v)
get_or_removed m k h v false = get-insert m k h v

is_waiting-disposition : (o : Option HeightOutcome) → is_waiting (disposition o) ≡ not (is_some o)
unfolding disposition
is_waiting-disposition none = refl
is_waiting-disposition (some (resolved (executed b))) = refl
is_waiting-disposition (some (resolved skipped)) = refl
is_waiting-disposition (some (resolved foreign)) = refl
is_waiting-disposition (some superseded) = refl
is_waiting-disposition (some closed) = refl

get-settled :
    {V : Type 0} (m : Map V) (k h : ℕ) (v : V) (o : Option HeightOutcome)
    → Map.get (if is_some o then Map.remove (Map.insert m k v) k else Map.insert m k v) h
      ≡ (if k == h then (if is_waiting (disposition o) then some v else none) else Map.get m h)
get-settled m k h v o = ground (arith, get_or_removed m k h v (is_some o), is_waiting-disposition o)

Disposition-cases :
    (d : Disposition) → (d ≡ pending) ⊎ ((d ≡ released) ⊎ ((d ≡ stopped) ⊎ (d ≡ waiting)))
Disposition-cases released = inr (inl refl)
Disposition-cases pending = inl refl
Disposition-cases stopped = inr (inr (inl refl))
Disposition-cases waiting = inr (inr (inr refl))

module _ {T D : Type 0} where
  -- An attempt assigns a height at or above `next_height`, and leaves `next_height` above it, unless
  -- it is the last height there is.
  pub attempt-next_height :
      (s : Sequencer T D) (sequenced : SequencedTask T D) (a : Attempt D)
      → next_assigned s a < u64_max
      → (s.next_height ≤ next_assigned s a)
        × (next_assigned s a < (attempt s sequenced a).0.next_height)
  unfolding attempt assign drive_height next_assigned
  attempt-next_height s sequenced a h =
      let driven =
        next_height-drive_loop (next_assigned s a) sequenced.announced
          (a.started_at + s.round_timeout)
          (record {
            skipping = false;
            certified = false;
            next_height = wrapping_add (next_assigned s a) 1;
            broadcasts = s.broadcasts ++ announce (next_assigned s a) sequenced.announced ∷ [];
          })
          a.events in
      (omega (arith, le-drain_resolutions s.next_height a.buffered), omega (arith, driven))

  drive_task-Rises :
      (s : Sequencer T D) (sequenced : SequencedTask T D) (tries : List (Attempt D))
      → All (λ h. h < u64_max) (task_heights s sequenced tries)
      → Rises s.next_height
          (task_heights s sequenced tries)
          (drive_task s sequenced tries).0.next_height
  unfolding drive_task
  drive_task-Rises s sequenced [] l = omega arith
  drive_task-Rises s sequenced (a ∷ rest) l =
      let step = attempt-next_height s sequenced a l.0 in
      elim (Disposition-cases (attempt s sequenced a).1) [
        | inl e ↦ (
          step.0,
          rw (e, drive_task)
              (Rises-mono _ _ _ _ step.1
                (drive_task-Rises (attempt s sequenced a).0 sequenced rest (rw e at l.1))),
        )
        | inr (inl e) ↦ (step.0, rw (e, drive_task) (omega (arith, step.1)))
        | inr (inr (inl e)) ↦ (step.0, rw (e, drive_task) (omega (arith, step.1)))
        | inr (inr (inr e)) ↦ (step.0, rw (e, drive_task) (omega (arith, step.1)))
      ]

  run_rounds-Rises :
      (s : Sequencer T D) (rs : List (Round T D))
      → All (λ h. h < u64_max) (run_heights s rs)
      → Rises s.next_height (run_heights s rs) (run_rounds s rs).next_height
  unfolding run_rounds idle_drained
  run_rounds-Rises s [] l = omega arith
  run_rounds-Rises s (r ∷ rs) l =
      let s' = idle_drained s r.idle in
      let drained = le-drain_resolutions s.next_height r.idle in
      elim (Option-cases r.next_task) [
        | inl e ↦ rw (e, run_rounds) drained
        | inr (sequenced, e) ↦
            let l' : All (λ h. h < u64_max) _ = rw e at l in
            let driven = drive_task s' sequenced r.attempts in
            let first = Rises-mono _ _ _ _ drained (
              drive_task-Rises s' sequenced r.attempts
                (All-front _ (task_heights s' sequenced r.attempts) _ l')) in
            elim (Disposition-cases driven.1) [
              | inr (inl f) ↦
                  let later : All (λ h. h < u64_max) (run_heights driven.0 rs) =
                    All-back _ (task_heights s' sequenced r.attempts) _ (rw f at l') in
                  rw (e, f, run_rounds)
                    (Rises-append _ _ _ _ _ first (run_rounds-Rises driven.0 rs later))
              | inl f ↦ rw (e, f, run_rounds) (Rises-append _ _ _ [] _ first (omega arith))
              | inr (inr (inl f)) ↦
                  rw (e, f, run_rounds) (Rises-append _ _ _ [] _ first (omega arith))
              | inr (inr (inr f)) ↦
                  rw (e, f, run_rounds) (Rises-append _ _ _ [] _ first (omega arith))
            ]
      ]

  -- The heights that `run` assigns rise strictly, so that no height is assigned twice, whatever the
  -- nodes, the engine and the clock do: they start at or above the reporter's tip and the nodes' safe
  -- tip, and at the end `next_height` is above all of them. The last `u64` must not be assigned.
  pub run-Rises :
      (s : Sequencer T D) (tip : ℕ) (reports : TipReports) (rs : List (Round T D))
      → All
          (λ h. h < u64_max)
          (run_heights (record s { next_height = max tip (safe_tip reports) }) rs)
      → Rises
          (max tip (safe_tip reports))
          (run_heights (record s { next_height = max tip (safe_tip reports) }) rs)
          (run s tip reports rs).next_height
  unfolding run
  run-Rises s tip reports rs l =
      run_rounds-Rises (record s { next_height = max tip (safe_tip reports) }) rs l

  -- An attempt keeps the assignments of other heights; its own is there, with the task and its
  -- digest, as long as the height is not over, and gone after.
  pub assignments-attempt :
      (s : Sequencer T D) (sequenced : SequencedTask T D) (a : Attempt D) (h : ℕ)
      → Map.get (attempt s sequenced a).0.assignments h ≡ (
          if next_assigned s a == h
          then (if is_waiting (attempt s sequenced a).1
              then some (record { digest = sequenced.digest; task = sequenced.task })
              else none)
          else Map.get s.assignments h)
  unfolding attempt assign disposition
  assignments-attempt s sequenced a h =
      get-settled s.assignments (next_assigned s a) h _
        (drive_height (assign s sequenced a) (next_assigned s a) sequenced a.started_at a.events).1

  -- After an attempt at a height above all stamped ones, its time of assignment is the only one kept.
  pub dispatch_time-attempt :
      (s : Sequencer T D) (sequenced : SequencedTask T D) (a : Attempt D)
      → Below (next_assigned s a) s.dispatch_time
      → (attempt s sequenced a).0.dispatch_time ≡ (next_assigned s a, a.assigned_at) ∷ []
  unfolding attempt assign
  dispatch_time-attempt s sequenced a b =
      stamp_dispatch_time_fresh s.dispatch_time (next_assigned s a) a.assigned_at b
