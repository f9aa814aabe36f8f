-- ===== src/Node/Signs.antt =====
-- The node's process: what the engine of a node is given to sign.
use commonware_restaking.Prelude.{
  ℕ, suc, ◌+◌, ◌/◌, ◌≤◌, ◌≡◌, refl, sym, ap, ◌∙◌, some, some_inj, List, [], ◌∷◌, ◌++◌, map, All,
  All-append, All-map, All-IsIn, All-front, get_elem?, get_elem?-append, get_elem?-length, length,
  IsIn, IsIn-append, append_inj_front, append_assoc, ◌⊎◌, inl, inr, arith,
}
use commonware_restaking.Prelude.Result.{ok}
use commonware_restaking.Wire.{announce}
use commonware_restaking.TaskBook as Book
use commonware_restaking.TaskBook.{
  TaskBook, Message, Resolution, answer, announced, directive, subscribe, prune_below_floor,
  prune_slack,
}
use commonware_restaking.TaskBook.Traces.{Traced, sent-run-new, run-snoc}
use commonware_restaking.TaskBook.Decision.{decision, delivered}
use commonware_restaking.TaskBook.Refines.{requested_floor, answer-run}
use commonware_restaking.NodeReporter.Floors.{handle-Lowers}
use commonware_restaking.DirectiveIngest.Delivers.{accepted, delivered-on_message}
use commonware_restaking.Automaton.{resolve}
use commonware_restaking.Automaton.Resolves.{resolve-Signed}
use commonware_restaking.Node.{Node, start, deliver, prune, propose, report}
use commonware_restaking.Node.Steps.{
  Settings, Step, hearing, reporting, observing, proposing, handling, signing, Reach, here, next,
}
use commonware_restaking.Node.Heard.{
  FromRouter, FromRouter-more, Mail, Mail-more, accepted-FromRouter, All-directives, All-floors,
}

module _ {T D : Type 0} (g : Settings T D) where
  -- A digest that the node may sign at a height: the skip digest of the height, or one that the
  -- validator gave for a task that the router's peer announced for the height.
  abbrev pub Vouched : List (ℕ × List ℕ) → ℕ × D → Type 0
  Vouched heard (h, digest) =
      (digest ≡ g.skip_digest h)
      ⊎ ((task : T) × FromRouter g heard (announce h task)
          × ((k : ℕ) × (g.validator.expected_digest task k ≡ ok digest)))

  Vouched-more :
      (heard heard' : List (ℕ × List ℕ)) (p : ℕ × D)
      → ((x : ℕ × List ℕ) → IsIn x heard → IsIn x heard')
      → Vouched heard p
      → Vouched heard' p
  Vouched-more heard heard' (h, digest) grows (inl e) = inl e
  Vouched-more heard heard' (h, digest) grows (inr (task, f, v)) =
      inr (task, FromRouter-more g heard heard' (announce h task) grows f, v)

  record IsFed {C : Type 0} (n : Node T D C) : Type 0 where
    pub waiting : List (Message T)
    pub queued : n.mailbox ≡ n.handled ++ waiting
    pub ran : n.book ≡ Book.run Book.new n.handled
    pub mail : All (Mail g n.heard n.proposed n.reporter.tip_handle) n.mailbox
    pub vouched : All (Vouched n.heard) n.signed

  in_mailbox :
      {C : Type 0} (n : Node T D C) (m : Message T)
      → IsFed n
      → IsIn m n.handled
      → Mail g n.heard n.proposed n.reporter.tip_handle m
  in_mailbox n m s i =
      All-IsIn (Mail g n.heard n.proposed n.reporter.tip_handle) m n.mailbox s.mail
        (rw s.queued (IsIn-append m n.handled s.waiting i))

  -- The task with which a sender was answered was announced for the height that the engine asked for.
  router_said :
      {C : Type 0} (n : Node T D C) (h w : ℕ) (task : T)
      → IsFed n
      → get_elem? n.proposed w ≡ some h
      → Traced n.handled (w, announced task)
      → FromRouter g n.heard (announce h task)
  router_said n h w task s asked (k, subscribed, said) =
      let same : k ≡ h = some_inj (sym (in_mailbox n (subscribe k w) s subscribed) ∙ asked) in
      rw (← same) (in_mailbox n (directive (announce k task)) s said)

  signed-Vouched :
      {C : Type 0} (n : Node T D C) (h w : ℕ) (r : Resolution T) (now : ℕ) (digest : D)
      → IsFed n
      → get_elem? n.proposed w ≡ some h
      → IsIn (w, r) n.book.sent
      → resolve g.validator
          (suc (suc (g.retry_budget / 500)))
          g.skip_digest
          g.retry_budget
          h
          (some r)
          now
        ≡ some (some digest)
      → Vouched n.heard (h, digest)
  signed-Vouched n h w r now digest s asked i e =
      let q = resolve-Signed g.validator g.skip_digest g.retry_budget h r now in
      let same : q.digest ≡ digest = some_inj (some_inj (sym q.returns ∙ e)) in
      let sent : IsIn (w, r) (Book.run Book.new n.handled).sent = rw (← s.ran) i in
      let traced = All-IsIn (Traced n.handled) (w, r) _ (sent-run-new n.handled) sent in
      elim q.sound [
        | inl x ↦ inl (sym same ∙ x)
        | inr (task, (p, (k, v))) ↦
            inr (task, router_said n h w task s asked (rw p at traced), (k, v ∙ ap ok same))
      ]

  Step-IsFed : {C : Type 0} {n n' : Node T D C} → Step g n n' → IsFed n → IsFed n'
  unfolding deliver prune propose report
  Step-IsFed (hearing n peer bytes now ds e) s =
      let same : accepted g.decode g.router peer bytes ≡ ds =
        append_inj_front n.ingest.delivered _ ds (
          sym (
            delivered-on_message g.window g.min_report_interval g.decode g.router n.ingest peer
              bytes n.reporter.tip_handle now)
          ∙ e) in
      let grows = λ (x : ℕ × List ℕ). IsIn-append x n.heard ((peer, bytes) ∷ []) in
      record {
        waiting = s.waiting ++ map directive ds;
        queued = ap (λ ms. ms ++ map directive ds) s.queued ∙ append_assoc n.handled s.waiting _;
        ran = s.ran;
        mail =
            All-append _ n.mailbox _
              (All-map _ _ n.mailbox
                (λ m. Mail-more g _ _ _ _ _ _ m grows (λ w h f. f) (omega arith)) s.mail)
              (All-directives g _ _ _ ds (rw (← same) (accepted-FromRouter g n.heard peer bytes)));
        vouched = All-map _ _ n.signed (λ p. Vouched-more _ _ p grows) s.vouched;
      }
  Step-IsFed (reporting n a) s = record {
    waiting = s.waiting;
    queued = s.queued;
    ran = s.ran;
    mail = s.mail;
    vouched = s.vouched;
  }
  Step-IsFed (observing n a rest floors q e) s =
      let l = handle-Lowers g.is_skip n.reporter a in
      let same : l.floors ≡ floors =
        append_inj_front n.reporter.floors _ floors (sym l.grown ∙ e) in
      record {
        waiting = s.waiting ++ map prune_below_floor floors;
        queued =
            ap (λ ms. ms ++ map prune_below_floor floors) s.queued
            ∙ append_assoc n.handled s.waiting _;
        ran = s.ran;
        mail =
            All-append _ n.mailbox _
              (All-map _ _ n.mailbox
                (λ m. Mail-more g _ _ _ _ _ _ m (λ x i. i) (λ w h f. f) l.rises) s.mail)
              (All-floors g _ _ _ floors (rw (← same) l.low));
        vouched = s.vouched;
      }
  Step-IsFed (proposing n h) s = record {
    waiting = s.waiting ++ subscribe h (length n.proposed) ∷ [];
    queued =
        ap (λ ms. ms ++ subscribe h (length n.proposed) ∷ []) s.queued
        ∙ append_assoc n.handled s.waiting _;
    ran = s.ran;
    mail =
        All-append _ n.mailbox _
          (All-map _ _ n.mailbox
            (λ m.
              Mail-more g _ _ _ _ _ _ m (λ x i. i)
                (λ w k f. get_elem?-append n.proposed (h ∷ []) w k f) (omega arith))
            s.mail)
          (get_elem?-length n.proposed h, tt);
    vouched = s.vouched;
  }
  Step-IsFed (handling n m rest q) s = record {
    waiting = rest;
    queued = q ∙ sym (append_assoc n.handled (m ∷ []) rest);
    ran = ap (λ b. Book.handle b m) s.ran ∙ sym (run-snoc Book.new n.handled m);
    mail = s.mail;
    vouched = s.vouched;
  }
  Step-IsFed (signing n h w r now digest asked i e) s = record {
    waiting = s.waiting;
    queued = s.queued;
    ran = s.ran;
    mail = s.mail;
    vouched =
        All-append _ n.signed ((h, digest) ∷ []) s.vouched
          (signed-Vouched n h w r now digest s asked i e, tt);
  }

  start-IsFed : {C : Type 0} → IsFed (start {T = T} {D = D} {C = C})
  unfolding Book.run
  start-IsFed = record { waiting = []; queued = refl; ran = refl; mail = tt; vouched = tt }

  Reach-IsFed : {C : Type 0} {n : Node T D C} → Reach g start n → IsFed n
  Reach-IsFed here = start-IsFed
  Reach-IsFed (next w step) = Step-IsFed step (Reach-IsFed w)

  -- In the node's process, from its start and for every order of its actors' steps, every digest that the
  -- engine was given to sign for a height is the skip digest of the height, or one that the validator
  -- gave for a task that the router's peer announced for this very height.
  pub Reach-Vouched :
      {C : Type 0} {n : Node T D C} → Reach g start n → All (Vouched n.heard) n.signed
  Reach-Vouched w = (Reach-IsFed w).vouched

  floors_low :
      (heard : List (ℕ × List ℕ)) (proposed : List ℕ) (tip h : ℕ) (ms : List (Message T))
      → tip ≤ h + prune_slack
      → All (Mail g heard proposed tip) ms
      → All (λ m. requested_floor m ≤ h) ms
  floors_low heard proposed tip h [] l a = tt
  floors_low heard proposed tip h (directive d ∷ ms) l a =
      (omega arith, floors_low heard proposed tip h ms l a.1)
  floors_low heard proposed tip h (subscribe k w ∷ ms) l a =
      (omega arith, floors_low heard proposed tip h ms l a.1)
  floors_low heard proposed tip h (prune_below_floor floor ∷ ms) l a =
      (omega (arith, a.0), floors_low heard proposed tip h ms l a.1)

  -- In the node's process, from its start and for every order of its actors' steps: while the tip of the node's
  -- engine is not past a height by more than the slack, the TaskBook's answer to the height is what the
  -- directives that it handled decide, whatever was pruned.
  pub Reach-decision :
      {C : Type 0} {n : Node T D C} (h : ℕ)
      → Reach g start n
      → n.reporter.tip_handle ≤ h + prune_slack
      → answer n.book h ≡ decision h (delivered n.handled)
  Reach-decision {n = n} h w l =
      let s = Reach-IsFed w in
      let mail = rw s.queued at s.mail in
      ap (λ b. answer b h) s.ran
      ∙ answer-run h n.handled
          (All-front _ n.handled s.waiting (floors_low n.heard n.proposed _ h _ l mail))
