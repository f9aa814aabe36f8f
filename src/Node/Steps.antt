-- ===== src/Node/Steps.antt =====
-- examples/counter/node/src/app.rs: the steps of the actors that the node's process spawns.
use commonware_restaking.Prelude.{
  ℕ, suc, ◌/◌, ◌≡◌, Bool, some, List, [], ◌∷◌, ◌++◌, get_elem?, IsIn,
}
use commonware_restaking.Prelude.Result.{Result}
use commonware_restaking.Wire.{TaskDirective}
use commonware_restaking.TaskBook as Book
use commonware_restaking.TaskBook.{Message, Resolution}
use commonware_restaking.NodeReporter as Reporter
use commonware_restaking.NodeReporter.{Activity}
use commonware_restaking.DirectiveIngest.{Ingest, on_message}
use commonware_restaking.Automaton.{Validator, resolve}
use commonware_restaking.Node.{Node, deliver, prune, propose, report}

-- What main gives the actors: the decoder of directives, the router's key, the window, the interval of
-- the tip reports, the skip digests with their test, the validator and the budget of its retries.
pub record Settings (T D : Type 0) : Type 0 where
  pub decode : List ℕ → Result ℕ (TaskDirective T)
  pub router : ℕ
  pub window : ℕ
  pub min_report_interval : ℕ
  pub skip_digest : ℕ → D
  pub is_skip : D → ℕ → Bool
  pub validator : Validator T D
  pub retry_budget : ℕ

module _ {T D : Type 0} (g : Settings T D) where
  -- The ingest of a message, with the engine tip that the reporter wrote.
  abbrev pub ingested : Ingest T → ℕ → ℕ → List ℕ → ℕ → Ingest T
  ingested s tip peer bytes now =
      on_message g.window g.min_report_interval g.decode g.router s peer bytes tip now

  -- The steps: a message of the directive channel; an activity of the engine, and the reporter's turn with
  -- it; a request of the engine for a height; the TaskBook's turn with a message; and the automaton's
  -- answer for a height that the TaskBook resolved. A list is what the step adds to a log.
  pub data Step {C : Type 0} : Node T D C → Node T D C → Type 0 where
    hearing :
        (n : Node T D C) (peer : ℕ) (bytes : List ℕ) (now : ℕ) (ds : List (TaskDirective T))
        → (ingested n.ingest n.reporter.tip_handle peer bytes now).delivered
          ≡ n.ingest.delivered ++ ds
        → Step n (
            deliver
              (record n {
                heard = n.heard ++ (peer, bytes) ∷ [];
                ingest = ingested n.ingest n.reporter.tip_handle peer bytes now;
              })
              ds)
    reporting : (n : Node T D C) (a : Activity D C) → Step n (report n a)
    observing :
        (n : Node T D C) (a : Activity D C) (rest : List (Activity D C)) (floors : List ℕ)
        → n.activity ≡ n.reported ++ a ∷ rest
        → (Reporter.handle g.is_skip n.reporter a).floors ≡ n.reporter.floors ++ floors
        → Step n (
            prune
              (record n {
                reported = n.reported ++ a ∷ [];
                reporter = Reporter.handle g.is_skip n.reporter a;
              })
              floors)
    proposing : (n : Node T D C) (h : ℕ) → Step n (propose n h)
    handling :
        (n : Node T D C) (m : Message T) (rest : List (Message T))
        → n.mailbox ≡ n.handled ++ m ∷ rest
        → Step n (record n { handled = n.handled ++ m ∷ []; book = Book.handle n.book m })
    signing :
        (n : Node T D C) (h w : ℕ) (r : Resolution T) (now : ℕ) (digest : D)
        → get_elem? n.proposed w ≡ some h
        → IsIn (w, r) n.book.sent
        → resolve g.validator
            (suc (suc (g.retry_budget / 500)))
            g.skip_digest
            g.retry_budget
            h
            (some r)
            now
          ≡ some (some digest)
        → Step n (record n { signed = n.signed ++ (h, digest) ∷ [] })

  pub data Reach {C : Type 0} (s : Node T D C) : Node T D C → Type 0 where
    here : Reach s s
    next : {n n' : Node T D C} → Reach s n → Step n n' → Reach s n'
