-- ===== src/Node.antt =====
-- examples/counter/node/src/app.rs: the actors that the node's process spawns, side by side. The ingest of
-- the directives and the TaskBook (node/src/task_book.rs), the reporter (node/src/reporter.rs) and
-- the automaton (node/src/automaton.rs) share the engine tip and the TaskBook's mailbox. A step is
-- what one actor does between two points at which the others may come between.
pub mod Steps
pub mod Heard
pub mod Signs
mod Tests
use commonware_restaking.Prelude.{ℕ, length, Bool, false, List, [], ◌∷◌, ◌++◌, map}
use commonware_restaking.Wire.{TaskDirective}
use commonware_restaking.TaskBook as Book
use commonware_restaking.TaskBook.{TaskBook, Message, directive, subscribe, prune_below_floor}
use commonware_restaking.NodeReporter as Reporter
use commonware_restaking.NodeReporter.{NodeReporter, Activity}
use commonware_restaking.DirectiveIngest as Directives
use commonware_restaking.DirectiveIngest.{Ingest}

-- What came over the directive channel, with its peer; all that the TaskBook's mailbox and the
-- reporter's were sent, and what the two actors handled of it; the heights that the engine asked
-- for, whose place in the list is the number of the sender; and the digests that it was given.
pub record Node (T D C : Type 0) : Type 0 where
  pub heard : List (ℕ × List ℕ)
  pub ingest : Ingest T
  pub mailbox : List (Message T)
  pub handled : List (Message T)
  pub book : TaskBook T
  pub activity : List (Activity D C)
  pub reported : List (Activity D C)
  pub reporter : NodeReporter D C
  pub proposed : List ℕ
  pub signed : List (ℕ × D)

module _ {T D C : Type 0} where
  -- The process when its actors are spawned.
  abbrev pub start : Node T D C
  start = record {
    heard = [];
    ingest = Directives.start;
    mailbox = [];
    handled = [];
    book = Book.new;
    activity = [];
    reported = [];
    reporter = Reporter.new false;
    proposed = [];
    signed = [];
  }

  -- `TaskBookMailbox::deliver`, `prune_below` and `subscribe`: the mailbox drops nothing.
  unfoldable pub deliver : Node T D C → List (TaskDirective T) → Node T D C
  deliver n ds = record n { mailbox = n.mailbox ++ map directive ds }

  unfoldable pub prune : Node T D C → List ℕ → Node T D C
  prune n floors = record n { mailbox = n.mailbox ++ map prune_below_floor floors }

  -- `propose`: the engine's request becomes a subscription.
  unfoldable pub propose : Node T D C → ℕ → Node T D C
  propose n h = record n {
    mailbox = n.mailbox ++ subscribe h (length n.proposed) ∷ [];
    proposed = n.proposed ++ h ∷ [];
  }

  -- `ReporterMailbox::report`.
  unfoldable pub report : Node T D C → Activity D C → Node T D C
  report n a = record n { activity = n.activity ++ a ∷ [] }
