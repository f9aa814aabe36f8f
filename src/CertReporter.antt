-- ===== src/CertReporter.antt =====
-- router/src/reporter.rs: the actor that keeps the certificates of the router's engine. The
-- certificate's verification by the scheme is a parameter; a query's responder is a number.
pub mod Window
pub mod Records
pub mod Mailbox
pub mod Queries
mod Tests
use commonware_restaking.Prelude.{
  ℕ, ◌-◌, leb, if◌then◌else◌, wrapping_add, Bool, Option, none, some, List, [], ◌∷◌, ◌++◌,
}
use commonware_restaking.Map
use commonware_restaking.Map.{Map}
use commonware_restaking.TaskBook.{prune_slack}

-- The certificate of an item: its height and digest, and the scheme's certificate.
pub record CertifiedHeight (D C : Type 0) : Type 0 where
  pub height : ℕ
  pub digest : D
  pub certificate : C

pub data Message (D C : Type 0) : Type 0 where
  certified : CertifiedHeight D C → Message D C
  tip : ℕ → Message D C
  get_tip : ℕ → Message D C
  get : ℕ → ℕ → Message D C

pub data Answer (D : Type 0) : Type 0 where
  tip_answer : ℕ → Answer D
  digest_answer : Option D → Answer D

-- `consumer_open` is false once the consumer dropped its end; `forwarded` is what it was sent, and
-- `answers` what the responders were sent.
pub record CertReporter (D C : Type 0) : Type 0 where
  pub certified : Map D
  pub tip : ℕ
  pub consumer_open : Bool
  pub forwarded : List (CertifiedHeight D C)
  pub answers : List (ℕ × Answer D)

module _ {D C : Type 0} where
  abbrev pub new : Bool → CertReporter D C
  new consumer_open = record {
    certified = [];
    tip = 0;
    consumer_open = consumer_open;
    forwarded = [];
    answers = [];
  }

  unfoldable pub advance_tip : CertReporter D C → ℕ → CertReporter D C
  advance_tip r t =
      if leb t r.tip
      then r
      else record r { tip = t; certified = Map.split_off r.certified (t - prune_slack) }

  unfoldable pub forward : CertReporter D C → CertifiedHeight D C → CertReporter D C
  forward r c = record r {
    forwarded = if r.consumer_open then r.forwarded ++ c ∷ [] else r.forwarded;
  }

  -- A conflicting digest for a known height is logged, no more.
  unfoldable pub handle_certified :
      (CertifiedHeight D C → Bool) → CertReporter D C → CertifiedHeight D C → CertReporter D C
  unfolding advance_tip forward
  handle_certified verify r c = elim (Map.get r.certified c.height) [
    | some existing ↦ r
    | none ↦
        if verify c
        then forward
            (advance_tip (record r { certified = Map.insert r.certified c.height c.digest })
              (wrapping_add c.height 1))
            c
        else r
  ]

  unfoldable pub handle :
      (CertifiedHeight D C → Bool) → CertReporter D C → Message D C → CertReporter D C
  unfolding handle_certified advance_tip
  handle verify r (certified c) = handle_certified verify r c
  handle verify r (tip h) = advance_tip r h
  handle verify r (get_tip responder) = record r {
    answers = r.answers ++ (responder, tip_answer r.tip) ∷ [];
  }
  handle verify r (get h responder) = record r {
    answers = r.answers ++ (responder, digest_answer (Map.get r.certified h)) ∷ [];
  }

  pub run : (CertifiedHeight D C → Bool) → CertReporter D C → List (Message D C) → CertReporter D C
  unfolding handle
  run verify r [] = r
  run verify r (m ∷ ms) = run verify (handle verify r m) ms
