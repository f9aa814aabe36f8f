-- ===== src/CertReporter/Mailbox.antt =====
-- router/src/reporter.rs: the actor's mailbox, which the engine reports to and the sequencer queries. It
-- is the list of what was sent, since its overflow drops nothing; `open` is false once the actor is gone.
use commonware_restaking.Prelude.{
  ℕ, ◌≡◌, refl, if◌then◌else◌, or_default, Bool, true, Option, none, some, List, [], ◌∷◌, ◌++◌,
}
use commonware_restaking.Map
use commonware_restaking.Map.{Map}
use commonware_restaking.CertReporter.{
  CertifiedHeight, CertReporter, Message, certified, tip, get_tip, get, Answer, tip_answer,
  digest_answer, handle, run,
}

-- What the engine reports.
pub data Activity (D C : Type 0) : Type 0 where
  new_certificate : CertifiedHeight D C → Activity D C
  tip_advance : ℕ → Activity D C
  own_ack : ℕ → Activity D C

module _ {D : Type 0} where
  -- The responder of a query is new, so that the last answer is its own.
  abbrev last_answer : List (ℕ × Answer D) → Option (Answer D)
  last_answer [] = none
  last_answer ((w, a) ∷ []) = some a
  last_answer (x ∷ y ∷ rest) = last_answer (y ∷ rest)

  abbrev tip_of : Option (Answer D) → Option ℕ
  tip_of none = none
  tip_of (some (tip_answer t)) = some t
  tip_of (some (digest_answer d)) = none

  abbrev digest_of : Option (Answer D) → Option D
  digest_of none = none
  digest_of (some (tip_answer t)) = none
  digest_of (some (digest_answer d)) = d

  last_answer-append :
      (before : List (ℕ × Answer D)) (w : ℕ) (a : Answer D)
      → last_answer (before ++ (w, a) ∷ []) ≡ some a
  last_answer-append [] w a = refl
  last_answer-append (x ∷ []) w a = refl
  last_answer-append (x ∷ y ∷ rest) w a = last_answer-append (y ∷ rest) w a

module _ {D C : Type 0} where
  -- `report`, onto what the mailbox holds.
  unfoldable pub report : List (Message D C) → Activity D C → List (Message D C)
  report sent (new_certificate c) = sent ++ certified c ∷ []
  report sent (tip_advance h) = sent ++ tip h ∷ []
  report sent (own_ack h) = sent

  unfoldable pub report_all : List (Message D C) → List (Activity D C) → List (Message D C)
  unfolding report
  report_all sent [] = sent
  report_all sent (a ∷ rest) = report_all (report sent a) rest

  -- `CertIndex::get_tip` and `get`, after what the mailbox was sent.
  unfoldable pub ask_tip :
      Bool → (CertifiedHeight D C → Bool) → CertReporter D C → List (Message D C) → ℕ → ℕ
  unfolding last_answer tip_of
  ask_tip open_mailbox verify r sent responder =
      if open_mailbox
      then or_default (tip_of (last_answer (run verify r (sent ++ get_tip responder ∷ [])).answers))
          0
      else 0

  unfoldable pub ask_digest :
      Bool → (CertifiedHeight D C → Bool) → CertReporter D C → List (Message D C) → ℕ → ℕ → Option D
  unfolding last_answer digest_of
  ask_digest open_mailbox verify r sent h responder =
      if open_mailbox
      then digest_of (last_answer (run verify r (sent ++ get h responder ∷ [])).answers)
      else none

  run-append :
      (verify : CertifiedHeight D C → Bool) (r : CertReporter D C) (ms ns : List (Message D C))
      → run verify r (ms ++ ns) ≡ run verify (run verify r ms) ns
  unfolding run
  run-append verify r [] ns = refl
  run-append verify r (m ∷ ms) ns = run-append verify (handle verify r m) ms ns

  -- The sequencer is answered the tip that the actor has after all that was sent before.
  pub tip_answered :
      (verify : CertifiedHeight D C → Bool) (r : CertReporter D C) (sent : List (Message D C))
      (responder : ℕ)
      → ask_tip true verify r sent responder ≡ (run verify r sent).tip
  unfolding ask_tip run handle
  tip_answered verify r sent responder = rw (run-append verify r sent (get_tip responder ∷ [])) (
      rw
        (last_answer-append (run verify r sent).answers responder
          (tip_answer (run verify r sent).tip))
        refl)

  pub digest_answered :
      (verify : CertifiedHeight D C → Bool) (r : CertReporter D C) (sent : List (Message D C))
      (h responder : ℕ)
      → ask_digest true verify r sent h responder ≡ Map.get (run verify r sent).certified h
  unfolding ask_digest run handle
  digest_answered verify r sent h responder = rw (run-append verify r sent (get h responder ∷ [])) (
      rw
        (last_answer-append (run verify r sent).answers responder
          (digest_answer (Map.get (run verify r sent).certified h)))
        refl)
