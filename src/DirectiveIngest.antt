-- ===== src/DirectiveIngest.antt =====
-- node/src/task_book.rs: `ingest`, the node's loop over the router's directives. A peer is a number,
-- the decoder is a parameter, and each message comes with the engine tip and the clock that the loop
-- reads. What was reported and warned is kept with its time, newest first.
pub mod Delivers
mod Tests
use commonware_restaking.Prelude.{
  ℕ, ◌-◌, ◌==◌, ltb, leb, saturating_add, if◌then◌else◌, ◌&&◌, Bool, true, false, Option, none,
  some, List, [], ◌∷◌, ◌++◌,
}
use commonware_restaking.Prelude.Result.{Result, ok, err}
use commonware_restaking.Wire.{TaskDirective, announce, skip, tip_report, height}

-- One turn of the loop: a message, or the error that ends it.
pub data Received : Type 0 where
  message : ℕ → List ℕ → ℕ → ℕ → Received
  closed : Received

pub record Report : Type 0 where
  pub tip : ℕ
  pub directive_height : ℕ
  pub at : ℕ

pub record Ingest (T : Type 0) : Type 0 where
  pub last_report : Option ℕ
  pub last_beyond_window_warning : Option ℕ
  pub reports : List Report
  pub warnings : List ℕ
  pub delivered : List (TaskDirective T)

abbrev pub start : {T : Type 0} → Ingest T
start = record {
  last_report = none;
  last_beyond_window_warning = none;
  reports = [];
  warnings = [];
  delivered = [];
}

unfoldable pub beyond_window : ℕ → ℕ → ℕ → Bool
beyond_window h tip window = leb (saturating_add tip window) h

-- `last.is_none_or(|at| at.elapsed() >= min)`; elapsed time stops at zero.
abbrev pub is_due : Option ℕ → ℕ → ℕ → Bool
is_due none interval now = true
is_due (some at) interval now = leb interval (now - at)

module _ {T : Type 0} (window min_report_interval : ℕ) where
  unfoldable pub report_tip : Ingest T → ℕ → ℕ → ℕ → Ingest T
  report_tip s h tip now =
      if ltb h tip && is_due s.last_report min_report_interval now
      then record s {
        last_report = some now;
        reports = record { tip = tip; directive_height = h; at = now } ∷ s.reports;
      }
      else s

  unfoldable pub warn_beyond_window : Ingest T → ℕ → ℕ → ℕ → Ingest T
  unfolding beyond_window
  warn_beyond_window s h tip now =
      if beyond_window h tip window && is_due s.last_beyond_window_warning min_report_interval now
      then record s { last_beyond_window_warning = some now; warnings = now ∷ s.warnings }
      else s

  -- A directive that was decoded, with the tip and the clock.
  unfoldable pub on_directive : Ingest T → TaskDirective T → ℕ → ℕ → Ingest T
  unfolding report_tip warn_beyond_window
  on_directive s (tip_report h) tip now = s
  on_directive s (announce h t) tip now =
      let s' = warn_beyond_window (report_tip s h tip now) h tip now in
      record s' { delivered = s'.delivered ++ announce h t ∷ [] }
  on_directive s (skip h) tip now =
      let s' = warn_beyond_window (report_tip s h tip now) h tip now in
      record s' { delivered = s'.delivered ++ skip h ∷ [] }

  module _ (decode : List ℕ → Result ℕ (TaskDirective T)) (router : ℕ) where
    unfoldable pub on_message : Ingest T → ℕ → List ℕ → ℕ → ℕ → Ingest T
    unfolding on_directive
    on_message s peer bytes tip now =
        if peer == router
        then elim (decode bytes) [ ok d ↦ on_directive s d tip now | err e ↦ s ]
        else s

    pub ingest : Ingest T → List Received → Ingest T
    unfolding on_message
    ingest s [] = s
    ingest s (closed ∷ rest) = s
    ingest s (message peer bytes tip now ∷ rest) = ingest (on_message s peer bytes tip now) rest
