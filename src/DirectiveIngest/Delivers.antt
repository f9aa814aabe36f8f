-- ===== src/DirectiveIngest/Delivers.antt =====
-- node/src/task_book.rs: what `ingest` delivers and how often it reports.
use commonware_restaking.Prelude.{
  ℕ, ◌-◌, ◌≤◌, ◌<◌, ◌≡◌, refl, sym, ap, ◌∙◌, ◌==◌, ltb, if◌then◌else◌, ◌&&◌, true, Option, none,
  some, inl, inr, List, [], ◌∷◌, ◌++◌, append-nil, append_assoc, Bool-cases, if_both, arith,
}
use commonware_restaking.Prelude.Result.{Result, ok, err}
use commonware_restaking.Wire.{TaskDirective, announce, skip, tip_report}
use commonware_restaking.DirectiveIngest.{
  Received, message, closed, Report, Ingest, start, is_due, report_tip, warn_beyond_window,
  on_directive, on_message, ingest, beyond_window,
}

-- What the TaskBook is to get of a decoded message.
abbrev pub kept : {T : Type 0} → Result ℕ (TaskDirective T) → List (TaskDirective T)
kept (ok (announce h t)) = announce h t ∷ []
kept (ok (skip h)) = skip h ∷ []
kept (ok (tip_report h)) = []
kept (err e) = []

module _ {T : Type 0} (decode : List ℕ → Result ℕ (TaskDirective T)) (router : ℕ) where
  -- The directive of a message that the TaskBook is to get.
  abbrev pub accepted : ℕ → List ℕ → List (TaskDirective T)
  accepted peer bytes = if peer == router then kept (decode bytes) else []

  abbrev pub accepted_all : List Received → List (TaskDirective T)
  accepted_all [] = []
  accepted_all (closed ∷ rest) = []
  accepted_all (message peer bytes tip now ∷ rest) = accepted peer bytes ++ accepted_all rest

module _ {T : Type 0} (window interval : ℕ) where
  delivered-report_tip :
      (s : Ingest T) (h tip now : ℕ)
      → (warn_beyond_window window interval
          (report_tip window interval s h tip now)
          h
          tip
          now).delivered
        ≡ s.delivered
  unfolding report_tip warn_beyond_window
  delivered-report_tip s h tip now = ground arith

  delivered-kept :
      (s : Ingest T) (r : Result ℕ (TaskDirective T)) (tip now : ℕ)
      → (elim r as (λ x. Ingest T) [
        | ok d ↦ on_directive window interval s d tip now
        | err e ↦ s
      ]).delivered
        ≡ s.delivered ++ kept r
  unfolding on_directive
  delivered-kept s (ok (announce h t)) tip now =
      ap (◌++ announce h t ∷ []) (delivered-report_tip s h tip now)
  delivered-kept s (ok (skip h)) tip now = ap (◌++ skip h ∷ []) (delivered-report_tip s h tip now)
  delivered-kept s (ok (tip_report h)) tip now = sym (append-nil s.delivered)
  delivered-kept s (err e) tip now = sym (append-nil s.delivered)

  pub delivered-on_message :
      (decode : List ℕ → Result ℕ (TaskDirective T)) (router : ℕ) (s : Ingest T) (peer : ℕ)
      (bytes : List ℕ) (tip now : ℕ)
      → (on_message window interval decode router s peer bytes tip now).delivered
        ≡ s.delivered ++ accepted decode router peer bytes
  unfolding on_message on_directive
  delivered-on_message decode router s peer bytes tip now = elim (Bool-cases (peer == router)) [
    | inl e ↦ rw (e, on_message) (delivered-kept s (decode bytes) tip now)
    | inr e ↦ rw (e, on_message) (sym (append-nil s.delivered))
  ]

  -- The TaskBook is sent exactly the announcements and skips that the router's peer sent and that
  -- decode, in their order and up to the end of the channel, however far they are from the engine tip.
  pub delivered-ingest :
      (decode : List ℕ → Result ℕ (TaskDirective T)) (router : ℕ) (s : Ingest T)
      (received : List Received)
      → (ingest window interval decode router s received).delivered
        ≡ s.delivered ++ accepted_all decode router received
  unfolding ingest
  delivered-ingest decode router s [] = sym (append-nil s.delivered)
  delivered-ingest decode router s (closed ∷ rest) = sym (append-nil s.delivered)
  delivered-ingest decode router s (message peer bytes tip now ∷ rest) =
      delivered-ingest decode router (on_message window interval decode router s peer bytes tip now)
        rest
      ∙ ap (◌++ accepted_all decode router rest)
          (delivered-on_message decode router s peer bytes tip now)
      ∙ append_assoc s.delivered _ _

-- Reports, newest first, that are at least an interval apart, each for a height below its tip.
abbrev pub Spaced : ℕ → List Report → Type 0
Spaced interval [] = Unit
Spaced interval (r ∷ []) = r.directive_height < r.tip
Spaced interval (r ∷ q ∷ rs) =
    ((r.directive_height < r.tip) × (interval ≤ r.at - q.at)) × Spaced interval (q ∷ rs)

-- The time of the newest report.
abbrev pub newest : List Report → Option ℕ
newest [] = none
newest (r ∷ rs) = some r.at

record Limited {T : Type 0} (interval : ℕ) (s : Ingest T) : Type 0 where
  pub latest : s.last_report ≡ newest s.reports
  pub spaced : Spaced interval s.reports

Spaced-cons :
    (interval : ℕ) (r : Report) (rs : List Report)
    → r.directive_height < r.tip
    → is_due (newest rs) interval r.at ≡ true
    → Spaced interval rs
    → Spaced interval (r ∷ rs)
Spaced-cons interval r [] l d p = l
Spaced-cons interval r (q ∷ rs) l d p = ((l, ground arith), p)

module _ {T : Type 0} (window interval : ℕ) where
  report_tip-Limited :
      (s : Ingest T) (h tip now : ℕ)
      → Limited interval s
      → Limited interval (report_tip window interval s h tip now)
  unfolding report_tip
  report_tip-Limited s h tip now i = elim (Bool-cases (ltb h tip)) [
    | inl e ↦ elim (Bool-cases (is_due s.last_report interval now)) [
      | inl f ↦
          rw (e, f, report_tip)
            (record {
              latest = refl;
              spaced = Spaced-cons interval _ s.reports (ground arith) (rw i.latest at f) i.spaced;
            })
      | inr f ↦ rw (e, f, report_tip) i
    ]
    | inr e ↦ rw (e, report_tip) i
  ]

  warn-Limited :
      (s : Ingest T) (h tip now : ℕ)
      → Limited interval s
      → Limited interval (warn_beyond_window window interval s h tip now)
  unfolding warn_beyond_window
  warn-Limited s h tip now i =
      if_both (Limited interval)
        (beyond_window h tip window && is_due s.last_beyond_window_warning interval now)
        (record { latest = i.latest; spaced = i.spaced }) i

  kept-Limited :
      (s : Ingest T) (r : Result ℕ (TaskDirective T)) (tip now : ℕ)
      → Limited interval s
      → Limited interval (elim r as (λ x. Ingest T) [
        | ok d ↦ on_directive window interval s d tip now
        | err e ↦ s
      ])
  unfolding on_directive
  kept-Limited s (ok (announce h t)) tip now i =
      let r =
        warn-Limited (report_tip window interval s h tip now) h tip now
          (report_tip-Limited s h tip now i) in
      record { latest = r.latest; spaced = r.spaced }
  kept-Limited s (ok (skip h)) tip now i =
      let r =
        warn-Limited (report_tip window interval s h tip now) h tip now
          (report_tip-Limited s h tip now i) in
      record { latest = r.latest; spaced = r.spaced }
  kept-Limited s (ok (tip_report h)) tip now i = i
  kept-Limited s (err e) tip now i = i

  on_message-Limited :
      (decode : List ℕ → Result ℕ (TaskDirective T)) (router : ℕ) (s : Ingest T) (peer : ℕ)
      (bytes : List ℕ) (tip now : ℕ)
      → Limited interval s
      → Limited interval (on_message window interval decode router s peer bytes tip now)
  unfolding on_message
  on_message-Limited decode router s peer bytes tip now i =
      if_both (Limited interval) (peer == router) (kept-Limited s (decode bytes) tip now i) i

  ingest-Limited :
      (decode : List ℕ → Result ℕ (TaskDirective T)) (router : ℕ) (s : Ingest T)
      (received : List Received)
      → Limited interval s
      → Limited interval (ingest window interval decode router s received)
  unfolding ingest
  ingest-Limited decode router s [] i = i
  ingest-Limited decode router s (closed ∷ rest) i = i
  ingest-Limited decode router s (message peer bytes tip now ∷ rest) i =
      ingest-Limited decode router (on_message window interval decode router s peer bytes tip now)
        rest (on_message-Limited decode router s peer bytes tip now i)

  -- Whatever the peers send, the tip reports that the node sends the router are at least the interval
  -- apart, and each answers a directive below the tip that it reports.
  pub ingest-start-Spaced :
      (decode : List ℕ → Result ℕ (TaskDirective T)) (router : ℕ) (received : List Received)
      → Spaced interval (ingest window interval decode router start received).reports
  ingest-start-Spaced decode router received =
      let i = ingest-Limited decode router start received (record { latest = refl; spaced = tt }) in
      i.spaced
