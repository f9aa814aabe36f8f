-- ===== src/TipReports/Ingest.antt =====
-- router/src/sequencer.rs: `ingest_tip_reports`, the loop that records the nodes' tip reports.
use commonware_restaking.Prelude.{
  ℕ, ◌≡◌, refl, ◌∙◌, ◌==◌, ==_iff, Bool-cases, inl, inr, if◌then◌else◌, or_default, true, false,
  List, [], ◌∷◌, Option, none, some, max, arith,
}
use commonware_restaking.Prelude.Result.{Result, ok, err}
use commonware_restaking.Map
use commonware_restaking.Map.Laws.{mem, get-insert}
use commonware_restaking.Wire.{TaskDirective, announce, skip, tip_report}
use commonware_restaking.TipReports.{TipReports, record_tip}

-- What the p2p receiver yields: the bytes of an authenticated peer, or that it is closed.
pub data Received : Type 0 where
  message : ℕ → List ℕ → Received
  closed : Received

-- `decode` is the crate's, over the directives' codec.
module _ {E T : Type 0} (decode : List ℕ → Result E (TaskDirective T)) (participants : List ℕ) where
  record_decoded : TipReports → ℕ → Result E (TaskDirective T) → TipReports
  record_decoded t peer (ok (tip_report h)) = record_tip t peer h
  record_decoded t peer r = t

  pub ingest_message : TipReports → ℕ → List ℕ → TipReports
  unfolding record_decoded
  ingest_message t peer bytes =
      if mem peer participants then record_decoded t peer (decode bytes) else t

  pub ingest_tip_reports : TipReports → List Received → TipReports
  ingest_tip_reports t [] = t
  ingest_tip_reports t (message peer bytes ∷ rest) =
      ingest_tip_reports (ingest_message t peer bytes) rest
  ingest_tip_reports t (closed ∷ rest) = t

  abbrev highest_with : Option ℕ → Result E (TaskDirective T) → Option ℕ
  highest_with later (ok (tip_report h)) = some (max h (or_default later 0))
  highest_with later r = later

  -- The highest tip that `peer` reports before the channel closes.
  abbrev pub highest : ℕ → List Received → Option ℕ
  highest peer [] = none
  highest peer (message q bytes ∷ rest) =
      let later = highest peer rest in
      if q == peer then highest_with later (decode bytes) else later
  highest peer (closed ∷ rest) = none

  abbrev pub merge : Option ℕ → Option ℕ → Option ℕ
  merge none o = o
  merge (some a) none = some a
  merge (some a) (some b) = some (max a b)

  get-record_decoded :
      (t : TipReports) (q p : ℕ) (r : Result E (TaskDirective T))
      → Map.get (record_decoded t q r).reports p ≡ (
          if q == p then merge (Map.get t.reports p) (highest_with none r) else Map.get t.reports p)
  unfolding record_decoded record_tip
  get-record_decoded t q p (ok (tip_report h)) =
      ground (arith, get-insert t.reports q p (max (or_default (Map.get t.reports q) 0) h))
  get-record_decoded t q p (ok (announce h u)) = ground arith
  get-record_decoded t q p (ok (skip h)) = ground arith
  get-record_decoded t q p (err e) = ground arith

  merge-highest_with :
      (o l : Option ℕ) (r : Result E (TaskDirective T))
      → merge (merge o (highest_with none r)) l ≡ merge o (highest_with l r)
  merge-highest_with o l (ok (tip_report h)) = ground arith
  merge-highest_with o l (ok (announce h u)) = ground arith
  merge-highest_with o l (ok (skip h)) = ground arith
  merge-highest_with o l (err e) = ground arith

  get-ingest_message :
      (t : TipReports) (q p : ℕ) (bytes : List ℕ)
      → mem p participants ≡ true
      → Map.get (ingest_message t q bytes).reports p ≡ (
          if q == p
          then merge (Map.get t.reports p) (highest_with none (decode bytes))
          else Map.get t.reports p)
  unfolding ingest_message
  get-ingest_message t q p bytes h = elim (Bool-cases (q == p)) [
    | inl e ↦
        let p' : q ≡ p = (==_iff q p).0 e in rw (p', h) (get-record_decoded t p p (decode bytes))
    | inr e ↦ elim (Bool-cases (mem q participants)) [
      | inl k ↦ rw k (get-record_decoded t q p (decode bytes))
      | inr k ↦ rw (k, e)
    ]
  ]

  -- The entry of a quorum participant is the highest tip that it ever reported: what it had before,
  -- raised by the tips that it reports before the channel closes. Other peers' messages, other
  -- directives and malformed bytes do not count.
  pub get-ingest_tip_reports :
      (t : TipReports) (es : List Received) (p : ℕ)
      → mem p participants ≡ true
      → Map.get (ingest_tip_reports t es).reports p ≡ merge (Map.get t.reports p) (highest p es)
  unfolding ingest_tip_reports
  get-ingest_tip_reports t [] p h = ground arith
  get-ingest_tip_reports t (closed ∷ es) p h = ground arith
  get-ingest_tip_reports t (message q bytes ∷ es) p h = ground (
    arith,
    get-ingest_tip_reports (ingest_message t q bytes) es p h,
    get-ingest_message t q p bytes h,
    merge-highest_with (Map.get t.reports p) (highest p es) (decode bytes),
  )

  ignored :
      (t : TipReports) (q p : ℕ) (bytes : List ℕ)
      → mem p participants ≡ false
      → Map.get (ingest_message t q bytes).reports p ≡ Map.get t.reports p
  unfolding ingest_message
  ignored t q p bytes h = elim (Bool-cases (mem q participants)) [
    | inr k ↦ rw k
    | inl k ↦ rw k (get-record_decoded t q p (decode bytes) ∙ ground (arith, ==_iff q p))
  ]

  -- A peer outside the quorum leaves no entry of its own, whatever it sends.
  pub get-ingest_tip_reports_outsider :
      (t : TipReports) (es : List Received) (p : ℕ)
      → mem p participants ≡ false
      → Map.get (ingest_tip_reports t es).reports p ≡ Map.get t.reports p
  unfolding ingest_tip_reports
  get-ingest_tip_reports_outsider t [] p h = refl
  get-ingest_tip_reports_outsider t (closed ∷ es) p h = refl
  get-ingest_tip_reports_outsider t (message q bytes ∷ es) p h =
      get-ingest_tip_reports_outsider (ingest_message t q bytes) es p h ∙ ignored t q p bytes h
