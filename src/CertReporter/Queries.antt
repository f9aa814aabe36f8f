-- ===== src/CertReporter/Queries.antt =====
-- router/src/reporter.rs: what the sequencer's queries tell it of what the engine reported.
use commonware_restaking.Prelude.{
  ℕ, ◌-◌, ◌≡◌, refl, sym, ◌∙◌, ◌==◌, Bool, true, some, some_inj, List, [], ◌∷◌, ◌++◌, append-nil,
  append_assoc, IsIn, IsIn-append, IsIn-last, IsIn-snoc, suc, inl, inr, Bool-cases, Option-cases,
  arith,
}
use commonware_restaking.Map
use commonware_restaking.Map.{Map}
use commonware_restaking.Map.Laws.{get-insert, get-split_off}
use commonware_restaking.TaskBook.{prune_slack}
use commonware_restaking.CertReporter.{
  CertifiedHeight, CertReporter, Message, certified, tip, get_tip, get, new, advance_tip, forward,
  handle_certified, handle, run,
}
use commonware_restaking.Prelude.{◌<◌, u64_max, All, All-append, ◌⊎◌}
use commonware_restaking.CertReporter.Records.{InRange, run-new-BelowTip}
use commonware_restaking.CertReporter.Mailbox.{
  Activity, new_certificate, tip_advance, own_ack, report, report_all, ask_tip, ask_digest,
  tip_answered, digest_answered,
}

module _ {D C : Type 0} where
  -- The certificate of a digest on record is among those sent, and was verified.
  pub record Reported (verify : CertifiedHeight D C → Bool) (sent : List (Message D C)) (h : ℕ)
      (d : D) : Type 0 where
    pub certificate : CertifiedHeight D C
    pub is_sent : IsIn (certified certificate) sent
    pub is_verified : verify certificate ≡ true
    pub same_height : certificate.height ≡ h
    pub same_digest : certificate.digest ≡ d

  abbrev OnRecord : (CertifiedHeight D C → Bool) → List (Message D C) → CertReporter D C → Type 0
  OnRecord verify sent r =
      (h : ℕ) (d : D) → Map.get r.certified h ≡ some d → Reported verify sent h d

  Reported-append :
      (verify : CertifiedHeight D C → Bool) (sent later : List (Message D C)) (h : ℕ) (d : D)
      → Reported verify sent h d
      → Reported verify (sent ++ later) h d
  Reported-append verify sent later h d x = record {
    certificate = x.certificate;
    is_sent = IsIn-append _ sent later x.is_sent;
    is_verified = x.is_verified;
    same_height = x.same_height;
    same_digest = x.same_digest;
  }

  get-advance_tip :
      (r : CertReporter D C) (t h : ℕ) (d : D)
      → Map.get (advance_tip r t).certified h ≡ some d
      → Map.get r.certified h ≡ some d
  unfolding advance_tip
  get-advance_tip r t h d g = ground (arith, get-split_off r.certified (t - prune_slack) h)

  accept-OnRecord :
      (verify : CertifiedHeight D C → Bool) (sent : List (Message D C)) (r : CertReporter D C)
      (c : CertifiedHeight D C)
      → verify c ≡ true
      → OnRecord verify sent r
      → (h : ℕ) (d : D) → Map.get (Map.insert r.certified c.height c.digest) h ≡ some d
      → Reported verify (sent ++ certified c ∷ []) h d
  accept-OnRecord verify sent r c v o h d g = elim (Bool-cases (c.height == h)) [
    | inl e ↦ record {
      certificate = c;
      is_sent = IsIn-last (certified c) sent;
      is_verified = v;
      same_height = ground arith;
      same_digest = some_inj (sym (get-insert r.certified c.height h c.digest ∙ rw e refl) ∙ g);
    }
    | inr e ↦
        Reported-append verify sent _ h d
          (o h d (sym (get-insert r.certified c.height h c.digest ∙ rw e refl) ∙ g))
  ]

  handle-OnRecord :
      (verify : CertifiedHeight D C → Bool) (sent : List (Message D C)) (r : CertReporter D C)
      (m : Message D C)
      → OnRecord verify sent r
      → OnRecord verify (sent ++ m ∷ []) (handle verify r m)
  unfolding handle handle_certified forward
  handle-OnRecord verify sent r (certified c) o =
      elim (Option-cases (Map.get r.certified c.height)) [
        | inl n ↦ elim (Bool-cases (verify c)) [
          | inl v ↦ λ h d g.
              let g' = rw (n, v, handle, handle_certified, forward) at g in
              accept-OnRecord verify sent r c v o h d (get-advance_tip _ _ h d g')
          | inr v ↦ λ h d g.
              Reported-append verify sent _ h d (o h d (rw (n, v, handle, handle_certified) at g))
        ]
        | inr (x, n) ↦ λ h d g.
            Reported-append verify sent _ h d (o h d (rw (n, handle, handle_certified) at g))
      ]
  handle-OnRecord verify sent r (tip t) o =
      λ h d g. Reported-append verify sent _ h d (o h d (get-advance_tip r t h d g))
  handle-OnRecord verify sent r (get_tip x) o = λ h d g. Reported-append verify sent _ h d (o h d g)
  handle-OnRecord verify sent r (get k x) o = λ h d g. Reported-append verify sent _ h d (o h d g)

  run-OnRecord :
      (verify : CertifiedHeight D C → Bool) (before : List (Message D C)) (r : CertReporter D C)
      (ms : List (Message D C))
      → OnRecord verify before r
      → OnRecord verify (before ++ ms) (run verify r ms)
  unfolding run
  run-OnRecord verify before r [] o = rw (append-nil before) o
  run-OnRecord verify before r (m ∷ ms) o = rw (← append_assoc before (m ∷ []) ms) (
      run-OnRecord verify (before ++ m ∷ []) (handle verify r m) ms
        (handle-OnRecord verify before r m o))

  -- A certificate in the mailbox was there before, or the engine reported it.
  sent_or_reported :
      (c : CertifiedHeight D C) (sent : List (Message D C)) (activity : List (Activity D C))
      → IsIn (certified c) (report_all sent activity)
      → IsIn (certified c) sent ⊎ IsIn (new_certificate c) activity
  unfolding report_all report
  sent_or_reported c sent [] i = inl i
  sent_or_reported c sent (new_certificate b ∷ rest) i =
      elim (sent_or_reported c (sent ++ certified b ∷ []) rest i) [
        | inl j ↦ elim (IsIn-snoc (certified c) sent (certified b) j) [
          | inl k ↦ inl k
          | inr e ↦ inr (0, cc)
        ]
        | inr (k, e) ↦ inr (suc k, e)
      ]
  sent_or_reported c sent (tip_advance h ∷ rest) i =
      elim (sent_or_reported c (sent ++ tip h ∷ []) rest i) [
        | inl j ↦ elim (IsIn-snoc (certified c) sent (tip h) j) [ inl k ↦ inl k | inr e ↦ cc ]
        | inr (k, e) ↦ inr (suc k, e)
      ]
  sent_or_reported c sent (own_ack h ∷ rest) i = elim (sent_or_reported c sent rest i) [
    | inl j ↦ inl j
    | inr (k, e) ↦ inr (suc k, e)
  ]

  -- The engine does not report a certificate of the last `u64`.
  abbrev pub BelowLast : Activity D C → Type 0
  BelowLast (new_certificate c) = c.height < u64_max
  BelowLast (tip_advance h) = Unit
  BelowLast (own_ack h) = Unit

  InRange-report_all :
      (sent : List (Message D C)) (activity : List (Activity D C))
      → All InRange sent
      → All BelowLast activity
      → All InRange (report_all sent activity)
  unfolding report_all report
  InRange-report_all sent [] a l = a
  InRange-report_all sent (new_certificate c ∷ rest) a l =
      InRange-report_all (sent ++ certified c ∷ []) rest (All-append InRange sent _ a (l.0, tt)) l.1
  InRange-report_all sent (tip_advance h ∷ rest) a l =
      InRange-report_all (sent ++ tip h ∷ []) rest (All-append InRange sent _ a (tt, tt)) l.1
  InRange-report_all sent (own_ack h ∷ rest) a l = InRange-report_all sent rest a l.1

  -- What an answer to the sequencer tells.
  pub record Known (verify : CertifiedHeight D C → Bool) (activity : List (Activity D C)) (h : ℕ)
      (d : D) (asked_tip : ℕ) : Type 0 where
    pub certificate : CertifiedHeight D C
    pub is_reported : IsIn (new_certificate certificate) activity
    pub is_verified : verify certificate ≡ true
    pub same_height : certificate.height ≡ h
    pub same_digest : certificate.digest ≡ d
    pub below_tip : h < asked_tip

  -- Whatever the engine reports to a new actor, no certificate of the last `u64` among it: if the
  -- sequencer's query for a height is answered with a digest, the engine reported a certificate of this
  -- height and digest, which was verified, and the sequencer's query for the tip, sent after the same
  -- reports, is answered with a higher number.
  pub ask_digest-report_all :
      (verify : CertifiedHeight D C → Bool) (consumer_open : Bool) (activity : List (Activity D C))
      (h responder tip_responder : ℕ) {d : D}
      → All BelowLast activity
      → ask_digest true verify (new consumer_open) (report_all [] activity) h responder ≡ some d
      → Known verify activity h d
          (ask_tip true verify (new consumer_open) (report_all [] activity) tip_responder)
  unfolding Map.get
  ask_digest-report_all verify consumer_open activity h responder tip_responder {d} l e =
      let sent = report_all [] activity in
      let g : Map.get (run verify (new consumer_open) sent).certified h ≡ some d =
        sym (digest_answered verify (new consumer_open) sent h responder) ∙ e in
      let x = run-OnRecord verify [] (new consumer_open) sent (λ k y bad. cc) h d g in
      let below =
        run-new-BelowTip verify consumer_open sent (InRange-report_all [] activity tt l) h d g in
      record {
        certificate = x.certificate;
        is_reported = elim (sent_or_reported x.certificate [] activity x.is_sent) [
          | inl (i, bad) ↦ cc
          | inr i ↦ i
        ];
        is_verified = x.is_verified;
        same_height = x.same_height;
        same_digest = x.same_digest;
        below_tip = rw (tip_answered verify (new consumer_open) sent tip_responder) below;
      }
