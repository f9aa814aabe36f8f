-- ===== src/Sequencer/Driving.antt =====
-- router/src/sequencer.rs: what `drive_height` broadcasts, and how it ends.
use commonware_restaking.Prelude.{
  ℕ, ◌+◌, ◌≤◌, ◌≡◌, ◌≢◌, refl, sym, ◌∙◌, ◌==◌, ==_refl, ltb, leb, if◌then◌else◌, is_some, ◌||◌, ◌⊎◌,
  inl, inr, Bool, true, false, none, some, List, [], ◌∷◌, ◌++◌, append-nil, append_assoc,
  Bool-cases, arith,
}
use commonware_restaking.Wire.{TaskDirective, announce, skip}
use commonware_restaking.TipReports.{safe_tip}
use commonware_restaking.Sequencer.{
  ResolutionKind, superseded, Sequencer, SequencedTask, drive_height, Event, resolution,
  channel_closed, interval, Drive, on_resolution, rebroadcast, on_interval, drive_step, drive_loop,
  past,
}

-- The directives of one height: it is announced, from some point on it is skipped, and then it is
-- never announced again. The flag says whether it is skipped already.
abbrev pub Latched : {T : Type 0} → Bool → ℕ → T → List (TaskDirective T) → Type 0
Latched skips h t [] = Unit
Latched true h t (d ∷ ds) = (d ≡ skip h) × Latched true h t ds
Latched false h t (d ∷ ds) =
    ((d ≡ announce h t) × Latched false h t ds) ⊎ ((d ≡ skip h) × Latched true h t ds)

Latched-cons :
    {T : Type 0} (a b : Bool) (h : ℕ) (t : T) (ds : List (TaskDirective T))
    → Latched (a || b) h t ds
    → Latched a h t ((if a || b then skip h else announce h t) ∷ ds)
Latched-cons true b h t ds l = (refl, l)
Latched-cons false true h t ds l = inr (refl, l)
Latched-cons false false h t ds l = inl (refl, l)

-- What is broadcast between two states.
pub record Sends {T : Type 0} (h : ℕ) (t : T) (d d' : Drive T) : Type 0 where
  pub directives : List (TaskDirective T)
  pub grown : d'.broadcasts ≡ d.broadcasts ++ directives
  pub latched : Latched d.skipping h t directives

module _ {T : Type 0} (height : ℕ) (t : T) (deadline : ℕ) where
  Sends-refl : (d : Drive T) → Sends height t d d
  Sends-refl d = record { directives = []; grown = sym (append-nil d.broadcasts); latched = tt }

  -- A turn that changes neither the latch nor the broadcasts.
  Sends-quiet :
      (d e d' : Drive T)
      → e.skipping ≡ d.skipping
      → e.broadcasts ≡ d.broadcasts
      → Sends height t e d'
      → Sends height t d d'
  Sends-quiet d e d' p q s = record {
    directives = s.directives;
    grown = s.grown ∙ rw q;
    latched = rw p at s.latched;
  }

  Sends-rebroadcast :
      (d d' : Drive T) (now : ℕ)
      → Sends height t (rebroadcast height t deadline d now) d'
      → Sends height t d d'
  unfolding rebroadcast
  Sends-rebroadcast d d' now s = record {
    directives =
        (if d.skipping || leb deadline now then skip height else announce height t) ∷ s.directives;
    grown = s.grown ∙ append_assoc d.broadcasts _ s.directives;
    latched = Latched-cons d.skipping (leb deadline now) height t s.directives s.latched;
  }

  pub drive_loop-Sends :
      {D : Type 0} (d : Drive T) (es : List (Event D))
      → Sends height t d (drive_loop height t deadline d es).0
  unfolding drive_loop drive_step on_resolution on_interval
  drive_loop-Sends d [] = Sends-refl d
  drive_loop-Sends d (resolution r ∷ es) = elim (Bool-cases (r.height == height)) [
    | inl e ↦ rw (e, drive_loop) (Sends-refl d)
    | inr e ↦
        rw (e, drive_loop)
          (Sends-quiet d _ _ refl refl
            (drive_loop-Sends (record d { next_height = past d.next_height r }) es))
  ]
  drive_loop-Sends d (channel_closed ∷ es) = Sends-refl d
  drive_loop-Sends d (interval now c reports ∷ es) = elim (Bool-cases (d.certified || is_some c)) [
    | inl e ↦
        rw (e, drive_loop)
          (Sends-quiet d _ _ refl refl (drive_loop-Sends (record d { certified = true }) es))
    | inr e ↦ elim (Bool-cases (ltb height (safe_tip reports))) [
      | inl f ↦ rw (e, f, drive_loop) (Sends-refl d)
      | inr f ↦
          rw (e, f, drive_loop)
            (Sends-rebroadcast d _ now (drive_loop-Sends (rebroadcast height t deadline d now) es))
    ]
  ]

  -- Once the height is certified nothing more is broadcast for it, and it is not given up for the
  -- nodes' tips: only its resolution, or the end of the channel, is waited for.
  pub drive_loop_certified :
      {D : Type 0} (d : Drive T) (es : List (Event D))
      → d.certified ≡ true
      → ((drive_loop height t deadline d es).0.broadcasts ≡ d.broadcasts)
        × ((drive_loop height t deadline d es).1 ≢ some superseded)
  unfolding drive_loop drive_step on_resolution on_interval
  drive_loop_certified d [] c = (refl, λ e. cc)
  drive_loop_certified d (resolution r ∷ es) c = elim (Bool-cases (r.height == height)) [
    | inl e ↦ rw (e, drive_loop) (refl, λ f. cc)
    | inr e ↦
        rw (e, drive_loop)
          (drive_loop_certified (record d { next_height = past d.next_height r }) es c)
  ]
  drive_loop_certified d (channel_closed ∷ es) c = (refl, λ e. cc)
  drive_loop_certified d (interval now x reports ∷ es) c =
      rw (c, drive_loop) (drive_loop_certified (record d { certified = true }) es refl)

  -- The loop is over once the height's resolution is among the events, whatever else happens.
  pub drive_loop_resolved :
      {D : Type 0} (d : Drive T) (es later : List (Event D)) (kind : ResolutionKind)
      → (drive_loop height t deadline d
          (es ++ resolution (record { height = height; kind = kind }) ∷ later)).1
        ≢ none
  unfolding drive_loop drive_step on_resolution on_interval
  drive_loop_resolved d [] later kind = rw (==_refl height, drive_loop) (λ e. cc)
  drive_loop_resolved d (resolution r ∷ es) later kind = elim (Bool-cases (r.height == height)) [
    | inl e ↦ rw (e, drive_loop) (λ f. cc)
    | inr e ↦
        rw (e, drive_loop)
          (drive_loop_resolved (record d { next_height = past d.next_height r }) es later kind)
  ]
  drive_loop_resolved d (channel_closed ∷ es) later kind = λ e. cc
  drive_loop_resolved d (interval now c reports ∷ es) later kind =
      elim (Bool-cases (d.certified || is_some c)) [
        | inl e ↦
            rw (e, drive_loop) (drive_loop_resolved (record d { certified = true }) es later kind)
        | inr e ↦ elim (Bool-cases (ltb height (safe_tip reports))) [
          | inl f ↦ rw (e, f, drive_loop) (λ g. cc)
          | inr f ↦
              rw (e, f, drive_loop)
                (drive_loop_resolved (rebroadcast height t deadline d now) es later kind)
        ]
      ]

  -- Driving never lowers `next_height`.
  pub next_height-drive_loop :
      {D : Type 0} (d : Drive T) (es : List (Event D))
      → d.next_height ≤ (drive_loop height t deadline d es).0.next_height
  unfolding drive_loop drive_step on_resolution on_interval rebroadcast
  next_height-drive_loop d [] = omega arith
  next_height-drive_loop d (resolution r ∷ es) = elim (Bool-cases (r.height == height)) [
    | inl e ↦ rw (e, drive_loop) (omega arith)
    | inr e ↦
        rw (e, drive_loop)
          (omega
            (arith, next_height-drive_loop (record d { next_height = past d.next_height r }) es))
  ]
  next_height-drive_loop d (channel_closed ∷ es) = omega arith
  next_height-drive_loop d (interval now c reports ∷ es) =
      elim (Bool-cases (d.certified || is_some c)) [
        | inl e ↦ rw (e, drive_loop) (next_height-drive_loop (record d { certified = true }) es)
        | inr e ↦ elim (Bool-cases (ltb height (safe_tip reports))) [
          | inl f ↦ rw (e, f, drive_loop) (omega arith)
          | inr f ↦
              rw (e, f, drive_loop)
                (next_height-drive_loop (rebroadcast height t deadline d now) es)
        ]
      ]

-- What a whole drive broadcasts.
pub record Announces {T : Type 0} (h : ℕ) (t : T) (before after : List (TaskDirective T))
    : Type 0 where
  pub later : List (TaskDirective T)
  pub grown : after ≡ before ++ announce h t ∷ later
  pub latched : Latched false h t later

-- A drive of a height announces its task first; whatever happens then, all that it broadcasts is the
-- same announcement again or a skip of this height, and after the first skip it never announces again.
pub drive_height-Announces :
    {T D : Type 0} (s : Sequencer T D) (h : ℕ) (sequenced : SequencedTask T D) (now : ℕ)
    (es : List (Event D))
    → Announces h sequenced.announced s.broadcasts (drive_height s h sequenced now es).0.broadcasts
unfolding drive_height
drive_height-Announces s h sequenced now es =
    let sent = drive_loop-Sends h sequenced.announced (now + s.round_timeout) _ es in
    record {
      later = sent.directives;
      grown = sent.grown ∙ append_assoc s.broadcasts _ sent.directives;
      latched = sent.latched;
    }
