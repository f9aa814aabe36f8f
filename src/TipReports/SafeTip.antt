-- ===== src/TipReports/SafeTip.antt =====
-- router/src/sequencer.rs: `TipReports::safe_tip` is the highest tip that more nodes reported or
-- passed than may be faulty.
use commonware_restaking.Prelude.{
  ℕ, zero, suc, ◌≤◌, ◌<◌, ◌≡◌, ◌↔◌, refl, leb, if◌then◌else◌, or_default, Bool, false, List, [],
  ◌∷◌, get_elem?, All, max, arith,
}
use native.Mathlib.Decide.{dec_lt}
use commonware_restaking.Map
use commonware_restaking.Map.{Map}
use commonware_restaking.TipReports.{TipReports, record_tip, insert_desc, sort_desc, safe_tip}

-- How many of the tips are `x` or higher.
abbrev pub at_least : ℕ → List ℕ → ℕ
at_least x [] = 0
at_least x (v ∷ vs) = let n = at_least x vs in if leb x v then suc n else n

abbrev Falls : List ℕ → Type 0
Falls [] = Unit
Falls (y ∷ ys) = All (λ z. z ≤ y) ys × Falls ys

at_least-insert_desc : (x y : ℕ) (ys : List ℕ) → at_least x (insert_desc y ys) ≡ at_least x (y ∷ ys)
unfolding insert_desc
at_least-insert_desc x y [] = refl
at_least-insert_desc x y (z ∷ zs) = ground (arith, at_least-insert_desc x y zs)

at_least-sort_desc : (x : ℕ) (vs : List ℕ) → at_least x (sort_desc vs) ≡ at_least x vs
unfolding sort_desc
at_least-sort_desc x [] = refl
at_least-sort_desc x (v ∷ vs) =
    ground (arith, at_least-insert_desc x v (sort_desc vs), at_least-sort_desc x vs)

All-mono : (y z : ℕ) (ys : List ℕ) → y ≤ z → All (λ v. v ≤ y) ys → All (λ v. v ≤ z) ys
All-mono y z [] h a = tt
All-mono y z (v ∷ vs) h a = (omega arith, All-mono y z vs h a.1)

insert_desc-All :
    (x y : ℕ) (ys : List ℕ) → x ≤ y → All (λ z. z ≤ y) ys → All (λ z. z ≤ y) (insert_desc x ys)
unfolding insert_desc
insert_desc-All x y [] h a = (h, tt)
insert_desc-All x y (z ∷ zs) h a = ground (arith, insert_desc-All x y zs h a.1)

insert_desc-Falls : (x : ℕ) (ys : List ℕ) → Falls ys → Falls (insert_desc x ys)
unfolding insert_desc
insert_desc-Falls x [] f = (tt, tt)
insert_desc-Falls x (y ∷ ys) f =
    ground (arith, insert_desc-Falls x ys f.1, insert_desc-All x y ys, All-mono y x ys)

sort_desc-Falls : (vs : List ℕ) → Falls (sort_desc vs)
unfolding sort_desc
sort_desc-Falls [] = tt
sort_desc-Falls (v ∷ vs) = insert_desc-Falls v (sort_desc vs) (sort_desc-Falls vs)

at_least_none : (x y : ℕ) (ys : List ℕ) → y < x → All (λ z. z ≤ y) ys → at_least x ys ≡ 0
at_least_none x y [] h a = refl
at_least_none x y (z ∷ zs) h a = ground (arith, at_least_none x y zs h a.1)

-- In a falling list the entry at `f` is `x` or higher just where more than `f` entries are.
Falls-entry :
    (x f : ℕ) (ys : List ℕ)
    → 0 < x
    → Falls ys
    → (x ≤ or_default (get_elem? ys f) 0) ↔ (f < at_least x ys)
Falls-entry x f [] p s = (λ h. absurd (omega arith), λ h. absurd (omega arith))
Falls-entry x zero (y ∷ ys) p s = ground (arith, at_least_none x y ys)
Falls-entry x (suc f) (y ∷ ys) p s = ground (arith, at_least_none x y ys, Falls-entry x f ys p s.1)

-- A tip above 0 is at most the safe tip exactly when more nodes reported it, or a higher one, than
-- may be faulty.
pub le-safe_tip :
    (t : TipReports) (x : ℕ)
    → 0 < x
    → (x ≤ safe_tip t) ↔ (t.max_faults < at_least x (Map.values t.reports))
unfolding safe_tip
le-safe_tip t x p = ground (
  arith,
  Falls-entry x t.max_faults (sort_desc (Map.values t.reports)) p
      (sort_desc-Falls (Map.values t.reports)),
  at_least-sort_desc x (Map.values t.reports),
)

-- The reports of nodes that are not faulty stay within `m`.
abbrev pub HonestUpTo : (ℕ → Bool) → ℕ → Map ℕ → Type 0
HonestUpTo faulty m [] = Unit
HonestUpTo faulty m ((p, tip) ∷ rest) = (faulty p ≡ false → tip ≤ m) × HonestUpTo faulty m rest

abbrev pub faulty_entries : (ℕ → Bool) → Map ℕ → ℕ
faulty_entries faulty [] = 0
faulty_entries faulty ((p, tip) ∷ rest) =
    let n = faulty_entries faulty rest in if faulty p then suc n else n

at_least-le-faulty_entries :
    (faulty : ℕ → Bool) (m : ℕ) (r : Map ℕ)
    → HonestUpTo faulty m r
    → at_least (suc m) (Map.values r) ≤ faulty_entries faulty r
unfolding Map.values
at_least-le-faulty_entries faulty m [] h = omega arith
at_least-le-faulty_entries faulty m ((p, tip) ∷ rest) h =
    ground (arith, at_least-le-faulty_entries faulty m rest h.1)

-- Whatever the faulty nodes report, while they are at most as many as the quorum rule tolerates the
-- safe tip does not pass the highest tip that some other node reported.
pub safe_tip_honest :
    (faulty : ℕ → Bool) (t : TipReports) (m : ℕ)
    → HonestUpTo faulty m t.reports
    → faulty_entries faulty t.reports ≤ t.max_faults
    → safe_tip t ≤ m
safe_tip_honest faulty t m h few =
    ground
      (arith, le-safe_tip t (suc m) (omega arith), at_least-le-faulty_entries faulty m t.reports h)

at_least-insert :
    (x k v : ℕ) (m : Map ℕ)
    → or_default (Map.get m k) 0 ≤ v
    → at_least x (Map.values m) ≤ at_least x (Map.values (Map.insert m k v))
unfolding Map.values Map.get Map.insert
at_least-insert x k v [] h = omega arith
at_least-insert x k v ((j, w) ∷ m) h = ground (arith, at_least-insert x k v m)

-- A report, from whomever, never lowers the safe tip.
pub safe_tip-record_tip :
    (t : TipReports) (peer tip : ℕ) → safe_tip t ≤ safe_tip (record_tip t peer tip)
unfolding record_tip
safe_tip-record_tip t peer tip =
    let entry = or_default (Map.get t.reports peer) 0 in
    let u : TipReports = record t { reports = Map.insert t.reports peer (max entry tip) } in
    elim (dec_lt 0 (safe_tip t)) [
      | yes p ↦ ground (
        arith,
        le-safe_tip t (safe_tip t) p,
        le-safe_tip u (safe_tip t) p,
        at_least-insert (safe_tip t) peer (max entry tip) t.reports (omega arith),
      )
      | no p ↦ omega arith
    ]
