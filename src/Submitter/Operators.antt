-- ===== src/Submitter/Operators.antt =====
-- router/src/submitter.rs: the two phases, with the cache and the parallel lookups, give every signer
-- the operator that one lookup after the other would give.
use commonware_restaking.Prelude.{
  ℕ, suc, ◌≡◌, refl, sym, ap, ◌∙◌, Option, none, some, inl, inr, List, [], ◌∷◌, ◌++◌, map, length,
  length-snoc, append_assoc, Option-cases,
}
use commonware_restaking.Prelude.Result.{Result, ok, ◌>>=◌, first_step}
use commonware_restaking.Map
use commonware_restaking.Map.{Map}
use commonware_restaking.Submitter.{
  Miss, set_at, cache_hits, resolve_misses, collect, resolve_operators,
}

-- The operator of one signer: from the cache, or from the registry by the hash of its point.
abbrev pub operator_of : (ℕ → Result ℕ ℕ) → (ℕ → Result ℕ ℕ) → Map ℕ → ℕ × ℕ → Result ℕ ℕ
operator_of pubkey_hash operator_of_hash cache (key, point) = elim (Map.get cache key) [
  | some a ↦ ok a
  | none ↦ pubkey_hash point >>= operator_of_hash
]

-- One signer after the other.
abbrev pub operators_of :
    (ℕ → Result ℕ ℕ) → (ℕ → Result ℕ ℕ) → Map ℕ → List (ℕ × ℕ) → Result ℕ (List ℕ)
operators_of pubkey_hash operator_of_hash cache [] = ok []
operators_of pubkey_hash operator_of_hash cache (s ∷ ss) =
    operator_of pubkey_hash operator_of_hash cache s >>= λ a.
    operators_of pubkey_hash operator_of_hash cache ss >>= λ rest. ok (a ∷ rest)

set_at-append :
    (before : List (Option ℕ)) (o : Option ℕ) (after : List (Option ℕ)) (a : ℕ)
    → set_at (before ++ o ∷ after) (length before) a ≡ before ++ some a ∷ after
set_at-append [] o after a = refl
set_at-append (b ∷ before) o after a = ap (b ∷◌) (set_at-append before o after a)

collect-map : (operators : List ℕ) → collect (map some operators) ≡ ok operators
unfolding collect
collect-map [] = refl
collect-map (a ∷ operators) = rw (collect-map operators) refl

ok_inj : {A : Type 0} {x y : A} → ◌≡◌ {A = Result ℕ A} (ok x) (ok y) → x ≡ y
ok_inj e = cc

module _ (pubkey_hash operator_of_hash : ℕ → Result ℕ ℕ) (cache : Map ℕ) where
  -- The first phase, from an index on, followed by the second phase from any cache.
  record Filled (before : List (Option ℕ)) (n : ℕ) (signers : List (ℕ × ℕ)) (operators : List ℕ)
      : Type 0 where
    pub slots : List (Option ℕ)
    pub misses : List Miss
    pub hits : cache_hits pubkey_hash cache n signers ≡ ok (slots, misses)
    pub filled :
        (c : Map ℕ)
        → (resolve_misses operator_of_hash c (before ++ slots) misses).1
          ≡ ok (before ++ map some operators)

  hit_slot :
      (before : List (Option ℕ)) (n key point : ℕ) (signers : List (ℕ × ℕ)) (a : ℕ)
      (operators : List ℕ)
      → Map.get cache key ≡ some a
      → Filled (before ++ some a ∷ []) (suc n) signers operators
      → Filled before n ((key, point) ∷ signers) (a ∷ operators)
  unfolding cache_hits
  hit_slot before n key point signers a operators e rest = record {
    slots = some a ∷ rest.slots;
    misses = rest.misses;
    hits = rw (e, rest.hits) refl;
    filled = λ c.
        rw
          (
            append_assoc before (some a ∷ []) rest.slots,
            append_assoc before (some a ∷ []) (map some operators),
          )
          at rest.filled c;
  }

  miss_slot :
      (before : List (Option ℕ)) (n key point : ℕ) (signers : List (ℕ × ℕ)) (hash a : ℕ)
      (operators : List ℕ)
      → n ≡ length before
      → Map.get cache key ≡ none
      → pubkey_hash point ≡ ok hash
      → operator_of_hash hash ≡ ok a
      → Filled (before ++ some a ∷ []) (suc n) signers operators
      → Filled before n ((key, point) ∷ signers) (a ∷ operators)
  unfolding cache_hits resolve_misses
  miss_slot before n key point signers hash a operators l e f g rest = record {
    slots = none ∷ rest.slots;
    misses = record { index = n; operator = key; hash = hash } ∷ rest.misses;
    hits = rw (e, f, rest.hits) refl;
    filled = λ c.
        rw (g, resolve_misses, l, set_at-append before none rest.slots a)
          (rw
            (
              append_assoc before (some a ∷ []) rest.slots,
              append_assoc before (some a ∷ []) (map some operators),
            )
            at rest.filled (Map.insert c key a));
  }

  fill :
      (before : List (Option ℕ)) (n : ℕ) (signers : List (ℕ × ℕ)) (operators : List ℕ)
      → n ≡ length before
      → operators_of pubkey_hash operator_of_hash cache signers ≡ ok operators
      → Filled before n signers operators
  unfolding cache_hits resolve_misses
  fill before n [] operators l h = record {
    slots = [];
    misses = [];
    hits = refl;
    filled = λ c. rw (sym (ok_inj h)) refl;
  }
  fill before n ((key, point) ∷ signers) operators l h =
      let head = first_step (operator_of pubkey_hash operator_of_hash cache (key, point)) _ h in
      let tail = first_step (operators_of pubkey_hash operator_of_hash cache signers) _ head.1.1 in
      let rest =
        fill (before ++ some head.0 ∷ []) (suc n) signers tail.0
          (ap suc l ∙ sym (length-snoc before (some head.0))) tail.1.0 in
      rw (sym (ok_inj tail.1.1)) (elim (Option-cases (Map.get cache key)) [
        | inr (a, e) ↦
            let same : a ≡ head.0 = ok_inj (rw (e, operator_of) at head.1.0) in
            hit_slot before n key point signers head.0 tail.0 (rw (e, same) refl) rest
        | inl e ↦
            let looked =
              first_step (pubkey_hash point) operator_of_hash (rw (e, operator_of) at head.1.0) in
            miss_slot before n key point signers looked.0 head.0 tail.0 l e looked.1.0 looked.1.1
              rest
      ])

  -- If every signer is cached or can be looked up, the two phases give the operators that one lookup
  -- after the other gives, in the signers' order, however hits and misses alternate.
  pub resolve_operators-operators_of :
      (signers : List (ℕ × ℕ)) (operators : List ℕ)
      → operators_of pubkey_hash operator_of_hash cache signers ≡ ok operators
      → (resolve_operators pubkey_hash operator_of_hash cache signers).1 ≡ ok operators
  unfolding resolve_operators
  resolve_operators-operators_of signers operators h =
      let all = fill [] 0 signers operators refl h in
      rw (all.hits, resolve_operators, all.filled cache) (collect-map operators)
