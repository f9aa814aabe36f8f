-- ===== src/Operators/Peers/Entries.antt =====
-- examples/counter: node/src/app.rs and router/src/app.rs: the addresses of the peers by their keys.
use mathlib.Core.Option
use commonware_restaking.Prelude.{
  ℕ, suc, ◌≡◌, refl, sym, ap, ◌∙◌, if◌then◌else◌, get_elem?, map, ◌++◌, true, false, Option, none,
  some, List, [], ◌∷◌, inl, inr, Bool-cases, Option-cases, some_inj, arith,
}
use commonware_restaking.Prelude.Result.{Result, ok, err, ok_inj, ◌>>=◌, first_step}
use commonware_restaking.Prelude.Eq.{TestsEq, ◌=?◌}
use commonware_restaking.Operators.{OperatorInfo}
use commonware_restaking.Operators.Participants.{
  Ordered, Resolver, Panic, no_keys, address_of, recipients,
}
use commonware_restaking.Operators.Agreement.{first_of, has, IsOrdered}

-- The socket of the first operator with a key that has one.
unfoldable pub first_socket :
    {X Y S : Type 0} ⦃eq : TestsEq Y⦄ → List (OperatorInfo X Y S) → Y → Option S
first_socket [] y = none
first_socket (o ∷ operators) y =
    let rest = first_socket operators y in
    elim o.pub_keys [
      | none ↦ rest
      | some keys ↦ elim o.socket [
        | none ↦ rest
        | some socket ↦ if keys.g2_pub_key =? y then some socket else rest
      ]
    ]

-- The entry of a key among the peers, by its first socket.
abbrev pub Entry :
    {Y S A : Type 0} ⦃eq : TestsEq Y⦄
    → Resolver S A
    → Y
    → List (Y × A)
    → Option A
    → Option S
    → Type 0
Entry r y peers other none = first_of y peers ≡ other
Entry {A = A} r y peers other (some socket) =
    (a : A) × (address_of r socket ≡ ok a) × (first_of y peers ≡ some a)

module _ {Y A : Type 0} ⦃eq : TestsEq Y⦄ where
  first_of-append :
      (y : Y) (ps qs : List (Y × A))
      → first_of y (ps ++ qs) ≡ Option.or_else (first_of y ps) (first_of y qs)
  unfolding first_of Option.or_else
  first_of-append y [] qs = refl
  first_of-append y ((k, x) ∷ ps) qs = elim (Bool-cases (k =? y)) [
    | inl e ↦ rw e refl
    | inr e ↦ rw e (first_of-append y ps qs)
  ]

  -- A map in order has the first value of every key.
  first_of-entries :
      (y : Y) (ps m : List (Y × A))
      → ((i : ℕ)
          → Option.map (λ p. first_of p.0 ps) (get_elem? m i)
            ≡ Option.map (λ p. some p.1) (get_elem? m i))
      → has (map (λ p. p.0) m) y ≡ true
      → first_of y m ≡ first_of y ps
  unfolding first_of
  first_of-entries y ps [] l h = cc
  first_of-entries y ps ((k, x) ∷ m) l h = elim (Bool-cases (k =? y)) [
    | inl e ↦
        let same : k ≡ y = (eq.test_iff k y).0 e in
        let first : first_of k ps ≡ some x = some_inj (l 0) in
        rw e (sym first ∙ ap (λ (k : Y). first_of k ps) same)
    | inr e ↦ rw e (first_of-entries y ps m (λ i. l (suc i)) (rw e at h))
  ]

  not_first_of :
      (y : Y) (ps : List (Y × A)) → has (map (λ p. p.0) ps) y ≡ false → first_of y ps ≡ none
  unfolding first_of
  not_first_of y [] h = refl
  not_first_of y ((k, x) ∷ ps) h = ground (arith, not_first_of y ps)

  first_of-map_from :
      (ordered : Ordered A Y)
      → IsOrdered ordered
      → (ps : List (Y × A)) (y : Y) → first_of y (ordered.map_from ps) ≡ first_of y ps
  first_of-map_from ordered l ps y =
      let m = ordered.map_from ps in
      elim (Bool-cases (has (map (λ p. p.0) m) y)) [
        | inl e ↦ first_of-entries y ps m (l.first_values ps) e
        | inr e ↦ not_first_of y m e ∙ sym (not_first_of y ps (sym (l.has_keys ps y) ∙ e))
      ]

module _ {Y S A : Type 0} ⦃eq : TestsEq Y⦄ (r : Resolver S A) (y : Y) where
  -- The first entry has the key.
  first_key :
      (peers : List (Y × A)) (key : Y) (address : A)
      → (key =? y) ≡ true
      → first_of y ((key, address) ∷ peers) ≡ some address
  unfolding first_of
  first_key peers key address f = rw f refl

  later-Entry :
      (peers : List (Y × A)) (key : Y) (address : A) (rest : Option S)
      → (key =? y) ≡ false
      → Entry r y peers none rest
      → Entry r y ((key, address) ∷ peers) none rest
  unfolding first_of
  later-Entry peers key address none f e = rw f e
  later-Entry peers key address (some socket) f (a, found, e) = (a, found, rw f e)

  with_socket :
      (peers : List (Y × A)) (key : Y) (address : A) (socket : S) (rest : Option S)
      → address_of r socket ≡ ok address
      → Entry r y peers none rest
      → Entry r y ((key, address) ∷ peers) none (if key =? y then some socket else rest)
  unfolding first_of
  with_socket peers key address socket rest a e = elim (Bool-cases (key =? y)) [
    | inl f ↦ rw f (address, a, first_key peers key address f)
    | inr f ↦ rw f (later-Entry peers key address rest f e)
  ]

  pub extended :
      (ordered : Ordered A Y)
      → IsOrdered ordered
      → (peers : List (Y × A)) (key : Y) (address : A) (socket : Option S)
      → Entry r y peers none socket
      → Entry r y
          (ordered.map_from (peers ++ (key, address) ∷ []))
          (if key =? y then some address else none)
          socket
  unfolding first_of Option.or_else
  extended ordered l peers key address none e =
      first_of-map_from ordered l (peers ++ (key, address) ∷ []) y
      ∙ first_of-append y peers ((key, address) ∷ [])
      ∙ ap (λ o. Option.or_else o (first_of y ((key, address) ∷ []))) e
  extended ordered l peers key address (some socket) (a, found, e) = (
    a,
    found,
    first_of-map_from ordered l (peers ++ (key, address) ∷ []) y
        ∙ first_of-append y peers ((key, address) ∷ [])
        ∙ ap (λ o. Option.or_else o (first_of y ((key, address) ∷ []))) e,
  )

module _ {X Y S A : Type 0} ⦃eq : TestsEq Y⦄ (r : Resolver S A) (y : Y) where
  pub recipients-Entry :
      (operators : List (OperatorInfo X Y S)) (peers : List (Y × A))
      → recipients r operators ≡ ok peers
      → Entry r y peers none (first_socket operators y)
  unfolding recipients first_socket first_of
  recipients-Entry [] peers h = rw (← ok_inj h) refl
  recipients-Entry (o ∷ operators) peers h = elim (Option-cases o.pub_keys) [
    | inl e ↦
        let bad : ◌≡◌ {A = Result Panic (List (Y × A))} (err no_keys) (ok peers) = rw e at h in cc
    | inr (keys, e) ↦ elim (Option-cases o.socket) [
      | inl f ↦ rw (e, f) (recipients-Entry operators peers (rw (e, f) at h))
      | inr (socket, f) ↦
          let chain : (address_of r socket >>= λ address.
          recipients r operators >>= λ others. ok ((keys.g2_pub_key, address) ∷ others))
              ≡ ok peers =
            rw (e, f) at h in
          let (address, (a, next)) = first_step (address_of r socket) _ chain in
          let (others, (same, last)) = first_step (recipients r operators) _ next in
          let entry =
            with_socket r y others keys.g2_pub_key address socket (first_socket operators y) a
              (recipients-Entry operators others same) in
          rw (e, f, ← ok_inj last) entry
    ]
  ]
