-- ===== src/Operators/Peers/Authorized.antt =====
-- examples/counter: node/src/app.rs and router/src/app.rs: which keys the two sides authorize, at which
-- addresses.
use commonware_restaking.Prelude.{
  ◌≡◌, refl, ◌==◌, if◌then◌else◌, length, ◌++◌, is_some, Option, none, some, List, [], ◌∷◌, inl,
  inr, Bool-cases, arith,
}
use commonware_restaking.Prelude.Result.{Result, ok, err, ok_inj, first_step}
use commonware_restaking.Prelude.Eq.{TestsEq, ◌=?◌}
use commonware_restaking.Operators.{OperatorInfo}
use commonware_restaking.Operators.Participants.{
  Ordered, Resolver, Panic, no_participants, recipients,
}
use commonware_restaking.Operators.Agreement.{first_of, IsOrdered}
use commonware_restaking.Operators.Peers.{
  RouterConfig, Parsing, operator_peers, router_address, router_authorized, node_authorized,
}
use commonware_restaking.Operators.Peers.Entries.{first_socket, Entry, extended, recipients-Entry}

-- What a side authorizes: the operators with a socket, each at the address of its first one, and one key more
-- at its own address.
abbrev pub Authorizes :
    {X Y S A : Type 0} ⦃eq : TestsEq Y⦄
    → Resolver S A
    → List (OperatorInfo X Y S)
    → Y
    → A
    → List (Y × A)
    → Type 0
Authorizes {Y = Y} r operators key address peers =
    (y : Y) → Entry r y peers (if key =? y then some address else none) (first_socket operators y)

-- Two sides have the same keys, whatever their addresses are.
same_keys :
    {Y S A : Type 0} ⦃eq : TestsEq Y⦄ (here there : Resolver S A) (y key : Y) (a b : A)
    (peers others : List (Y × A)) (socket : Option S)
    → Entry here y peers (if key =? y then some a else none) socket
    → Entry there y others (if key =? y then some b else none) socket
    → is_some (first_of y peers) ≡ is_some (first_of y others)
same_keys here there y key a b peers others none e f = rw (e, f) (ground arith)
same_keys here there y key a b peers others (some socket) (x, _, e) (z, _, f) = rw (e, f) refl

module _ {X Y S A : Type 0} ⦃eq : TestsEq Y⦄ (ordered : Ordered A Y) (l : IsOrdered ordered)
    (r : Resolver S A) (operators : List (OperatorInfo X Y S)) where
  operator_peers-recipients :
      (peers : List (Y × A))
      → operator_peers r operators ≡ ok peers
      → recipients r operators ≡ ok peers
  unfolding operator_peers
  operator_peers-recipients peers h = elim (Bool-cases (length operators == 0)) [
    | inl e ↦
        let bad : ◌≡◌ {A = Result Panic (List (Y × A))} (err no_participants) (ok peers) =
          rw e at h in
        cc
    | inr e ↦ rw e at h
  ]

  with_key :
      (peers : List (Y × A)) (key : Y) (address : A)
      → operator_peers r operators ≡ ok peers
      → Authorizes r operators key address (ordered.map_from (peers ++ (key, address) ∷ []))
  with_key peers key address h y =
      extended r y ordered l peers key address (first_socket operators y)
        (recipients-Entry r y operators peers (operator_peers-recipients peers h))

  router_authorized-Authorizes :
      (key : Y) (my_addr : A) (peers : List (Y × A))
      → router_authorized ordered r operators key my_addr ≡ ok peers
      → Authorizes r operators key my_addr peers
  unfolding router_authorized
  router_authorized-Authorizes key my_addr peers h =
      let (before, (listed, last)) = first_step (operator_peers r operators) _ h in
      rw (← ok_inj last) (with_key before key my_addr listed)

  node_authorized-Authorizes :
      {T I : Type 0} (p : Parsing T I A) (key : Y) (config : RouterConfig T) (peers : List (Y × A))
      → node_authorized ordered r p operators (some key) config ≡ ok peers
      → (address : A) × (router_address p config ≡ ok address)
        × Authorizes r operators key address peers
  unfolding node_authorized
  node_authorized-Authorizes p key config peers h =
      let (before, (listed, next)) = first_step (operator_peers r operators) _ h in
      let (address, (made, last)) = first_step (router_address p config) _ next in
      (address, made, rw (← ok_inj last) (with_key before key address listed))

-- If both sides start, the node with the key of the router in its connection file, then each authorizes every
-- operator with a socket, at the address to which the side resolved its first one, and the router's key,
-- unless it is an operator's, at the router's own address or at that of the connection file; and no
-- other key: the two sides authorize the same keys, over lawful maps and whatever each of them resolves.
pub router_authorized-node_authorized :
    {X Y S A T I : Type 0} ⦃eq : TestsEq Y⦄ (ordered : Ordered A Y) (here there : Resolver S A)
    (p : Parsing T I A) (operators : List (OperatorInfo X Y S)) (key : Y) (my_addr : A)
    (config : RouterConfig T) (routers nodes : List (Y × A))
    → IsOrdered ordered
    → router_authorized ordered here operators key my_addr ≡ ok routers
    → node_authorized ordered there p operators (some key) config ≡ ok nodes
    → Authorizes here operators key my_addr routers
      × ((address : A) × (router_address p config ≡ ok address)
          × Authorizes there operators key address nodes)
      × ((y : Y) → is_some (first_of y routers) ≡ is_some (first_of y nodes))
router_authorized-node_authorized ordered here there p operators key my_addr config routers nodes l
      h g =
    let router = router_authorized-Authorizes ordered l here operators key my_addr routers h in
    let (address, made, node) =
      node_authorized-Authorizes ordered l there operators p key config nodes g in
    (
      router,
      (address, made, node),
      λ y.
          same_keys here there y key my_addr address routers nodes (first_socket operators y)
            (router y) (node y),
    )
