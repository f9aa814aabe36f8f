-- ===== src/Operators/Participants.antt =====
-- examples/counter: node/src/app.rs and router/src/app.rs: the peers and the scheme that the two sides build
-- from the operators of quorum 0. The ordered `Map` and `Set` of the crate, the resolution of host names and
-- the parsing of addresses are records of functions. A panic at startup is an error.
use commonware_restaking.Prelude.{
  ℕ, ◌==◌, if◌then◌else◌, length, map, Option, none, some, List, [], ◌∷◌,
}
use commonware_restaking.Prelude.Result.{Result, ok, err, ◌>>=◌}
use commonware_restaking.Prelude.Eq.{TestsEq}
use commonware_restaking.Bn254.{Curve}
use commonware_restaking.Scheme.{Bn254Scheme, signer, verifier}
use commonware_restaking.Operators.{OperatorInfo}

-- `Map::from_iter_dedup` with its pairs in order, and `Set::from_iter_dedup`.
pub record Ordered (X Y : Type 0) : Type 0 where
  pub map_from : List (Y × X) → List (Y × X)
  pub set_from : List Y → List Y

-- `to_socket_addrs` with its first address, and `SocketAddr::from_str`.
pub record Resolver (S A : Type 0) : Type 0 where
  pub to_socket_addrs : S → Result ℕ (Option A)
  pub from_str : S → Option A

-- The panics at startup.
pub data Panic : Type 0 where
  no_participants : Panic
  no_keys : Panic
  no_addresses : Panic
  not_well_formed : Panic
  bad_keys : Panic
  not_registered : Panic
  bad_router_key : Panic
  bad_port : Panic

-- The address of a peer: a host name that does not resolve may be an address itself.
unfoldable pub address_of : {S A : Type 0} → Resolver S A → S → Result Panic A
address_of r socket = elim (r.to_socket_addrs socket) [
  | ok none ↦ err no_addresses
  | ok (some address) ↦ ok address
  | err e ↦ elim (r.from_str socket) [ none ↦ err not_well_formed | some address ↦ ok address ]
]

-- The peers: an operator without a socket is left out.
unfoldable pub recipients :
    {X Y S A : Type 0} → Resolver S A → List (OperatorInfo X Y S) → Result Panic (List (Y × A))
unfolding address_of
recipients r [] = ok []
recipients r (o ∷ operators) =
    let rest = recipients r operators in
    elim o.pub_keys [
      | none ↦ err no_keys
      | some keys ↦ elim o.socket [
        | none ↦ rest
        | some socket ↦ address_of r socket >>= λ address.
            rest >>= λ peers. ok ((keys.g2_pub_key, address) ∷ peers)
      ]
    ]

-- The pairs of keys: the two sides ask for those of every operator.
unfoldable pub key_pairs :
    {X Y S : Type 0} → List (OperatorInfo X Y S) → Result Panic (List (Y × X))
key_pairs [] = ok []
key_pairs (o ∷ operators) =
    let rest = key_pairs operators in
    elim o.pub_keys [
      | none ↦ err no_keys
      | some keys ↦ (rest >>= λ pairs. ok ((keys.g2_pub_key, keys.g1_pub_key) ∷ pairs))
    ]

-- The participants and the G1 keys in their order.
unfoldable pub scheme_keys :
    {X Y S : Type 0} → Ordered X Y → List (OperatorInfo X Y S) → Result Panic (List Y × List X)
unfolding key_pairs
scheme_keys ordered operators =
    if length operators == 0
    then err no_participants
    else (key_pairs operators >>= λ pairs.
        let key_map = ordered.map_from pairs in
        ok (ordered.set_from (map (λ p. p.0) key_map), map (λ p. p.1) key_map))

-- What the two sides make of the constructors: their panics, and the node's for a key that is not registered.
unfoldable pub expect_signer : {A : Type 0} → Result ℕ (Option A) → Result Panic A
expect_signer (err e) = err bad_keys
expect_signer (ok none) = err not_registered
expect_signer (ok (some s)) = ok s

unfoldable pub expect_verifier : {A : Type 0} → Result ℕ A → Result Panic A
expect_verifier (err e) = err bad_keys
expect_verifier (ok s) = ok s

module _ {X Y Z S : Type 0} (c : Curve X Y Z) (ordered : Ordered X Y) where
  unfoldable pub node_scheme :
      ⦃eq : TestsEq Y⦄ → List (OperatorInfo X Y S) → ℕ → Result Panic (Bn254Scheme c)
  unfolding scheme_keys expect_signer
  node_scheme operators private_key = scheme_keys ordered operators >>= λ (participants, g1_keys).
      expect_signer (signer c participants g1_keys private_key)

  unfoldable pub router_scheme : List (OperatorInfo X Y S) → Result Panic (Bn254Scheme c)
  unfolding scheme_keys expect_verifier
  router_scheme operators = scheme_keys ordered operators >>= λ (participants, g1_keys).
      expect_verifier (verifier c participants g1_keys)
