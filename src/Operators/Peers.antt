-- ===== src/Operators/Peers.antt =====
-- examples/counter: node/src/app.rs and router/src/app.rs: the peers that the two sides authorize on the
-- network. The ordered `Map` of the crate and the parsing of addresses and ports are records of functions; the
-- router's key is what `create_from_g2_coordinates` made of the connection file.
pub mod Entries
pub mod Authorized
use commonware_restaking.Prelude.{
  ℕ, ◌==◌, if◌then◌else◌, length, ◌++◌, Option, none, some, List, [], ◌∷◌,
}
use commonware_restaking.Prelude.Result.{Result, ok, err, ◌>>=◌}
use commonware_restaking.Operators.{OperatorInfo}
use commonware_restaking.Operators.Participants.{
  Ordered, Resolver, Panic, no_participants, bad_router_key, bad_port, recipients,
}

-- The part of the router's connection file that names its address.
pub record RouterConfig (T : Type 0) : Type 0 where
  pub address : T
  pub port : T

-- `parse::<IpAddr>`, `parse::<u16>`, `Ipv4Addr::LOCALHOST` and `SocketAddr::new`.
pub record Parsing (T I A : Type 0) : Type 0 where
  pub parse_ip : T → Option I
  pub parse_port : T → Option ℕ
  pub localhost : I
  pub socket_addr : I → ℕ → A

-- `unwrap` and `expect`.
abbrev pub expect : {A : Type 0} → Option A → Panic → Result Panic A
expect none panic = err panic
expect (some a) panic = ok a

abbrev pub unwrap_or : {A : Type 0} → Option A → A → A
unwrap_or none a = a
unwrap_or (some b) a = b

-- The peers among the operators; both sides refuse an empty quorum.
unfoldable pub operator_peers :
    {X Y S A : Type 0} → Resolver S A → List (OperatorInfo X Y S) → Result Panic (List (Y × A))
operator_peers r operators =
    if length operators == 0 then err no_participants else recipients r operators

-- The address at which a node expects the router: one that is no IP address becomes that of the own host.
unfoldable pub router_address : {T I A : Type 0} → Parsing T I A → RouterConfig T → Result Panic A
router_address p config = expect (p.parse_port config.port) bad_port >>= λ port.
    ok (p.socket_addr (unwrap_or (p.parse_ip config.address) p.localhost) port)

module _ {X Y S A : Type 0} (ordered : Ordered A Y) (r : Resolver S A) where
  unfoldable pub router_authorized : List (OperatorInfo X Y S) → Y → A → Result Panic (List (Y × A))
  unfolding operator_peers
  router_authorized operators public_key my_addr = operator_peers r operators >>= λ peers.
      ok (ordered.map_from (peers ++ (public_key, my_addr) ∷ []))

  unfoldable pub node_authorized :
      {T I : Type 0}
      → Parsing T I A
      → List (OperatorInfo X Y S)
      → Option Y
      → RouterConfig T
      → Result Panic (List (Y × A))
  unfolding operator_peers router_address
  node_authorized p operators router_key config = operator_peers r operators >>= λ peers.
      expect router_key bad_router_key >>= λ key.
      router_address p config >>= λ address. ok (ordered.map_from (peers ++ (key, address) ∷ []))
