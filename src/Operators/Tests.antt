-- ===== src/Operators/Tests.antt =====
-- eigenlayer/src/network.rs and the startup of examples/counter: three operators over the numbers, two of
-- them with the same G2 key.
use commonware_restaking.Prelude.{
  ◌==◌, if◌then◌else◌, ℕ, ◌-◌, Option, ◌+◌, ◌*◌, ◌%◌, ◌^◌, ◌≡◌, refl, leb, length, is_some, none,
  some, List, [], ◌∷◌, arith,
}
use commonware_restaking.Prelude.Result.{Result, ok, err}
use commonware_restaking.Bn254.{from_scalar}
use commonware_restaking.Bn254.Toy.{number_eq, toy, toy_bilinear, digest}
use commonware_restaking.Map
use commonware_restaking.Operators.{
  OperatorInfo, QuorumInfo, Services, operator_infos, quorum_info, div_ceil, total_from,
}
use commonware_restaking.Operators.Threshold.{stakes, quorum_info-threshold}
use commonware_restaking.Operators.Participants.{Resolver, recipients, address_of, key_pairs}
use commonware_restaking.Operators.Peers.{
  RouterConfig, Parsing, router_address, router_authorized, node_authorized,
}
use commonware_restaking.Operators.Peers.Authorized.{Authorizes, router_authorized-node_authorized}
use commonware_restaking.Operators.Agreement.{first_of, Agree, node_scheme-router_scheme}
use commonware_restaking.Operators.Deployment.{
  Field, registry_coordinator, panic_on_key, Json, read_avs_deployment_config, read_fields, text_at,
  ok_or,
}
use commonware_restaking.Operators.Deployment.Reports.{
  WrongInFile, read_avs_deployment_config-WrongInFile,
}
use commonware_restaking.Operators.Containers.{collected, sorted, sorted-IsOrdered}

-- The operator service knows the operators 1, 2 and 3, all with the same socket.
abbrev keyed : ℕ → Result ℕ (Option (ℕ × ℕ))
keyed address = ok (some (address, 9 - address))

abbrev services : Services ℕ ℕ ℕ ℕ
services = record {
  get_block_number = ok 100;
  quorum_threshold = ok 66;
  threshold_denominator = ok 100;
  fill_db = λ block. ok 0;
  get_operator_state = λ block. ok (((1, 10) ∷ (2, 20) ∷ (3, 30) ∷ []) ∷ []);
  get_operator_info = keyed;
  get_operator_socket = λ address. ok (some 7);
}

abbrev three : List (ℕ × ℕ)
three = (1, 10) ∷ (2, 20) ∷ (3, 30) ∷ []

abbrev quorum : QuorumInfo ℕ ℕ ℕ
quorum = record {
  quorum_number = 0;
  operator_count = 3;
  threshold = 2;
  total_stake = 60;
  operators = operator_infos services 0 three;
}

quorum_info-threshold_example :
    (length quorum.operators ≡ 3)
    × (60 ≡ stakes quorum.operators % 2 ^ 256)
    × (leb 2 2 ≡ leb (3 * 66) (2 * 100))
unfolding quorum_info div_ceil total_from
quorum_info-threshold_example =
    quorum_info-threshold services 66 100 0 three quorum 2 refl (omega arith)

-- Operators with the G2 keys 5, 4 and 5 again.
abbrev operators : List (OperatorInfo ℕ ℕ ℕ)
operators =
    record {
      address = 1;
      stake = 1;
      pub_keys = some (record { g1_pub_key = 50; g2_pub_key = 5 });
      socket = some 7;
      quorum_number = 0;
    }
    ∷ record {
      address = 2;
      stake = 1;
      pub_keys = some (record { g1_pub_key = 40; g2_pub_key = 4 });
      socket = none;
      quorum_number = 0;
    }
    ∷ record {
      address = 3;
      stake = 1;
      pub_keys = some (record { g1_pub_key = 51; g2_pub_key = 5 });
      socket = some 7;
      quorum_number = 0;
    }
    ∷ []

-- The socket of an operator that resolves to nothing ends the startup; one without a socket is no peer.
abbrev resolver : Resolver ℕ ℕ
resolver = record { to_socket_addrs = λ socket. ok (some (socket + 1)); from_str = λ socket. none }

peers_without_socket : recipients resolver operators ≡ ok ((5, 8) ∷ (5, 8) ∷ [])
unfolding recipients address_of
peers_without_socket = refl

-- The node resolves differently, and its connection file has a port and no IP address.
abbrev node_resolver : Resolver ℕ ℕ
node_resolver = record { to_socket_addrs = λ socket. err 1; from_str = λ socket. some (socket + 2) }

abbrev parsing : Parsing ℕ ℕ ℕ
parsing = record {
  parse_ip = λ text. none;
  parse_port = λ text. some text;
  localhost = 127;
  socket_addr = λ ip port. ip * 1000 + port;
}

abbrev connection : RouterConfig ℕ
connection = record { address = 0; port = 30 }

router_authorized-node_authorized_example :
    Authorizes resolver operators 6 77 ((5, 8) ∷ (6, 77) ∷ [])
    × ((address : ℕ) × (router_address parsing connection ≡ ok address)
        × Authorizes node_resolver operators 6 address ((5, 9) ∷ (6, 127030) ∷ []))
    × ((y : ℕ)
        → is_some {A = ℕ} (first_of y ((5, 8) ∷ (6, 77) ∷ []))
          ≡ is_some {A = ℕ} (first_of y ((5, 9) ∷ (6, 127030) ∷ [])))
unfolding router_authorized node_authorized recipients collected Map.insert
router_authorized-node_authorized_example =
    router_authorized-node_authorized sorted resolver node_resolver parsing operators 6 77
      connection ((5, 8) ∷ (6, 77) ∷ []) ((5, 9) ∷ (6, 127030) ∷ []) sorted-IsOrdered refl refl

node_scheme-router_scheme_example :
    Agree toy sorted operators ((5, 50) ∷ (4, 40) ∷ (5, 51) ∷ []) 4 digest
unfolding key_pairs from_scalar
node_scheme-router_scheme_example =
    node_scheme-router_scheme toy sorted operators ((5, 50) ∷ (4, 40) ∷ (5, 51) ∷ []) 4 digest
      toy_bilinear sorted-IsOrdered refl refl refl

-- A file is an object of objects; their members are numbers or strings.
data Leaf : Type 0 where
  number : Leaf
  text : ℕ → Leaf

data Value : Type 0 where
  null : Value
  leaf : Leaf → Value
  object : (Field → Option Leaf) → Value
  file : (Field → Option (Field → Option Leaf)) → Value

unfoldable member_of : Value → Field → Value
member_of (file members) field = elim (members field) [ none ↦ null | some o ↦ object o ]
member_of null field = null
member_of (leaf l) field = null
member_of (object o) field = elim (o field) [ none ↦ null | some l ↦ leaf l ]

unfoldable object_of : Value → Option (Field → Option Leaf)
object_of (object o) = some o
object_of (file members) = none
object_of (leaf l) = none
object_of null = none

unfoldable text_of : Value → Option ℕ
text_of (leaf (text n)) = some n
text_of (leaf number) = none
text_of (object o) = none
text_of (file members) = none
text_of null = none

-- The files 0 and 1 differ in the member registryCoordinator, which is a number there and is not here.
abbrev files : ℕ → Value
files n = file (λ field. some (λ inner. if n == 0 then some number else none))

abbrev json : Json Value (Field → Option Leaf) ℕ ℕ
json = record {
  read_to_string = λ path. some path;
  from_str = λ contents. some (files contents);
  member = member_of;
  as_object = object_of;
  get = λ o field. elim (o field) [ none ↦ none | some l ↦ some (leaf l) ];
  as_str = text_of;
  parse_u64 = λ s. some s;
  parse_address = λ s. some s;
}

absent_key_panics : read_avs_deployment_config json 1 ≡ err (panic_on_key registry_coordinator)
unfolding read_avs_deployment_config read_fields text_at ok_or member_of object_of text_of
absent_key_panics = refl

read_avs_deployment_config-WrongInFile_example : WrongInFile json 0 registry_coordinator
unfolding read_avs_deployment_config read_fields text_at ok_or member_of object_of text_of
read_avs_deployment_config-WrongInFile_example =
    read_avs_deployment_config-WrongInFile json 0 registry_coordinator refl
