-- ===== src/Operators.antt =====
-- eigenlayer/src/network.rs: the operators of the quorums, as the chain and the operator service give them.
-- Addresses are numbers, a socket is of any type, and a key is its point. An error of a call is passed on
-- by `?`; a panic is an error of its own.
pub mod Threshold
pub mod Participants
pub mod Peers
pub mod Agreement
pub mod Deployment
mod Containers
mod Tests
use commonware_restaking.Prelude.{
  ℕ, suc, ◌+◌, ◌*◌, ◌/◌, ◌%◌, ◌^◌, ◌==◌, ltb, if◌then◌else◌, length, u64_mod, Option, none, some,
  List, [], ◌∷◌,
}
use commonware_restaking.Prelude.Result.{Result, ok, err, ◌>>=◌}

pub data Failure (E : Type 0) : Type 0 where
  error : E → Failure E
  panic : Failure E

pub record CommonwarePublicKeys (X Y : Type 0) : Type 0 where
  pub g1_pub_key : X
  pub g2_pub_key : Y

pub record OperatorInfo (X Y S : Type 0) : Type 0 where
  pub address : ℕ
  pub stake : ℕ
  pub pub_keys : Option (CommonwarePublicKeys X Y)
  pub socket : Option S
  pub quorum_number : ℕ

pub record QuorumInfo (X Y S : Type 0) : Type 0 where
  pub quorum_number : ℕ
  pub operator_count : ℕ
  pub threshold : ℕ
  pub total_stake : ℕ
  pub operators : List (OperatorInfo X Y S)

-- What the chain and the operator service answer. An operator on the chain is its address and its stake.
pub record Services (E X Y S : Type 0) : Type 0 where
  pub get_block_number : Result E ℕ
  pub quorum_threshold : Result E ℕ
  pub threshold_denominator : Result E ℕ
  pub fill_db : ℕ → Result E ℕ
  pub get_operator_state : ℕ → Result E (List (List (ℕ × ℕ)))
  pub get_operator_info : ℕ → Result E (Option (X × Y))
  pub get_operator_socket : ℕ → Result E (Option S)

-- `?` on the result of a call.
abbrev pub tried : {E A : Type 0} → Result E A → Result (Failure E) A
tried (ok a) = ok a
tried (err e) = err (error e)

-- `to::<u64>()` and `try_into().unwrap()`: a number that has too many bits panics.
unfoldable pub fits : {E : Type 0} → ℕ → ℕ → Result (Failure E) ℕ
fits bound n = if ltb n bound then ok n else err panic

-- `div_ceil`, for a divisor that is not zero.
unfoldable pub div_ceil : ℕ → ℕ → ℕ
div_ceil a b = if a % b == 0 then a / b else suc (a / b)

unfoldable pub from_bls_keys : {X Y : Type 0} → X × Y → CommonwarePublicKeys X Y
from_bls_keys (g1, g2) = record { g1_pub_key = g1; g2_pub_key = g2 }

-- The keys of an operator: a failed lookup counts as none.
unfoldable pub keys_of :
    {E X Y : Type 0} → Result E (Option (X × Y)) → Option (CommonwarePublicKeys X Y)
unfolding from_bls_keys
keys_of (ok none) = none
keys_of (ok (some keys)) = some (from_bls_keys keys)
keys_of (err e) = none

-- `.ok().flatten()`.
unfoldable pub socket_of : {E S : Type 0} → Result E (Option S) → Option S
socket_of (ok socket) = socket
socket_of (err e) = none

-- The stakes are summed with the wrap-around of 256 bits.
unfoldable pub total_from : ℕ → List (ℕ × ℕ) → ℕ
total_from total [] = total
total_from total ((address, stake) ∷ operators) = total_from ((total + stake) % 2 ^ 256) operators

module _ {E X Y S : Type 0} (services : Services E X Y S) where
  unfoldable pub operator_infos : ℕ → List (ℕ × ℕ) → List (OperatorInfo X Y S)
  unfolding keys_of socket_of
  operator_infos number [] = []
  operator_infos number ((address, stake) ∷ operators) =
      record {
        address = address;
        stake = stake;
        pub_keys = keys_of (services.get_operator_info address);
        socket = socket_of (services.get_operator_socket address);
        quorum_number = number % 256;
      }
      ∷ operator_infos number operators

  -- A quorum; a denominator of zero panics, and the product has the wrap-around of a release build.
  unfoldable pub quorum_info : ℕ → ℕ → ℕ → List (ℕ × ℕ) → Result (Failure E) (QuorumInfo X Y S)
  unfolding operator_infos total_from div_ceil
  quorum_info quorum_threshold threshold_denominator number operators =
      if threshold_denominator == 0
      then err panic
      else ok (record {
        quorum_number = number % 256;
        operator_count = length operators;
        threshold = div_ceil (length operators * quorum_threshold % u64_mod) threshold_denominator;
        total_stake = total_from 0 operators;
        operators = operator_infos number operators;
      })

  unfoldable pub quorum_infos :
      ℕ → ℕ → ℕ → List (List (ℕ × ℕ)) → Result (Failure E) (List (QuorumInfo X Y S))
  unfolding quorum_info
  quorum_infos quorum_threshold threshold_denominator number [] = ok []
  quorum_infos quorum_threshold threshold_denominator number (operators ∷ quorums) =
      quorum_info quorum_threshold threshold_denominator number operators >>= λ q.
      quorum_infos quorum_threshold threshold_denominator (suc number) quorums >>= λ qs. ok (q ∷ qs)

  unfoldable pub get_operator_states : Result (Failure E) (List (QuorumInfo X Y S))
  unfolding quorum_infos fits
  get_operator_states = tried services.get_block_number >>= λ current_block_number.
      tried services.quorum_threshold >>= fits u64_mod >>= λ quorum_threshold.
      tried services.threshold_denominator >>= fits u64_mod >>= λ threshold_denominator.
      tried (services.fill_db current_block_number) >>= λ filled.
      fits (2 ^ 32) current_block_number >>= λ block.
      tried (services.get_operator_state block) >>= λ operators_state.
      quorum_infos quorum_threshold threshold_denominator 0 operators_state
