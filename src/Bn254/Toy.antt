-- ===== src/Bn254/Toy.antt =====
-- Numbers in the place of the points, with multiplication as the pairing, for the tests.
use commonware_restaking.Prelude.{ℕ, ◌+◌, ◌*◌, ◌==◌, ==_iff, length, List, [], ◌∷◌, ◌++◌, arith}
use commonware_restaking.Prelude.Eq.{TestsEq}
use commonware_restaking.Bn254.{Curve}
use commonware_restaking.Bn254.Signing.{IsBilinear}

instance abbrev pub number_eq : TestsEq ℕ
number_eq = record { test = ◌==◌; test_iff = ==_iff }

abbrev pub toy : Curve ℕ ℕ ℕ
toy = record {
  zero1 = 0;
  generator1 = 1;
  add1 = ◌+◌;
  mul1 = ◌*◌;
  zero2 = 0;
  generator2 = 1;
  add2 = ◌+◌;
  mul2 = ◌*◌;
  pairing = ◌*◌;
  map_to_curve = length;
  sha256 = λ bytes. bytes;
  union_unique = λ namespace message. namespace ++ message;
}

unfoldable pub toy_bilinear : IsBilinear toy
toy_bilinear = record {
  one = 0;
  mul = ◌+◌;
  zero_left = λ q. omega arith;
  zero_right = λ p. omega arith;
  add_left = λ p r q. grind arith;
  add_right = λ p q r. grind arith;
  scalar = λ p q k. grind arith;
}

abbrev pub eight : List ℕ
eight = 1 ∷ 2 ∷ 3 ∷ 4 ∷ 5 ∷ 6 ∷ 7 ∷ 8 ∷ []

abbrev pub digest : List ℕ
digest = eight ++ eight ++ eight ++ eight
