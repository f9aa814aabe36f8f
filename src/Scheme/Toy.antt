-- ===== src/Scheme/Toy.antt =====
-- A bitmap as a list of Booleans, for the tests of the scheme: what the scheme relies on can hold.
use commonware_restaking.Prelude.{
  ℕ, zero, suc, ◌+◌, ◌-◌, ◌/◌, ◌<◌, ◌≤◌, ◌≡◌, refl, sym, ap, ◌∙◌, ◌==◌, ltb, ==_iff, if◌then◌else◌,
  Bool, true, false, List, [], ◌∷◌, ◌++◌, length, All, All-map, inl, inr, Bool-cases, arith,
}
use commonware_restaking.Prelude.Result.{Result, ok, err}
use commonware_restaking.Map.Laws.{mem}
use commonware_restaking.Codec.{Codec, IsLawful}
use commonware_restaking.Scheme.{Signers, SignersCodec}
use commonware_restaking.Scheme.Laws.{IsBitmap}
use commonware_restaking.Scheme.Products.{Distinct}
use commonware_restaking.Scheme.Encoding.{SignersLawful}

-- The positions of the set bits, from an offset on.
abbrev pub positions : ℕ → List Bool → List ℕ
positions i [] = []
positions i (true ∷ bs) = i ∷ positions (suc i) bs
positions i (false ∷ bs) = positions (suc i) bs

-- The bits of `n` indices from `i` on that stand in a list.
abbrev pub bits : ℕ → ℕ → List ℕ → List Bool
bits i zero xs = []
bits i (suc n) xs = mem i xs ∷ bits (suc i) n xs

abbrev pub toy_signers : Signers (List Bool)
toy_signers = record {
  from = bits 0;
  len = length;
  count = λ bs. length (positions 0 bs);
  iter = positions 0;
  quorum = λ n. n - (n - 1) / 3;
}

positions_below : (i j : ℕ) (bs : List Bool) → j < i → mem j (positions i bs) ≡ false
positions_below i j [] h = refl
positions_below i j (true ∷ bs) h = ground (arith, positions_below (suc i) j bs)
positions_below i j (false ∷ bs) h = positions_below (suc i) j bs (omega arith)

positions-Distinct : (i : ℕ) (bs : List Bool) → Distinct (positions i bs)
positions-Distinct i [] = tt
positions-Distinct i (true ∷ bs) =
    (positions_below (suc i) i bs (omega arith), positions-Distinct (suc i) bs)
positions-Distinct i (false ∷ bs) = positions-Distinct (suc i) bs

positions_in_range : (i : ℕ) (bs : List Bool) → All (λ j. j < i + length bs) (positions i bs)
positions_in_range i [] = tt
positions_in_range i (true ∷ bs) = (
  omega arith,
  All-map _ _ (positions (suc i) bs) (λ j h. omega (arith, h)) (positions_in_range (suc i) bs),
)
positions_in_range i (false ∷ bs) =
    All-map _ _ (positions (suc i) bs) (λ j h. omega (arith, h)) (positions_in_range (suc i) bs)

positions_from_start : (bs : List Bool) → All (λ j. j < length bs) (positions 0 bs)
positions_from_start bs =
    All-map _ _ (positions 0 bs) (λ j h. omega (arith, h)) (positions_in_range 0 bs)

length-bits : (i n : ℕ) (xs : List ℕ) → length (bits i n xs) ≡ n
length-bits i zero xs = refl
length-bits i (suc n) xs = ap suc (length-bits (suc i) n xs)

mem_outside : (n j : ℕ) (xs : List ℕ) → All (λ i. i < n) xs → n ≤ j → mem j xs ≡ false
mem_outside n j [] r h = refl
mem_outside n j (x ∷ xs) r h = ground (arith, mem_outside n j xs r.1 h)

mem-positions-bits :
    (i n j : ℕ) (xs : List ℕ) → i ≤ j → j < i + n → mem j (positions i (bits i n xs)) ≡ mem j xs
mem-positions-bits i zero j xs l h = absurd (omega (arith, l, h))
mem-positions-bits i (suc n) j xs l h = elim (Bool-cases (i == j)) [
  | inl here ↦
      let same : i ≡ j = (==_iff i j).0 here in
      rw (sym same) (elim (Bool-cases (mem i xs)) [
        | inl e ↦ rw e (ground arith)
        | inr e ↦ rw e (positions_below (suc i) i (bits (suc i) n xs) (omega arith))
      ])
  | inr there ↦
      let later = mem-positions-bits (suc i) n j xs (ground arith) (omega (arith, h)) in
      elim (Bool-cases (mem i xs)) [ inl e ↦ rw (e, there) later | inr e ↦ rw e later ]
]

pub toy_signers-IsBitmap : IsBitmap toy_signers
toy_signers-IsBitmap = record {
  count_iter = λ b. refl;
  distinct = positions-Distinct 0;
  in_range = positions_from_start;
  len_from = λ n xs d r. length-bits 0 n xs;
  iter_from = λ n xs j d r. elim (Bool-cases (ltb j n)) [
    | inl e ↦ mem-positions-bits 0 n j xs (omega arith) (ground arith)
    | inr e ↦
        let far : n ≤ j = ground arith in
        mem_outside n j (positions 0 (bits 0 n xs))
          (rw (length-bits 0 n xs) at (positions_from_start (bits 0 n xs))) far
        ∙ sym (mem_outside n j xs r far)
  ];
  quorum_faults = λ n. refl;
}

-- One element of the buffer for their number and for each bit.
abbrev pub write_bits : List Bool → List ℕ
write_bits [] = []
write_bits (true ∷ bs) = 1 ∷ write_bits bs
write_bits (false ∷ bs) = 0 ∷ write_bits bs

abbrev pub read_bits : ℕ → List ℕ → Result ℕ (List Bool × List ℕ)
read_bits zero buf = ok ([], buf)
read_bits (suc n) [] = err 1
read_bits (suc n) (x ∷ buf) = elim (read_bits n buf) [
  | ok (bs, rest) ↦ ok ((x == 1) ∷ bs, rest)
  | err e ↦ err e
]

abbrev pub read_signers : ℕ → List ℕ → Result ℕ (List Bool × List ℕ)
read_signers max_participants [] = err 1
read_signers max_participants (n ∷ buf) = if ltb max_participants n then err 2 else read_bits n buf

abbrev pub toy_signers_codec : SignersCodec ℕ (List Bool)
toy_signers_codec = record {
  write = λ bs. length bs ∷ write_bits bs;
  encode_size = λ bs. suc (length bs);
  read_cfg = read_signers;
}

read_bits-write_bits :
    (bs : List Bool) (rest : List ℕ) → read_bits (length bs) (write_bits bs ++ rest) ≡ ok (bs, rest)
read_bits-write_bits [] rest = refl
read_bits-write_bits (true ∷ bs) rest = rw (read_bits-write_bits bs rest) refl
read_bits-write_bits (false ∷ bs) rest = rw (read_bits-write_bits bs rest) refl

length-write_bits : (bs : List Bool) → length bs ≡ length (write_bits bs)
length-write_bits [] = refl
length-write_bits (true ∷ bs) = ap suc (length-write_bits bs)
length-write_bits (false ∷ bs) = ap suc (length-write_bits bs)

pub toy_signers_codec-SignersLawful :
    SignersLawful (λ max_participants bs. length bs ≤ max_participants) toy_signers_codec
toy_signers_codec-SignersLawful = record {
  read_write = λ max_participants bs rest fits.
      let within : ltb max_participants (length bs) ≡ false = ground arith in
      rw within (read_bits-write_bits bs rest);
  size_write = λ bs. ap suc (length-write_bits bs);
}

abbrev pub read_number : List ℕ → Result ℕ (ℕ × List ℕ)
read_number [] = err 1
read_number (n ∷ buf) = ok (n, buf)

abbrev pub number_codec : Codec ℕ ℕ
number_codec = record { write = λ n. n ∷ []; read = read_number; encode_size = λ n. 1 }

pub number_codec-IsLawful : IsLawful (λ n. Unit {0}) number_codec
number_codec-IsLawful = record { read_write = λ n rest fits. refl; size_write = λ n fits. refl }
