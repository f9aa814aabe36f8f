-- ===== src/Wire/Tests.antt =====
-- The wire format over a concrete codec, and the theorems about it at concrete inputs.
use commonware_restaking.Prelude.{ℕ, ◌<◌, ◌≡◌, ◌≢◌, refl, inr, List, [], ◌∷◌, arith}
use commonware_restaking.Prelude.Result.{Result, ok, err}
use commonware_restaking.Codec.{Codec, IsLawful}
use commonware_restaking.Wire.{
  TaskDirective, announce, height, Format, read, directive_codec, skip_digest, to_be_bytes,
}
use commonware_restaking.Wire.RoundTrip.{
  DirectiveFits, FormatIsLawful, directive_codec-IsLawful, tag_of, Payload, read_sound,
}
use commonware_restaking.Wire.SkipDigest.{skip_digest_collision}

-- Every value is one element of the buffer; an error carries its code.
abbrev read_cell : List ℕ → Result ℕ (ℕ × List ℕ)
read_cell [] = err 99
read_cell (b ∷ bs) = ok (b, bs)

abbrev cell : Codec ℕ ℕ
cell = record { write = λ n. n ∷ []; read = read_cell; encode_size = λ n. 1 }

cell-IsLawful : (P : ℕ → Type 0) → IsLawful P cell
cell-IsLawful P = record { read_write = λ a rest f. refl; size_write = λ a f. refl }

abbrev cells : Format ℕ ℕ
cells = record { invalid_enum = λ t. t; u8 = cell; varint = cell; task = cell }

cells-IsLawful : FormatIsLawful (λ t. t < 10) cells
cells-IsLawful = record {
  u8 = cell-IsLawful _;
  u8_size = λ b h. refl;
  varint = cell-IsLawful _;
  task = cell-IsLawful _;
}

unknown_tag_rejected : read cells (3 ∷ 5 ∷ []) ≡ err 3
unfolding read
unknown_tag_rejected = refl

truncated_announce_rejected : read cells (0 ∷ 9 ∷ []) ≡ err 99
unfolding read
truncated_announce_rejected = refl

to_be_bytes_300 : to_be_bytes 300 ≡ 0 ∷ 0 ∷ 0 ∷ 0 ∷ 0 ∷ 0 ∷ 1 ∷ 44 ∷ []
unfolding to_be_bytes
to_be_bytes_300 = refl

directive_codec-IsLawful_example :
    IsLawful (DirectiveFits (λ (t : ℕ). t < 10)) (directive_codec cells)
directive_codec-IsLawful_example = directive_codec-IsLawful (λ t. t < 10) cells cells-IsLawful

abbrev nine : TaskDirective ℕ
nine = announce 9 7

read_sound_example :
    (buf1 : List ℕ) × (buf2 : List ℕ) × (cells.u8.read (0 ∷ 9 ∷ 7 ∷ 1 ∷ [])
      ≡ ok (tag_of nine, buf1))
    × (cells.varint.read buf1 ≡ ok (9, buf2))
    × Payload cells nine buf2 (1 ∷ [])
unfolding read height
read_sound_example = read_sound cells (0 ∷ 9 ∷ 7 ∷ 1 ∷ []) (1 ∷ []) nine refl

abbrev zero_digest : ℕ
zero_digest = 0

skip_digest_collision_example :
    (x : List ℕ) × (y : List ℕ) × (x ≢ y)
    × (zero_digest ≡ skip_digest (λ bs. 0) [] 1)
    × (zero_digest ≡ skip_digest (λ bs. 0) [] 1)
unfolding skip_digest
skip_digest_collision_example =
    skip_digest_collision (λ bs. 0) [] [] 1 2 (omega arith) (omega arith) (inr (omega arith)) refl
