-- ===== src/Codec.antt =====
-- What the code relies on of the `commonware_codec` crate: a type is written to a byte buffer and
-- read back from the front of one.
use commonware_restaking.Prelude.{ℕ, ◌≡◌, List, ◌++◌, length}
use commonware_restaking.Prelude.Result.{Result, ok}

-- An implementation of `Write`, `Read` and `EncodeSize`; `E` is the crate's error type.
pub record Codec (E A : Type 0) : Type 0 where
  pub write : A → List ℕ
  pub read : List ℕ → Result E (A × List ℕ)
  pub encode_size : A → ℕ

-- The crate's contract, on the values that fit the type: what was written is read back, whatever
-- bytes follow, and its size is announced exactly.
pub record IsLawful {E A : Type 0} (Fits : A → Type 0) (c : Codec E A) : Type 0 where
  pub read_write : (a : A) (rest : List ℕ) → Fits a → c.read (c.write a ++ rest) ≡ ok (a, rest)
  pub size_write : (a : A) → Fits a → c.encode_size a ≡ length (c.write a)
