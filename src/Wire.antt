-- ===== src/Wire.antt =====
-- core/src/wire/mod.rs: the directives that the router broadcasts, their wire format, and the
-- digest that is signed for an abandoned height.
pub mod RoundTrip
pub mod SkipDigest
mod Tests
use commonware_restaking.Prelude.{ℕ, ◌+◌, ◌/◌, ◌%◌, ◌^◌, ◌==◌, if◌then◌else◌, List, [], ◌∷◌, ◌++◌}
use commonware_restaking.Prelude.Result.{Result, ok, err, ◌>>=◌}
use commonware_restaking.Codec.{Codec}

pub data TaskDirective {ℓ} (T : Type ℓ) : Type ℓ where
  announce : ℕ → T → TaskDirective T
  skip : ℕ → TaskDirective T
  tip_report : ℕ → TaskDirective T

abbrev pub tag_announce : ℕ
tag_announce = 0

abbrev pub tag_skip : ℕ
tag_skip = 1

abbrev pub tag_tip_report : ℕ
tag_tip_report = 2

unfoldable pub height {ℓ} : {T : Type ℓ} → TaskDirective T → ℕ
height (announce h task) = h
height (skip h) = h
height (tip_report h) = h

-- What the wire format takes from the `commonware_codec` crate, its codecs of `u8` and of
-- `UInt<u64>` and its error for an unknown tag, and the codec of the application's payload.
pub record Format (E T : Type 0) : Type 0 where
  pub invalid_enum : ℕ → E
  pub u8 : Codec E ℕ
  pub varint : Codec E ℕ
  pub task : Codec E T

module _ {E T : Type 0} (f : Format E T) where
  unfoldable pub write : TaskDirective T → List ℕ
  write (announce h t) = f.u8.write tag_announce ++ (f.varint.write h ++ f.task.write t)
  write (skip h) = f.u8.write tag_skip ++ f.varint.write h
  write (tip_report h) = f.u8.write tag_tip_report ++ f.varint.write h

  -- The `match tag` of `read_cfg`.
  read_body : ℕ → ℕ → List ℕ → Result E (TaskDirective T × List ℕ)
  read_body tag h buf =
      if tag == tag_announce
      then (do (t, rest) ← f.task.read buf; ok (announce h t, rest))
      else if tag == tag_skip
      then ok (skip h, buf)
      else if tag == tag_tip_report
      then ok (tip_report h, buf)
      else err (f.invalid_enum tag)

  unfoldable pub read : List ℕ → Result E (TaskDirective T × List ℕ)
  unfolding read_body
  read buf = do (tag, buf1) ← f.u8.read buf; (h, buf2) ← f.varint.read buf1; read_body tag h buf2

  unfoldable pub encode_size : TaskDirective T → ℕ
  unfolding height
  encode_size d =
      let tag_and_height = 1 + f.varint.encode_size (height d) in
      elim d [
        | announce h t ↦ tag_and_height + f.task.encode_size t
        | skip h ↦ tag_and_height
        | tip_report h ↦ tag_and_height
      ]

  abbrev pub directive_codec : Codec E (TaskDirective T)
  directive_codec = record { write = write; read = read; encode_size = encode_size }

-- `b"_SKIP_V1"`.
abbrev pub skip_digest_suffix : List ℕ
skip_digest_suffix = 0x5f ∷ 0x53 ∷ 0x4b ∷ 0x49 ∷ 0x50 ∷ 0x5f ∷ 0x56 ∷ 0x31 ∷ []

-- `h.to_be_bytes()` of a `u64`.
unfoldable pub to_be_bytes : ℕ → List ℕ
to_be_bytes h =
    (h / 2 ^ 56 % 256)
    ∷ (h / 2 ^ 48 % 256)
    ∷ (h / 2 ^ 40 % 256)
    ∷ (h / 2 ^ 32 % 256)
    ∷ (h / 2 ^ 24 % 256)
    ∷ (h / 2 ^ 16 % 256)
    ∷ (h / 2 ^ 8 % 256)
    ∷ (h % 256)
    ∷ []

-- What the hasher is fed: its updates, joined.
unfoldable pub skip_preimage : List ℕ → ℕ → List ℕ
unfolding to_be_bytes
skip_preimage namespace h = namespace ++ (skip_digest_suffix ++ to_be_bytes h)

-- `sha256` is the digest of all bytes that the crate's hasher was fed.
unfoldable pub skip_digest {ℓ} : {D : Type ℓ} → (List ℕ → D) → List ℕ → ℕ → D
skip_digest sha256 namespace h = sha256 (skip_preimage namespace h)
