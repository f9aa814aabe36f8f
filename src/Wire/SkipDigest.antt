-- ===== src/Wire/SkipDigest.antt =====
-- core/src/wire/mod.rs: what a skip digest binds.
use commonware_restaking.Prelude.{
  ℕ, ◌+◌, ◌*◌, ◌≡◌, ◌≢◌, refl, sym, ap, ◌∙◌, ◌⊎◌, inl, inr, IsU64, List, [], ◌∷◌, ◌++◌,
  append_inj_back, arith,
}
use commonware_restaking.Wire.{skip_digest_suffix, to_be_bytes, skip_preimage, skip_digest}

-- `u64::from_be_bytes`, from the bytes read so far.
from_be : ℕ → List ℕ → ℕ
from_be acc [] = acc
from_be acc (b ∷ bs) = from_be (acc * 256 + b) bs

from_be-to_be_bytes : (h : ℕ) → IsU64 h → from_be 0 (to_be_bytes h) ≡ h
unfolding from_be to_be_bytes
from_be-to_be_bytes h fits = omega arith

to_be_bytes-injective : (h i : ℕ) → IsU64 h → IsU64 i → to_be_bytes h ≡ to_be_bytes i → h ≡ i
to_be_bytes-injective h i fh fi e =
    sym (from_be-to_be_bytes h fh) ∙ ap (from_be 0) e ∙ from_be-to_be_bytes i fi

-- The bytes that are hashed determine both the namespace and the height.
pub skip_preimage-injective :
    (ns ms : List ℕ) (h i : ℕ)
    → IsU64 h
    → IsU64 i
    → skip_preimage ns h ≡ skip_preimage ms i
    → (ns ≡ ms) × (h ≡ i)
unfolding skip_preimage
skip_preimage-injective ns ms h i fh fi e =
    let (en, et) =
      append_inj_back ns ms (skip_digest_suffix ++ to_be_bytes h)
        (skip_digest_suffix ++ to_be_bytes i) refl e in
    (
      en,
      to_be_bytes-injective h i fh fi
          (append_inj_back skip_digest_suffix skip_digest_suffix (to_be_bytes h) (to_be_bytes i)
            refl et).1,
    )

-- Skip digests of two different applications or of two different heights are equal only where the
-- hash function has two different inputs with that digest: a skip certificate is replayed neither
-- across heights nor across namespaces.
pub skip_digest_collision :
    {D : Type 0} (sha256 : List ℕ → D) (ns ms : List ℕ) (h i : ℕ)
    → IsU64 h
    → IsU64 i
    → (ns ≢ ms) ⊎ (h ≢ i)
    → skip_digest sha256 ns h ≡ skip_digest sha256 ms i
    → (x : List ℕ) × (y : List ℕ) × (x ≢ y)
      × (sha256 x ≡ skip_digest sha256 ns h)
      × (sha256 y ≡ skip_digest sha256 ns h)
unfolding skip_digest
skip_digest_collision sha256 ns ms h i fh fi differ e =
    (skip_preimage ns h, skip_preimage ms i, distinct differ, refl, sym e)
  where
    distinct : (ns ≢ ms) ⊎ (h ≢ i) → skip_preimage ns h ≢ skip_preimage ms i
    distinct (inl d) p = d (skip_preimage-injective ns ms h i fh fi p).0
    distinct (inr d) p = d (skip_preimage-injective ns ms h i fh fi p).1
