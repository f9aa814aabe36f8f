-- ===== src/Scheme/Laws.antt =====
-- core/src/bn254/scheme.rs: what the scheme relies on of the crate's bitmap and of its fault model.
use commonware_restaking.Prelude.{ℕ, ◌-◌, ◌/◌, ◌<◌, ◌≡◌, List, length, All}
use commonware_restaking.Map.Laws.{mem}
use commonware_restaking.Scheme.{Signers}
use commonware_restaking.Scheme.Products.{Distinct}

-- A bitmap of a length holds different indices below it, and is counted by them. One that is made from
-- different indices below its length holds just those. Of `n` participants, `(n - 1) / 3` may be faulty
-- and the others are the quorum (`N3f1`).
pub record IsBitmap {B : Type 0} (bitmap : Signers B) : Type 0 where
  pub count_iter : (b : B) → bitmap.count b ≡ length (bitmap.iter b)
  pub distinct : (b : B) → Distinct (bitmap.iter b)
  pub in_range : (b : B) → All (λ i. i < bitmap.len b) (bitmap.iter b)
  pub len_from :
      (n : ℕ) (xs : List ℕ) → Distinct xs → All (λ i. i < n) xs → bitmap.len (bitmap.from n xs) ≡ n
  pub iter_from :
      (n : ℕ) (xs : List ℕ) (j : ℕ)
      → Distinct xs
      → All (λ i. i < n) xs
      → mem j (bitmap.iter (bitmap.from n xs)) ≡ mem j xs
  pub quorum_faults : (n : ℕ) → bitmap.quorum n ≡ n - (n - 1) / 3
