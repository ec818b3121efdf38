-- ===== src/Attach/Bytes.antt =====
-- `to_le_bytes` and `from_le_bytes`, for any width.
use rill.Prelude.{
  ℕ, zero, suc, ◌+◌, ◌*◌, ◌/◌, ◌%◌, ◌^◌, ◌<◌, ◌≡◌, refl, ap, List, [], ◌∷◌, arith, length,
}
use native.Mathlib.Nat.{pow-suc}

-- the `k` low bytes of `n`, the lowest one first
unfoldable pub le_bytes : ℕ → ℕ → List ℕ
le_bytes zero n = []
le_bytes (suc k) n = (n % 256) ∷ le_bytes k (n / 256)

unfoldable pub from_le : List ℕ → ℕ
from_le [] = 0
from_le (b ∷ bs) = b + 256 * from_le bs

pub length-le_bytes : (k n : ℕ) → length (le_bytes k n) ≡ k
unfolding le_bytes
length-le_bytes zero n = refl
length-le_bytes (suc k) n = ap suc (length-le_bytes k (n / 256))

pub from_le-le_bytes : (k n : ℕ) → n < 256 ^ k → from_le (le_bytes k n) ≡ n
unfolding from_le le_bytes
from_le-le_bytes zero n h = omega arith
from_le-le_bytes (suc k) n h =
    omega (arith, from_le-le_bytes k (n / 256) (omega (arith, pow-suc 256 k)))
