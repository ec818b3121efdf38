-- ===== src/Screen/Checkpoint/Hash.antt =====
-- `fnv1a64_with_zero_hash`: FNV-1a over the bytes, those of the hash itself counted as zero.
use rill.Prelude.{
  ℕ, ◌+◌, ◌*◌, ◌%◌, ◌^◌, ◌<◌, ◌≡◌, refl, List, [], ◌∷◌, ◌++◌, in_range, if◌then◌else◌, arith,
}
use Prim.Native.Nat.{bit_xor}
use rill.Attach.Bytes.{le_bytes}

abbrev pub hash_off : ℕ
hash_off = 14

abbrev pub fnv_offset : ℕ
fnv_offset = 0xcbf29ce484222325

abbrev pub fnv_prime : ℕ
fnv_prime = 0x100000001b3

unfoldable pub fnv_step : ℕ → ℕ → ℕ
fnv_step h b = (bit_xor h b * fnv_prime) % 2 ^ 64

-- the byte at index `i`
unfoldable pub hashed_byte : ℕ → ℕ → ℕ
hashed_byte i b = if in_range hash_off (hash_off + 7) i then 0 else b

-- the loop from index `i` on
unfoldable pub fnv_from : ℕ → ℕ → List ℕ → ℕ
fnv_from i h [] = h
fnv_from i h (b ∷ bytes) = fnv_from (i + 1) (fnv_step h (hashed_byte i b)) bytes

unfoldable pub fnv1a64_with_zero_hash : List ℕ → ℕ
fnv1a64_with_zero_hash bytes = fnv_from 0 fnv_offset bytes

fnv_from_bound : (i h : ℕ) (bytes : List ℕ) → h < 2 ^ 64 → fnv_from i h bytes < 2 ^ 64
unfolding fnv_from fnv_step
fnv_from_bound i h [] v = v
fnv_from_bound i h (b ∷ bytes) v =
    fnv_from_bound (i + 1) (fnv_step h (hashed_byte i b)) bytes (omega arith)

pub fnv_bound : (bytes : List ℕ) → fnv1a64_with_zero_hash bytes < 2 ^ 64
unfolding fnv1a64_with_zero_hash
fnv_bound bytes = fnv_from_bound 0 fnv_offset bytes (omega arith)

-- The bytes of the hash do not count: behind fourteen bytes, eight bytes may be any.
pub fnv_ignores_hash :
    (version off h h' : ℕ) (bytes : List ℕ)
    → fnv1a64_with_zero_hash (
        b'R'
        ∷ b'1'
        ∷ b'C'
        ∷ b'K'
        ∷ (le_bytes 2 version ++ (le_bytes 8 off ++ (le_bytes 8 h ++ bytes))))
      ≡ fnv1a64_with_zero_hash (
          b'R'
          ∷ b'1'
          ∷ b'C'
          ∷ b'K'
          ∷ (le_bytes 2 version ++ (le_bytes 8 off ++ (le_bytes 8 h' ++ bytes))))
unfolding fnv1a64_with_zero_hash fnv_from hashed_byte le_bytes
fnv_ignores_hash version off h h' bytes = refl
