-- ===== src/Ring.antt =====
-- crates/rill-kernel/src/ring.rs: the bounded byte history. `VecDeque<u8>` is a list, oldest byte
-- first; `u64` additions saturate at `u64_max`. `usize` sums saturate too; a sum of two lengths in
-- memory is below that, so they are written as plain sums.
pub mod History
mod Tests
use rill.Prelude.{
  ℕ, ◌+◌, ◌-◌, ◌^◌, min, max, Bool, true, List, [], ◌∷◌, ◌++◌, ltb, leb, if◌then◌else◌, length,
  drop, Result, ok, err,
}

abbrev pub u64_max : ℕ
u64_max = 2 ^ 64 - 1

-- `u64::saturating_add`
abbrev pub saturating_add : ℕ → ℕ → ℕ
saturating_add a b = min u64_max (a + b)

pub record ByteRing : Type 0 where
  pub bytes : List ℕ
  pub cap : ℕ
  pub retained_base : ℕ
  pub end : ℕ

-- `Error::CheckpointEvicted`, the one error of this module
pub data RingError : Type 0 where
  checkpoint_evicted : RingError

unfoldable pub new : ℕ → ByteRing
new cap = record { bytes = []; cap = max cap 1; retained_base = 0; end = 0 }

-- the two ways `append` ends, for the bytes kept; `retained_base` is counted back from the end
abbrev keep : ByteRing → ℕ → List ℕ → ByteRing
keep r end' kept = record {
  bytes = kept;
  cap = r.cap;
  retained_base = end' - length kept;
  end = end';
}

append_nonempty : ByteRing → List ℕ → ByteRing
append_nonempty r bs =
    let end' = saturating_add r.end (length bs) in
    if leb r.cap (length bs)
    then keep r end' (drop (length bs - r.cap) bs)
    else keep r end' (drop (length r.bytes + length bs - r.cap) r.bytes ++ bs)

unfoldable pub append : ByteRing → List ℕ → ByteRing
unfolding append_nonempty
append r [] = r
append r (b ∷ bs) = append_nonempty r (b ∷ bs)

unfoldable pub deltas_after : ByteRing → ℕ → Result RingError (List ℕ)
deltas_after r start =
    if ltb start r.retained_base
    then err checkpoint_evicted
    else if ltb r.end start
    then err checkpoint_evicted
    else ok (drop (start - r.retained_base) r.bytes)

abbrev pub snapshot : ByteRing → List ℕ
snapshot r = r.bytes
