-- ===== src/Ring/Tests.antt =====
-- The theorems about the ring at a concrete history.
use rill.Prelude.{ℕ, ◌++◌, ◌≡◌, ◌<◌, ◌+◌, ◌⊎◌, List, [], ◌∷◌, arith, length, take, ok, err}
use mathlib.Core.List.{flatten}
use rill.Ring.{ByteRing, new, append, deltas_after, checkpoint_evicted}
use rill.Ring.History.{Holds, new-Holds, append-Holds, append_all, append_all-deltas_after}

-- a ring of three bytes after "ab"
abbrev two : ByteRing
two = append (new 3) (b'a' ∷ b'b' ∷ [])

two-Holds : Holds (b'a' ∷ b'b' ∷ []) two
two-Holds = append-Holds (b'a' ∷ b'b' ∷ []) (new-Holds 3) (omega arith)

abbrev four : ByteRing
four = append two (b'c' ∷ b'd' ∷ [])

four-Holds : Holds (b'a' ∷ b'b' ∷ b'c' ∷ b'd' ∷ []) four
four-Holds = append-Holds (b'c' ∷ b'd' ∷ []) two-Holds (omega arith)

abbrev chunks : List (List ℕ)
chunks = (b'a' ∷ b'b' ∷ []) ∷ (b'c' ∷ b'd' ∷ []) ∷ []

append_all-deltas_after_example :
    let answer = deltas_after (append_all (new 3) chunks) 0 in
    ((bs : List ℕ) × (answer ≡ ok bs) × (take 0 (flatten chunks) ++ bs ≡ flatten chunks))
    ⊎ ((answer ≡ err checkpoint_evicted)
        × ((length (flatten chunks) < 0) ⊎ (0 + (new 3).cap < length (flatten chunks))))
unfolding flatten
append_all-deltas_after_example = append_all-deltas_after 3 0 chunks (omega arith)
