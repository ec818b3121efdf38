-- ===== src/Kernel/Session/Journal.antt =====
-- session.rs, `record`: the numbers of the events in the journal.
use rill.Prelude.{
  ℕ, ◌+◌, ◌-◌, ◌==◌, ◌≤◌, ◌<◌, ◌≡◌, refl, subst, min, List, [], ◌∷◌, ◌++◌, length, drop, arith,
  Bool-cases, inl, inr, ==→eq, length-append, length-drop,
}
use rill.Kernel.Session.State.{IoEvent, journal_cap, room}

-- the events behind number `n`, with no number left out
unfoldable pub Follows : ℕ → List (ℕ × IoEvent) → Type 0
Follows n [] = Unit
Follows n ((k, e) ∷ j) = (k ≡ n + 1) × Follows (n + 1) j

append-Follows :
    (n m : ℕ) (j : List (ℕ × IoEvent)) (e : IoEvent)
    → m ≡ n + length j
    → Follows n j
    → Follows n (j ++ (m + 1, e) ∷ [])
unfolding Follows
append-Follows n m [] e q v = (omega arith, tt)
append-Follows n m ((k, d) ∷ j) e q v = (v.0, append-Follows (n + 1) m j e (omega arith) v.1)

drop-Follows :
    (n : ℕ) (j : List (ℕ × IoEvent)) → 1 ≤ length j → Follows n j → Follows (n + 1) (drop 1 j)
unfolding Follows
drop-Follows n [] q v = omega arith
drop-Follows n (x ∷ j) q v = v.1

-- the journal has the last events, at most `journal_cap`, with their numbers
pub record IsNumbered (seq : ℕ) (journal : List (ℕ × IoEvent)) : Type 0 where
  pub follow : Follows (seq - length journal) journal
  pub kept : length journal ≡ min seq journal_cap

pub empty-IsNumbered : IsNumbered 0 []
unfolding Follows
empty-IsNumbered = record { follow = tt; kept = refl }

-- from the number before the first event, as `follow` states it
numbered :
    {seq n : ℕ} (j : List (ℕ × IoEvent))
    → n ≡ seq - length j
    → Follows n j
    → length j ≡ min seq journal_cap
    → IsNumbered seq j
numbered j q v k = record { follow = subst (λ n. Follows n j) q v; kept = k }

length-snoc : (j : List (ℕ × IoEvent)) (x : ℕ × IoEvent) → length (j ++ x ∷ []) ≡ length j + 1
length-snoc j x = length-append j (x ∷ [])

-- what `record_event` writes
pub record_event-IsNumbered :
    (seq : ℕ) (j : List (ℕ × IoEvent)) (e : IoEvent)
    → IsNumbered seq j
    → IsNumbered (seq + 1) (room j ++ (seq + 1, e) ∷ [])
record_event-IsNumbered seq j e v = elim (Bool-cases (length j == journal_cap)) [
  | inl full ↦
      let is_full : length j ≡ journal_cap = ==→eq (length j) journal_cap full in
      let rest : length (drop 1 j) ≡ length j - 1 = length-drop 1 j in
      let size = length-snoc (drop 1 j) (seq + 1, e) in
      let written =
        numbered {seq = seq + 1} {n = seq - length j + 1} (drop 1 j ++ (seq + 1, e) ∷ [])
          (omega (arith, v.kept))
          (append-Follows (seq - length j + 1) seq (drop 1 j) e (omega (arith, v.kept))
            (drop-Follows (seq - length j) j (omega arith) v.follow))
          (omega (arith, v.kept)) in
      rw full written
  | inr space ↦
      let size = length-snoc j (seq + 1, e) in
      let fits : length j < journal_cap = ground (arith, v.kept) in
      let written =
        numbered {seq = seq + 1} {n = seq - length j} (j ++ (seq + 1, e) ∷ [])
          (omega (arith, v.kept))
          (append-Follows (seq - length j) seq j e (omega (arith, v.kept)) v.follow)
          (omega (arith, v.kept)) in
      rw space written
]
