-- ===== src/Attention/View.antt =====
-- What the views of the queue read, and what clears an entry.
use rill.Prelude.{
  ℕ, suc, ◌≤◌, ◌<◌, ◌≡◌, inl, inr, refl, sym, Bool, true, false, ◌&&◌, ◌||◌, ◌==◌, List, [], ◌∷◌,
  Option, none, some, String, arith, ltb, if◌then◌else◌, length, get_elem?, subst, lt_or_le, filter,
  count, find, modify_first, All,
}
use rill.Attention.Queue.{
  AttentionEntry, AttentionQueue, AttentionState, ViewEvent, rank, max_state, is_unread_in, rollup,
  clears, has_id, mark_read, observe_view, is_read, read_or_false, is_unread_for, badge_count,
  mailbox_entries,
}

lt→ltb : (m n : ℕ) → m < n → ltb m n ≡ true
lt→ltb m n h = ground arith

le→ltb : (m n : ℕ) → n ≤ m → ltb m n ≡ false
le→ltb m n h = ground arith

-- No entry outranks the state.
abbrev pub Outranks : AttentionState → List AttentionEntry → Type 0
Outranks s es = All (λ (e : AttentionEntry). rank e.state ≤ rank s) es

-- the highest state of a list of entries, and the entry that has it
abbrev pub IsMax : List AttentionEntry → Option AttentionState → Type 0
IsMax es none = es ≡ []
IsMax es (some s) =
    Outranks s es × ((e : AttentionEntry) × (i : ℕ) × (get_elem? es i ≡ some e) × (e.state ≡ s))

Outranks-higher :
    (s t : AttentionState) (es : List AttentionEntry)
    → rank s ≤ rank t
    → Outranks s es
    → Outranks t es
Outranks-higher s t [] le h = tt
Outranks-higher s t (e ∷ es) le h = (omega arith, Outranks-higher s t es le h.1)

max_state-IsMax : (es : List AttentionEntry) → IsMax es (max_state es)
unfolding max_state
max_state-IsMax [] = refl
max_state-IsMax (e ∷ es) = go (max_state es) (max_state-IsMax es)
  where
    go :
        (o : Option AttentionState)
        → IsMax es o
        → IsMax (e ∷ es) (elim o [
          | none ↦ some e.state
          | some s ↦ if ltb (rank s) (rank e.state) then some e.state else some s
        ])
    go none h = ((omega arith, subst (Outranks e.state) (sym h) tt), (e, 0, refl, refl))
    go (some s) (below, (x, i, g, q)) = elim (lt_or_le (rank s) (rank e.state)) [
      | inl lt ↦
          rw (lt→ltb (rank s) (rank e.state) lt)
            ((omega arith, Outranks-higher s e.state es (omega arith) below), (e, 0, refl, refl))
      | inr le ↦ rw (le→ltb (rank s) (rank e.state) le) ((omega arith, below), (x, suc i, g, q))
    ]

-- The rollup of some targets is the highest state of their unread entries: none of those entries
-- outranks it and one of them has it. There is no rollup exactly if there are no such entries.
pub rollup-IsMax :
    (q : AttentionQueue) (targets : List String)
    → IsMax (filter (is_unread_in targets) q.entries) (rollup q targets)
unfolding rollup
rollup-IsMax q targets = max_state-IsMax (filter (is_unread_in targets) q.entries)

abbrev pub is_some : Option AttentionEntry → Bool
is_some none = false
is_some (some e) = true

find-modify_first :
    (i o : ℕ) (es : List AttentionEntry)
    → read_or_false (find (has_id o) (modify_first (has_id i) mark_read es))
      ≡ (read_or_false (find (has_id o) es) || (o == i && is_some (find (has_id i) es)))
unfolding find modify_first
find-modify_first i o [] = ground arith
find-modify_first i o (e ∷ es) = ground (arith, find-modify_first i o es)

-- Only a view that is visible, on the key window and long enough reads an entry, and it reads no
-- other one: after `observe_view` an entry is read if it was, or if such a view of it was observed
-- and the queue has it.
pub is_read-observe_view :
    (q : AttentionQueue) (id other : ℕ) (view : ViewEvent)
    → is_read (observe_view q id view) other
      ≡ (is_read q other || ((other == id) && clears view && is_some (find (has_id id) q.entries)))
unfolding is_read observe_view
is_read-observe_view q id other view = ground (arith, find-modify_first id other q.entries)

count-filter : {A : Type 0} (p : A → Bool) (xs : List A) → count p xs ≡ length (filter p xs)
unfolding count filter
count-filter p [] = refl
count-filter p (x ∷ xs) = ground (arith, count-filter p xs)

-- The badge of a target counts its mailbox.
pub badge_count-mailbox_entries :
    (q : AttentionQueue) (target : String)
    → badge_count q target ≡ length (mailbox_entries q target)
unfolding badge_count mailbox_entries
badge_count-mailbox_entries q target = count-filter (is_unread_for target) q.entries
