-- ===== src/Attention/Overflow.antt =====
-- What the overflow rule of `enqueue` drops.
use rill.Prelude.{
  ℕ, suc, ◌+◌, ◌≤◌, ◌≡◌, ◌≢◌, ◌⊎◌, inl, refl, ◌∙◌, subst, append-nil, string_discrete, count-append,
  Bool, true, false, List, [], ◌∷◌, ◌++◌, String, string_discrete, subst, arith, filter, count,
  remove_first, filter-append, count-append,
}
use rill.Attention.Queue.{
  AttentionEntry, AttentionQueue, AttentionState, is_actionable, new, is_for, is_droppable,
  new_entry, drop_overflow, enqueue,
}

module _ {A : Type 0} (p r : A → Bool) where
  -- an entry that fails the second test may go
  filter-remove_first :
      ((x : A) → p x ≡ true → r x ≡ false)
      → (xs : List A) → filter r (remove_first p xs) ≡ filter r xs
  unfolding filter remove_first
  filter-remove_first h [] = refl
  filter-remove_first h (x ∷ xs) = ground (arith, h x, filter-remove_first h xs)

  -- one entry goes, if there is one
  count-remove_first :
      ((x : A) → p x ≡ true → r x ≡ true)
      → (xs : List A) → (count p xs ≡ 0) ⊎ (count r xs ≡ suc (count r (remove_first p xs)))
  unfolding count remove_first
  count-remove_first h [] = inl refl
  count-remove_first h (x ∷ xs) = ground (arith, h x, count-remove_first h xs)

  count_le : ((x : A) → p x ≡ true → r x ≡ true) → (xs : List A) → count p xs ≤ count r xs
  unfolding count
  count_le h [] = omega arith
  count_le h (x ∷ xs) = ground (arith, h x, count_le h xs)

count-remove_first_le :
    {A : Type 0} (p r : A → Bool) (xs : List A) → count r (remove_first p xs) ≤ count r xs
unfolding count remove_first
count-remove_first_le p r [] = omega arith
count-remove_first_le p r (x ∷ xs) = ground (arith, count-remove_first_le p r xs)

-- what `enqueue` adds
abbrev pub pushed : AttentionQueue → String → AttentionState → String → ℕ → List AttentionEntry
pushed q target state origin at = q.entries ++ new_entry q target state origin at ∷ []

abbrev pub actionable : AttentionEntry → Bool
actionable e = is_actionable e.state

droppable_not_actionable :
    (t : String) (e : AttentionEntry) → is_droppable t e ≡ true → actionable e ≡ false
droppable_not_actionable t e h = ground arith

droppable_for : (t : String) (e : AttentionEntry) → is_droppable t e ≡ true → is_for t e ≡ true
droppable_for t e h = ground arith

for_other : (s t : String) (e : AttentionEntry) → s ≢ t → is_for t e ≡ true → is_for s e ≡ false
for_other s t e n h = ground arith

drop_overflow-filter :
    (r : AttentionEntry → Bool) (cap : ℕ) (t : String) (es : List AttentionEntry)
    → ((e : AttentionEntry) → is_droppable t e ≡ true → r e ≡ false)
    → filter r (drop_overflow cap t es) ≡ filter r es
unfolding drop_overflow
drop_overflow-filter r cap t es h = ground (arith, filter-remove_first (is_droppable t) r h es)

drop_overflow-count :
    (r : AttentionEntry → Bool) (cap : ℕ) (t : String) (es : List AttentionEntry)
    → count r (drop_overflow cap t es) ≤ count r es
unfolding drop_overflow
drop_overflow-count r cap t es = ground (arith, count-remove_first_le (is_droppable t) r es)

-- The target has at most as many entries as the cap allows, or all its entries are actionable.
abbrev pub Fits : ℕ → String → List AttentionEntry → Type 0
Fits cap t es = (count (is_for t) es ≤ cap) ⊎ (count (is_droppable t) es ≡ 0)

abbrev pub IsBounded : AttentionQueue → Type 0
IsBounded q = (t : String) → Fits q.cap_per_target t q.entries

drop_overflow-Fits :
    (cap : ℕ) (t : String) (es : List AttentionEntry)
    → (count (is_for t) es ≤ cap + 1) ⊎ (count (is_droppable t) es ≤ 1)
    → Fits cap t (drop_overflow cap t es)
unfolding drop_overflow
drop_overflow-Fits cap t es h = ground (
  arith,
  count-remove_first (is_droppable t) (is_for t) (droppable_for t) es,
  count-remove_first (is_droppable t) (is_droppable t) (λ e k. k) es,
  count-remove_first_le (is_droppable t) (is_droppable t) es,
)

-- An actionable entry is never dropped for capacity: the actionable entries after `enqueue` are
-- those before it, with the new one if it is actionable, in order. The entries of another target
-- are those before it.
pub enqueue-filter :
    (q : AttentionQueue) (target other : String) (state : AttentionState) (origin : String) (at : ℕ)
    → other ≢ target
    → let after = (enqueue q target state origin at).0.entries in
      (filter actionable after ≡ filter actionable (pushed q target state origin at))
      × (filter (is_for other) after ≡ filter (is_for other) q.entries)
unfolding enqueue filter
enqueue-filter q target other state origin at n =
    let e = new_entry q target state origin at in
    (
      drop_overflow-filter actionable q.cap_per_target target (q.entries ++ e ∷ [])
          (droppable_not_actionable target),
      drop_overflow-filter (is_for other) q.cap_per_target target (q.entries ++ e ∷ [])
            (λ x h. for_other other target x n (droppable_for target x h))
          ∙ filter-append (is_for other) q.entries (e ∷ [])
          ∙ ground (arith, append-nil (filter (is_for other) q.entries)),
    )

pub new-IsBounded : (cap : ℕ) → IsBounded (new cap)
unfolding new count
new-IsBounded cap t = inl (omega arith)

-- A queue in which every target has at most as many entries as the cap, or only actionable ones, is
-- one again after `enqueue`.
pub enqueue-IsBounded :
    (q : AttentionQueue) (target : String) (state : AttentionState) (origin : String) (at : ℕ)
    → IsBounded q
    → IsBounded (enqueue q target state origin at).0
unfolding enqueue count
enqueue-IsBounded q target state origin at v t =
    let e = new_entry q target state origin at in
    let es = q.entries ++ e ∷ [] in
    elim (string_discrete target t) [
      | yes same ↦
          subst (λ s. Fits q.cap_per_target s (drop_overflow q.cap_per_target target es)) same
            (drop_overflow-Fits q.cap_per_target target es (
              ground (
                arith,
                v target,
                count-append (is_for target) q.entries (e ∷ []),
                count-append (is_droppable target) q.entries (e ∷ []),
              )))
      | no other ↦ ground (
        arith,
        v t,
        drop_overflow-count (is_for t) q.cap_per_target target es,
        drop_overflow-count (is_droppable t) q.cap_per_target target es,
        count-append (is_for t) q.entries (e ∷ []),
        count-append (is_droppable t) q.entries (e ∷ []),
      )
    ]
