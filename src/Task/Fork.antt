-- ===== src/Task/Fork.antt =====
-- A fork is a prefix of the task.
use rill.Prelude.{
  ℕ, ◌≤◌, ◌<◌, ◌≡◌, inl, inr, refl, ap, false, List, [], ◌∷◌, ◌++◌, none, arith, leb, ℕ_discrete,
  if◌then◌else◌, lookup, filter, lt_or_le, le→leb, All, AllPairs, All-map,
}
use rill.Task.Section.{Section, Decision}
use rill.Task.State.{Task, fork, is_up_to, filter_keys, decision_for}
use rill.Task.Valid.{IsValid, Earlier}

abbrev pub UpTo : ℕ → Section → Type 0
UpTo cut s = s.index ≤ cut

abbrev pub Past : ℕ → Section → Type 0
Past cut s = cut < s.index

filter-Past : (cut : ℕ) (ss : List Section) → All (Past cut) ss → filter (is_up_to cut) ss ≡ []
unfolding filter
filter-Past cut [] h = refl
filter-Past cut (s ∷ ss) h = let e = filter-Past cut ss h.1 in let p = h.0 in ground arith

lt→leb : (m n : ℕ) → m < n → leb n m ≡ false
lt→leb m n h = ground arith

-- the cut of an ascending list
cut_at :
    (cut : ℕ) (ss : List Section)
    → AllPairs Earlier ss
    → (rest : List Section) × (filter (is_up_to cut) ss ++ rest ≡ ss)
      × All (UpTo cut) (filter (is_up_to cut) ss)
      × All (Past cut) rest
unfolding filter
cut_at cut [] h = ([], refl, tt, tt)
cut_at cut (s ∷ ss) h = elim (lt_or_le cut s.index) [
  | inl past ↦
      let all_past =
        All-map (λ (x : Section). s.index < x.index) (Past cut) ss (λ x k. omega arith) h.0 in
      let none_kept = filter-Past cut ss all_past in
      rw (lt→leb cut s.index past, none_kept) (s ∷ ss, refl, tt, (past, all_past))
  | inr kept ↦
      let (rest, e, up, past) = cut_at cut ss h.1 in
      rw (le→leb s.index cut kept) (rest, ap (◌∷◌ s) e, (kept, up), past)
]

lookup-filter_keys :
    (cut i : ℕ) (ds : List (ℕ × Decision))
    → lookup ℕ_discrete i (filter_keys cut ds)
      ≡ (if leb i cut then lookup ℕ_discrete i ds else none)
unfolding lookup filter_keys
lookup-filter_keys cut i [] = ground arith
lookup-filter_keys cut i ((k, d) ∷ ds) = ground (arith, lookup-filter_keys cut i ds)

-- A fork at a cut has the sections of the valid task up to the cut, in order, and none after it: they
-- are a prefix of the task's sections. It has the decisions of exactly the indexes up to the cut.
pub fork-prefix :
    (t : Task) (id cut : ℕ)
    → IsValid t
    → let f = fork t id cut in
      (rest : List Section) × (f.sections ++ rest ≡ t.sections)
      × All (UpTo cut) f.sections
      × All (Past cut) rest
      × ((i : ℕ) → decision_for f i ≡ (if leb i cut then decision_for t i else none))
unfolding fork decision_for
fork-prefix t id cut v =
    let (rest, e, up, past) = cut_at cut t.sections v.ascending in
    (rest, e, up, past, λ i. lookup-filter_keys cut i t.decisions)
