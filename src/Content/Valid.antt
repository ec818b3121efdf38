-- ===== src/Content/Valid.antt =====
-- The invariant of the timeline.
use rill.Prelude.{
  ℕ, ◌+◌, ◌≤◌, ◌<◌, ◌≡◌, ◌⊎◌, inl, inr, min, refl, sym, ap, subst, ◌∙◌, false, List, [], ◌∷◌, ◌++◌,
  map, Option, none, some, arith, bytes_eq, Result-cases, bind-eq-ok, ok, ◌>>◌, All, AllPairs,
  All-append, All-map, AllPairs-snoc,
}
use rill.Ring.{u64_max}
use rill.Content.Event.{ContentEvent, size_hint}
use rill.Content.Timeline.{
  ContentTimeline, new, has_id, Check, check_screen, check_id, check_order, store, Stored, stored,
  append,
}

-- `x` stands before `y`.
abbrev pub Before : ContentEvent → ContentEvent → Type 0
Before x y = (x.sequence < y.sequence) × (bytes_eq x.event_id y.event_id ≡ false)

abbrev pub AtMost : Option ℕ → ContentEvent → Type 0
AtMost none x = ⊥
AtMost (some last) x = x.sequence ≤ last

unfoldable pub total : List ContentEvent → ℕ
total [] = 0
total (x ∷ xs) = size_hint x + total xs

abbrev pub id_of : ContentEvent → List ℕ
id_of x = x.event_id

pub record IsSound (t : ContentTimeline) : Type 0 where
  pub pairs : AllPairs Before t.events
  pub covered : All (AtMost t.last_sequence) t.events
  pub ids_are : t.ids ≡ map id_of t.events
  pub used : t.bytes_used ≡ min u64_max (total t.events)

pub new-IsSound : IsSound new
unfolding new total
new-IsSound = record { pairs = tt; covered = tt; ids_are = refl; used = omega arith }

total-snoc :
    (xs : List ContentEvent) (e : ContentEvent) → total (xs ++ e ∷ []) ≡ total xs + size_hint e
unfolding total
total-snoc [] e = omega arith
total-snoc (x ∷ xs) e = omega (arith, total-snoc xs e)

map-snoc :
    (xs : List ContentEvent) (e : ContentEvent)
    → map id_of (xs ++ e ∷ []) ≡ map id_of xs ++ e.event_id ∷ []
map-snoc [] e = refl
map-snoc (x ∷ xs) e = ap (◌∷◌ x.event_id) (map-snoc xs e)

-- an id that is not there differs from each that is
abbrev Fresh : ContentEvent → ContentEvent → Type 0
Fresh e x = bytes_eq x.event_id e.event_id ≡ false

has_id-Fresh :
    (e : ContentEvent) (xs : List ContentEvent)
    → has_id e.event_id (map id_of xs) ≡ false
    → All (Fresh e) xs
unfolding has_id
has_id-Fresh e [] h = tt
has_id-Fresh e (x ∷ xs) h = (ground arith, has_id-Fresh e xs (ground arith))

-- the checks of `append` that an event has passed
record Passes (t : ContentTimeline) (e : ContentEvent) : Type 0 where
  id : check_id t e ≡ ok tt
  order : check_order t.last_sequence e ≡ ok tt

checks : ContentTimeline → ContentEvent → Check
checks t e = check_screen t e >> check_id t e >> check_order t.last_sequence e

checks-Passes : (t : ContentTimeline) (e : ContentEvent) → checks t e ≡ ok tt → Passes t e
unfolding checks
checks-Passes t e h =
    let (_, early, order) =
      bind-eq-ok (check_screen t e >> check_id t e) (λ _. check_order t.last_sequence e) h in
    let (_, screen, id) = bind-eq-ok (check_screen t e) (λ _. check_id t e) early in
    record { id = id; order = order }

module _ (t : ContentTimeline) (e : ContentEvent) (v : IsSound t) (c : Passes t e) where
  later : (x : ContentEvent) → AtMost t.last_sequence x → x.sequence < e.sequence
  unfolding check_order
  later x h = let o = c.order in ground arith

  events-Fresh : All (Fresh e) t.events
  unfolding check_id
  events-Fresh =
      let o = c.id in
      has_id-Fresh e t.events
        (subst (λ ids. has_id e.event_id ids ≡ false) v.ids_are (ground arith))

  store-Before :
      (xs : List ContentEvent)
      → All (AtMost t.last_sequence) xs
      → All (Fresh e) xs
      → All (λ x. Before x e) xs
  store-Before [] h k = tt
  store-Before (x ∷ xs) h k = ((later x h.0, k.0), store-Before xs h.1 k.1)

  store-IsSound : IsSound (store t e)
  unfolding store
  store-IsSound = record {
    pairs = AllPairs-snoc Before t.events e v.pairs (store-Before t.events v.covered events-Fresh);
    covered =
        All-append (AtMost (some e.sequence)) t.events (e ∷ [])
          (All-map (AtMost t.last_sequence) (AtMost (some e.sequence)) t.events
            (λ x h. let l = later x h in omega arith) v.covered)
          (omega arith, tt);
    ids_are = ap (λ l. l ++ e.event_id ∷ []) v.ids_are ∙ sym (map-snoc t.events e);
    used = omega (arith, v.used, total-snoc t.events e);
  }

-- `append` keeps a timeline sound: sequences rise, no id stands twice, and the bytes counted are the
-- sizes of the events, up to `u64::MAX`. A call that fails leaves the timeline as it was.
pub append-IsSound :
    (t : ContentTimeline) (e : ContentEvent)
    → IsSound t
    → IsSound (append t e).0 × (((append t e).1 ≡ ok tt) ⊎ ((append t e).0 ≡ t))
unfolding append checks
append-IsSound t e v = elim (Result-cases (checks t e)) [
  | inl (_, h) ↦
      subst (λ (r : Stored). IsSound r.0 × ((r.1 ≡ ok tt) ⊎ (r.0 ≡ t))) (ap (stored t e) (sym h))
        (store-IsSound t e v (checks-Passes t e h), inl refl)
  | inr (x, h) ↦
      subst (λ (r : Stored). IsSound r.0 × ((r.1 ≡ ok tt) ⊎ (r.0 ≡ t))) (ap (stored t e) (sym h))
        (v, inr refl)
]
