-- ===== src/Width/Order.antt =====
-- The binary search of east_asian_width.rs against membership in a range.
use rill.Prelude.{
  ℕ, zero, suc, ◌+◌, ◌-◌, ◌/◌, ◌<◌, ◌≤◌, ◌≡◌, ◌⊎◌, inl, inr, ◌↔◌, refl, sym, ap, ◌∙◌, Bool, true,
  List, [], ◌∷◌, some, lt_or_le, Option-cases, get_elem?, length, arith,
}
use rill.Width.Search.{Ordering, less, equal, greater, compare_range, search_from, contains}

-- a range of the table has the code point
pub record IsCovered (ranges : List (ℕ × ℕ)) (cp : ℕ) : Type 0 where
  pub at : ℕ
  pub range : ℕ × ℕ
  pub entry : get_elem? ranges at ≡ some range
  pub low : range.0 ≤ cp
  pub high : cp ≤ range.1

-- no range is empty, and each one ends below the start of every later one
pub record IsOrdered (ranges : List (ℕ × ℕ)) : Type 0 where
  pub proper : (i : ℕ) (a : ℕ × ℕ) → get_elem? ranges i ≡ some a → a.0 ≤ a.1
  pub apart :
      (i j : ℕ) (a b : ℕ × ℕ)
      → i < j
      → get_elem? ranges i ≡ some a
      → get_elem? ranges j ≡ some b
      → a.1 < b.0

-- what a round does with the comparison
abbrev narrowed : Ordering → Bool → Bool → Bool
narrowed less right left = right
narrowed equal right left = true
narrowed greater right left = left

pub some-injective : {a b : ℕ × ℕ} → some a ≡ some b → a ≡ b
some-injective h = cc

narrowed_cases :
    (cp : ℕ) (m : ℕ × ℕ) (right left : Bool)
    → narrowed (compare_range cp m) right left ≡ true
    → (right ≡ true) ⊎ (left ≡ true) ⊎ ((m.0 ≤ cp) × (cp ≤ m.1))
narrowed_cases cp m right left h = ground arith

narrowed_less :
    (cp : ℕ) (m : ℕ × ℕ) (right left : Bool)
    → m.1 < cp
    → narrowed (compare_range cp m) right left ≡ right
narrowed_less cp m right left h = ground arith

narrowed_greater :
    (cp : ℕ) (m : ℕ × ℕ) (right left : Bool)
    → cp ≤ m.1
    → cp < m.0
    → narrowed (compare_range cp m) right left ≡ left
narrowed_greater cp m right left h k = ground arith

narrowed_equal :
    (cp : ℕ) (m : ℕ × ℕ) (right left : Bool)
    → cp ≤ m.1
    → m.0 ≤ cp
    → narrowed (compare_range cp m) right left ≡ true
narrowed_equal cp m right left h k = ground arith

get_elem?-some :
    (ranges : List (ℕ × ℕ)) (i : ℕ)
    → i < length ranges
    → (m : ℕ × ℕ) × (get_elem? ranges i ≡ some m)
get_elem?-some [] i h = let no : ⊥ = omega (arith, h) in elim no [ ]
get_elem?-some (m ∷ ms) zero h = (m, refl)
get_elem?-some (m ∷ ms) (suc i) h = get_elem?-some ms i (omega arith)

entry_bound :
    (ranges : List (ℕ × ℕ)) (i : ℕ) {a : ℕ × ℕ} → get_elem? ranges i ≡ some a → i < length ranges
entry_bound [] i h = cc
entry_bound (r ∷ rs) zero h = omega arith
entry_bound (r ∷ rs) (suc i) h = omega (arith, entry_bound rs i h)

module _ (ranges : List (ℕ × ℕ)) (cp : ℕ) where
  search_round :
      (fuel base size : ℕ) (m : ℕ × ℕ)
      → 0 < size
      → get_elem? ranges (base + size / 2) ≡ some m
      → search_from (suc fuel) ranges cp base size
        ≡ narrowed
            (compare_range cp m)
            (search_from fuel ranges cp (base + size / 2 + 1) (size - size / 2 - 1))
            (search_from fuel ranges cp base (size / 2))
  unfolding search_from
  search_round fuel base size m pos e = ground (arith, e)

  -- a round that succeeds has a range to look at
  search_entry :
      (fuel base size : ℕ)
      → search_from (suc fuel) ranges cp base size ≡ true
      → (m : ℕ × ℕ) × (0 < size) × (get_elem? ranges (base + size / 2) ≡ some m)
  unfolding search_from
  search_entry fuel base size h = elim (Option-cases (get_elem? ranges (base + size / 2))) [
    | inl e ↦ ground (arith, e)
    | inr (m, e) ↦ (m, ground arith, e)
  ]

  search_from-IsCovered :
      (fuel base size : ℕ) → search_from fuel ranges cp base size ≡ true → IsCovered ranges cp
  unfolding search_from
  search_from-IsCovered zero base size h = cc
  search_from-IsCovered (suc fuel) base size h =
      let (m, pos, e) = search_entry fuel base size h in
      elim (narrowed_cases cp m _ _ (sym (search_round fuel base size m pos e) ∙ h)) [
        | inl right ↦ search_from-IsCovered fuel (base + size / 2 + 1) (size - size / 2 - 1) right
        | inr (inl left) ↦ search_from-IsCovered fuel base (size / 2) left
        | inr (inr (low, high)) ↦ record {
          at = base + size / 2;
          range = m;
          entry = e;
          low = low;
          high = high;
        }
      ]

  entry_unique :
      (i j : ℕ) {a b : ℕ × ℕ}
      → i ≡ j
      → get_elem? ranges i ≡ some a
      → get_elem? ranges j ≡ some b
      → a ≡ b
  entry_unique i j p e f = some-injective (sym e ∙ ap (get_elem? ranges) p ∙ f)

  -- a range that has the code point stands behind a range below it, and before one above it
  covered_right :
      {i : ℕ} {m : ℕ × ℕ}
      → IsOrdered ranges
      → (c : IsCovered ranges cp) → get_elem? ranges i ≡ some m
      → m.1 < cp
      → i < c.at
  covered_right {i} {m} o c e above = elim (lt_or_le i c.at) [
    | inl lt ↦ omega (arith, lt)
    | inr le ↦ elim (lt_or_le c.at i) [
      | inl lt ↦
          omega (arith, o.apart c.at i c.range m lt c.entry e, o.proper i m e, c.low, c.high, above)
      | inr ge ↦
          (let same : c.range ≡ m = entry_unique c.at i (omega (arith, le, ge)) c.entry e in
            omega (arith, ap (λ r. r.1) same, c.high, above))
    ]
  ]

  covered_left :
      {i : ℕ} {m : ℕ × ℕ}
      → IsOrdered ranges
      → (c : IsCovered ranges cp) → get_elem? ranges i ≡ some m
      → cp < m.0
      → c.at < i
  covered_left {i} {m} o c e below = elim (lt_or_le c.at i) [
    | inl lt ↦ lt
    | inr le ↦ elim (lt_or_le i c.at) [
      | inl lt ↦
          omega (arith, o.apart i c.at m c.range lt e c.entry, o.proper i m e, c.low, c.high, below)
      | inr ge ↦
          (let same : c.range ≡ m = entry_unique c.at i (omega (arith, le, ge)) c.entry e in
            omega (arith, ap (λ r. r.0) same, c.low, below))
    ]
  ]

  -- A range of an ordered table, in the part that is searched, is found.
  search_from-found :
      (fuel base size : ℕ) (c : IsCovered ranges cp)
      → IsOrdered ranges
      → size < fuel
      → base ≤ c.at
      → c.at < base + size
      → base + size ≤ length ranges
      → search_from fuel ranges cp base size ≡ true
  search_from-found zero base size c o f lo hi fits = ground (arith, f)
  search_from-found (suc fuel) base size c o f lo hi fits =
      let (m, e) = get_elem?-some ranges (base + size / 2) (omega arith) in
      search_round fuel base size m (omega arith) e ∙ elim (lt_or_le m.1 cp) [
        | inl above ↦
            narrowed_less cp m _ _ above
            ∙ search_from-found fuel (base + size / 2 + 1) (size - size / 2 - 1) c o (omega arith)
                (omega (arith, covered_right o c e above)) (omega arith) (omega arith)
        | inr high ↦ elim (lt_or_le cp m.0) [
          | inl below ↦
              narrowed_greater cp m _ _ high below
              ∙ search_from-found fuel base (size / 2) c o (omega arith) lo
                  (covered_left o c e below) (omega arith)
          | inr low ↦ narrowed_equal cp m _ _ high low
        ]
      ]

-- On an ordered table, the search of a code point succeeds exactly if a range of the table has it.
pub contains-IsCovered :
    (ranges : List (ℕ × ℕ)) (cp : ℕ)
    → IsOrdered ranges
    → (contains ranges cp ≡ true) ↔ IsCovered ranges cp
unfolding contains
contains-IsCovered ranges cp o = (
  search_from-IsCovered ranges cp (length ranges + 1) 0 (length ranges),
  λ c.
      search_from-found ranges cp (length ranges + 1) 0 (length ranges) c o (omega arith)
        (omega arith) (omega (arith, entry_bound ranges c.at c.entry)) (omega arith),
)
