-- ===== src/Width/Search.antt =====
-- The search of the tables.
use rill.Prelude.{
  ℕ, zero, suc, ◌+◌, ◌-◌, ◌/◌, Bool, true, false, List, none, some, ltb, ◌==◌, get_elem?, length,
  if◌then◌else◌,
}
use rill.Width.Wide.{wide_ranges}
use rill.Width.Mark.{mark_ranges}

pub data Ordering : Type 0 where
  less equal greater : Ordering

-- the comparison that `contains` hands to the search
abbrev pub compare_range : ℕ → ℕ × ℕ → Ordering
compare_range cp (lo, hi) = if ltb hi cp then less else if ltb cp lo then greater else equal

-- `binary_search_by(…).is_ok()` on `size` entries from `base` on, halving them in each round; one
-- round for each unit of fuel
unfoldable pub search_from : ℕ → List (ℕ × ℕ) → ℕ → ℕ → ℕ → Bool
search_from zero ranges cp base size = false
search_from (suc fuel) ranges cp base size = elim (size == 0) [
  | true ↦ false
  | false ↦ elim (get_elem? ranges (base + size / 2)) [
    | none ↦ false
    | some range ↦ elim (compare_range cp range) [
      | less ↦ search_from fuel ranges cp (base + size / 2 + 1) (size - size / 2 - 1)
      | equal ↦ true
      | greater ↦ search_from fuel ranges cp base (size / 2)
    ]
  ]
]

unfoldable pub contains : List (ℕ × ℕ) → ℕ → Bool
contains ranges cp = search_from (length ranges + 1) ranges cp 0 (length ranges)

unfoldable pub is_wide : ℕ → Bool
is_wide cp = contains wide_ranges cp

unfoldable pub is_mark : ℕ → Bool
is_mark cp = contains mark_ranges cp
