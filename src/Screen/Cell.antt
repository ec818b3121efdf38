-- ===== src/Screen/Cell.antt =====
-- screen.rs: `Cell`, and the grid as one list of cells, row after row. In the code a write past the
-- grid's end would panic; here it changes nothing.
use rill.Prelude.{
  ℕ, zero, suc, ◌+◌, ◌*◌, min, List, [], ◌∷◌, none, some, ltb, if◌then◌else◌, length, get_elem?,
  set, take, drop, replicate,
}
use rill.VtTypes.{Color, default_color}

pub record Cell : Type 0 where
  pub codepoint : ℕ
  pub fg : Color
  pub bg : Color
  pub attrs : ℕ

abbrev pub blank : Color → Cell
blank bg = record { codepoint = 32; fg = default_color; bg = bg; attrs = 0 }

-- `cells[i]`
abbrev pub cell_at : List Cell → ℕ → Cell
cell_at cells i = elim (get_elem? cells i) [ none ↦ blank default_color | some c ↦ c ]

module _ {A : Type 0} where
  -- `ys` written over the entries from `i` on
  unfoldable pub overwrite : List A → ℕ → List A → List A
  overwrite [] i ys = []
  overwrite (x ∷ xs) zero [] = x ∷ xs
  overwrite (x ∷ xs) zero (y ∷ ys) = y ∷ overwrite xs zero ys
  overwrite (x ∷ xs) (suc i) ys = x ∷ overwrite xs i ys

  -- `cells.copy_within(src..src + n, dst)`
  unfoldable pub copy_within : List A → ℕ → ℕ → ℕ → List A
  copy_within xs src n dst = overwrite xs dst (take n (drop src xs))

  -- `for cell in &mut cells[from..from + n] { *cell = c; }`
  unfoldable pub fill : List A → ℕ → ℕ → A → List A
  fill [] from n c = []
  fill (x ∷ xs) zero zero c = x ∷ xs
  fill (x ∷ xs) zero (suc n) c = c ∷ fill xs zero n c
  fill (x ∷ xs) (suc from) n c = x ∷ fill xs from n c

  -- row `r + n` copied to row `r`, for `count` rows from `r` on, in ascending order
  unfoldable pub move_up : ℕ → ℕ → ℕ → ℕ → List A → List A
  move_up cols n r zero xs = xs
  move_up cols n r (suc count) xs =
      move_up cols n (r + 1) count (copy_within xs ((r + n) * cols) cols (r * cols))

  -- row `first + k` copied to row `first + k + n`, for `k` from `count - 1` down to 0
  unfoldable pub move_down : ℕ → ℕ → ℕ → ℕ → List A → List A
  move_down cols n first zero xs = xs
  move_down cols n first (suc k) xs =
      move_down cols n first k (copy_within xs ((first + k) * cols) cols ((first + k + n) * cols))

  -- `count` rows from `r` on filled
  unfoldable pub fill_rows : ℕ → ℕ → ℕ → A → List A → List A
  fill_rows cols r zero c xs = xs
  fill_rows cols r (suc count) c xs = fill_rows cols (r + 1) count c (fill xs (r * cols) cols c)

-- the first `n` columns of one row, from the old grid to the new one
unfoldable pub resize_row : List Cell → ℕ → ℕ → ℕ → ℕ → List Cell → List Cell
resize_row old src dst zero c next = next
resize_row old src dst (suc n) c next =
    resize_row old src dst n (c + 1)
      (if ltb (src + c) (length old) then set next (dst + c) (cell_at old (src + c)) else next)

-- `n` rows from `r` on
unfoldable pub resize_rows : List Cell → ℕ → ℕ → ℕ → ℕ → ℕ → List Cell → List Cell
resize_rows old old_cols cols copy_cols zero r next = next
resize_rows old old_cols cols copy_cols (suc n) r next =
    resize_rows old old_cols cols copy_cols n (r + 1)
      (resize_row old (r * old_cols) (r * cols) copy_cols 0 next)

unfoldable pub resize_cells : List Cell → ℕ → ℕ → ℕ → ℕ → List Cell
resize_cells old old_cols old_rows cols rows =
    resize_rows old old_cols cols (min old_cols cols) (min old_rows rows) 0
      (replicate (cols * rows) (blank default_color))
