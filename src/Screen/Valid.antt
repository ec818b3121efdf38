-- ===== src/Screen/Valid.antt =====
-- The invariant of the screen, and the operations that keep it. It is stated of the fields that it
-- is about, so that a change of the other fields leaves it as it is.
use rill.Prelude.{
  branch, ℕ, zero, suc, ◌+◌, ◌-◌, ◌*◌, ◌≤◌, ◌<◌, ◌≡◌, refl, ap, ◌∙◌, List, [], ◌∷◌, Option, none,
  some, min, Bool, true, arith, ltb, length, take, drop, length-replicate,
}
use rill.Screen.Cell.{Cell, overwrite, copy_within, fill, move_up, move_down, fill_rows}
use rill.Screen.State.{
  Screen, SavedCursor, dirty, dirty_rows, set_cursor, restore_cursor, with_cells, fresh_screen,
}
use rill.Screen.Reply.{reply_cap}

abbrev pub GridFits : ℕ → Option (List Cell) → Type 0
GridFits size none = Unit
GridFits size (some grid) = length grid ≡ size

pub record IsShape (cols rows size col row top bottom : ℕ) (saved : Option (List Cell))
    (discard : Bool) (owed : ℕ) : Type 0 where
  pub cols_pos : 1 ≤ cols
  pub rows_pos : 1 ≤ rows
  pub filled : size ≡ cols * rows
  pub in_col : col < cols
  pub in_row : row < rows
  pub region : top ≤ bottom
  pub in_bottom : bottom < rows
  pub kept : GridFits (cols * rows) saved
  pub owed_cap : owed ≤ reply_cap
  pub quiet : discard ≡ true → owed ≡ 0

-- The grid has a cell for each column and row, so has the grid that is kept; the cursor and the
-- scroll region are on the grid; the replies fit their buffer, which is empty while they are
-- discarded.
abbrev pub IsValid : Screen → Type 0
IsValid s =
    IsShape s.cols s.rows (length s.cells) s.cursor_col s.cursor_row s.scroll_top s.scroll_bottom
      s.saved_grid s.discard_replies (length s.replies)

module _ {A : Type 0} where
  pub length-overwrite :
      (xs : List A) (i : ℕ) (ys : List A) → length (overwrite xs i ys) ≡ length xs
  unfolding overwrite
  length-overwrite [] i ys = refl
  length-overwrite (x ∷ xs) zero [] = refl
  length-overwrite (x ∷ xs) zero (y ∷ ys) = ap suc (length-overwrite xs zero ys)
  length-overwrite (x ∷ xs) (suc i) ys = ap suc (length-overwrite xs i ys)

  pub length-fill : (xs : List A) (i n : ℕ) (c : A) → length (fill xs i n c) ≡ length xs
  unfolding fill
  length-fill [] i n c = refl
  length-fill (x ∷ xs) zero zero c = refl
  length-fill (x ∷ xs) zero (suc n) c = ap suc (length-fill xs zero n c)
  length-fill (x ∷ xs) (suc i) n c = ap suc (length-fill xs i n c)

  pub length-copy_within :
      (xs : List A) (src n dst : ℕ) → length (copy_within xs src n dst) ≡ length xs
  unfolding copy_within
  length-copy_within xs src n dst = length-overwrite xs dst (take n (drop src xs))

  pub length-move_up :
      (cols n r count : ℕ) (xs : List A) → length (move_up cols n r count xs) ≡ length xs
  unfolding move_up
  length-move_up cols n r zero xs = refl
  length-move_up cols n r (suc count) xs =
      length-move_up cols n (r + 1) count (copy_within xs ((r + n) * cols) cols (r * cols))
      ∙ length-copy_within xs ((r + n) * cols) cols (r * cols)

  pub length-move_down :
      (cols n first k : ℕ) (xs : List A) → length (move_down cols n first k xs) ≡ length xs
  unfolding move_down
  length-move_down cols n first zero xs = refl
  length-move_down cols n first (suc k) xs =
      length-move_down cols n first k
        (copy_within xs ((first + k) * cols) cols ((first + k + n) * cols))
      ∙ length-copy_within xs ((first + k) * cols) cols ((first + k + n) * cols)

  pub length-fill_rows :
      (cols r count : ℕ) (c : A) (xs : List A) → length (fill_rows cols r count c xs) ≡ length xs
  unfolding fill_rows
  length-fill_rows cols r zero c xs = refl
  length-fill_rows cols r (suc count) c xs =
      length-fill_rows cols (r + 1) count c (fill xs (r * cols) cols c)
      ∙ length-fill xs (r * cols) cols c

-- other cells, as many
pub cells-IsValid :
    (s : Screen) (cells : List Cell)
    → length cells ≡ length s.cells
    → IsValid s
    → IsValid (with_cells s cells)
cells-IsValid s cells e v = record {
  cols_pos = v.cols_pos;
  rows_pos = v.rows_pos;
  filled = e ∙ v.filled;
  in_col = v.in_col;
  in_row = v.in_row;
  region = v.region;
  in_bottom = v.in_bottom;
  kept = v.kept;
  owed_cap = v.owed_cap;
  quiet = v.quiet;
}

-- another place of the cursor
pub cursor-IsValid :
    (s : Screen) (col row : ℕ)
    → col < s.cols
    → row < s.rows
    → IsValid s
    → IsValid (record s { cursor_col = col; cursor_row = row })
cursor-IsValid s col row c r v = record {
  cols_pos = v.cols_pos;
  rows_pos = v.rows_pos;
  filled = v.filled;
  in_col = c;
  in_row = r;
  region = v.region;
  in_bottom = v.in_bottom;
  kept = v.kept;
  owed_cap = v.owed_cap;
  quiet = v.quiet;
}

pub dirty-IsValid : (s : Screen) (row : ℕ) → IsValid s → IsValid (dirty s row)
unfolding dirty
dirty-IsValid s row v =
    branch s.full_damage IsValid v (branch (ltb s.damage_row1 s.damage_row0) IsValid v v)

pub dirty_rows-IsValid : (s : Screen) (row n : ℕ) → IsValid s → IsValid (dirty_rows s row n)
unfolding dirty_rows
dirty_rows-IsValid s row zero v = v
dirty_rows-IsValid s row (suc n) v =
    dirty_rows-IsValid (dirty s row) (row + 1) n (dirty-IsValid s row v)

pub set_cursor-IsValid : (s : Screen) (row col : ℕ) → IsValid s → IsValid (set_cursor s row col)
unfolding set_cursor
set_cursor-IsValid s row col v =
    cursor-IsValid s (min col (s.cols - 1)) (min row (s.rows - 1)) (omega arith) (omega arith) v

pub restore_cursor-IsValid :
    (s : Screen) (c : SavedCursor) → IsValid s → IsValid (restore_cursor s c)
unfolding restore_cursor
restore_cursor-IsValid s c v =
    cursor-IsValid s (min c.col (s.cols - 1)) (min c.row (s.rows - 1)) (omega arith) (omega arith) v

pub fresh_screen-IsValid : (cols rows : ℕ) → 1 ≤ cols → 1 ≤ rows → IsValid (fresh_screen cols rows)
unfolding fresh_screen
fresh_screen-IsValid cols rows c r = record {
  cols_pos = c;
  rows_pos = r;
  filled = length-replicate (cols * rows) _;
  in_col = c;
  in_row = r;
  region = omega arith;
  in_bottom = omega arith;
  kept = tt;
  owed_cap = omega arith;
  quiet = λ _. refl;
}
