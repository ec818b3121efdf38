-- ===== src/Screen/Lines.antt =====
-- Inserting and deleting lines and cells.
use rill.Prelude.{ℕ, zero, suc, ◌+◌, ◌-◌, min, Bool, ◌||◌, ltb, ◌==◌, if◌then◌else◌}
use rill.Screen.Cell.{blank, copy_within, fill, fill_rows, move_up, move_down}
use rill.Screen.State.{Screen, idx, with_cells, dirty, dirty_rows}
use rill.Screen.Erase.{smash_wide_at, cursor_idx}

-- the cursor is outside of the scroll region
abbrev pub is_outside : Screen → Bool
is_outside s = ltb s.cursor_row s.scroll_top || ltb s.scroll_bottom s.cursor_row

abbrev pub rows_below : Screen → ℕ
rows_below s = s.scroll_bottom - s.cursor_row + 1

unfoldable pub insert_rows : Screen → ℕ → Screen
insert_rows s n =
    let moved =
      move_down s.cols n s.cursor_row (s.scroll_bottom + 1 - (s.cursor_row + n)) s.cells in
    dirty_rows (with_cells s (fill_rows s.cols s.cursor_row n (blank s.pen_bg) moved)) s.cursor_row
      (rows_below s)

unfoldable pub insert_lines : Screen → ℕ → Screen
insert_lines s n =
    if is_outside s
    then s
    else if min n (rows_below s) == 0
    then s
    else insert_rows s (min n (rows_below s))

unfoldable pub delete_rows : Screen → ℕ → Screen
delete_rows s n =
    let moved = move_up s.cols n s.cursor_row (s.scroll_bottom + 1 - (s.cursor_row + n)) s.cells in
    dirty_rows (with_cells s (fill_rows s.cols (s.scroll_bottom + 1 - n) n (blank s.pen_bg) moved))
      s.cursor_row (rows_below s)

unfoldable pub delete_lines : Screen → ℕ → Screen
delete_lines s n =
    if is_outside s
    then s
    else if min n (rows_below s) == 0
    then s
    else delete_rows s (min n (rows_below s))

abbrev pub cols_right : Screen → ℕ
cols_right s = s.cols - s.cursor_col

unfoldable pub insert_columns : Screen → ℕ → Screen
insert_columns s n =
    let moved =
      if ltb (s.cursor_col + n) s.cols
      then copy_within s.cells (cursor_idx s) (s.cols - n - s.cursor_col) (cursor_idx s + n)
      else s.cells in
    dirty (with_cells s (fill moved (cursor_idx s) n (blank s.pen_bg))) s.cursor_row

unfoldable pub insert_cells : Screen → ℕ → Screen
insert_cells s n = if min n (cols_right s) == 0 then s else insert_columns s (min n (cols_right s))

-- `for c in col..col + n { self.smash_wide_at(c, row); }`
unfoldable pub smash_columns : Screen → ℕ → ℕ → ℕ → Screen
smash_columns s col row zero = s
smash_columns s col row (suc n) = smash_columns (smash_wide_at s col row) (col + 1) row n

unfoldable pub close_columns : Screen → ℕ → Screen
close_columns s n =
    let row_start = idx s 0 s.cursor_row in
    let moved =
      if ltb (s.cursor_col + n) s.cols
      then copy_within s.cells (cursor_idx s + n) (s.cols - (s.cursor_col + n)) (cursor_idx s)
      else s.cells in
    dirty (with_cells s (fill moved (row_start + s.cols - n) n (blank s.pen_bg))) s.cursor_row

unfoldable pub delete_cells : Screen → ℕ → Screen
delete_cells s n =
    let n' = min n (cols_right s) in
    if n' == 0 then s else close_columns (smash_columns s s.cursor_col s.cursor_row n') n'
