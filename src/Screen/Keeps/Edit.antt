-- ===== src/Screen/Keeps/Edit.antt =====
-- screen.rs: erasing, inserting and deleting under the screen's invariant.
use rill.Prelude.{branch, ℕ, ◌+◌, ◌-◌, ◌≡◌, refl, ◌∙◌, min, Bool, ltb, ◌==◌, if◌then◌else◌, length}
use rill.Screen.Cell.{Cell, blank, copy_within, fill, move_up, move_down, fill_rows}
use rill.Screen.State.{Screen, idx, dirty, with_cells}
use rill.Screen.Erase.{erase_display, erase_line, erase_chars, cursor_idx}
use rill.Screen.Lines.{
  insert_rows, insert_lines, delete_rows, delete_lines, insert_columns, insert_cells, smash_columns,
  close_columns, delete_cells, is_outside, rows_below, cols_right,
}
use rill.Screen.Valid.{
  IsValid, cells-IsValid, dirty-IsValid, dirty_rows-IsValid, length-fill, length-copy_within,
  length-move_up, length-move_down, length-fill_rows,
}
use rill.Screen.Keeps.{erase_span-IsValid, smash_columns-IsValid}

pub erase_display-IsValid : (s : Screen) → IsValid s → (mode : ℕ) → IsValid (erase_display s mode)
unfolding erase_display
erase_display-IsValid s v mode =
    branch (mode == 0) IsValid (erase_span-IsValid s (cursor_idx s) (length s.cells) v) (
      branch (mode == 1) IsValid (erase_span-IsValid s 0 (cursor_idx s + 1) v)
        (erase_span-IsValid s 0 (length s.cells) v))

pub erase_line-IsValid : (s : Screen) → IsValid s → (mode : ℕ) → IsValid (erase_line s mode)
unfolding erase_line
erase_line-IsValid s v mode =
    let row_start = idx s 0 s.cursor_row in
    branch (mode == 0) IsValid (erase_span-IsValid s (cursor_idx s) (row_start + s.cols) v) (
      branch (mode == 1) IsValid (erase_span-IsValid s row_start (cursor_idx s + 1) v)
        (erase_span-IsValid s row_start (row_start + s.cols) v))

pub erase_chars-IsValid : (s : Screen) → IsValid s → (n : ℕ) → IsValid (erase_chars s n)
unfolding erase_chars
erase_chars-IsValid s v n =
    erase_span-IsValid s (cursor_idx s) (cursor_idx s + min n (s.cols - s.cursor_col)) v

insert_rows-IsValid : (s : Screen) → IsValid s → (n : ℕ) → IsValid (insert_rows s n)
unfolding insert_rows
insert_rows-IsValid s v n =
    let count = s.scroll_bottom + 1 - (s.cursor_row + n) in
    let moved = move_down s.cols n s.cursor_row count s.cells in
    let cells = fill_rows s.cols s.cursor_row n (blank s.pen_bg) moved in
    dirty_rows-IsValid (with_cells s cells) s.cursor_row (rows_below s) (
      cells-IsValid s cells
        (length-fill_rows s.cols s.cursor_row n (blank s.pen_bg) moved
          ∙ length-move_down s.cols n s.cursor_row count s.cells)
        v)

pub insert_lines-IsValid : (s : Screen) → IsValid s → (n : ℕ) → IsValid (insert_lines s n)
unfolding insert_lines
insert_lines-IsValid s v n =
    branch (is_outside s) IsValid v (
      branch (min n (rows_below s) == 0) IsValid v (insert_rows-IsValid s v (min n (rows_below s))))

delete_rows-IsValid : (s : Screen) → IsValid s → (n : ℕ) → IsValid (delete_rows s n)
unfolding delete_rows
delete_rows-IsValid s v n =
    let count = s.scroll_bottom + 1 - (s.cursor_row + n) in
    let moved = move_up s.cols n s.cursor_row count s.cells in
    let cells = fill_rows s.cols (s.scroll_bottom + 1 - n) n (blank s.pen_bg) moved in
    dirty_rows-IsValid (with_cells s cells) s.cursor_row (rows_below s) (
      cells-IsValid s cells
        (length-fill_rows s.cols (s.scroll_bottom + 1 - n) n (blank s.pen_bg) moved
          ∙ length-move_up s.cols n s.cursor_row count s.cells)
        v)

pub delete_lines-IsValid : (s : Screen) → IsValid s → (n : ℕ) → IsValid (delete_lines s n)
unfolding delete_lines
delete_lines-IsValid s v n =
    branch (is_outside s) IsValid v (
      branch (min n (rows_below s) == 0) IsValid v (delete_rows-IsValid s v (min n (rows_below s))))

-- cells that may be shifted first, and filled
shifted-IsValid :
    (s : Screen)
    → IsValid s
    → (b : Bool) (src n dst from width row : ℕ) (c : Cell)
    → IsValid (
        dirty
          (with_cells s (fill (if b then copy_within s.cells src n dst else s.cells) from width c))
          row)
shifted-IsValid s v b src n dst from width row c =
    let moved = if b then copy_within s.cells src n dst else s.cells in
    dirty-IsValid (with_cells s (fill moved from width c)) row (
      cells-IsValid s (fill moved from width c)
        (length-fill moved from width c
          ∙ branch b (λ cells. length cells ≡ length s.cells) (length-copy_within s.cells src n dst)
              refl)
        v)

insert_columns-IsValid : (s : Screen) → IsValid s → (n : ℕ) → IsValid (insert_columns s n)
unfolding insert_columns
insert_columns-IsValid s v n =
    shifted-IsValid s v (ltb (s.cursor_col + n) s.cols) (cursor_idx s) (s.cols - n - s.cursor_col)
      (cursor_idx s + n) (cursor_idx s) n s.cursor_row (blank s.pen_bg)

pub insert_cells-IsValid : (s : Screen) → IsValid s → (n : ℕ) → IsValid (insert_cells s n)
unfolding insert_cells
insert_cells-IsValid s v n =
    branch (min n (cols_right s) == 0) IsValid v (insert_columns-IsValid s v (min n (cols_right s)))

close_columns-IsValid : (s : Screen) → IsValid s → (n : ℕ) → IsValid (close_columns s n)
unfolding close_columns
close_columns-IsValid s v n =
    shifted-IsValid s v (ltb (s.cursor_col + n) s.cols) (cursor_idx s + n)
      (s.cols - (s.cursor_col + n)) (cursor_idx s) (idx s 0 s.cursor_row + s.cols - n) n
      s.cursor_row (blank s.pen_bg)

pub delete_cells-IsValid : (s : Screen) → IsValid s → (n : ℕ) → IsValid (delete_cells s n)
unfolding delete_cells
delete_cells-IsValid s v n =
    let n' = min n (cols_right s) in
    branch (n' == 0) IsValid v (
      close_columns-IsValid (smash_columns s s.cursor_col s.cursor_row n')
        (smash_columns-IsValid s s.cursor_col s.cursor_row n' v) n')
