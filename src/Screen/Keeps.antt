-- ===== src/Screen/Keeps.antt =====
-- screen.rs: scrolling, wide characters and erasing under the screen's invariant.
pub mod Edit
pub mod Mode
pub mod Text
pub mod Pen
pub mod Perform
pub mod Resize
use rill.Prelude.{
  branch_on, branch, length-set, length-replicate, ℕ, zero, suc, ◌+◌, ◌-◌, ◌*◌, ◌/◌, ◌%◌, ◌≤◌, ◌<◌,
  ◌≡◌, refl, sym, ap, subst, ◌∙◌, List, [], ◌∷◌, ◌++◌, Option, none, some, min, max, Bool, true,
  false, not, ◌&&◌, ◌||◌, ltb→lt, arith, ltb, leb, ◌==◌, if◌then◌else◌, length, set, length-append,
}
use rill.VtTypes.{Color}
use rill.Screen.Cell.{Cell, blank, cell_at, copy_within, fill, move_up, move_down, fill_rows}
use rill.Screen.State.{
  Screen, SavedCursor, idx, dirty, dirty_rows, set_cursor, restore_cursor, capture_cursor,
  with_cells, last_col, add16, count_up,
}
use rill.Screen.Scroll.{scroll_up, scroll_down, index, reverse_index}
use rill.Screen.Erase.{
  is_lead, is_tail, smash_tail, smash_lead, smash_wide_at, smash_span, erase_within, erase_span,
  erase_display, erase_line, erase_chars,
}
use rill.Screen.Lines.{
  insert_rows, insert_lines, delete_rows, delete_lines, insert_columns, insert_cells, smash_columns,
  close_columns, delete_cells, is_outside, rows_below, cols_right,
}
use rill.Screen.Valid.{
  IsValid, GridFits, cells-IsValid, cursor-IsValid, dirty-IsValid, dirty_rows-IsValid,
  set_cursor-IsValid, restore_cursor-IsValid, length-overwrite, length-fill, length-copy_within,
  length-move_up, length-move_down, length-fill_rows,
}

-- A valid screen, as a type of one argument, which a chain of tests is split at.
pub record Keeps (s : Screen) : Type 0 where
  pub valid : IsValid s

pub keep : {s : Screen} → IsValid s → Keeps s
keep v = record { valid = v }

pub either : (b : Bool) {x y : Screen} → Keeps x → Keeps y → Keeps (if b then x else y)
either true h k = h
either false h k = k

module _ (s : Screen) (v : IsValid s) where
  pub scroll_up-IsValid : IsValid (scroll_up s)
  unfolding scroll_up
  scroll_up-IsValid =
      let moved = move_up s.cols 1 s.scroll_top (s.scroll_bottom - s.scroll_top) s.cells in
      cells-IsValid s (fill moved (s.scroll_bottom * s.cols) s.cols (blank s.pen_bg))
        (length-fill moved (s.scroll_bottom * s.cols) s.cols (blank s.pen_bg)
          ∙ length-move_up s.cols 1 s.scroll_top (s.scroll_bottom - s.scroll_top) s.cells)
        v

  pub scroll_down-IsValid : IsValid (scroll_down s)
  unfolding scroll_down
  scroll_down-IsValid =
      let moved = move_down s.cols 1 s.scroll_top (s.scroll_bottom - s.scroll_top) s.cells in
      cells-IsValid s (fill moved (s.scroll_top * s.cols) s.cols (blank s.pen_bg))
        (length-fill moved (s.scroll_top * s.cols) s.cols (blank s.pen_bg)
          ∙ length-move_down s.cols 1 s.scroll_top (s.scroll_bottom - s.scroll_top) s.cells)
        v

  pub index-IsValid : IsValid (index s)
  unfolding index
  index-IsValid =
      branch_on (ltb s.cursor_row s.scroll_bottom) IsValid
        (λ below.
          cursor-IsValid s s.cursor_col (s.cursor_row + 1) v.in_col
            (omega (arith, ltb→lt s.cursor_row s.scroll_bottom below, v.in_bottom)) v)
        (λ _. scroll_up-IsValid)

  pub reverse_index-IsValid : IsValid (reverse_index s)
  unfolding reverse_index
  reverse_index-IsValid =
      branch (ltb s.scroll_top s.cursor_row) IsValid
        (cursor-IsValid s s.cursor_col (s.cursor_row - 1) v.in_col (omega (arith, v.in_row)) v)
        scroll_down-IsValid

  pub smash_tail-IsValid : (attrs col row : ℕ) → IsValid (smash_tail s attrs col row)
  unfolding smash_tail
  smash_tail-IsValid attrs col row =
      branch
        (is_lead attrs
          && ltb (col + 1) s.cols
          && is_tail (cell_at s.cells (idx s (col + 1) row)).attrs)
        IsValid
        (cells-IsValid s (set s.cells (idx s (col + 1) row) (blank s.pen_bg))
          (length-set s.cells (idx s (col + 1) row) (blank s.pen_bg)) v)
        v

  pub smash_lead-IsValid : (attrs col row : ℕ) → IsValid (smash_lead s attrs col row)
  unfolding smash_lead
  smash_lead-IsValid attrs col row =
      branch (is_tail attrs && ltb 0 col && is_lead (cell_at s.cells (idx s (col - 1) row)).attrs)
        IsValid
        (cells-IsValid s (set s.cells (idx s (col - 1) row) (blank s.pen_bg))
          (length-set s.cells (idx s (col - 1) row) (blank s.pen_bg)) v)
        v

pub smash_wide_at-IsValid :
    (s : Screen) (col row : ℕ) → IsValid s → IsValid (smash_wide_at s col row)
unfolding smash_wide_at
smash_wide_at-IsValid s col row v =
    let attrs = (cell_at s.cells (idx s col row)).attrs in
    branch (leb s.cols col || leb s.rows row) IsValid v (
      smash_lead-IsValid (smash_tail s attrs col row) (smash_tail-IsValid s v attrs col row) attrs
        col row)

pub smash_span-IsValid : (s : Screen) (i n : ℕ) → IsValid s → IsValid (smash_span s i n)
unfolding smash_span
smash_span-IsValid s i zero v = v
smash_span-IsValid s i (suc n) v =
    let cols = max s.cols 1 in
    smash_span-IsValid (smash_wide_at s (i % cols) (i / cols)) (i + 1) n
      (smash_wide_at-IsValid s (i % cols) (i / cols) v)

pub smash_columns-IsValid :
    (s : Screen) (col row n : ℕ) → IsValid s → IsValid (smash_columns s col row n)
unfolding smash_columns
smash_columns-IsValid s col row zero v = v
smash_columns-IsValid s col row (suc n) v =
    smash_columns-IsValid (smash_wide_at s col row) (col + 1) row n
      (smash_wide_at-IsValid s col row v)

-- cells filled over a valid screen
fill-IsValid :
    (s : Screen) (cells : List Cell) (i n : ℕ) (c : Cell)
    → length cells ≡ length s.cells
    → IsValid s
    → IsValid (with_cells s (fill cells i n c))
fill-IsValid s cells i n c e v = cells-IsValid s (fill cells i n c) (length-fill cells i n c ∙ e) v

erase_within-IsValid : (s : Screen) (from to : ℕ) → IsValid s → IsValid (erase_within s from to)
unfolding erase_within
erase_within-IsValid s from to v =
    let smashed = smash_span s from (to - from) in
    let filled =
      fill-IsValid smashed smashed.cells from (to - from) (blank s.pen_bg) refl
        (smash_span-IsValid s from (to - from) v) in
    branch (ltb from to) IsValid (dirty_rows-IsValid _ _ _ filled) filled

pub erase_span-IsValid : (s : Screen) (from to : ℕ) → IsValid s → IsValid (erase_span s from to)
unfolding erase_span
erase_span-IsValid s from to v =
    erase_within-IsValid s (min from (min to (length s.cells))) (min to (length s.cells)) v
