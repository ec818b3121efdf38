-- ===== src/Screen/Erase.antt =====
-- Wide characters that are half overwritten, and erasing.
use rill.Prelude.{
  ℕ, zero, suc, ◌+◌, ◌-◌, ◌/◌, ◌%◌, min, max, Bool, true, ◌&&◌, ◌||◌, ltb, leb, ◌==◌, if◌then◌else◌,
  length, set,
}
use rill.Screen.Cell.{blank, cell_at, fill}
use rill.Screen.State.{Screen, idx, with_cells, dirty_rows}

-- `attrs & ATTR_WIDE_LEAD != 0`, bit 3
abbrev pub is_lead : ℕ → Bool
is_lead attrs = attrs / 8 % 2 == 1

-- `attrs & ATTR_WIDE_TAIL != 0`, bit 4
abbrev pub is_tail : ℕ → Bool
is_tail attrs = attrs / 16 % 2 == 1

-- the tail right of a lead is blanked
unfoldable pub smash_tail : Screen → ℕ → ℕ → ℕ → Screen
smash_tail s attrs col row =
    if is_lead attrs
      && ltb (col + 1) s.cols
      && is_tail (cell_at s.cells (idx s (col + 1) row)).attrs
    then with_cells s (set s.cells (idx s (col + 1) row) (blank s.pen_bg))
    else s

-- the lead left of a tail is blanked
unfoldable pub smash_lead : Screen → ℕ → ℕ → ℕ → Screen
smash_lead s attrs col row =
    if is_tail attrs && ltb 0 col && is_lead (cell_at s.cells (idx s (col - 1) row)).attrs
    then with_cells s (set s.cells (idx s (col - 1) row) (blank s.pen_bg))
    else s

unfoldable pub smash_wide_at : Screen → ℕ → ℕ → Screen
smash_wide_at s col row =
    if leb s.cols col || leb s.rows row
    then s
    else (let attrs = (cell_at s.cells (idx s col row)).attrs in
        smash_lead (smash_tail s attrs col row) attrs col row)

-- the loop of `erase_span`: `n` cells from `i` on
unfoldable pub smash_span : Screen → ℕ → ℕ → Screen
smash_span s i zero = s
smash_span s i (suc n) =
    let cols = max s.cols 1 in smash_span (smash_wide_at s (i % cols) (i / cols)) (i + 1) n

abbrev pub dirty_span : Screen → ℕ → ℕ → Screen
dirty_span s from to =
    let cols = max s.cols 1 in
    if ltb from to then dirty_rows s (from / cols) ((to - 1) / cols + 1 - from / cols) else s

-- `erase_span` for bounds in order and in the grid
unfoldable pub erase_within : Screen → ℕ → ℕ → Screen
erase_within s from to =
    let smashed = smash_span s from (to - from) in
    dirty_span (with_cells smashed (fill smashed.cells from (to - from) (blank s.pen_bg))) from to

unfoldable pub erase_span : Screen → ℕ → ℕ → Screen
erase_span s from to = let end = min to (length s.cells) in erase_within s (min from end) end

abbrev pub cursor_idx : Screen → ℕ
cursor_idx s = idx s s.cursor_col s.cursor_row

unfoldable pub erase_display : Screen → ℕ → Screen
erase_display s mode =
    if mode == 0
    then erase_span s (cursor_idx s) (length s.cells)
    else if mode == 1
    then erase_span s 0 (cursor_idx s + 1)
    else record (erase_span s 0 (length s.cells)) { full_damage = true }

unfoldable pub erase_line : Screen → ℕ → Screen
erase_line s mode =
    let row_start = idx s 0 s.cursor_row in
    if mode == 0
    then erase_span s (cursor_idx s) (row_start + s.cols)
    else if mode == 1
    then erase_span s row_start (cursor_idx s + 1)
    else erase_span s row_start (row_start + s.cols)

unfoldable pub erase_chars : Screen → ℕ → Screen
erase_chars s n = erase_span s (cursor_idx s) (cursor_idx s + min n (s.cols - s.cursor_col))
