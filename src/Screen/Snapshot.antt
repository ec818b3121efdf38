-- ===== src/Screen/Snapshot.antt =====
-- `resize`, `snapshot`, the palette, and what the host drains.
use rill.Prelude.{
  ℕ, ◌+◌, ◌-◌, ◌*◌, ◌^◌, min, List, [], ◌∷◌, map, Option, none, some, Bool, true, false, ◌||◌, leb,
  ◌==◌, if◌then◌else◌, Result, ok, err,
}
use mathlib.Core.Option
use rill.VtTypes.{
  Color, default_color, indexed_color, rgb_color, Rgb, rgb, Palette, PodCell, PodGrid, Error, vt,
  indexed,
}
use rill.Screen.Cell.{Cell, cell_at, resize_cells}
use rill.Screen.State.{Screen, SavedCursor, idx}

abbrev pub clamp_cursor : ℕ → ℕ → SavedCursor → SavedCursor
clamp_cursor cols rows c = record c { col = min c.col (cols - 1); row = min c.row (rows - 1) }

unfoldable pub resized : Screen → ℕ → ℕ → Screen
resized s cols rows = record s {
  saved_grid = Option.map (λ grid. resize_cells grid s.cols s.rows cols rows) s.saved_grid;
  cols = cols;
  rows = rows;
  cells = resize_cells s.cells s.cols s.rows cols rows;
  cursor_col = min s.cursor_col (cols - 1);
  cursor_row = min s.cursor_row (rows - 1);
  scroll_top = 0;
  scroll_bottom = rows - 1;
  pending_wrap = false;
  full_damage = true;
  saved_cursor = Option.map (clamp_cursor cols rows) s.saved_cursor;
  alt_cursor = Option.map (clamp_cursor cols rows) s.alt_cursor;
  open_cluster = none;
}

unfoldable pub resize : Screen → ℕ → ℕ → Result Error Screen
resize s cols rows =
    if cols == 0 || rows == 0 then err (vt "empty grid") else ok (resized s cols rows)

unfoldable pub resolve : Screen → Color → Bool → Rgb
resolve s default_color fg = if fg then s.palette.foreground else s.palette.background
resolve s (indexed_color n) fg = indexed n s.palette
resolve s (rgb_color r g b) fg = rgb r g b

-- the bytes do not overlap, so `|` is the sum
unfoldable pub pack : Rgb → ℕ
pack c = c.r * 2 ^ 24 + c.g * 2 ^ 16 + c.b * 2 ^ 8 + 0xff

unfoldable pub pod_cell : Screen → Cell → PodCell
pod_cell s c = record {
  codepoint = c.codepoint;
  fg = pack (resolve s c.fg true);
  bg = pack (resolve s c.bg false);
  attrs = c.attrs;
}

unfoldable pub grid_of : Screen → PodGrid
grid_of s = record {
  cols = s.cols;
  rows = s.rows;
  cursor_col = s.cursor_col;
  cursor_row = s.cursor_row;
  cursor_visible = s.cursor_visible;
  full_damage = s.full_damage;
  damage_row0 = s.damage_row0;
  damage_row1 = s.damage_row1;
  default_fg = pack s.palette.foreground;
  default_bg = pack s.palette.background;
  grapheme_truncated = s.grapheme_truncated;
  replies_dropped = s.replies_dropped;
  cells = map (pod_cell s) s.cells;
}

-- the screen after `snapshot`, and the grid that it returns
unfoldable pub snapshot : Screen → Screen × PodGrid
snapshot s = (record s { full_damage = false; damage_row0 = 1; damage_row1 = 0 }, grid_of s)

unfoldable pub color_at : Screen → ℕ → ℕ → Option (Color × Color)
color_at s col row =
    if leb s.cols col || leb s.rows row
    then none
    else (let c = cell_at s.cells (idx s col row) in some (c.fg, c.bg))

unfoldable pub set_palette : Screen → Palette → Screen
set_palette s palette = record s { palette = palette; full_damage = true }

unfoldable pub take_replies : Screen → Screen × List ℕ
take_replies s = (record s { replies = [] }, s.replies)

unfoldable pub take_scrolled_off : Screen → Screen × List (List PodCell)
take_scrolled_off s =
    (record s { scrolled_off = [] }, map (λ row. map (pod_cell s) row) s.scrolled_off)

unfoldable pub has_replies : Screen → Bool
has_replies s = elim s.replies [ [] ↦ false | b ∷ bs ↦ true ]

unfoldable pub set_discard_replies : Screen → Bool → Screen
set_discard_replies s discard = record s { discard_replies = discard }
