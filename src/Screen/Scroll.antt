-- ===== src/Screen/Scroll.antt =====
-- `index`, `reverse_index` and the scrolling of the region.
use rill.Prelude.{
  ◌+◌, ◌-◌, ◌*◌, List, [], ◌∷◌, ◌++◌, true, not, ◌&&◌, ltb, ◌==◌, if◌then◌else◌, take, drop,
}
use rill.Screen.Cell.{Cell, blank, fill, move_up, move_down}
use rill.Screen.State.{Screen}

-- the rows that leave a primary screen at its top are kept for the host
abbrev pub kept_row : Screen → List (List Cell)
kept_row s =
    if not s.in_alt && s.scroll_top == 0 && ltb 0 s.cols
    then s.scrolled_off ++ take s.cols (drop (s.scroll_top * s.cols) s.cells) ∷ []
    else s.scrolled_off

unfoldable pub scroll_up : Screen → Screen
scroll_up s = record s {
  scrolled_off = kept_row s;
  cells =
      fill (move_up s.cols 1 s.scroll_top (s.scroll_bottom - s.scroll_top) s.cells)
        (s.scroll_bottom * s.cols) s.cols (blank s.pen_bg);
  full_damage = true;
}

unfoldable pub scroll_down : Screen → Screen
scroll_down s = record s {
  cells =
      fill (move_down s.cols 1 s.scroll_top (s.scroll_bottom - s.scroll_top) s.cells)
        (s.scroll_top * s.cols) s.cols (blank s.pen_bg);
  full_damage = true;
}

unfoldable pub index : Screen → Screen
index s =
    if ltb s.cursor_row s.scroll_bottom
    then record s { cursor_row = s.cursor_row + 1 }
    else scroll_up s

unfoldable pub reverse_index : Screen → Screen
reverse_index s =
    if ltb s.scroll_top s.cursor_row
    then record s { cursor_row = s.cursor_row - 1 }
    else scroll_down s
