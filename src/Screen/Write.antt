-- ===== src/Screen/Write.antt =====
-- `write_char`: wrapping, wide characters and clusters.
use rill.Prelude.{
  ℕ, ◌+◌, ◌-◌, ◌%◌, min, Option, none, some, Bool, false, not, ◌&&◌, ◌||◌, ltb, leb, ◌==◌, in_range,
  if◌then◌else◌, set,
}
use rill.Width.Search.{is_wide, is_mark}
use rill.Screen.Cell.{Cell, cell_at}
use rill.Screen.State.{Screen, OpenCluster, idx, last_col, add16, count_up, with_cells, dirty}
use rill.Screen.Scroll.{index}
use rill.Screen.Erase.{smash_wide_at}

abbrev pub grapheme_max : ℕ
grapheme_max = 32

abbrev pub zwj : ℕ
zwj = 0x200d

unfoldable pub is_cluster_continuer : ℕ → Bool
is_cluster_continuer c =
    is_mark c || c == zwj || in_range 0xfe00 0xfe0f c || in_range 0xe0100 0xe01ef c

unfoldable pub is_regional_indicator : ℕ → Bool
is_regional_indicator c = in_range 0x1f1e6 0x1f1ff c

unfoldable pub should_append : Option OpenCluster → ℕ → Bool
should_append none c = false
should_append (some cl) c =
    is_cluster_continuer c || cl.after_zwj || (cl.last_was_ri && is_regional_indicator c)

unfoldable pub cluster_width : ℕ → ℕ
cluster_width c = if is_wide c then 2 else 1

abbrev pub remaining_cols : Screen → ℕ
remaining_cols s = s.cols - s.cursor_col

unfoldable pub wrap_if_needed_width : Screen → ℕ → Screen
wrap_if_needed_width s width =
    if not (s.pending_wrap || ltb (remaining_cols s) width)
    then s
    else if not s.autowrap
    then record s { pending_wrap = false }
    else index (record s { pending_wrap = false; cursor_col = 0 })

unfoldable pub advance_after_width : Screen → ℕ → Screen
advance_after_width s width =
    if ltb (add16 s.cursor_col width) s.cols
    then record s { cursor_col = add16 s.cursor_col width; pending_wrap = false }
    else record s { cursor_col = last_col s; pending_wrap = s.autowrap }

-- the cluster takes one more character
abbrev pub grown : OpenCluster → ℕ → OpenCluster
grown cl c = record cl {
  len = if leb grapheme_max cl.len then cl.len else min 255 (cl.len + 1);
  after_zwj = c == zwj;
  last_was_ri = is_regional_indicator c;
}

unfoldable pub append_to_cluster : Screen → OpenCluster → ℕ → Screen
append_to_cluster s cl c =
    let counted =
      if leb grapheme_max cl.len
      then record s { grapheme_truncated = count_up s.grapheme_truncated }
      else s in
    record (dirty counted cl.row) { open_cluster = some (grown cl c) }

-- the two cells of a pair of regional indicators, whose first one was written narrow
unfoldable pub widen : Screen → OpenCluster → Screen
widen s cl =
    let smashed = smash_wide_at s (cl.col + 1) cl.row in
    let lead = cell_at smashed.cells (idx s cl.col cl.row) in
    let cells =
      set (set smashed.cells (idx s cl.col cl.row) (record lead { attrs = lead.attrs % 8 + 8 }))
        (idx s (cl.col + 1) cl.row) (record lead { attrs = lead.attrs % 8 + 16 }) in
    dirty (record smashed { cells = cells; open_cluster = some (record cl { width = 2 }) }) cl.row

unfoldable pub expand_ri_pair : Screen → OpenCluster → Screen
expand_ri_pair s cl =
    if leb 2 cl.width
    then s
    else if leb s.cols (add16 cl.col 1) || not (cl.row == s.cursor_row)
    then s
    else (let wide = widen s cl in
        if leb wide.cursor_col (cl.col + 1)
        then advance_after_width (record wide { cursor_col = cl.col + 1 }) 1
        else wide)

unfoldable pub maybe_expand_ri_pair : Screen → Option OpenCluster → Screen
maybe_expand_ri_pair s none = s
maybe_expand_ri_pair s (some cl) = expand_ri_pair s cl

-- a character that continues the open cluster
unfoldable pub continue_cluster : Screen → Option OpenCluster → ℕ → Screen
continue_cluster s none c = s
continue_cluster s (some cl) c =
    let grown_screen = append_to_cluster s cl c in
    if is_regional_indicator c
    then maybe_expand_ri_pair grown_screen grown_screen.open_cluster
    else grown_screen

-- the cell of a character, with the bits of its width
abbrev pub pen_cell : Screen → ℕ → ℕ → Cell
pen_cell s c bits = record {
  codepoint = c;
  fg = s.pen_fg;
  bg = s.pen_bg;
  attrs = s.pen_attrs % 8 + bits;
}

unfoldable pub put_glyph : Screen → ℕ → ℕ → Screen
put_glyph s c width =
    let first = smash_wide_at s s.cursor_col s.cursor_row in
    let smashed =
      if width == 2 then smash_wide_at first (s.cursor_col + 1) s.cursor_row else first in
    let lead =
      set smashed.cells (idx s s.cursor_col s.cursor_row)
        (pen_cell s c (if width == 2 then 8 else 0)) in
    with_cells smashed (
      if width == 2
      then set lead (idx s (s.cursor_col + 1) s.cursor_row) (pen_cell s c 16)
      else lead)

unfoldable pub open_new_cluster : Screen → ℕ → ℕ → Screen
open_new_cluster s c width = record s {
  open_cluster = some (record {
    row = s.cursor_row;
    col = s.cursor_col;
    len = 1;
    after_zwj = c == zwj;
    last_was_ri = is_regional_indicator c;
    width = width;
  });
}

-- a character that starts a cluster, on a line where it may fit
unfoldable pub write_here : Screen → ℕ → ℕ → Screen
write_here s c width =
    if ltb s.cols width || ltb (remaining_cols s) width
    then s
    else advance_after_width (dirty (open_new_cluster (put_glyph s c width) c width) s.cursor_row)
        width

unfoldable pub write_char : Screen → ℕ → Screen
write_char s c =
    if should_append s.open_cluster c
    then continue_cluster s s.open_cluster c
    else write_here (wrap_if_needed_width s (cluster_width c)) c (cluster_width c)
