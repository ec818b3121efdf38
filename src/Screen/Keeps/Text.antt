-- ===== src/Screen/Keeps/Text.antt =====
-- screen.rs: writing text under the screen's invariant.
use rill.Prelude.{
  branch_on, branch, length-set, ℕ, ◌+◌, ◌%◌, ◌≡◌, ◌<◌, ◌∙◌, List, Option, none, some, false, not,
  ltb, leb, ◌==◌, ◌||◌, arith, ltb→lt, if◌then◌else◌, length, set,
}
use rill.Screen.Cell.{Cell, cell_at}
use rill.Screen.State.{Screen, OpenCluster, idx, last_col, add16, dirty}
use rill.Screen.Erase.{smash_wide_at}
use rill.Screen.Write.{
  should_append, cluster_width, remaining_cols, is_regional_indicator, wrap_if_needed_width,
  advance_after_width, grapheme_max, append_to_cluster, widen, expand_ri_pair, maybe_expand_ri_pair,
  continue_cluster, pen_cell, put_glyph, open_new_cluster, write_here, write_char,
}
use rill.Screen.Valid.{IsValid, cells-IsValid, cursor-IsValid, dirty-IsValid}
use rill.Screen.Keeps.{index-IsValid, smash_wide_at-IsValid}

-- a cursor that is moved within its row
pub column-IsValid :
    (s : Screen) → IsValid s → (col : ℕ) → col < s.cols → IsValid (record s { cursor_col = col })
column-IsValid s v col c = cursor-IsValid s col s.cursor_row c v.in_row v

wrap_if_needed_width-IsValid :
    (s : Screen) → IsValid s → (width : ℕ) → IsValid (wrap_if_needed_width s width)
unfolding wrap_if_needed_width
wrap_if_needed_width-IsValid s v width =
    branch (not (s.pending_wrap || ltb (remaining_cols s) width)) IsValid v (
      branch (not s.autowrap) IsValid v (
        index-IsValid (record s { pending_wrap = false; cursor_col = 0 })
          (column-IsValid s v 0 (omega (arith, v.cols_pos)))))

-- from any column, since the column is set
advance_from-IsValid :
    (s : Screen)
    → IsValid s
    → (col width : ℕ) → IsValid (advance_after_width (record s { cursor_col = col }) width)
unfolding advance_after_width
advance_from-IsValid s v col width =
    branch_on (ltb (add16 col width) s.cols) IsValid
      (λ on. column-IsValid s v (add16 col width) (ltb→lt (add16 col width) s.cols on))
      (λ _. column-IsValid s v (last_col s) (omega (arith, v.cols_pos)))

append_to_cluster-IsValid :
    (s : Screen) → IsValid s → (cl : OpenCluster) (c : ℕ) → IsValid (append_to_cluster s cl c)
unfolding append_to_cluster
append_to_cluster-IsValid s v cl c =
    dirty-IsValid _ cl.row (branch (leb grapheme_max cl.len) IsValid v v)

widen-IsValid : (s : Screen) → IsValid s → (cl : OpenCluster) → IsValid (widen s cl)
unfolding widen
widen-IsValid s v cl =
    let smashed = smash_wide_at s (cl.col + 1) cl.row in
    let lead = cell_at smashed.cells (idx s cl.col cl.row) in
    let first =
      set smashed.cells (idx s cl.col cl.row) (record lead { attrs = lead.attrs % 8 + 8 }) in
    let second =
      set first (idx s (cl.col + 1) cl.row) (record lead { attrs = lead.attrs % 8 + 16 }) in
    dirty-IsValid (record smashed { cells = second; open_cluster = some (record cl { width = 2 }) })
      cl.row
      (cells-IsValid smashed second
        (length-set first (idx s (cl.col + 1) cl.row) _
          ∙ length-set smashed.cells (idx s cl.col cl.row) _)
        (smash_wide_at-IsValid s (cl.col + 1) cl.row v))

expand_ri_pair-IsValid :
    (s : Screen) → IsValid s → (cl : OpenCluster) → IsValid (expand_ri_pair s cl)
unfolding expand_ri_pair
expand_ri_pair-IsValid s v cl =
    let wide = widen s cl in
    let w = widen-IsValid s v cl in
    branch (leb 2 cl.width) IsValid v (
      branch (leb s.cols (add16 cl.col 1) || not (cl.row == s.cursor_row)) IsValid v (
        branch (leb wide.cursor_col (cl.col + 1)) IsValid
          (advance_from-IsValid wide w (cl.col + 1) 1) w))

maybe_expand_ri_pair-IsValid :
    (s : Screen) → IsValid s → (cl : Option OpenCluster) → IsValid (maybe_expand_ri_pair s cl)
unfolding maybe_expand_ri_pair
maybe_expand_ri_pair-IsValid s v none = v
maybe_expand_ri_pair-IsValid s v (some cl) = expand_ri_pair-IsValid s v cl

continue_cluster-IsValid :
    (s : Screen) → IsValid s → (cl : Option OpenCluster) (c : ℕ) → IsValid (continue_cluster s cl c)
unfolding continue_cluster
continue_cluster-IsValid s v none c = v
continue_cluster-IsValid s v (some cl) c =
    let w = append_to_cluster-IsValid s v cl c in
    branch (is_regional_indicator c) IsValid (maybe_expand_ri_pair-IsValid _ w _) w

put_glyph-IsValid : (s : Screen) → IsValid s → (c width : ℕ) → IsValid (put_glyph s c width)
unfolding put_glyph
put_glyph-IsValid s v c width =
    let first = smash_wide_at s s.cursor_col s.cursor_row in
    let w = smash_wide_at-IsValid s s.cursor_col s.cursor_row v in
    let smashed =
      if width == 2 then smash_wide_at first (s.cursor_col + 1) s.cursor_row else first in
    let lead =
      set smashed.cells (idx s s.cursor_col s.cursor_row)
        (pen_cell s c (if width == 2 then 8 else 0)) in
    let second = set lead (idx s (s.cursor_col + 1) s.cursor_row) (pen_cell s c 16) in
    let lead_length = length-set smashed.cells (idx s s.cursor_col s.cursor_row) _ in
    cells-IsValid smashed (if width == 2 then second else lead)
      (branch (width == 2) (λ (cells : List Cell). length cells ≡ length smashed.cells)
        (length-set lead (idx s (s.cursor_col + 1) s.cursor_row) _ ∙ lead_length) lead_length)
      (branch (width == 2) IsValid (smash_wide_at-IsValid first (s.cursor_col + 1) s.cursor_row w)
        w)

write_here-IsValid : (s : Screen) → IsValid s → (c width : ℕ) → IsValid (write_here s c width)
unfolding write_here open_new_cluster
write_here-IsValid s v c width =
    let written = dirty (open_new_cluster (put_glyph s c width) c width) s.cursor_row in
    branch (ltb s.cols width || ltb (remaining_cols s) width) IsValid v (
      advance_from-IsValid written
        (dirty-IsValid (open_new_cluster (put_glyph s c width) c width) s.cursor_row
          (put_glyph-IsValid s v c width))
        written.cursor_col width)

pub write_char-IsValid : (s : Screen) → IsValid s → (c : ℕ) → IsValid (write_char s c)
unfolding write_char
write_char-IsValid s v c =
    branch (should_append s.open_cluster c) IsValid (continue_cluster-IsValid s v s.open_cluster c)
      (write_here-IsValid (wrap_if_needed_width s (cluster_width c))
        (wrap_if_needed_width-IsValid s v (cluster_width c)) c (cluster_width c))
