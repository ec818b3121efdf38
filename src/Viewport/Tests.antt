-- ===== src/Viewport/Tests.antt =====
-- The theorems about the view at concrete inputs.
use rill.Prelude.{ℕ, ◌++◌, ◌≡◌, List, [], ◌∷◌, true, arith}
use rill.VtTypes.{PodCell, PodGrid}
use rill.Viewport.State.{ingest_scrolled}
use rill.Viewport.History.{latest, ingest_scrolled-latest}

abbrev glyph : ℕ → PodCell
glyph c = record { codepoint = c; fg = 0; bg = 0; attrs = 0 }

-- two rows of two columns
abbrev live_grid : PodGrid
live_grid = record {
  cols = 2;
  rows = 2;
  cursor_col = 0;
  cursor_row = 1;
  cursor_visible = true;
  full_damage = true;
  damage_row0 = 0;
  damage_row1 = 1;
  default_fg = 0;
  default_bg = 0;
  grapheme_truncated = 0;
  replies_dropped = 0;
  cells = glyph b'a' ∷ glyph b'b' ∷ glyph b'c' ∷ glyph b'd' ∷ [];
}

-- a row as wide as the grid, and one that is not
abbrev old_rows : List (List PodCell)
old_rows = (glyph b'x' ∷ glyph b'y' ∷ []) ∷ (glyph b'z' ∷ []) ∷ []

ingest_scrolled-latest_example : ingest_scrolled old_rows old_rows ≡ latest (old_rows ++ old_rows)
ingest_scrolled-latest_example = ingest_scrolled-latest old_rows old_rows (omega arith)
