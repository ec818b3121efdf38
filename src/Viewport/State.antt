-- ===== src/Viewport/State.antt =====
-- `ingest_scrolled`, `clamp_offset` and `compose_viewport`.
use rill.Prelude.{
  ℕ, zero, suc, ◌+◌, ◌-◌, ◌*◌, ◌%◌, ◌^◌, min, List, [], ◌∷◌, ◌++◌, Option, none, some, Bool, true,
  ◌&&◌, ◌||◌, ltb, leb, ◌==◌, if◌then◌else◌, length, get_elem?, take, drop, replicate,
}
use rill.VtTypes.{PodCell, PodGrid}

abbrev pub max_history_rows : ℕ
max_history_rows = 10000

-- `history.push(row)`, and `history.remove(0)` if there are too many
unfoldable pub push_row : List (List PodCell) → List PodCell → List (List PodCell)
push_row history row =
    let pushed = history ++ row ∷ [] in
    if ltb max_history_rows (length pushed) then drop 1 pushed else pushed

unfoldable pub ingest_scrolled : List (List PodCell) → List (List PodCell) → List (List PodCell)
ingest_scrolled history [] = history
ingest_scrolled history (row ∷ rows) = ingest_scrolled (push_row history row) rows

-- the cast of a `usize` to `u32` wraps
unfoldable pub clamp_offset : ℕ → ℕ → ℕ
clamp_offset history_len offset = min offset (history_len % 2 ^ 32)

unfoldable pub follow_live_after_input : ℕ → ℕ
follow_live_after_input offset = 0

unfoldable pub mark_full_if_viewport_jumped : PodGrid → Bool → PodGrid
mark_full_if_viewport_jumped g jumped = if jumped then record g { full_damage = true } else g

-- the rows of the live grid from `r` on that it has cells for
unfoldable pub live_rows : PodGrid → ℕ → ℕ → List (List PodCell)
live_rows g r zero = []
live_rows g r (suc n) =
    let rest = live_rows g (r + 1) n in
    if leb (r * g.cols + g.cols) (length g.cells)
    then take g.cols (drop (r * g.cols) g.cells) ∷ rest
    else rest

abbrev pub blank : PodGrid → PodCell
blank g = record { codepoint = 32; fg = g.default_fg; bg = g.default_bg; attrs = 0 }

-- a row cut or filled up to the width of the grid
unfoldable pub fit_row : PodGrid → Option (List PodCell) → List PodCell
fit_row g none = replicate g.cols (blank g)
fit_row g (some row) =
    if leb g.cols (length row)
    then take g.cols row
    else row ++ replicate (g.cols - length row) (blank g)

-- `n` rows of the stack from row `i` on
unfoldable pub paint_rows : PodGrid → List (List PodCell) → ℕ → ℕ → List PodCell
paint_rows g stack i zero = []
paint_rows g stack i (suc n) = fit_row g (get_elem? stack i) ++ paint_rows g stack (i + 1) n

unfoldable pub scrolled_grid : List (List PodCell) → PodGrid → ℕ → PodGrid
scrolled_grid history live offset =
    let stack = history ++ live_rows live 0 live.rows in
    let start = length stack - clamp_offset (length history) offset - live.rows in
    record live {
      cursor_visible = (offset == 0) && live.cursor_visible;
      full_damage = true;
      damage_row0 = 0;
      damage_row1 = live.rows - 1;
      cells = paint_rows live stack start live.rows;
    }

unfoldable pub compose_viewport : List (List PodCell) → PodGrid → ℕ → PodGrid
compose_viewport history live offset =
    if (offset == 0) || (length history == 0) then live else scrolled_grid history live offset
