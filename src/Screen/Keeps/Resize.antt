-- ===== src/Screen/Keeps/Resize.antt =====
-- screen.rs: `resize` under the screen's invariant.
use rill.Prelude.{
  branch, length-set, length-replicate, ℕ, zero, suc, ◌+◌, ◌*◌, ◌≤◌, ◌≡◌, refl, ◌∙◌, List, Option,
  none, some, min, ltb, arith, length,
}
use mathlib.Core.Option
use rill.VtTypes.{default_color}
use rill.Screen.Cell.{Cell, blank, cell_at, resize_row, resize_rows, resize_cells}
use rill.Screen.State.{Screen}
use rill.Screen.Snapshot.{resized}
use rill.Screen.Valid.{IsValid, GridFits}

length-resize_row :
    (old : List Cell) (src dst n c : ℕ) (next : List Cell)
    → length (resize_row old src dst n c next) ≡ length next
unfolding resize_row
length-resize_row old src dst zero c next = refl
length-resize_row old src dst (suc n) c next =
    length-resize_row old src dst n (c + 1) _
    ∙ branch (ltb (src + c) (length old)) (λ (cells : List Cell). length cells ≡ length next)
        (length-set next (dst + c) (cell_at old (src + c))) refl

length-resize_rows :
    (old : List Cell) (old_cols cols copy_cols n r : ℕ) (next : List Cell)
    → length (resize_rows old old_cols cols copy_cols n r next) ≡ length next
unfolding resize_rows
length-resize_rows old old_cols cols copy_cols zero r next = refl
length-resize_rows old old_cols cols copy_cols (suc n) r next =
    length-resize_rows old old_cols cols copy_cols n (r + 1) _
    ∙ length-resize_row old (r * old_cols) (r * cols) copy_cols 0 next

length-resize_cells :
    (old : List Cell) (old_cols old_rows cols rows : ℕ)
    → length (resize_cells old old_cols old_rows cols rows) ≡ cols * rows
unfolding resize_cells
length-resize_cells old old_cols old_rows cols rows =
    length-resize_rows old old_cols cols (min old_cols cols) (min old_rows rows) 0 _
    ∙ length-replicate (cols * rows) (blank default_color)

kept_fits :
    (grid : Option (List Cell)) (old_cols old_rows cols rows : ℕ)
    → GridFits (cols * rows) (Option.map (λ g. resize_cells g old_cols old_rows cols rows) grid)
kept_fits none old_cols old_rows cols rows = tt
kept_fits (some grid) old_cols old_rows cols rows =
    length-resize_cells grid old_cols old_rows cols rows

pub resized-IsValid :
    (s : Screen) → IsValid s → (cols rows : ℕ) → 1 ≤ cols → 1 ≤ rows → IsValid (resized s cols rows)
unfolding resized
resized-IsValid s v cols rows c r = record {
  cols_pos = c;
  rows_pos = r;
  filled = length-resize_cells s.cells s.cols s.rows cols rows;
  in_col = omega arith;
  in_row = omega arith;
  region = omega arith;
  in_bottom = omega arith;
  kept = kept_fits s.saved_grid s.cols s.rows cols rows;
  owed_cap = v.owed_cap;
  quiet = v.quiet;
}
