-- ===== src/Viewport/View.antt =====
-- The size of the view of scroll.rs.
use rill.Prelude.{
  branch, ℕ, zero, suc, ◌+◌, ◌-◌, ◌*◌, ◌≡◌, refl, List, ◌++◌, Option, none, some, ◌||◌, leb, ◌==◌,
  if◌then◌else◌, length, length-append, length-take, length-replicate, get_elem?, take, replicate,
  arith,
}
use native.Mathlib.Nat.{mul-suc}
use rill.VtTypes.{PodCell, PodGrid}
use rill.Viewport.State.{blank, fit_row, paint_rows, scrolled_grid, compose_viewport}

filled_row :
    (cols : ℕ) (row : List PodCell) (c : PodCell)
    → length
        (if leb cols (length row) then take cols row else row ++ replicate (cols - length row) c)
      ≡ cols
filled_row cols row c = ground (
  arith,
  length-take cols row,
  length-append row (replicate (cols - length row) c),
  length-replicate (cols - length row) c,
)

length-fit_row : (g : PodGrid) (row : Option (List PodCell)) → length (fit_row g row) ≡ g.cols
unfolding fit_row
length-fit_row g none = length-replicate g.cols (blank g)
length-fit_row g (some row) = filled_row g.cols row (blank g)

length-paint_rows :
    (g : PodGrid) (stack : List (List PodCell)) (i n : ℕ)
    → length (paint_rows g stack i n) ≡ g.cols * n
unfolding paint_rows
length-paint_rows g stack i zero = omega arith
length-paint_rows g stack i (suc n) =
    let row = fit_row g (get_elem? stack i) in
    let rest = paint_rows g stack (i + 1) n in
    omega (
      arith,
      length-append row rest,
      length-fit_row g (get_elem? stack i),
      length-paint_rows g stack (i + 1) n,
      mul-suc g.cols n,
    )

-- Over a live grid that has a cell for each column and row, the view has one too, with the size of
-- the live grid, at any offset and over any history, whatever the widths of its rows.
pub compose_viewport-fills :
    (history : List (List PodCell)) (live : PodGrid) (offset : ℕ)
    → length live.cells ≡ live.cols * live.rows
    → ((compose_viewport history live offset).cols ≡ live.cols)
      × ((compose_viewport history live offset).rows ≡ live.rows)
      × (length (compose_viewport history live offset).cells ≡ live.cols * live.rows)
unfolding compose_viewport scrolled_grid
compose_viewport-fills history live offset h =
    branch (offset == 0 || length history == 0)
      (λ (g : PodGrid).
        (g.cols ≡ live.cols) × (g.rows ≡ live.rows) × (length g.cells ≡ live.cols * live.rows))
      (refl, refl, h) (refl, refl, length-paint_rows live _ _ live.rows)
