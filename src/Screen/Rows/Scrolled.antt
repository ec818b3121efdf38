-- ===== src/Screen/Rows/Scrolled.antt =====
-- screen.rs: `scroll_up`, cell by cell.
use rill.Prelude.{
  ℕ, ◌+◌, ◌-◌, ◌*◌, ◌<◌, ◌≤◌, ◌≡◌, inl, inr, sym, ap, ◌∙◌, Option, some, length, get_elem?,
  lt_or_le, if_taken, if_skipped, lt→ltb, le→ltb_false, ltb, if◌then◌else◌, arith,
}
use native.Mathlib.Nat.{mul_comm, mul-le-mul_right}
use rill.Screen.Cell.{Cell, blank, move_up}
use rill.Screen.State.{Screen}
use rill.Screen.Scroll.{scroll_up}
use rill.Screen.Valid.{IsValid, length-move_up}
use rill.Screen.Rows.Copy.{fill_in, fill_out}
use rill.Screen.Rows.Move.{add_mul, move_up_in, move_up_out}

-- the rows of the scroll region are in the grid
region_room :
    (s : Screen)
    → IsValid s
    → (s.scroll_top + 1 + (s.scroll_bottom - s.scroll_top)) * s.cols ≤ length s.cells
region_room s v =
    let fits : s.scroll_top + 1 + (s.scroll_bottom - s.scroll_top) ≤ s.rows =
      omega (arith, v.region, v.in_bottom) in
    omega (arith, mul-le-mul_right s.cols fits, v.filled, mul_comm s.cols s.rows)

-- the cell at index `j` once the scroll region has moved up by a row
abbrev pub moved_cell : Screen → ℕ → Option Cell
moved_cell s j =
    if ltb j (s.scroll_top * s.cols)
    then get_elem? s.cells j
    else if ltb j (s.scroll_bottom * s.cols)
    then get_elem? s.cells (j + s.cols)
    else if ltb j ((s.scroll_bottom + 1) * s.cols)
    then some (blank s.pen_bg)
    else get_elem? s.cells j

-- a choice among four by three bounds in order
by_bounds :
    {A : Type 0} (a b c j : ℕ) {x y z w r : A}
    → (j < a → r ≡ x)
    → (a ≤ j → j < b → r ≡ y)
    → (b ≤ j → j < c → r ≡ z)
    → (c ≤ j → r ≡ w)
    → a ≤ b
    → r ≡ (if ltb j a then x else if ltb j b then y else if ltb j c then z else w)
by_bounds a b c j f g h k le = elim (lt_or_le j a) [
  | inl ja ↦ f ja ∙ sym (if_taken (ltb j a) _ (lt→ltb j a ja))
  | inr aj ↦ elim (lt_or_le j b) [
    | inl jb ↦
        g aj jb
        ∙ sym (if_skipped (ltb j a) _ (le→ltb_false j a aj) ∙ if_taken (ltb j b) _ (lt→ltb j b jb))
    | inr bj ↦ elim (lt_or_le j c) [
      | inl jc ↦
          h bj jc
          ∙ sym (
              if_skipped (ltb j a) _ (le→ltb_false j a aj)
              ∙ if_skipped (ltb j b) _ (le→ltb_false j b bj)
              ∙ if_taken (ltb j c) _ (lt→ltb j c jc))
      | inr cj ↦
          k cj
          ∙ sym (
              if_skipped (ltb j a) _ (le→ltb_false j a aj)
              ∙ if_skipped (ltb j b) _ (le→ltb_false j b bj)
              ∙ if_skipped (ltb j c) _ (le→ltb_false j c cj))
    ]
  ]
]

-- Scrolling a valid screen up moves each row of the scroll region but the first to the row above,
-- blanks the last one in the background of the pen, and leaves the cells outside of the region.
pub scroll_up-moved_cell :
    (s : Screen) (j : ℕ)
    → IsValid s
    → j < s.cols * s.rows
    → get_elem? (scroll_up s).cells j ≡ moved_cell s j
unfolding scroll_up
scroll_up-moved_cell s j v on =
    let moved = move_up s.cols 1 s.scroll_top (s.scroll_bottom - s.scroll_top) s.cells in
    let same : s.scroll_top + (s.scroll_bottom - s.scroll_top) ≡ s.scroll_bottom =
      omega (arith, v.region) in
    let end = ap (λ n. n * s.cols) same in
    let above : s.scroll_top * s.cols ≤ s.scroll_bottom * s.cols =
      mul-le-mul_right s.cols v.region in
    let next = add_mul s.scroll_bottom 1 s.cols in
    let room = region_room s v in
    by_bounds (s.scroll_top * s.cols) (s.scroll_bottom * s.cols) ((s.scroll_bottom + 1) * s.cols) j
      (λ before.
        fill_out moved (s.scroll_bottom * s.cols) s.cols (blank s.pen_bg) j
          (inl (omega (arith, before, above)))
        ∙ move_up_out s.cols s.scroll_top (s.scroll_bottom - s.scroll_top) s.cells j room
            (inl before))
      (λ lo hi.
        fill_out moved (s.scroll_bottom * s.cols) s.cols (blank s.pen_bg) j (inl hi)
        ∙ move_up_in s.cols s.scroll_top (s.scroll_bottom - s.scroll_top) s.cells j room lo
            (omega (arith, hi, end)))
      (λ lo hi.
        fill_in moved (s.scroll_bottom * s.cols) s.cols (blank s.pen_bg) j lo
          (omega (arith, hi, next))
          (omega (
            arith,
            on,
            v.filled,
            length-move_up s.cols 1 s.scroll_top (s.scroll_bottom - s.scroll_top) s.cells,
          )))
      (λ behind.
        fill_out moved (s.scroll_bottom * s.cols) s.cols (blank s.pen_bg) j
          (inr (omega (arith, behind, next)))
        ∙ move_up_out s.cols s.scroll_top (s.scroll_bottom - s.scroll_top) s.cells j room
            (inr (omega (arith, behind, next, end))))
      above
