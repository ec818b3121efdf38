-- ===== src/Screen/Alternate.antt =====
-- screen.rs: `enter_alt` followed by `leave_alt`.
use rill.Prelude.{
  ℕ, ◌-◌, ◌<◌, ◌≡◌, ap, ◌∙◌, none, some, min, true, false, not, if◌then◌else◌, arith,
}
use rill.Screen.State.{Screen, set_cursor, capture_cursor, restore_cursor}
use rill.Screen.Valid.{IsValid}
use rill.Screen.Modes.{
  save_primary, clear_grid, enter_alt, restore_grid, restore_alt_cursor, leave_alt,
}

min_below : (a n : ℕ) → a < n → min a (n - 1) ≡ a
min_below a n h = omega arith

-- Entering the alternate screen from the primary one with `ESC [ ? 1049 h`, and leaving it again with
-- `ESC [ ? 1049 l`, gives back the grid, the cursor with its pending wrap, and the pen; no grid and no
-- cursor stay kept, and the screen is fully damaged.
pub leave_alt-enter_alt :
    (s : Screen)
    → IsValid s
    → s.in_alt ≡ false
    → leave_alt (enter_alt s true true) true ≡ record s {
      in_alt = false;
      saved_grid = none;
      alt_cursor = none;
      full_damage = true;
      open_cluster = none;
    }
unfolding leave_alt enter_alt save_primary clear_grid set_cursor restore_grid restore_alt_cursor
    restore_cursor capture_cursor
leave_alt-enter_alt s v primary =
    let saved = record s { saved_grid = some s.cells; alt_cursor = some (capture_cursor s) } in
    ap
      (λ b.
        leave_alt
          (record (clear_grid (if not b then saved else s)) { in_alt = true; full_damage = true })
          true)
      primary
    ∙ (λ i. record s {
      in_alt = false;
      saved_grid = none;
      alt_cursor = none;
      full_damage = true;
      open_cluster = none;
      cursor_col = min_below s.cursor_col s.cols v.in_col i;
      cursor_row = min_below s.cursor_row s.rows v.in_row i;
    })
