-- ===== src/Screen/Modes.antt =====
-- The alternate screen, the scroll region and the private modes.
use rill.Prelude.{
  ℕ, zero, suc, ◌-◌, ◌*◌, List, [], ◌∷◌, Option, none, some, Bool, true, false, not, ◌||◌, ltb, leb,
  ◌==◌, if◌then◌else◌, replicate,
}
use rill.Screen.Cell.{Cell, blank}
use rill.Screen.State.{Screen, SavedCursor, set_cursor, capture_cursor, restore_cursor}

unfoldable pub blank_grid : Screen → List Cell
blank_grid s = replicate (s.cols * s.rows) (blank s.pen_bg)

-- the primary screen is kept, if it is the one shown
unfoldable pub save_primary : Screen → Bool → Screen
save_primary s save_cursor =
    if not s.in_alt
    then record s {
      saved_grid = some s.cells;
      alt_cursor = if save_cursor then some (capture_cursor s) else none;
    }
    else s

unfoldable pub clear_grid : Screen → Screen
clear_grid s = set_cursor (record s { cells = blank_grid s }) 0 0

unfoldable pub enter_alt : Screen → Bool → Bool → Screen
enter_alt s save_cursor clear =
    let saved = save_primary s save_cursor in
    let cleared = if clear then clear_grid saved else saved in
    record cleared { in_alt = true; full_damage = true }

-- `if let Some(grid) = self.saved_grid.take() { self.cells = grid; }`
unfoldable pub restore_grid : Screen → Option (List Cell) → Screen
restore_grid s none = s
restore_grid s (some grid) = record s { cells = grid; saved_grid = none }

unfoldable pub restore_alt_cursor : Screen → Option SavedCursor → Screen
restore_alt_cursor s none = s
restore_alt_cursor s (some c) = restore_cursor (record s { alt_cursor = none }) c

unfoldable pub leave_alt : Screen → Bool → Screen
leave_alt s with_cursor =
    if not s.in_alt
    then s
    else (let shown = restore_grid s s.saved_grid in
        let back =
          if with_cursor
          then restore_alt_cursor shown shown.alt_cursor
          else record shown { alt_cursor = none } in
        record back { in_alt = false; full_damage = true })

-- `None | Some(0) => default, Some(n) => *n`, for the parameter of an index
unfoldable pub csi_n : List ℕ → ℕ → ℕ → ℕ
csi_n [] i default = default
csi_n (n ∷ ns) zero default = if n == 0 then default else n
csi_n (n ∷ ns) (suc i) default = csi_n ns i default

unfoldable pub set_region : Screen → ℕ → ℕ → Screen
set_region s top bot =
    if ltb top 1 || ltb s.rows bot || leb bot top
    then s
    else set_cursor (record s { scroll_top = top - 1; scroll_bottom = bot - 1 }) 0 0

unfoldable pub set_scroll_region : Screen → List ℕ → Screen
set_scroll_region s params = set_region s (csi_n params 0 1) (csi_n params 1 s.rows)

-- one parameter of `private_mode`
unfoldable pub private_mode_one : Screen → ℕ → Bool → Screen
private_mode_one s p on =
    if p == 1
    then record s { application_cursor_keys = on }
    else if p == 7
    then record s { autowrap = on }
    else if p == 25
    then record s { cursor_visible = on }
    else if p == 2004
    then record s { bracketed_paste = on }
    else if p == 1000
    then record s { mouse_x10 = on }
    else if p == 1002
    then record s { mouse_button = on }
    else if p == 1003
    then record s { mouse_any = on }
    else if p == 1004
    then record s { focus_events = on }
    else if p == 1006
    then record s { mouse_sgr = on }
    else if p == 1047
    then (if on then enter_alt s false true else leave_alt s false)
    else if p == 1049
    then (if on then enter_alt s true true else leave_alt s true)
    else s

unfoldable pub private_mode : Screen → List ℕ → Bool → Screen
private_mode s [] on = s
private_mode s (p ∷ ps) on = private_mode (private_mode_one s p on) ps on
