-- ===== src/Screen/Dispatch.antt =====
-- What the parser's actions do to the screen.
use rill.Prelude.{
  ℕ, zero, suc, ◌+◌, ◌-◌, ◌*◌, ◌/◌, ◌%◌, ◌^◌, min, List, [], ◌∷◌, Option, none, some, Bool, true,
  false, not, ◌&&◌, ◌||◌, ◌==◌, in_range, if◌then◌else◌, bytes_eq,
}
use rill.Parser.State.{Action, print, execute, csi, esc, osc}
use rill.Screen.State.{
  Screen, SavedCursor, add16, clear_pending_wrap, set_cursor, capture_cursor, restore_cursor,
}
use rill.Screen.Scroll.{index, reverse_index, scroll_up, scroll_down}
use rill.Screen.Erase.{erase_display, erase_line, erase_chars}
use rill.Screen.Lines.{insert_lines, delete_lines, insert_cells, delete_cells}
use rill.Screen.Modes.{csi_n, set_scroll_region, private_mode}
use rill.Screen.Reply.{reply_primary_da, reply_secondary_da, reply_dsr_status, reply_dsr_cursor}
use rill.Screen.Sgr.{apply_sgr}
use rill.Screen.Write.{write_char}

-- `for _ in 0..n`
unfoldable pub repeat : ℕ → (Screen → Screen) → Screen → Screen
repeat zero f s = s
repeat (suc n) f s = repeat n f (f s)

-- the first parameter, if there is one
abbrev pub first_or : ℕ → List ℕ → ℕ
first_or d [] = d
first_or d (n ∷ ns) = n

-- the finals that move the cursor; `none` is another final
unfoldable pub cursor_target : Screen → List ℕ → ℕ → Option (ℕ × ℕ)
cursor_target s params final =
    let n = csi_n params 0 1 in
    if final == b'A'
    then some (s.cursor_row - n, s.cursor_col)
    else if final == b'B'
    then some (add16 s.cursor_row n, s.cursor_col)
    else if final == b'C'
    then some (s.cursor_row, add16 s.cursor_col n)
    else if final == b'D'
    then some (s.cursor_row, s.cursor_col - n)
    else if final == b'E'
    then some (add16 s.cursor_row n, 0)
    else if final == b'F'
    then some (s.cursor_row - n, 0)
    else if final == b'G'
    then some (s.cursor_row, n - 1)
    else if final == b'H' || final == b'f'
    then some (n - 1, csi_n params 1 1 - 1)
    else if final == b'd'
    then some (n - 1, s.cursor_col)
    else none

-- the finals that edit the grid
unfoldable pub csi_edit : Screen → List ℕ → ℕ → Screen
csi_edit s params final =
    if final == b'J'
    then erase_display s (csi_n params 0 0)
    else if final == b'K'
    then erase_line s (csi_n params 0 0)
    else if final == b'X'
    then erase_chars s (csi_n params 0 1)
    else if final == b'L'
    then insert_lines s (csi_n params 0 1)
    else if final == b'M'
    then delete_lines s (csi_n params 0 1)
    else if final == b'@'
    then insert_cells s (csi_n params 0 1)
    else if final == b'P'
    then delete_cells s (csi_n params 0 1)
    else if final == b'S'
    then repeat (csi_n params 0 1) scroll_up s
    else if final == b'T'
    then repeat (csi_n params 0 1) scroll_down s
    else s

-- the finals that change modes or ask for a reply, and the others
unfoldable pub csi_other : Screen → List ℕ → ℕ → Screen
csi_other s params final =
    if final == b'r'
    then set_scroll_region s params
    else if final == b'm'
    then apply_sgr s params
    else if final == b'c'
    then (if first_or 0 params == 0 then reply_primary_da s else s)
    else if final == b'n'
    then (if first_or 0 params == 6
        then reply_dsr_cursor s
        else if first_or 0 params == 5
        then reply_dsr_status s
        else s)
    else csi_edit s params final

unfoldable pub csi_move : Screen → List ℕ → ℕ → Option (ℕ × ℕ) → Screen
csi_move s params final (some (row, col)) = set_cursor s row col
csi_move s params final none = csi_other s params final

unfoldable pub csi_dispatch : Screen → List ℕ → ℕ → Screen
csi_dispatch s params final = csi_move s params final (cursor_target s params final)

-- `Actions::csi`
unfoldable pub do_csi : Screen → List ℕ → List ℕ → Bool → ℕ → Screen
do_csi s params intermediates ignore final =
    if ignore
    then s
    else if bytes_eq intermediates (b'?' ∷ []) && (final == b'h' || final == b'l')
    then private_mode s params (final == b'h')
    else if bytes_eq intermediates (b'>' ∷ []) && final == b'c'
    then reply_secondary_da s
    else if not (bytes_eq intermediates [])
    then s
    else csi_dispatch s params final

-- the control characters end an open cluster
abbrev pub at_control : Screen → Screen
at_control s = record s { pending_wrap = false; open_cluster = none }

-- `Actions::execute`
-- `Actions::execute`; the tab stop is a `u16` sum, which wraps from column 65528 on in a build without
-- overflow checks, and panics in a build with them
unfoldable pub do_execute : Screen → ℕ → Screen
do_execute s byte =
    if byte == 0x08
    then record (at_control s) { cursor_col = s.cursor_col - 1 }
    else if byte == 0x09
    then record (at_control s) {
      cursor_col = min (((s.cursor_col / 8 + 1) * 8) % 2 ^ 16) (s.cols - 1);
    }
    else if in_range 0x0a 0x0c byte
    then index (at_control s)
    else if byte == 0x0d
    then record (at_control s) { cursor_col = 0 }
    else s

unfoldable pub restore_saved : Screen → Option SavedCursor → Screen
restore_saved s none = s
restore_saved s (some c) = restore_cursor s c

-- `Actions::esc`
unfoldable pub do_esc : Screen → List ℕ → ℕ → Screen
do_esc s intermediates byte =
    if byte == b'7'
    then record s { saved_cursor = some (capture_cursor s) }
    else if byte == b'8'
    then restore_saved s s.saved_cursor
    else if byte == b'D'
    then index (clear_pending_wrap s)
    else if byte == b'E'
    then index (record s { pending_wrap = false; cursor_col = 0 })
    else if byte == b'M'
    then reverse_index (clear_pending_wrap s)
    else if byte == b'=' && bytes_eq intermediates []
    then record s { application_keypad = true }
    else if byte == b'>' && bytes_eq intermediates []
    then record s { application_keypad = false }
    else s

-- a call of the trait; `osc` has the trait's empty body
unfoldable pub perform : Screen → Action → Screen
perform s (print c) = write_char s c
perform s (execute byte) = do_execute s byte
perform s (csi params intermediates ignore final) = do_csi s params intermediates ignore final
perform s (esc intermediates byte) = do_esc s intermediates byte
perform s (osc payload) = s

unfoldable pub perform_all : Screen → List Action → Screen
perform_all s [] = s
perform_all s (a ∷ as') = perform_all (perform s a) as'
