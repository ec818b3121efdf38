-- ===== src/Screen/Keeps/Perform.antt =====
-- screen.rs: the methods of the trait `Actions` under the screen's invariant.
use rill.Prelude.{
  ℕ, zero, suc, ◌+◌, ◌-◌, ◌*◌, ◌/◌, ◌%◌, ◌^◌, List, [], ◌∷◌, Option, none, some, min, Bool, false,
  not, ◌==◌, ◌||◌, ◌&&◌, in_range, arith, bytes_eq,
}
use rill.Parser.State.{Action, print, execute, csi, esc, osc}
use rill.Screen.State.{Screen, SavedCursor, clear_pending_wrap}
use rill.Screen.Scroll.{scroll_up, scroll_down}
use rill.Screen.Modes.{csi_n}
use rill.Screen.Dispatch.{
  repeat, first_or, cursor_target, csi_edit, csi_other, csi_move, csi_dispatch, do_csi, at_control,
  do_execute, restore_saved, do_esc, perform, perform_all,
}
use rill.Screen.Valid.{IsValid, set_cursor-IsValid, restore_cursor-IsValid}
use rill.Screen.Keeps.{
  Keeps, keep, either, scroll_up-IsValid, scroll_down-IsValid, index-IsValid, reverse_index-IsValid,
}
use rill.Screen.Keeps.Edit.{
  erase_display-IsValid, erase_line-IsValid, erase_chars-IsValid, insert_lines-IsValid,
  delete_lines-IsValid, insert_cells-IsValid, delete_cells-IsValid,
}
use rill.Screen.Keeps.Mode.{
  set_scroll_region-IsValid, private_mode-IsValid, enqueue_reply-IsValid, reply_dsr_cursor-IsValid,
}
use rill.Screen.Keeps.Text.{write_char-IsValid, column-IsValid}
use rill.Screen.Keeps.Pen.{apply_sgr-IsValid}

repeat-IsValid :
    (n : ℕ) (f : Screen → Screen) (s : Screen)
    → ((s : Screen) → IsValid s → IsValid (f s))
    → IsValid s
    → IsValid (repeat n f s)
unfolding repeat
repeat-IsValid zero f s k v = v
repeat-IsValid (suc n) f s k v = repeat-IsValid n f (f s) k (k s v)

csi_edit-Keeps :
    (s : Screen) → IsValid s → (params : List ℕ) (final : ℕ) → Keeps (csi_edit s params final)
unfolding csi_edit
csi_edit-Keeps s v params final =
    let n = csi_n params 0 1 in
    either (final == b'J') (keep (erase_display-IsValid s v (csi_n params 0 0))) (
      either (final == b'K') (keep (erase_line-IsValid s v (csi_n params 0 0))) (
        either (final == b'X') (keep (erase_chars-IsValid s v n)) (
          either (final == b'L') (keep (insert_lines-IsValid s v n)) (
            either (final == b'M') (keep (delete_lines-IsValid s v n)) (
              either (final == b'@') (keep (insert_cells-IsValid s v n)) (
                either (final == b'P') (keep (delete_cells-IsValid s v n)) (
                  either (final == b'S') (keep (repeat-IsValid n scroll_up s scroll_up-IsValid v)) (
                    either (final == b'T')
                      (keep (repeat-IsValid n scroll_down s scroll_down-IsValid v)) (keep v)))))))))

csi_other-Keeps :
    (s : Screen) → IsValid s → (params : List ℕ) (final : ℕ) → Keeps (csi_other s params final)
unfolding csi_other
csi_other-Keeps s v params final =
    either (final == b'r') (keep (set_scroll_region-IsValid s v params)) (
      either (final == b'm') (keep (apply_sgr-IsValid s v params)) (
        either (final == b'c')
          (either (first_or 0 params == 0) (keep (enqueue_reply-IsValid s v _)) (keep v))
          (either (final == b'n')
            (either (first_or 0 params == 6) (keep (reply_dsr_cursor-IsValid s v))
              (either (first_or 0 params == 5) (keep (enqueue_reply-IsValid s v _)) (keep v)))
            (csi_edit-Keeps s v params final))))

csi_move-Keeps :
    (s : Screen)
    → IsValid s
    → (params : List ℕ) (final : ℕ) (to : Option (ℕ × ℕ)) → Keeps (csi_move s params final to)
unfolding csi_move
csi_move-Keeps s v params final none = csi_other-Keeps s v params final
csi_move-Keeps s v params final (some (row, col)) = keep (set_cursor-IsValid s row col v)

do_csi-Keeps :
    (s : Screen)
    → IsValid s
    → (params intermediates : List ℕ) (ignore : Bool) (final : ℕ)
    → Keeps (do_csi s params intermediates ignore final)
unfolding do_csi csi_dispatch
do_csi-Keeps s v params intermediates ignore final = either ignore (keep v) (
    either (bytes_eq intermediates (b'?' ∷ []) && (final == b'h' || final == b'l'))
      (keep (private_mode-IsValid s v params (final == b'h')))
      (either (bytes_eq intermediates (b'>' ∷ []) && final == b'c')
        (keep (enqueue_reply-IsValid s v _))
        (either (not (bytes_eq intermediates [])) (keep v)
          (csi_move-Keeps s v params final (cursor_target s params final)))))

do_execute-Keeps : (s : Screen) → IsValid s → (byte : ℕ) → Keeps (do_execute s byte)
unfolding do_execute
do_execute-Keeps s v byte =
    either (byte == 0x08)
      (keep (column-IsValid (at_control s) v (s.cursor_col - 1) (omega (arith, v.in_col))))
      (either (byte == 0x09)
        (keep (
          column-IsValid (at_control s) v (min (((s.cursor_col / 8 + 1) * 8) % 2 ^ 16) (s.cols - 1))
            (omega (arith, v.cols_pos))))
        (either (in_range 0x0a 0x0c byte) (keep (index-IsValid (at_control s) v)) (
          either (byte == 0x0d)
            (keep (column-IsValid (at_control s) v 0 (omega (arith, v.cols_pos)))) (keep v))))

restore_saved-IsValid :
    (s : Screen) → IsValid s → (saved : Option SavedCursor) → IsValid (restore_saved s saved)
unfolding restore_saved
restore_saved-IsValid s v none = v
restore_saved-IsValid s v (some c) = restore_cursor-IsValid s c v

do_esc-Keeps :
    (s : Screen)
    → IsValid s
    → (intermediates : List ℕ) (byte : ℕ) → Keeps (do_esc s intermediates byte)
unfolding do_esc
do_esc-Keeps s v intermediates byte = either (byte == b'7') (keep v) (
    either (byte == b'8') (keep (restore_saved-IsValid s v s.saved_cursor)) (
      either (byte == b'D') (keep (index-IsValid (clear_pending_wrap s) v)) (
        either (byte == b'E')
          (keep (
            index-IsValid (record s { pending_wrap = false; cursor_col = 0 })
              (column-IsValid s v 0 (omega (arith, v.cols_pos)))))
          (either (byte == b'M') (keep (reverse_index-IsValid (clear_pending_wrap s) v)) (
            either (byte == b'=' && bytes_eq intermediates []) (keep v)
              (either (byte == b'>' && bytes_eq intermediates []) (keep v) (keep v)))))))

perform-IsValid : (s : Screen) → IsValid s → (a : Action) → IsValid (perform s a)
unfolding perform
perform-IsValid s v (print c) = write_char-IsValid s v c
perform-IsValid s v (execute byte) = (do_execute-Keeps s v byte).valid
perform-IsValid s v (csi params intermediates ignore final) =
    (do_csi-Keeps s v params intermediates ignore final).valid
perform-IsValid s v (esc intermediates byte) = (do_esc-Keeps s v intermediates byte).valid
perform-IsValid s v (osc payload) = v

-- Whatever the parser calls, in a build without overflow checks, a valid screen stays valid: a cell
-- for each column and row, on the primary and on the kept grid, the cursor and the scroll region on
-- the grid, and the replies within their buffer.
pub perform_all-IsValid :
    (s : Screen) → IsValid s → (actions : List Action) → IsValid (perform_all s actions)
unfolding perform_all
perform_all-IsValid s v [] = v
perform_all-IsValid s v (a ∷ as') = perform_all-IsValid (perform s a) (perform-IsValid s v a) as'
