-- ===== src/Screen/Tests.antt =====
-- The theorems about the screen at concrete inputs, and runs that can be followed in screen.rs.
use rill.Prelude.{◌≡◌, refl, ◌<◌, List, [], ◌∷◌, none, true, get_elem?, ◌*◌, false, arith, ok}
use rill.Parser.State.{Action, print, execute, csi}
use rill.VtTypes.{vt_default, default_color}
use rill.Screen.Cell.{blank}
use rill.Screen.State.{Screen, fresh_screen}
use rill.Screen.Valid.{IsValid, fresh_screen-IsValid}
use rill.Screen.Modes.{enter_alt, leave_alt}
use rill.Screen.Alternate.{leave_alt-enter_alt}
use rill.Screen.Scroll.{scroll_up}
use rill.Screen.Rows.Scrolled.{moved_cell, scroll_up-moved_cell}
use rill.Screen.Dispatch.{perform_all}
use rill.Screen.Keeps.Perform.{perform_all-IsValid}
use rill.Screen.Checkpoint.Image.{export_checkpoint, import_checkpoint}
use rill.Screen.Checkpoint.Reads.{CellFits}
use rill.Screen.Checkpoint.RoundTrip.{IsStorable, reopened, import_checkpoint-export_checkpoint}

abbrev small : Screen
small = fresh_screen 4 2

small-IsValid : IsValid small
small-IsValid = fresh_screen-IsValid 4 2 (omega arith) (omega arith)

-- a wide character, the alternate screen, and a line feed there
abbrev some_calls : List Action
some_calls =
    print b'a'
    ∷ print 0x65e5
    ∷ csi (1049 ∷ []) (b'?' ∷ []) false b'h'
    ∷ csi (5 ∷ []) [] false b'B'
    ∷ execute 0x0a
    ∷ []

perform_all-IsValid_example : IsValid (perform_all small some_calls)
perform_all-IsValid_example = perform_all-IsValid small small-IsValid some_calls

blank-CellFits : CellFits (blank default_color)
blank-CellFits = record { codepoint = omega arith; attrs = omega arith }

-- a screen of one cell
abbrev tiny : Screen
tiny = fresh_screen 1 1

tiny-IsStorable : IsStorable tiny
unfolding fresh_screen vt_default
tiny-IsStorable = record {
  cols = omega arith;
  rows = omega arith;
  pen_attrs = omega arith;
  ansi = refl;
  truncated = omega arith;
  cells = (blank-CellFits, tt);
  saved_grid = tt;
  saved_cursor = tt;
  alt_cursor = tt;
  open_cluster = tt;
}

import_checkpoint-export_checkpoint_example :
    import_checkpoint small (export_checkpoint tiny 7) ≡ ok (reopened tiny small, 7)
import_checkpoint-export_checkpoint_example =
    import_checkpoint-export_checkpoint tiny small 7
      (fresh_screen-IsValid 1 1 (omega arith) (omega arith)) tiny-IsStorable (omega arith)

leave_alt-enter_alt_example : leave_alt (enter_alt small true true) true ≡ record small {
  in_alt = false;
  saved_grid = none;
  alt_cursor = none;
  full_damage = true;
  open_cluster = none;
}
unfolding fresh_screen
leave_alt-enter_alt_example = leave_alt-enter_alt small small-IsValid refl

on_grid : 5 < small.cols * small.rows
unfolding fresh_screen
on_grid = omega arith

scroll_up-moved_cell_example : get_elem? (scroll_up small).cells 5 ≡ moved_cell small 5
scroll_up-moved_cell_example = scroll_up-moved_cell small 5 small-IsValid on_grid
