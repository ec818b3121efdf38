-- ===== src/Screen/State.antt =====
-- The fields of `Screen`, the cursor, and the damage. `u16` sums that saturate have their limit; the
-- others cannot pass it on a grid whose sizes are `u16`, but for the tab stop, which wraps.
use rill.Prelude.{
  ℕ, zero, suc, ◌+◌, ◌-◌, ◌*◌, ◌^◌, min, List, [], Option, none, Bool, true, false, ◌||◌, ltb, ◌==◌,
  if◌then◌else◌, replicate, Result, ok, err,
}
use rill.VtTypes.{Color, default_color, Palette, vt_default, Error, vt, TerminalModeState}
use rill.Screen.Cell.{Cell, blank}

pub record SavedCursor : Type 0 where
  pub col : ℕ
  pub row : ℕ
  pub pending_wrap : Bool
  pub fg : Color
  pub bg : Color
  pub attrs : ℕ

pub record OpenCluster : Type 0 where
  pub row : ℕ
  pub col : ℕ
  pub len : ℕ
  pub after_zwj : Bool
  pub last_was_ri : Bool
  pub width : ℕ

pub record Screen : Type 0 where
  pub cols : ℕ
  pub rows : ℕ
  pub cells : List Cell
  pub cursor_col : ℕ
  pub cursor_row : ℕ
  pub cursor_visible : Bool
  pub pending_wrap : Bool
  pub autowrap : Bool
  pub full_damage : Bool
  pub damage_row0 : ℕ
  pub damage_row1 : ℕ
  pub scroll_top : ℕ
  pub scroll_bottom : ℕ
  pub palette : Palette
  pub pen_fg : Color
  pub pen_bg : Color
  pub pen_attrs : ℕ
  pub saved_cursor : Option SavedCursor
  pub alt_cursor : Option SavedCursor
  pub saved_grid : Option (List Cell)
  pub in_alt : Bool
  pub replies : List ℕ
  pub replies_dropped : ℕ
  pub discard_replies : Bool
  pub open_cluster : Option OpenCluster
  pub grapheme_truncated : ℕ
  pub application_cursor_keys : Bool
  pub application_keypad : Bool
  pub bracketed_paste : Bool
  pub mouse_x10 : Bool
  pub mouse_button : Bool
  pub mouse_any : Bool
  pub mouse_sgr : Bool
  pub focus_events : Bool
  pub scrolled_off : List (List Cell)

abbrev pub u16_max : ℕ
u16_max = 2 ^ 16 - 1

abbrev pub u32_max : ℕ
u32_max = 2 ^ 32 - 1

-- `u16::saturating_add`
abbrev pub add16 : ℕ → ℕ → ℕ
add16 a b = min u16_max (a + b)

-- `u32::saturating_add(1)`
abbrev pub count_up : ℕ → ℕ
count_up n = min u32_max (n + 1)

-- a fresh screen of a size that is not empty
unfoldable pub fresh_screen : ℕ → ℕ → Screen
fresh_screen cols rows = record {
  cols = cols;
  rows = rows;
  cells = replicate (cols * rows) (blank default_color);
  cursor_col = 0;
  cursor_row = 0;
  cursor_visible = true;
  pending_wrap = false;
  autowrap = true;
  full_damage = true;
  damage_row0 = 0;
  damage_row1 = 0;
  scroll_top = 0;
  scroll_bottom = rows - 1;
  palette = vt_default;
  pen_fg = default_color;
  pen_bg = default_color;
  pen_attrs = 0;
  saved_cursor = none;
  alt_cursor = none;
  saved_grid = none;
  in_alt = false;
  replies = [];
  replies_dropped = 0;
  discard_replies = false;
  open_cluster = none;
  grapheme_truncated = 0;
  application_cursor_keys = false;
  application_keypad = false;
  bracketed_paste = false;
  mouse_x10 = false;
  mouse_button = false;
  mouse_any = false;
  mouse_sgr = false;
  focus_events = false;
  scrolled_off = [];
}

-- `Screen::new`
unfoldable pub new : ℕ → ℕ → Result Error Screen
new cols rows =
    if cols == 0 || rows == 0 then err (vt "empty grid") else ok (fresh_screen cols rows)

unfoldable pub mode_state : Screen → TerminalModeState
mode_state s = record {
  application_cursor_keys = s.application_cursor_keys;
  application_keypad = s.application_keypad;
  bracketed_paste = s.bracketed_paste;
  mouse_x10 = s.mouse_x10;
  mouse_button = s.mouse_button;
  mouse_any = s.mouse_any;
  mouse_sgr = s.mouse_sgr;
  focus_events = s.focus_events;
  alternate_screen = s.in_alt;
  cursor_visible = s.cursor_visible;
}

abbrev pub last_col : Screen → ℕ
last_col s = s.cols - 1

abbrev pub last_row : Screen → ℕ
last_row s = s.rows - 1

abbrev pub idx : Screen → ℕ → ℕ → ℕ
idx s col row = row * s.cols + col

abbrev pub clear_pending_wrap : Screen → Screen
clear_pending_wrap s = record s { pending_wrap = false }

abbrev pub with_cells : Screen → List Cell → Screen
with_cells s cells = record s { cells = cells }

unfoldable pub dirty : Screen → ℕ → Screen
dirty s row =
    if s.full_damage
    then s
    else if ltb s.damage_row1 s.damage_row0
    then record s { damage_row0 = row; damage_row1 = row }
    else record s {
      damage_row0 = if ltb row s.damage_row0 then row else s.damage_row0;
      damage_row1 = if ltb s.damage_row1 row then row else s.damage_row1;
    }

-- `for r in row..row + n { self.dirty(r); }`
unfoldable pub dirty_rows : Screen → ℕ → ℕ → Screen
dirty_rows s row zero = s
dirty_rows s row (suc n) = dirty_rows (dirty s row) (row + 1) n

unfoldable pub set_cursor : Screen → ℕ → ℕ → Screen
set_cursor s row col = record s {
  pending_wrap = false;
  open_cluster = none;
  cursor_row = min row (last_row s);
  cursor_col = min col (last_col s);
}

unfoldable pub capture_cursor : Screen → SavedCursor
capture_cursor s = record {
  col = s.cursor_col;
  row = s.cursor_row;
  pending_wrap = s.pending_wrap;
  fg = s.pen_fg;
  bg = s.pen_bg;
  attrs = s.pen_attrs;
}

unfoldable pub restore_cursor : Screen → SavedCursor → Screen
restore_cursor s saved = record s {
  cursor_col = min saved.col (last_col s);
  cursor_row = min saved.row (last_row s);
  pending_wrap = saved.pending_wrap;
  pen_fg = saved.fg;
  pen_bg = saved.bg;
  pen_attrs = saved.attrs;
}
