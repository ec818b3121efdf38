-- ===== src/VtTypes.antt =====
-- crates/rill-vt-types/src/lib.rs and crates/vt-engine/src/color.rs: the values that the engine and
-- its host share, and the colour of an index. A `u8` and a `u16` are numbers below 256 and 65536.
use rill.Prelude.{
  ℕ, ◌+◌, ◌-◌, ◌*◌, ◌/◌, ◌%◌, ◌<◌, Bool, true, false, List, [], ◌∷◌, Option, none, some, String,
  get_elem?, leb, ◌==◌, if◌then◌else◌,
}

pub record Rgb : Type 0 where
  pub r : ℕ
  pub g : ℕ
  pub b : ℕ

pub data Color : Type 0 where
  default_color : Color
  indexed_color : ℕ → Color
  rgb_color : ℕ → ℕ → ℕ → Color

-- `ansi` has sixteen entries.
pub record Palette : Type 0 where
  pub ansi : List Rgb
  pub foreground : Rgb
  pub background : Rgb
  pub cursor : Rgb

-- `Error::Vt`, the one error of the engine
pub data Error : Type 0 where
  vt : String → Error

abbrev pub rgb : ℕ → ℕ → ℕ → Rgb
rgb r g b = record { r = r; g = g; b = b }

unfoldable pub vt_default : Palette
vt_default = record {
  ansi =
      rgb 0x1d 0x1f 0x21
      ∷ rgb 0xcc 0x66 0x66
      ∷ rgb 0xb5 0xbd 0x68
      ∷ rgb 0xf0 0xc6 0x74
      ∷ rgb 0x81 0xa2 0xbe
      ∷ rgb 0xb2 0x94 0xbb
      ∷ rgb 0x8a 0xbe 0xb7
      ∷ rgb 0xc5 0xc8 0xc6
      ∷ rgb 0x66 0x66 0x66
      ∷ rgb 0xd5 0x4e 0x53
      ∷ rgb 0xb9 0xca 0x4a
      ∷ rgb 0xe7 0xc5 0x47
      ∷ rgb 0x7a 0xa6 0xda
      ∷ rgb 0xc3 0x97 0xd8
      ∷ rgb 0x70 0xc0 0xb1
      ∷ rgb 0xea 0xea 0xea
      ∷ [];
  foreground = rgb 0xcc 0xcc 0xcc;
  background = rgb 0x12 0x12 0x12;
  cursor = rgb 0xcc 0xcc 0xcc;
}

pub record PodCell : Type 0 where
  pub codepoint : ℕ
  pub fg : ℕ
  pub bg : ℕ
  pub attrs : ℕ

pub record PodGrid : Type 0 where
  pub cols : ℕ
  pub rows : ℕ
  pub cursor_col : ℕ
  pub cursor_row : ℕ
  pub cursor_visible : Bool
  pub full_damage : Bool
  pub damage_row0 : ℕ
  pub damage_row1 : ℕ
  pub default_fg : ℕ
  pub default_bg : ℕ
  pub grapheme_truncated : ℕ
  pub replies_dropped : ℕ
  pub cells : List PodCell

-- `PodGrid::cell`; the product and the sum of `u16` values do not overflow a `usize`.
unfoldable pub pod_cell_at : PodGrid → ℕ → ℕ → Option PodCell
pod_cell_at g col row = get_elem? g.cells (row * g.cols + col)

pub record TerminalModeState : Type 0 where
  pub application_cursor_keys : Bool
  pub application_keypad : Bool
  pub bracketed_paste : Bool
  pub mouse_x10 : Bool
  pub mouse_button : Bool
  pub mouse_any : Bool
  pub mouse_sgr : Bool
  pub focus_events : Bool
  pub alternate_screen : Bool
  pub cursor_visible : Bool

unfoldable pub fresh : TerminalModeState
fresh = record {
  application_cursor_keys = false;
  application_keypad = false;
  bracketed_paste = false;
  mouse_x10 = false;
  mouse_button = false;
  mouse_any = false;
  mouse_sgr = false;
  focus_events = false;
  alternate_screen = false;
  cursor_visible = true;
}

unfoldable pub cube : ℕ → ℕ
cube level = if level == 0 then 0 else 55 + 40 * level

-- the entry of the palette; `palette.ansi[n]` with `n` below sixteen
abbrev pub ansi_at : List Rgb → ℕ → Rgb
ansi_at rgbs n = elim (get_elem? rgbs n) [ none ↦ rgb 0 0 0 | some c ↦ c ]

-- `color::indexed` for a `u8`
unfoldable pub indexed : ℕ → Palette → Rgb
unfolding cube
indexed n palette =
    if leb n 15
    then ansi_at palette.ansi n
    else if leb n 231
    then rgb (cube ((n - 16) / 36)) (cube ((n - 16) % 36 / 6)) (cube ((n - 16) % 6))
    else (let v = 8 + 10 * (n - 232) in rgb v v v)

abbrev pub IsRgb : Rgb → Type 0
IsRgb c = (c.r < 256) × (c.g < 256) × (c.b < 256)
