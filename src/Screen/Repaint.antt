-- ===== src/Screen/Repaint.antt =====
-- `repaint_bytes`: the visible grid as bytes for a terminal.
use rill.Prelude.{
  ℕ, zero, suc, ◌+◌, ◌-◌, ◌%◌, ◌/◌, List, [], ◌∷◌, ◌++◌, Bool, true, false, ◌&&◌, ◌||◌, ltb, ◌==◌,
  in_range, if◌then◌else◌,
}
use rill.VtTypes.{Color, default_color, indexed_color, rgb_color}
use rill.Parser.Encoding.{encode_utf8}
use rill.Screen.Cell.{Cell, cell_at}
use rill.Screen.State.{Screen, idx, add16}
use rill.Screen.Erase.{is_tail}
use rill.Screen.Reply.{write_u16, csi_bytes}

unfoldable pub is_default : Color → Bool
is_default default_color = true
is_default (indexed_color n) = false
is_default (rgb_color r g b) = false

unfoldable pub cell_is_blank : Cell → Bool
cell_is_blank c = (c.codepoint == 32) && (c.attrs == 0) && is_default c.fg && is_default c.bg

-- `char::from_u32` has no character above 0x10ffff and no surrogate
unfoldable pub push_codepoint : ℕ → List ℕ
push_codepoint c = if ltb 0x10ffff c || in_range 0xd800 0xdfff c then [] else encode_utf8 c

unfoldable pub emit_attrs : ℕ → List ℕ
emit_attrs attrs =
    (if attrs % 2 == 1 then csi_bytes (b'1' ∷ b'm' ∷ []) else [])
    ++ ((if attrs / 2 % 2 == 1 then csi_bytes (b'4' ∷ b'm' ∷ []) else [])
        ++ (if attrs / 4 % 2 == 1 then csi_bytes (b'7' ∷ b'm' ∷ []) else []))

-- `ESC [ 3 8 ;` or `ESC [ 4 8 ;`, and what follows
abbrev pub extended : Bool → List ℕ → List ℕ
extended fg bytes = csi_bytes ((if fg then b'3' else b'4') ∷ b'8' ∷ b';' ∷ bytes)

unfoldable pub emit_color : Bool → Color → List ℕ
emit_color fg default_color = []
emit_color fg (indexed_color n) =
    if ltb n 8
    then csi_bytes (write_u16 ((if fg then 30 else 40) + n) ++ b'm' ∷ [])
    else if ltb n 16
    then csi_bytes (write_u16 ((if fg then 90 else 100) + (n - 8)) ++ b'm' ∷ [])
    else extended fg (b'5' ∷ b';' ∷ (write_u16 n ++ b'm' ∷ []))
emit_color fg (rgb_color r g b) =
    extended fg
      (b'2' ∷ b';' ∷ (write_u16 r ++ b';' ∷ (write_u16 g ++ b';' ∷ (write_u16 b ++ b'm' ∷ []))))

unfoldable pub color_eq : Color → Color → Bool
color_eq default_color default_color = true
color_eq (indexed_color n) (indexed_color m) = n == m
color_eq (rgb_color r g b) (rgb_color r' g' b') = (r == r') && (g == g') && (b == b')
color_eq c d = false

-- `last_fg`, `last_bg` and `last_attrs`
pub record Ink : Type 0 where
  pub fg : Color
  pub bg : Color
  pub attrs : ℕ

abbrev pub plain : Ink
plain = record { fg = default_color; bg = default_color; attrs = 0 }

-- `ESC [ 0 m`
abbrev pub sgr_reset : List ℕ
sgr_reset = csi_bytes (b'0' ∷ b'm' ∷ [])

abbrev pub ink_of : Cell → Ink
ink_of c = record { fg = c.fg; bg = c.bg; attrs = c.attrs % 8 }

unfoldable pub is_inked : Ink → Cell → Bool
is_inked i c = color_eq c.fg i.fg && color_eq c.bg i.bg && (c.attrs % 8 == i.attrs)

abbrev pub ink_bytes : Cell → List ℕ
ink_bytes c = sgr_reset ++ (emit_attrs c.attrs ++ (emit_color true c.fg ++ emit_color false c.bg))

-- one cell: its bytes, and the pen behind it
unfoldable pub emit_cell : Ink → Cell → List ℕ × Ink
emit_cell i c =
    let glyph = if is_tail c.attrs then [] else push_codepoint c.codepoint in
    if is_inked i c then (glyph, i) else (ink_bytes c ++ glyph, ink_of c)

-- `n` cells of a row from column `c` on
unfoldable pub emit_cells : Screen → ℕ → ℕ → ℕ → Ink → List ℕ
emit_cells s r c zero i = []
emit_cells s r c (suc n) i =
    let (bytes, next) = emit_cell i (cell_at s.cells (idx s c r)) in
    bytes ++ emit_cells s r (c + 1) n next

-- the columns of a row up to the last one that is not blank; `n` columns are left from `c` on
unfoldable pub used_cols : Screen → ℕ → ℕ → ℕ → ℕ → ℕ
used_cols s r c zero last = last
used_cols s r c (suc n) last =
    used_cols s r (c + 1) n (if cell_is_blank (cell_at s.cells (idx s c r)) then last else c + 1)

-- `n` rows from `r` on; each starts with a plain pen, since `ESC [ 0 m` follows the line's end
unfoldable pub emit_rows : Screen → ℕ → ℕ → List ℕ
emit_rows s r zero = []
emit_rows s r (suc n) =
    emit_cells s r 0 (used_cols s r 0 s.cols 0) plain
    ++ ((if ltb (r + 1) s.rows then 0x0d ∷ 0x0a ∷ sgr_reset else []) ++ emit_rows s (r + 1) n)

unfoldable pub repaint_bytes : Screen → List ℕ
repaint_bytes s =
    (if s.in_alt then csi_bytes (b'?' ∷ b'1' ∷ b'0' ∷ b'4' ∷ b'9' ∷ b'h' ∷ []) else [])
    ++ (sgr_reset
        ++ (emit_rows s 0 s.rows
            ++ (csi_bytes (
                  write_u16 (add16 s.cursor_row 1)
                  ++ b';' ∷ (write_u16 (add16 s.cursor_col 1) ++ b'H' ∷ []))
                ++ (if s.cursor_visible then [] else csi_bytes (b'?' ∷ b'2' ∷ b'5' ∷ b'l' ∷ [])))))
