-- ===== src/Screen/Checkpoint/Image.antt =====
-- `export_checkpoint` and `import_checkpoint`. The fields are put and taken in the order of the code;
-- the product of two `u16` values does not overflow a `usize`.
use rill.Prelude.{
  ℕ, ◌-◌, ◌*◌, List, [], ◌∷◌, ◌++◌, Option, none, some, true, false, not, ◌||◌, ltb, ◌==◌,
  if◌then◌else◌, min, length, take, drop, bytes_eq, Result, ok, err, ◌>>=◌,
}
use rill.VtTypes.{Color, Palette, Error, vt}
use rill.Attach.Bytes.{from_le}
use rill.Screen.Cell.{Cell, overwrite}
use rill.Screen.State.{Screen, SavedCursor, OpenCluster}
use rill.Screen.Checkpoint.Reader.{
  Reader, ◌then◌, give, fail, take_u8, take_u16, take_u32, put_u16, put_u32, put_u64, take_many,
  put_many,
}
use rill.Screen.Checkpoint.Items.{
  put_color, put_palette, put_cell, put_saved, put_open_cluster, take_color, take_palette,
  take_cell, take_tagged, take_saved, take_open_cluster,
}
use rill.Screen.Checkpoint.Flags.{checkpoint_flags, apply_checkpoint_flags}
use rill.Screen.Checkpoint.Hash.{hash_off, fnv1a64_with_zero_hash}

abbrev pub magic : List ℕ
magic = b'R' ∷ b'1' ∷ b'C' ∷ b'K' ∷ []

abbrev pub version : ℕ
version = 1

-- the fields behind the size, up to the cells
pub record Pen : Type 0 where
  pub cursor_col : ℕ
  pub cursor_row : ℕ
  pub scroll_top : ℕ
  pub scroll_bottom : ℕ
  pub pen_attrs : ℕ
  pub flags : ℕ
  pub pen_fg : Color
  pub pen_bg : Color
  pub palette : Palette
  pub grapheme_truncated : ℕ

-- the cells and what follows them
pub record Grids : Type 0 where
  pub cells : List Cell
  pub saved_grid : Option (List Cell)
  pub saved_cursor : Option SavedCursor
  pub alt_cursor : Option SavedCursor
  pub open_cluster : Option OpenCluster

abbrev pub pen_of : Screen → Pen
pen_of s = record {
  cursor_col = s.cursor_col;
  cursor_row = s.cursor_row;
  scroll_top = s.scroll_top;
  scroll_bottom = s.scroll_bottom;
  pen_attrs = s.pen_attrs;
  flags = checkpoint_flags s;
  pen_fg = s.pen_fg;
  pen_bg = s.pen_bg;
  palette = s.palette;
  grapheme_truncated = s.grapheme_truncated;
}

abbrev pub grids_of : Screen → Grids
grids_of s = record {
  cells = s.cells;
  saved_grid = s.saved_grid;
  saved_cursor = s.saved_cursor;
  alt_cursor = s.alt_cursor;
  open_cluster = s.open_cluster;
}

unfoldable pub put_pen : Pen → List ℕ
put_pen p =
    put_u16 p.cursor_col
    ++ (put_u16 p.cursor_row
        ++ (put_u16 p.scroll_top
            ++ (put_u16 p.scroll_bottom
                ++ (put_u16 p.pen_attrs
                    ++ (put_u32 p.flags
                        ++ (put_color p.pen_fg
                            ++ (put_color p.pen_bg
                                ++ (put_palette p.palette ++ put_u32 p.grapheme_truncated))))))))

unfoldable pub put_saved_grid : Option (List Cell) → List ℕ
put_saved_grid none = 0 ∷ []
put_saved_grid (some grid) = 1 ∷ put_many put_cell grid

unfoldable pub put_grids : Grids → List ℕ
put_grids g =
    put_many put_cell g.cells
    ++ (put_saved_grid g.saved_grid
        ++ (put_saved g.saved_cursor
            ++ (put_saved g.alt_cursor ++ put_open_cluster g.open_cluster)))

unfoldable pub payload : Screen → List ℕ
payload s = put_u16 s.cols ++ (put_u16 s.rows ++ (put_pen (pen_of s) ++ put_grids (grids_of s)))

-- the blob with a hash
abbrev pub blob : ℕ → ℕ → List ℕ → List ℕ
blob off hash bytes = magic ++ (put_u16 version ++ (put_u64 off ++ (put_u64 hash ++ bytes)))

unfoldable pub export_checkpoint : Screen → ℕ → List ℕ
export_checkpoint s off =
    let out = blob off 0 (payload s) in
    overwrite out hash_off (put_u64 (fnv1a64_with_zero_hash out))

unfoldable pub take_pen : Reader Pen
take_pen = take_u16 then λ cursor_col. take_u16 then λ cursor_row. take_u16 then λ scroll_top.
    take_u16 then λ scroll_bottom. take_u16 then λ pen_attrs. take_u32 then λ flags.
    take_color then λ pen_fg. take_color then λ pen_bg. take_palette then λ palette.
    take_u32 then λ grapheme_truncated. give (record {
      cursor_col = cursor_col;
      cursor_row = cursor_row;
      scroll_top = scroll_top;
      scroll_bottom = scroll_bottom;
      pen_attrs = pen_attrs;
      flags = flags;
      pen_fg = pen_fg;
      pen_bg = pen_bg;
      palette = palette;
      grapheme_truncated = grapheme_truncated;
    })

unfoldable pub take_saved_grid : ℕ → Reader (Option (List Cell))
take_saved_grid n = take_u8 then take_tagged "bad saved grid tag" (take_many n take_cell)

unfoldable pub take_grids : ℕ → Reader Grids
take_grids n = take_many n take_cell then λ cells. take_saved_grid n then λ saved_grid.
    take_saved then λ saved_cursor. take_saved then λ alt_cursor.
    take_open_cluster then λ open_cluster. give (record {
      cells = cells;
      saved_grid = saved_grid;
      saved_cursor = saved_cursor;
      alt_cursor = alt_cursor;
      open_cluster = open_cluster;
    })

-- the assignments to the importing screen
unfoldable pub restored : Screen → ℕ → ℕ → Pen → Grids → Screen
restored t cols rows p g =
    apply_checkpoint_flags
      (record t {
        cols = cols;
        rows = rows;
        cells = g.cells;
        cursor_col = min p.cursor_col (cols - 1);
        cursor_row = min p.cursor_row (rows - 1);
        scroll_top = p.scroll_top;
        scroll_bottom = p.scroll_bottom;
        pen_attrs = p.pen_attrs;
        pen_fg = p.pen_fg;
        pen_bg = p.pen_bg;
        palette = p.palette;
        grapheme_truncated = p.grapheme_truncated;
        saved_grid = g.saved_grid;
        saved_cursor = g.saved_cursor;
        alt_cursor = g.alt_cursor;
        open_cluster = g.open_cluster;
        full_damage = true;
        damage_row0 = 0;
        damage_row1 = 0;
        replies = [];
        discard_replies = false;
      })
      p.flags

-- a grid that is not empty is taken, for the importing screen
unfoldable pub take_body : Screen → ℕ → ℕ → Reader Screen
take_body t cols rows =
    if cols == 0 || rows == 0
    then fail "empty grid"
    else (take_pen then λ p. take_grids (cols * rows) then λ g. give (restored t cols rows p g))

unfoldable pub take_screen : Screen → Reader Screen
take_screen t = take_u16 then λ cols. take_u16 then λ rows. take_body t cols rows

-- no bytes may be left
unfoldable pub at_end : ℕ → Screen × List ℕ → Result Error (Screen × ℕ)
at_end off (s, []) = ok (s, off)
at_end off (s, b ∷ bytes) = err (vt "trailing checkpoint bytes")

-- the importing screen afterwards, and the offset; on an error the screen is not changed
unfoldable pub import_checkpoint : Screen → List ℕ → Result Error (Screen × ℕ)
import_checkpoint t bytes =
    if ltb (length bytes) 22
    then err (vt "truncated checkpoint")
    else if not (bytes_eq (take 4 bytes) magic)
    then err (vt "bad checkpoint magic")
    else if not (from_le (take 2 (drop 4 bytes)) == version)
    then err (vt "unsupported checkpoint version")
    else if not (from_le (take 8 (drop 14 bytes)) == fnv1a64_with_zero_hash bytes)
    then err (vt "checkpoint hash mismatch")
    else (take_screen t (drop 22 bytes) >>= at_end (from_le (take 8 (drop 6 bytes))))
