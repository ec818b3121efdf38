-- ===== src/Screen/Checkpoint/Items.antt =====
-- Colours, cells, saved cursors and the open cluster as bytes. A `u8` is put as it is.
use rill.Prelude.{
  ℕ, String, List, [], ◌∷◌, ◌++◌, Option, none, some, Bool, not, ◌==◌, if◌then◌else◌,
}
use rill.VtTypes.{Color, default_color, indexed_color, rgb_color, Rgb, rgb, Palette}
use rill.Screen.Cell.{Cell}
use rill.Screen.State.{SavedCursor, OpenCluster}
use rill.Screen.Checkpoint.Reader.{
  Reader, ◌then◌, give, fail, take_u8, take_u16, take_u32, put_u16, put_u32, take_many, put_many,
}

unfoldable pub put_color : Color → List ℕ
put_color default_color = 0 ∷ []
put_color (indexed_color i) = 1 ∷ i ∷ []
put_color (rgb_color r g b) = 2 ∷ r ∷ g ∷ b ∷ []

unfoldable pub put_rgb : Rgb → List ℕ
put_rgb c = c.r ∷ c.g ∷ c.b ∷ []

unfoldable pub put_palette : Palette → List ℕ
put_palette p =
    put_many put_rgb p.ansi ++ (put_rgb p.foreground ++ (put_rgb p.background ++ put_rgb p.cursor))

unfoldable pub put_cell : Cell → List ℕ
put_cell c = put_u32 c.codepoint ++ (put_u16 c.attrs ++ (put_color c.fg ++ put_color c.bg))

-- `u8::from` of a flag
abbrev pub put_flag : Bool → List ℕ
put_flag b = (if b then 1 else 0) ∷ []

abbrev pub put_cursor : SavedCursor → List ℕ
put_cursor c =
    put_u16 c.col
    ++ (put_u16 c.row
        ++ (put_flag c.pending_wrap ++ (put_color c.fg ++ (put_color c.bg ++ put_u16 c.attrs))))

unfoldable pub put_saved : Option SavedCursor → List ℕ
put_saved none = 0 ∷ []
put_saved (some c) = 1 ∷ put_cursor c

abbrev pub put_cluster : OpenCluster → List ℕ
put_cluster c =
    put_u16 c.row
    ++ (put_u16 c.col
        ++ ((c.len ∷ []) ++ (put_flag c.after_zwj ++ (put_flag c.last_was_ri ++ c.width ∷ []))))

unfoldable pub put_open_cluster : Option OpenCluster → List ℕ
put_open_cluster none = 0 ∷ []
put_open_cluster (some c) = 1 ∷ put_cluster c

unfoldable pub color_of_tag : ℕ → Reader Color
color_of_tag tag =
    if tag == 0
    then give default_color
    else if tag == 1
    then (take_u8 then λ i. give (indexed_color i))
    else if tag == 2
    then (take_u8 then λ r. take_u8 then λ g. take_u8 then λ b. give (rgb_color r g b))
    else fail "bad colour tag"

unfoldable pub take_color : Reader Color
take_color = take_u8 then color_of_tag

unfoldable pub take_rgb : Reader Rgb
take_rgb = take_u8 then λ r. take_u8 then λ g. take_u8 then λ b. give (rgb r g b)

unfoldable pub take_palette : Reader Palette
take_palette = take_many 16 take_rgb then λ ansi. take_rgb then λ foreground.
    take_rgb then λ background. take_rgb then λ cursor.
    give (record { ansi = ansi; foreground = foreground; background = background; cursor = cursor })

unfoldable pub take_cell : Reader Cell
take_cell = take_u32 then λ codepoint. take_u16 then λ attrs. take_color then λ fg.
    take_color then λ bg. give (record { codepoint = codepoint; fg = fg; bg = bg; attrs = attrs })

-- `take_u8(rest)? != 0`
unfoldable pub take_flag : Reader Bool
take_flag = take_u8 then λ b. give (not (b == 0))

unfoldable pub take_cursor : Reader SavedCursor
take_cursor = take_u16 then λ col. take_u16 then λ row. take_flag then λ wrap. take_color then λ fg.
    take_color then λ bg. take_u16 then λ attrs.
    give (record { col = col; row = row; pending_wrap = wrap; fg = fg; bg = bg; attrs = attrs })

-- the tag of an optional value, and the value
unfoldable pub take_tagged : {A : Type 0} → String → Reader A → ℕ → Reader (Option A)
take_tagged what t tag =
    if tag == 0 then give none else if tag == 1 then (t then λ a. give (some a)) else fail what

unfoldable pub take_saved : Reader (Option SavedCursor)
take_saved = take_u8 then take_tagged "bad saved cursor tag" take_cursor

unfoldable pub take_cluster : Reader OpenCluster
take_cluster = take_u16 then λ row. take_u16 then λ col. take_u8 then λ len.
    take_flag then λ after_zwj. take_flag then λ last_was_ri. take_u8 then λ width. give (record {
      row = row;
      col = col;
      len = len;
      after_zwj = after_zwj;
      last_was_ri = last_was_ri;
      width = width;
    })

unfoldable pub take_open_cluster : Reader (Option OpenCluster)
take_open_cluster = take_u8 then take_tagged "bad open cluster tag" take_cluster
