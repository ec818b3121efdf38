-- ===== src/Screen/Checkpoint/Reads.antt =====
-- screen.rs: each reader of an item on the bytes that the item was put as.
use rill.Prelude.{
  ℕ, ◌^◌, ◌<◌, ◌≡◌, refl, subst, List, [], ◌∷◌, Option, none, some, String, All, Bool, true, false,
  if◌then◌else◌, length,
}
use rill.VtTypes.{Color, default_color, indexed_color, rgb_color, Rgb, Palette}
use rill.Screen.Cell.{Cell}
use rill.Screen.State.{SavedCursor, OpenCluster}
use rill.Screen.Checkpoint.Reader.{
  Reader, ◌then◌, take_u8, take_many, put_many, Reads, Reads-then, Reads-last, Reads-u8, Reads-u16,
  Reads-u32, Reads-many,
}
use rill.Screen.Checkpoint.Items.{
  put_color, put_rgb, put_palette, put_cell, put_flag, put_cursor, put_saved, put_cluster,
  put_open_cluster, color_of_tag, take_color, take_rgb, take_palette, take_cell, take_flag,
  take_cursor, take_tagged, take_saved, take_cluster, take_open_cluster,
}

pub Reads-color : (c : Color) → Reads take_color (put_color c) c
unfolding take_color color_of_tag put_color ◌then◌ take_u8
Reads-color default_color = record { run = λ rest. refl }
Reads-color (indexed_color i) = record { run = λ rest. refl }
Reads-color (rgb_color r g b) = record { run = λ rest. refl }

pub Reads-rgb : (c : Rgb) → Reads take_rgb (put_rgb c) c
unfolding take_rgb put_rgb ◌then◌ take_u8
Reads-rgb c = record { run = λ rest. refl }

pub Reads-flag : (b : Bool) → Reads take_flag (put_flag b) b
unfolding take_flag ◌then◌ take_u8
Reads-flag true = record { run = λ rest. refl }
Reads-flag false = record { run = λ rest. refl }

every : {A : Type 0} (as' : List A) → All (λ a. Unit {0}) as'
every [] = tt
every (a ∷ as') = (tt, every as')

pub Reads-palette : (p : Palette) → length p.ansi ≡ 16 → Reads take_palette (put_palette p) p
unfolding take_palette put_palette
Reads-palette p h =
    Reads-then _
      (subst (λ n. Reads (take_many n take_rgb) (put_many put_rgb p.ansi) p.ansi) h
        (Reads-many take_rgb put_rgb (λ c. Unit {0}) (λ c v. Reads-rgb c) p.ansi (every p.ansi)))
      (Reads-then _ (Reads-rgb p.foreground)
        (Reads-then _ (Reads-rgb p.background) (Reads-last _ (Reads-rgb p.cursor))))

-- fields of 16 and 32 bits
pub record CellFits (c : Cell) : Type 0 where
  pub codepoint : c.codepoint < 2 ^ 32
  pub attrs : c.attrs < 2 ^ 16

pub Reads-cell : (c : Cell) → CellFits c → Reads take_cell (put_cell c) c
unfolding take_cell put_cell
Reads-cell c v = Reads-then _ (Reads-u32 c.codepoint v.codepoint) (
    Reads-then _ (Reads-u16 c.attrs v.attrs)
      (Reads-then _ (Reads-color c.fg) (Reads-last _ (Reads-color c.bg))))

pub record CursorFits (c : SavedCursor) : Type 0 where
  pub col : c.col < 2 ^ 16
  pub row : c.row < 2 ^ 16
  pub attrs : c.attrs < 2 ^ 16

Reads-cursor : (c : SavedCursor) → CursorFits c → Reads take_cursor (put_cursor c) c
unfolding take_cursor
Reads-cursor c v = Reads-then _ (Reads-u16 c.col v.col) (
    Reads-then _ (Reads-u16 c.row v.row) (
      Reads-then _ (Reads-flag c.pending_wrap) (
        Reads-then _ (Reads-color c.fg)
          (Reads-then _ (Reads-color c.bg) (Reads-last _ (Reads-u16 c.attrs v.attrs))))))

pub record ClusterFits (c : OpenCluster) : Type 0 where
  pub row : c.row < 2 ^ 16
  pub col : c.col < 2 ^ 16

Reads-cluster : (c : OpenCluster) → ClusterFits c → Reads take_cluster (put_cluster c) c
unfolding take_cluster
Reads-cluster c v = Reads-then _ (Reads-u16 c.row v.row) (
    Reads-then _ (Reads-u16 c.col v.col) (
      Reads-then _ (Reads-u8 c.len) (
        Reads-then _ (Reads-flag c.after_zwj)
          (Reads-then _ (Reads-flag c.last_was_ri) (Reads-last _ (Reads-u8 c.width))))))

-- of the value that is there
abbrev pub OptionFits : {A : Type 0} → (A → Type 0) → Option A → Type 0
OptionFits P none = Unit
OptionFits P (some a) = P a

pub Reads-none :
    {A : Type 0} (what : String) (t : Reader A)
    → Reads (take_u8 then take_tagged what t) (0 ∷ []) none
unfolding take_tagged
Reads-none what t = Reads-then _ (Reads-u8 0) (record { run = λ rest. refl })

pub Reads-some :
    {A : Type 0} (what : String) {t : Reader A} {bytes : List ℕ} {a : A}
    → Reads t bytes a
    → Reads (take_u8 then take_tagged what t) (1 ∷ bytes) (some a)
unfolding take_tagged
Reads-some what h = Reads-then _ (Reads-u8 1) (Reads-last some h)

pub Reads-saved :
    (o : Option SavedCursor) → OptionFits CursorFits o → Reads take_saved (put_saved o) o
unfolding take_saved put_saved
Reads-saved none v = Reads-none "bad saved cursor tag" take_cursor
Reads-saved (some c) v = Reads-some "bad saved cursor tag" (Reads-cursor c v)

pub Reads-open_cluster :
    (o : Option OpenCluster)
    → OptionFits ClusterFits o
    → Reads take_open_cluster (put_open_cluster o) o
unfolding take_open_cluster put_open_cluster
Reads-open_cluster none v = Reads-none "bad open cluster tag" take_cluster
Reads-open_cluster (some c) v = Reads-some "bad open cluster tag" (Reads-cluster c v)
