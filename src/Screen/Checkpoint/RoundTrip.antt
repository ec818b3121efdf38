-- ===== src/Screen/Checkpoint/RoundTrip.antt =====
-- screen.rs: `export_checkpoint` followed by `import_checkpoint`.
use rill.Prelude.{
  if_skipped, ℕ, ◌-◌, ◌*◌, ◌^◌, ◌<◌, ◌≤◌, ◌≡◌, refl, sym, ap, ap₂, subst, ◌∙◌, List, [], ◌∷◌, ◌++◌,
  append-nil, Option, none, some, All, String, ==-refl, bytes_eq, Bool, true, false, not, ◌||◌, ltb,
  ◌==◌, if◌then◌else◌, min, length, length-append, ok, ◌>>=◌, arith,
}
use rill.Attach.Bytes.{le_bytes, from_le, from_le-le_bytes}
use rill.Screen.Cell.{Cell, overwrite}
use rill.Screen.State.{Screen}
use rill.Screen.Valid.{IsValid, GridFits}
use rill.Screen.Checkpoint.Reader.{
  Reader, ◌then◌, fail, put_u16, put_u64, take_many, put_many, Reads, Reads-then, Reads-last,
  Reads-u16, Reads-u32, Reads-many,
}
use rill.Screen.Checkpoint.Items.{put_cell, take_cell}
use rill.Screen.Checkpoint.Reads.{
  Reads-color, Reads-palette, CellFits, Reads-cell, CursorFits, ClusterFits, OptionFits, Reads-none,
  Reads-some, Reads-saved, Reads-open_cluster,
}
use rill.Screen.Checkpoint.Flags.{
  checkpoint_flags, checkpoint_flags_bound, apply_checkpoint_flags-checkpoint_flags,
}
use rill.Screen.Checkpoint.Hash.{fnv1a64_with_zero_hash, fnv_bound, fnv_ignores_hash}
use rill.Screen.Checkpoint.Image.{
  magic, version, pen_of, grids_of, put_pen, put_saved_grid, put_grids, payload, blob,
  export_checkpoint, take_pen, take_saved_grid, take_grids, restored, take_body, take_screen,
  at_end, import_checkpoint,
}

-- The fields are within their machine widths, and the palette has its sixteen colours.
pub record IsStorable (s : Screen) : Type 0 where
  pub cols : s.cols < 2 ^ 16
  pub rows : s.rows < 2 ^ 16
  pub pen_attrs : s.pen_attrs < 2 ^ 16
  pub ansi : length s.palette.ansi ≡ 16
  pub truncated : s.grapheme_truncated < 2 ^ 32
  pub cells : All CellFits s.cells
  pub saved_grid : OptionFits (All CellFits) s.saved_grid
  pub saved_cursor : OptionFits CursorFits s.saved_cursor
  pub alt_cursor : OptionFits CursorFits s.alt_cursor
  pub open_cluster : OptionFits ClusterFits s.open_cluster

Reads-cells :
    (cells : List Cell) (n : ℕ)
    → length cells ≡ n
    → All CellFits cells
    → Reads (take_many n take_cell) (put_many put_cell cells) cells
Reads-cells cells n e v =
    subst (λ n. Reads (take_many n take_cell) (put_many put_cell cells) cells) e
      (Reads-many take_cell put_cell CellFits Reads-cell cells v)

Reads-saved_grid :
    (grid : Option (List Cell)) (n : ℕ)
    → GridFits n grid
    → OptionFits (All CellFits) grid
    → Reads (take_saved_grid n) (put_saved_grid grid) grid
unfolding take_saved_grid put_saved_grid
Reads-saved_grid none n e v = Reads-none "bad saved grid tag" (take_many n take_cell)
Reads-saved_grid (some grid) n e v = Reads-some "bad saved grid tag" (Reads-cells grid n e v)

Reads-otherwise :
    {A : Type 0} (b : Bool) (what : String) {t : Reader A} {bytes : List ℕ} {a : A}
    → b ≡ false
    → Reads t bytes a
    → Reads (if b then fail what else t) bytes a
Reads-otherwise true what e h = cc
Reads-otherwise false what e h = h

not_empty : (cols rows : ℕ) → 1 ≤ cols → 1 ≤ rows → (cols == 0 || rows == 0) ≡ false
not_empty cols rows c r = ground arith

min_lem : (a n : ℕ) → a < n → min a (n - 1) ≡ a
min_lem a n h = omega arith

-- the screen `s` as it is taken up by the screen `t`
abbrev pub reopened : Screen → Screen → Screen
reopened s t = record s {
  full_damage = true;
  damage_row0 = 0;
  damage_row1 = 0;
  replies = [];
  replies_dropped = t.replies_dropped;
  discard_replies = false;
  scrolled_off = t.scrolled_off;
}

module _ (s : Screen) (v : IsValid s) (w : IsStorable s) where
  Reads-pen : Reads take_pen (put_pen (pen_of s)) (pen_of s)
  unfolding take_pen put_pen
  Reads-pen = Reads-then _ (Reads-u16 s.cursor_col (omega (arith, v.in_col, w.cols))) (
      Reads-then _ (Reads-u16 s.cursor_row (omega (arith, v.in_row, w.rows))) (
        Reads-then _ (Reads-u16 s.scroll_top (omega (arith, v.region, v.in_bottom, w.rows))) (
          Reads-then _ (Reads-u16 s.scroll_bottom (omega (arith, v.in_bottom, w.rows))) (
            Reads-then _ (Reads-u16 s.pen_attrs w.pen_attrs) (
              Reads-then _ (Reads-u32 (checkpoint_flags s) (checkpoint_flags_bound s)) (
                Reads-then _ (Reads-color s.pen_fg) (
                  Reads-then _ (Reads-color s.pen_bg) (
                    Reads-then _ (Reads-palette s.palette w.ansi)
                      (Reads-last _ (Reads-u32 s.grapheme_truncated w.truncated))))))))))

  Reads-grids : Reads (take_grids (s.cols * s.rows)) (put_grids (grids_of s)) (grids_of s)
  unfolding take_grids put_grids
  Reads-grids = Reads-then _ (Reads-cells s.cells (s.cols * s.rows) v.filled w.cells) (
      Reads-then _ (Reads-saved_grid s.saved_grid (s.cols * s.rows) v.kept w.saved_grid) (
        Reads-then _ (Reads-saved s.saved_cursor w.saved_cursor) (
          Reads-then _ (Reads-saved s.alt_cursor w.alt_cursor)
            (Reads-last _ (Reads-open_cluster s.open_cluster w.open_cluster)))))

  Reads-screen :
      (t : Screen)
      → Reads (take_screen t) (payload s) (restored t s.cols s.rows (pen_of s) (grids_of s))
  unfolding take_screen payload take_body
  Reads-screen t = Reads-then _ (Reads-u16 s.cols w.cols) (
      Reads-then _ (Reads-u16 s.rows w.rows) (
        Reads-otherwise (s.cols == 0 || s.rows == 0) "empty grid"
          (not_empty s.cols s.rows v.cols_pos v.rows_pos)
          (Reads-then _ Reads-pen (Reads-last _ Reads-grids))))

  restored-same : (t : Screen) → restored t s.cols s.rows (pen_of s) (grids_of s) ≡ reopened s t
  unfolding restored
  restored-same t = apply_checkpoint_flags-checkpoint_flags s _ ∙ (λ i. record (reopened s t) {
    cursor_col = min_lem s.cursor_col s.cols v.in_col i;
    cursor_row = min_lem s.cursor_row s.rows v.in_row i;
  })

  take_screen-payload : (t : Screen) → take_screen t (payload s) ≡ ok (reopened s t, [])
  take_screen-payload t =
      ap (take_screen t) (sym (append-nil (payload s)))
      ∙ (Reads-screen t).run []
      ∙ ap (λ s. ok (s, [])) (restored-same t)

overwrite-nil : (xs : List ℕ) → overwrite xs 0 [] ≡ xs
unfolding overwrite
overwrite-nil [] = refl
overwrite-nil (x ∷ xs) = refl

long_enough : (xs ys : List ℕ) → length xs ≡ 22 → ltb (length (xs ++ ys)) 22 ≡ false
long_enough xs ys h = ground (arith, length-append xs ys)

export_checkpoint-blob :
    (s : Screen) (off : ℕ)
    → export_checkpoint s off
      ≡ blob off (fnv1a64_with_zero_hash (blob off 0 (payload s))) (payload s)
unfolding export_checkpoint overwrite le_bytes
export_checkpoint-blob s off =
    ap (λ bytes. blob off (fnv1a64_with_zero_hash (blob off 0 (payload s))) bytes)
      (overwrite-nil (payload s))

-- the hash that is stored is the hash of the blob that it is stored in
stored_hash :
    (off : ℕ) (bytes : List ℕ)
    → (from_le (le_bytes 8 (fnv1a64_with_zero_hash (blob off 0 bytes)))
        == fnv1a64_with_zero_hash (blob off (fnv1a64_with_zero_hash (blob off 0 bytes)) bytes))
      ≡ true
stored_hash off bytes =
    let h = fnv1a64_with_zero_hash (blob off 0 bytes) in
    ap₂ (λ a b. a == b) (from_le-le_bytes 8 h (omega (arith, fnv_bound (blob off 0 bytes))))
      (fnv_ignores_hash 1 off h 0 bytes)
    ∙ ==-refl h

-- A blob with the hash of its bytes passes the checks, and its body is taken.
import-blob :
    (t : Screen) (off : ℕ) (bytes : List ℕ)
    → off < 2 ^ 64
    → import_checkpoint t (blob off (fnv1a64_with_zero_hash (blob off 0 bytes)) bytes)
      ≡ (take_screen t bytes >>= at_end off)
unfolding import_checkpoint bytes_eq le_bytes from_le
import-blob t off bytes h =
    let hash = fnv1a64_with_zero_hash (blob off 0 bytes) in
    if_skipped (ltb (length (blob off hash bytes)) 22) _
      (long_enough (magic ++ (put_u16 version ++ (put_u64 off ++ put_u64 hash))) bytes refl)
    ∙ if_skipped (not (from_le (le_bytes 8 hash) == fnv1a64_with_zero_hash (blob off hash bytes))) _
        (ap not (stored_hash off bytes))
    ∙ ap (λ n. take_screen t bytes >>= at_end n) (from_le-le_bytes 8 off (omega (arith, h)))

-- Importing what a valid screen exported, its fields within their machine widths, succeeds on any
-- screen: it returns the offset that was stored, and the importing screen becomes the exported one,
-- but that it is fully damaged, owes no replies and does not discard them, and keeps its own count of
-- dropped replies and its own rows that scrolled off.
pub import_checkpoint-export_checkpoint :
    (s t : Screen) (off : ℕ)
    → IsValid s
    → IsStorable s
    → off < 2 ^ 64
    → import_checkpoint t (export_checkpoint s off) ≡ ok (reopened s t, off)
unfolding at_end
import_checkpoint-export_checkpoint s t off v w h =
    ap (import_checkpoint t) (export_checkpoint-blob s off)
    ∙ import-blob t off (payload s) h
    ∙ ap (λ r. r >>= at_end off) (take_screen-payload s v w t)
