-- ===== src/Screen/Keeps/Mode.antt =====
-- screen.rs: the alternate screen, the modes and the replies under the screen's invariant.
use rill.Prelude.{
  branch_on, branch, length-replicate, ℕ, ◌+◌, ◌-◌, ◌*◌, ◌≡◌, ◌≤◌, ◌<◌, sym, subst, ◌∙◌, List, [],
  ◌∷◌, Option, none, some, Bool, true, false, not, ltb, leb, ◌==◌, ◌||◌, arith, length,
  length-append,
}
use rill.Screen.Cell.{Cell, blank}
use rill.Screen.State.{Screen, SavedCursor}
use rill.Screen.Modes.{
  blank_grid, save_primary, clear_grid, enter_alt, restore_grid, restore_alt_cursor, leave_alt,
  csi_n, set_region, set_scroll_region, private_mode_one, private_mode,
}
use rill.Screen.Reply.{reply_cap, enqueue_reply, reply_dsr_cursor}
use rill.Screen.Keeps.{Keeps, keep, either}
use rill.Screen.Valid.{IsValid, GridFits, set_cursor-IsValid, restore_cursor-IsValid}

-- other cells and another grid that is kept
pub grids-IsValid :
    (s : Screen)
    → IsValid s
    → (cells : List Cell) (saved : Option (List Cell)) → length cells ≡ s.cols * s.rows
    → GridFits (s.cols * s.rows) saved
    → IsValid (record s { cells = cells; saved_grid = saved })
grids-IsValid s v cells saved e k = record {
  cols_pos = v.cols_pos;
  rows_pos = v.rows_pos;
  filled = e;
  in_col = v.in_col;
  in_row = v.in_row;
  region = v.region;
  in_bottom = v.in_bottom;
  kept = k;
  owed_cap = v.owed_cap;
  quiet = v.quiet;
}

save_primary-IsValid : (s : Screen) → IsValid s → (c : Bool) → IsValid (save_primary s c)
unfolding save_primary
save_primary-IsValid s v c =
    branch (not s.in_alt) IsValid (grids-IsValid s v s.cells (some s.cells) v.filled v.filled) v

clear_grid-IsValid : (s : Screen) → IsValid s → IsValid (clear_grid s)
unfolding clear_grid blank_grid
clear_grid-IsValid s v =
    set_cursor-IsValid (record s { cells = blank_grid s }) 0 0
      (grids-IsValid s v (blank_grid s) s.saved_grid
        (length-replicate (s.cols * s.rows) (blank s.pen_bg)) v.kept)

pub enter_alt-IsValid :
    (s : Screen) → IsValid s → (save_cursor clear : Bool) → IsValid (enter_alt s save_cursor clear)
unfolding enter_alt
enter_alt-IsValid s v save_cursor clear =
    let saved = save_primary-IsValid s v save_cursor in
    branch clear IsValid (clear_grid-IsValid (save_primary s save_cursor) saved) saved

restore_grid-IsValid :
    (s : Screen)
    → IsValid s
    → (grid : Option (List Cell)) → GridFits (s.cols * s.rows) grid
    → IsValid (restore_grid s grid)
unfolding restore_grid
restore_grid-IsValid s v none k = v
restore_grid-IsValid s v (some grid) k = grids-IsValid s v grid none k tt

restore_alt_cursor-IsValid :
    (s : Screen) → IsValid s → (c : Option SavedCursor) → IsValid (restore_alt_cursor s c)
unfolding restore_alt_cursor
restore_alt_cursor-IsValid s v none = v
restore_alt_cursor-IsValid s v (some c) =
    restore_cursor-IsValid (record s { alt_cursor = none }) c v

pub leave_alt-IsValid :
    (s : Screen) → IsValid s → (with_cursor : Bool) → IsValid (leave_alt s with_cursor)
unfolding leave_alt
leave_alt-IsValid s v with_cursor =
    let shown = restore_grid s s.saved_grid in
    let w = restore_grid-IsValid s v s.saved_grid v.kept in
    branch (not s.in_alt) IsValid v
      (branch with_cursor IsValid (restore_alt_cursor-IsValid shown w shown.alt_cursor) w)

-- what the bounds of a region that is set satisfy
region_bounds :
    (rows top bot : ℕ)
    → (ltb top 1 || ltb rows bot || leb bot top) ≡ false
    → (1 ≤ top) × (top < bot) × (bot ≤ rows)
region_bounds rows top bot h = ground arith

reply_fits : (a b : ℕ) → ltb reply_cap (a + b) ≡ false → a + b ≤ reply_cap
reply_fits a b h = ground arith

set_region-IsValid : (s : Screen) → IsValid s → (top bot : ℕ) → IsValid (set_region s top bot)
unfolding set_region
set_region-IsValid s v top bot =
    branch_on (ltb top 1 || ltb s.rows bot || leb bot top) IsValid (λ _. v)
      (λ fits.
        let (low, apart, high) = region_bounds s.rows top bot fits in
        set_cursor-IsValid (record s { scroll_top = top - 1; scroll_bottom = bot - 1 }) 0 0
          (record {
            cols_pos = v.cols_pos;
            rows_pos = v.rows_pos;
            filled = v.filled;
            in_col = v.in_col;
            in_row = v.in_row;
            region = omega (arith, low, apart);
            in_bottom = omega (arith, low, apart, high);
            kept = v.kept;
            owed_cap = v.owed_cap;
            quiet = v.quiet;
          }))

pub set_scroll_region-IsValid :
    (s : Screen) → IsValid s → (params : List ℕ) → IsValid (set_scroll_region s params)
unfolding set_scroll_region
set_scroll_region-IsValid s v params =
    set_region-IsValid s v (csi_n params 0 1) (csi_n params 1 s.rows)

private_mode_one-Keeps :
    (s : Screen) → IsValid s → (p : ℕ) (on : Bool) → Keeps (private_mode_one s p on)
unfolding private_mode_one
private_mode_one-Keeps s v p on = either (p == 1) (keep v) (
    either (p == 7) (keep v) (
      either (p == 25) (keep v) (
        either (p == 2004) (keep v) (
          either (p == 1000) (keep v) (
            either (p == 1002) (keep v) (
              either (p == 1003) (keep v) (
                either (p == 1004) (keep v) (
                  either (p == 1006) (keep v) (
                    either (p == 1047)
                      (either on (keep (enter_alt-IsValid s v false true))
                        (keep (leave_alt-IsValid s v false)))
                      (either (p == 1049)
                        (either on (keep (enter_alt-IsValid s v true true))
                          (keep (leave_alt-IsValid s v true)))
                        (keep v)))))))))))

pub private_mode-IsValid :
    (s : Screen) → IsValid s → (params : List ℕ) (on : Bool) → IsValid (private_mode s params on)
unfolding private_mode
private_mode-IsValid s v [] on = v
private_mode-IsValid s v (p ∷ ps) on =
    private_mode-IsValid (private_mode_one s p on) (private_mode_one-Keeps s v p on).valid ps on

pub enqueue_reply-IsValid :
    (s : Screen) → IsValid s → (bytes : List ℕ) → IsValid (enqueue_reply s bytes)
unfolding enqueue_reply
enqueue_reply-IsValid s v bytes =
    branch_on s.discard_replies IsValid (λ _. v)
      (λ off.
        branch_on (ltb reply_cap (length s.replies + length bytes)) IsValid (λ _. v)
          (λ fits. record {
            cols_pos = v.cols_pos;
            rows_pos = v.rows_pos;
            filled = v.filled;
            in_col = v.in_col;
            in_row = v.in_row;
            region = v.region;
            in_bottom = v.in_bottom;
            kept = v.kept;
            owed_cap =
                subst (λ n. n ≤ reply_cap) (sym (length-append s.replies bytes))
                  (reply_fits (length s.replies) (length bytes) fits);
            quiet = λ on. (let impossible : true ≡ false = sym on ∙ off in cc);
          }))

pub reply_dsr_cursor-IsValid : (s : Screen) → IsValid s → IsValid (reply_dsr_cursor s)
unfolding reply_dsr_cursor
reply_dsr_cursor-IsValid s v = enqueue_reply-IsValid s v _
