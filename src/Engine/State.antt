-- ===== src/Engine/State.antt =====
-- The fields and operations of `VtEngine`. The parser's loop runs on fuel: a result of `feed` is
-- `none` if the fuel runs out.
use rill.Prelude.{ℕ, List, [], ◌∷◌, Option, some, Bool, true, false, Result, ok, err, ◌>>=◌, ◌>>◌}
use mathlib.Core.Option
use rill.VtTypes.{Error, Palette, PodGrid, PodCell, Color, TerminalModeState}
use rill.Parser.State.{Parser, Out, new as new_parser}
use rill.Parser.Step.{feed as feed_parser}
use rill.Screen.State.{Screen, mode_state as screen_mode_state, new as new_screen}
use rill.Screen.Reply.{csi_bytes}
use rill.Screen.Dispatch.{perform_all}
use rill.Screen.Snapshot.{
  set_discard_replies, set_palette as set_screen_palette, take_replies as take_screen_replies,
  take_scrolled_off as take_screen_rows, has_replies as screen_has_replies,
  color_at as screen_color_at, resize as resize_screen, snapshot as snapshot_screen,
}
use rill.Screen.Repaint.{repaint_bytes as repaint_screen}

pub record VtEngine : Type 0 where
  pub parser : Parser
  pub screen : Screen

-- `VtEngine::new`, a new parser on a new screen
unfoldable pub new : ℕ → ℕ → Result Error VtEngine
new cols rows = new_screen cols rows >>= λ s. ok (record { parser = new_parser; screen = s })

-- the new parser is there also if the screen fails
unfoldable pub reset_with : VtEngine → Result Error Screen → VtEngine × Result Error (Unit {0})
reset_with e (ok s) = (record { parser = new_parser; screen = s }, ok tt)
reset_with e (err x) = (record e { parser = new_parser }, err x)

-- the parser and the screen are replaced by new ones of the same size
unfoldable pub reset : VtEngine → VtEngine × Result Error (Unit {0})
reset e = reset_with e (new_screen e.screen.cols e.screen.rows)

-- what the parser calls is performed in its order
abbrev pub driven : VtEngine → Out → VtEngine
driven e o = record { parser = o.0; screen = perform_all e.screen o.1 }

unfoldable pub feed : VtEngine → List ℕ → Option VtEngine
feed e bytes = Option.map (driven e) (feed_parser e.parser bytes)

unfoldable pub resize : VtEngine → ℕ → ℕ → Result Error VtEngine
resize e cols rows =
    resize_screen e.screen cols rows >>= λ s. ok (record { parser = e.parser; screen = s })

abbrev pub with_screen {ℓ} : {A : Type ℓ} → VtEngine → Screen × A → VtEngine × A
with_screen e (s, a) = (record { parser = e.parser; screen = s }, a)

unfoldable pub snapshot : VtEngine → VtEngine × PodGrid
snapshot e = with_screen e (snapshot_screen e.screen)

unfoldable pub color_at : VtEngine → ℕ → ℕ → Option (Color × Color)
color_at e col row = screen_color_at e.screen col row

unfoldable pub set_palette : VtEngine → Palette → VtEngine
set_palette e palette = record e { screen = set_screen_palette e.screen palette }

unfoldable pub take_replies : VtEngine → VtEngine × List ℕ
take_replies e = with_screen e (take_screen_replies e.screen)

unfoldable pub take_scrolled_off : VtEngine → VtEngine × List (List PodCell)
take_scrolled_off e = with_screen e (take_screen_rows e.screen)

unfoldable pub has_replies : VtEngine → Bool
has_replies e = screen_has_replies e.screen

unfoldable pub mode_state : VtEngine → TerminalModeState
mode_state e = screen_mode_state e.screen

unfoldable pub repaint_bytes : VtEngine → List ℕ
repaint_bytes e = repaint_screen e.screen

-- the history is fed to a fresh engine that owes no replies
unfoldable pub replay : VtEngine → List ℕ → Option VtEngine
replay e [] = some e
replay e (b ∷ bs) = feed e (b ∷ bs)

-- the engine behind a resynchronisation, and the bytes that clear a terminal and repaint it
unfoldable pub resynced : VtEngine → VtEngine × List ℕ
resynced e =
    let quiet = set_discard_replies e.screen false in
    (
      record { parser = e.parser; screen = quiet },
      csi_bytes (b'2' ∷ b'J' ∷ csi_bytes (b'H' ∷ repaint_screen quiet)),
    )

abbrev pub discarding : VtEngine → VtEngine
discarding e = record { parser = e.parser; screen = set_discard_replies e.screen true }

-- the engine and the bytes behind a successful reset; an error of it ends the call
unfoldable pub resync_from_history : VtEngine → List ℕ → Result Error (Option (VtEngine × List ℕ))
resync_from_history e history =
    let (fresh, result) = reset e in
    result >> ok (Option.map resynced (replay (discarding fresh) history))
