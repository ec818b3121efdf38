-- ===== src/Engine/Run.antt =====
-- lib.rs: any run of calls of the engine. A checkpoint that is imported may hold any scroll region, so
-- that `import_checkpoint` is not among them.
use rill.Prelude.{ℕ, ◌≡◌, List, [], ◌∷◌, Option, none, some, Result, ok, err}
use rill.VtTypes.{Error, Palette}
use rill.Parser.State.{new as new_parser}
use rill.Screen.State.{Screen, new as new_screen}
use rill.Screen.Snapshot.{
  resize as resize_screen, snapshot as snapshot_screen, take_replies as take_screen_replies,
  take_scrolled_off as take_screen_rows, set_palette as set_screen_palette,
}
use rill.Engine.State.{
  VtEngine, reset, feed, resize, snapshot, take_replies, take_scrolled_off, set_palette,
}
use rill.Engine.Feed.{IsSound}

pub data Call : Type 0 where
  feed_bytes : List ℕ → Call
  resize_to : ℕ → ℕ → Call
  reset_all : Call
  take_snapshot : Call
  drain_replies : Call
  drain_rows : Call
  use_palette : Palette → Call

-- what a call that may fail leaves: the engine as it was, if it fails
abbrev pub kept : VtEngine → Result Error VtEngine → VtEngine
kept e (ok e') = e'
kept e (err x) = e

unfoldable pub call : VtEngine → Call → Option VtEngine
call e (feed_bytes bytes) = feed e bytes
call e (resize_to cols rows) = some (kept e (resize e cols rows))
call e reset_all = some (reset e).0
call e take_snapshot = some (snapshot e).0
call e drain_replies = some (take_replies e).0
call e drain_rows = some (take_scrolled_off e).0
call e (use_palette p) = some (set_palette e p)

unfoldable pub calls : Option VtEngine → List Call → Option VtEngine
calls none cs = none
calls (some e) [] = some e
calls (some e) (c ∷ cs) = calls (call e c) cs

-- a result that is there, and is sound
pub record Runs (o : Option VtEngine) : Type 0 where
  pub engine : VtEngine
  pub result : o ≡ some engine
  pub sound : IsSound engine
