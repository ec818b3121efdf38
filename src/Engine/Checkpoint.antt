-- ===== src/Engine/Checkpoint.antt =====
-- `export_checkpoint` and `import_checkpoint` of `VtEngine`.
use rill.Prelude.{ℕ, ◌^◌, ◌<◌, ◌≡◌, ap, ◌∙◌, List, true, if◌then◌else◌, Result, ok, err, ◌>>=◌}
use rill.VtTypes.{Error, vt}
use rill.Parser.State.{new}
use rill.Parser.Step.{is_idle}
use rill.Screen.Valid.{IsValid}
use rill.Screen.Checkpoint.Image.{
  export_checkpoint as export_screen, import_checkpoint as import_screen,
}
use rill.Screen.Checkpoint.RoundTrip.{IsStorable, reopened, import_checkpoint-export_checkpoint}
use rill.Engine.State.{VtEngine}

unfoldable pub export_checkpoint : VtEngine → ℕ → Result Error (List ℕ)
export_checkpoint e off =
    if is_idle e.parser then ok (export_screen e.screen off) else err (vt "incomplete parser")

-- the engine with a screen that was imported, and a new parser
unfoldable pub import_checkpoint : VtEngine → List ℕ → Result Error (VtEngine × ℕ)
import_checkpoint e bytes =
    import_screen e.screen bytes >>= λ r. ok (record { parser = new; screen = r.0 }, r.1)

-- An engine whose parser is idle, whose screen is valid and whose fields are within their machine
-- widths, exports a checkpoint. Any engine imports it: it gets the offset, a new parser, and the
-- exporting engine's screen with what a screen that is taken up has as its own.
pub import_checkpoint-export :
    (e into : VtEngine) (off : ℕ)
    → is_idle e.parser ≡ true
    → IsValid e.screen
    → IsStorable e.screen
    → off < 2 ^ 64
    → (export_checkpoint e off >>= import_checkpoint into)
      ≡ ok (record { parser = new; screen = reopened e.screen into.screen }, off)
unfolding export_checkpoint import_checkpoint
import_checkpoint-export e into off idle v w h =
    ap
      (λ b.
        (if b then ok (export_screen e.screen off) else err (vt "incomplete parser"))
        >>= import_checkpoint into)
      idle
    ∙ ap (λ r. r >>= λ r. ok (record { parser = new; screen = r.0 }, r.1))
        (import_checkpoint-export_checkpoint e.screen into.screen off v w h)
