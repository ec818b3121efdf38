-- ===== src/Automation/Action.antt =====
-- automation.rs: the actions and `validate`. A text that is read is its code points; an `f64` is its
-- bit pattern, whose order is the numbers' order where the sign is not set.
use rill.Prelude.{
  ℕ, ◌==◌, Bool, true, ◌||◌, ◌&&◌, leb, in_range, if◌then◌else◌, Option, none, some, List, [], ◌∷◌,
  String, Result, ok, err, ◌>>◌,
}

abbrev pub Text : Type 0
Text = List ℕ

pub data SplitDirection : Type 0 where
  left right up down : SplitDirection

unfoldable pub direction_name : SplitDirection → String
direction_name left = "left"
direction_name right = "right"
direction_name up = "up"
direction_name down = "down"

pub data RillAction : Type 0 where
  -- tab, title, command
  create_tab : Option Text → Option Text → Option Text → RillAction
  close_tab : Text → RillAction
  -- pane, direction, command
  split_pane : Text → SplitDirection → Option Text → RillAction
  focus_pane : Text → RillAction
  -- tab, title
  set_tab_title : Text → Text → RillAction
  -- tab, badge
  set_tab_badge : Text → Text → RillAction
  -- title, body
  show_notification : Text → Text → RillAction
  -- theme, background opacity
  change_runtime_appearance_override : Text → Option ℕ → RillAction
  -- command, directory
  run_command : Text → Option Text → RillAction
  open_workspace : Text → RillAction

pub data ActionValidationError : Type 0 where
  empty_value missing_identifier : String → ActionValidationError
  invalid_opacity : ActionValidationError

abbrev pub Checked : Type 0
Checked = Result ActionValidationError (Unit {0})

-- `char::is_whitespace`
unfoldable pub is_whitespace : ℕ → Bool
is_whitespace c =
    in_range 9 13 c
    || (c == 0x20)
    || (c == 0x85)
    || (c == 0xa0)
    || (c == 0x1680)
    || in_range 0x2000 0x200a c
    || (c == 0x2028)
    || (c == 0x2029)
    || (c == 0x202f)
    || (c == 0x205f)
    || (c == 0x3000)

-- `trim().is_empty()`
unfoldable pub is_blank : Text → Bool
is_blank [] = true
is_blank (c ∷ cs) = is_whitespace c && is_blank cs

unfoldable pub identified : String → Text → Checked
identified name text = if is_blank text then err (missing_identifier name) else ok tt

unfoldable pub filled : String → Text → Checked
filled name text = if is_blank text then err (empty_value name) else ok tt

unfoldable pub filled_if : String → Option Text → Checked
filled_if name none = ok tt
filled_if name (some text) = filled name text

-- from 0.0 to 1.0, or -0.0: what is not a number is out of range
unfoldable pub opacity_ok : Option ℕ → Checked
opacity_ok none = ok tt
opacity_ok (some bits) =
    if leb bits 0x3ff0000000000000 || (bits == 0x8000000000000000)
    then ok tt
    else err invalid_opacity

unfoldable pub validate : RillAction → Checked
validate (create_tab none title command) = ok tt
validate (create_tab (some id) title command) =
    identified "tab_id" id >> (filled_if "title" title >> filled_if "command" command)
validate (close_tab id) = identified "tab_id" id
validate (split_pane id direction command) = identified "pane_id" id >> filled_if "command" command
validate (focus_pane id) = identified "pane_id" id
validate (set_tab_title id title) = identified "tab_id" id >> filled "title" title
validate (set_tab_badge id badge) = identified "tab_id" id >> filled "badge" badge
validate (show_notification title body) = filled "title" title >> filled "body" body
validate (change_runtime_appearance_override theme opacity) =
    filled "theme" theme >> opacity_ok opacity
validate (run_command command cwd) = filled "command" command >> filled_if "cwd" cwd
validate (open_workspace path) = filled "path" path
