-- ===== src/Content/Timeline.antt =====
-- `ContentTimeline` and `DurableTranscript`.
use rill.Prelude.{
  ℕ, Bool, true, false, not, ◌&&◌, List, [], ◌∷◌, ◌++◌, Option, none, some, ltb, leb, if◌then◌else◌,
  bytes_eq, Result, ok, err, ◌>>◌,
}
use rill.Ring.{saturating_add}
use rill.Content.Event.{
  ContentEvent, ContentError, ScreenMode, primary, alternate, discontinuity, is_terminal_output,
  size_hint, new_content_event, truncated_event, duplicate_event_id, out_of_order_sequence,
  capture_disabled, retention_limit_exceeded, alternate_screen_not_materialized,
}
use rill.Content.Policy.{RetentionPolicy, allows_capture}

pub record ContentTimeline : Type 0 where
  pub events : List ContentEvent
  pub ids : List (List ℕ)
  pub last_sequence : Option ℕ
  pub bytes_used : ℕ
  pub screen_mode : ScreenMode

unfoldable pub new : ContentTimeline
new = record { events = []; ids = []; last_sequence = none; bytes_used = 0; screen_mode = primary }

unfoldable pub accepts_terminal_materialization : ContentTimeline → Bool
accepts_terminal_materialization t = elim t.screen_mode [ primary ↦ true | alternate ↦ false ]

-- `ids.contains`
unfoldable pub has_id : List ℕ → List (List ℕ) → Bool
has_id id [] = false
has_id id (own ∷ ids) = if bytes_eq own id then true else has_id id ids

abbrev pub Check : Type 0
Check = Result ContentError (Unit {0})

unfoldable pub check_screen : ContentTimeline → ContentEvent → Check
check_screen t e =
    if is_terminal_output e.kind && not (accepts_terminal_materialization t)
    then err alternate_screen_not_materialized
    else ok tt

unfoldable pub check_id : ContentTimeline → ContentEvent → Check
check_id t e = if has_id e.event_id t.ids then err (duplicate_event_id e.event_id) else ok tt

unfoldable pub check_order : Option ℕ → ContentEvent → Check
check_order none e = ok tt
check_order (some last) e =
    if leb e.sequence last then err (out_of_order_sequence e.event_id last e.sequence) else ok tt

-- the event is stored
unfoldable pub store : ContentTimeline → ContentEvent → ContentTimeline
store t e = record t {
  ids = t.ids ++ e.event_id ∷ [];
  last_sequence = some e.sequence;
  bytes_used = saturating_add t.bytes_used (size_hint e);
  events = t.events ++ e ∷ [];
}

-- the timeline after an operation, and what the operation returns
abbrev pub Stored : Type 0
Stored = ContentTimeline × Check

abbrev pub stored : ContentTimeline → ContentEvent → Check → Stored
stored t e (ok _) = (store t e, ok tt)
stored t e (err x) = (t, err x)

unfoldable pub append : ContentTimeline → ContentEvent → Stored
append t e = stored t e (check_screen t e >> check_id t e >> check_order t.last_sequence e)

unfoldable pub append_within : Option ℕ → ContentTimeline → ContentEvent → Stored
append_within none t e = append t e
append_within (some limit) t e =
    let attempted = saturating_add t.bytes_used (size_hint e) in
    if ltb limit attempted then (t, err (retention_limit_exceeded limit attempted)) else append t e

unfoldable pub append_with_policy : ContentTimeline → RetentionPolicy → ContentEvent → Stored
append_with_policy t p e =
    if not (allows_capture p) then (t, err capture_disabled) else append_within p.limit_bytes t e

unfoldable pub append_discontinuity : ContentTimeline → List ℕ → ℕ → ℕ → ℕ → Stored
append_discontinuity t event_id sequence start end =
    append t (new_content_event event_id discontinuity sequence none (some (start, end)))

unfoldable pub append_truncation : ContentTimeline → List ℕ → ℕ → ℕ → ℕ → Stored
append_truncation t event_id sequence start end =
    append t (truncated_event event_id sequence (start, end))

abbrev pub set_screen_mode : ContentTimeline → ScreenMode → ContentTimeline
set_screen_mode t mode = record t { screen_mode = mode }

pub data CaptureOutcome : Type 0 where
  refused captured limit_exceeded : CaptureOutcome

pub record DurableTranscript : Type 0 where
  pub policy : RetentionPolicy
  pub events : List ContentEvent
  pub bytes_used : ℕ

-- `limit_bytes.is_some_and(|limit| attempted > limit)`
abbrev pub exceeds : Option ℕ → ℕ → Bool
exceeds none attempted = false
exceeds (some limit) attempted = ltb limit attempted

unfoldable pub capture : DurableTranscript → ContentEvent → DurableTranscript × CaptureOutcome
capture d e =
    let attempted = saturating_add d.bytes_used (size_hint e) in
    if not (allows_capture d.policy)
    then (d, refused)
    else if exceeds d.policy.limit_bytes attempted
    then (d, limit_exceeded)
    else (record d { bytes_used = attempted; events = d.events ++ e ∷ [] }, captured)
