-- ===== src/Content/Event.antt =====
-- `SourceRange`, `ReplayState` and `ContentEvent`. A text is its bytes.
use rill.Prelude.{
  ℕ, ◌+◌, ◌-◌, max, Bool, true, false, ◌&&◌, List, Option, none, some, ◌==◌, leb, if◌then◌else◌,
  length, bytes_eq, Result, ok, err,
}
use rill.Ring.{saturating_add}

pub record SourceRange : Type 0 where
  pub generation : ℕ
  pub start : ℕ
  pub end : ℕ
  pub checkpoint_id : Option (List ℕ)

pub data ReplayState : Type 0 where
  stream_origin : ReplayState
  -- id, generation, ending offset
  at_checkpoint : List ℕ → ℕ → ℕ → ReplayState

pub data ContentError : Type 0 where
  duplicate_event_id : List ℕ → ContentError
  out_of_order_sequence : List ℕ → ℕ → ℕ → ContentError
  capture_disabled : ContentError
  -- limit, attempted
  retention_limit_exceeded : ℕ → ℕ → ContentError
  invalid_source_range : ℕ → ℕ → ContentError
  replay_state_required incompatible_replay_state : ContentError
  alternate_screen_not_materialized : ContentError

-- `SourceRange::new`
unfoldable pub new_source_range : ℕ → ℕ → ℕ → Option (List ℕ) → Result ContentError SourceRange
new_source_range generation start end checkpoint_id =
    if leb end start
    then err (invalid_source_range start end)
    else ok (record {
      generation = generation;
      start = start;
      end = end;
      checkpoint_id = checkpoint_id;
    })

-- `self.checkpoint_id.as_deref() == Some(id)`
abbrev pub names : Option (List ℕ) → List ℕ → Bool
names none id = false
names (some own) id = bytes_eq own id

unfoldable pub validate_replay : SourceRange → ReplayState → Result ContentError (Unit {0})
validate_replay r stream_origin = if r.start == 0 then ok tt else err replay_state_required
validate_replay r (at_checkpoint id generation ending) =
    if names r.checkpoint_id id && r.generation == generation && r.start == ending
    then ok tt
    else err incompatible_replay_state

pub data ContentKind : Type 0 where
  terminal_input terminal_output background_output agent_message tool_call tool_result : ContentKind
  approval question diff_result lifecycle_event discontinuity truncation unstructured : ContentKind

pub data EventAvailability : Type 0 where
  available truncated unavailable : EventAvailability

pub data ScreenMode : Type 0 where
  primary alternate : ScreenMode

pub record ContentEvent : Type 0 where
  pub event_id : List ℕ
  pub kind : ContentKind
  pub sequence : ℕ
  pub parent_event_id : Option (List ℕ)
  pub source_range : Option (ℕ × ℕ)
  pub availability : EventAvailability
  pub source : Option SourceRange
  pub materialized_text : Option (List ℕ)

-- `ContentEvent::new`
unfoldable pub new_content_event :
    List ℕ → ContentKind → ℕ → Option (List ℕ) → Option (ℕ × ℕ) → ContentEvent
new_content_event event_id kind sequence parent_event_id source_range = record {
  event_id = event_id;
  kind = kind;
  sequence = sequence;
  parent_event_id = parent_event_id;
  source_range = source_range;
  availability = available;
  source = none;
  materialized_text = none;
}

-- `ContentEvent::truncated`
unfoldable pub truncated_event : List ℕ → ℕ → ℕ × ℕ → ContentEvent
truncated_event event_id sequence range = record {
  event_id = event_id;
  kind = truncation;
  sequence = sequence;
  parent_event_id = none;
  source_range = some range;
  availability = truncated;
  source = none;
  materialized_text = none;
}

abbrev pub is_terminal_output : ContentKind → Bool
is_terminal_output terminal_output = true
is_terminal_output _ = false

abbrev pub text_size : Option (List ℕ) → ℕ
text_size none = 0
text_size (some text) = length text

-- `saturating_sub` is the subtraction of `ℕ`, which stops at 0.
unfoldable pub size_hint : ContentEvent → ℕ
size_hint e =
    saturating_add (text_size e.materialized_text) (elim e.source_range [
      | some range ↦ max (range.1 - range.0) 1
      | none ↦ length e.event_id + 16
    ])
