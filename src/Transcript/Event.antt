-- ===== src/Transcript/Event.antt =====
-- `EventId`, `EventPayload`, `SemanticEvent` and their checks. An `i32` is its bit pattern, and an
-- event id its text.
use rill.Prelude.{
  ℕ, Bool, true, false, not, ◌&&◌, Option, none, some, String, string_discrete, ℕ_discrete, ite,
  leb, if◌then◌else◌, Result, ok, err, ◌>>◌,
}

pub data EventProvenance : Type 0 where
  pty structured_input shell_mark process tool_adapter runtime : EventProvenance

pub data EventPayload : Type 0 where
  terminal_output : ℕ → ℕ → EventPayload
  command_submitted : String → EventPayload
  process_exited : ℕ → EventPayload
  unstructured : ℕ → ℕ → EventPayload
  discontinuity : ℕ → ℕ → EventPayload

unfoldable pub terminal_range : EventPayload → Option (ℕ × ℕ)
terminal_range (terminal_output start end) = some (start, end)
terminal_range (command_submitted command) = none
terminal_range (process_exited status) = none
terminal_range (unstructured start end) = some (start, end)
terminal_range (discontinuity start end) = some (start, end)

pub record SemanticEvent : Type 0 where
  pub event_id : String
  pub sequence : ℕ
  pub execution_generation : ℕ
  pub provenance : EventProvenance
  pub payload : EventPayload

pub data TranscriptError : Type 0 where
  empty_event_id : TranscriptError
  conflicting_event_id : String → TranscriptError
  out_of_order_sequence : ℕ → ℕ → TranscriptError
  generation_mismatch : ℕ → ℕ → TranscriptError
  invalid_terminal_range : ℕ → ℕ → TranscriptError
  overlapping_terminal_range : ℕ → ℕ → TranscriptError
  unauthorized_provenance : EventProvenance → String → TranscriptError
  capacity_exceeded : ℕ → ℕ → TranscriptError

pub EventPayload-discrete : Discrete EventPayload
EventPayload-discrete = hlevel (ℕ_discrete, string_discrete)

pub EventProvenance-discrete : Discrete EventProvenance
EventProvenance-discrete = hlevel

-- `==` of events
pub SemanticEvent-discrete : Discrete SemanticEvent
SemanticEvent-discrete =
    hlevel (ℕ_discrete, string_discrete, EventPayload-discrete, EventProvenance-discrete)

-- `EventId::new`
unfoldable pub new_event_id : String → Result TranscriptError String
new_event_id value = ite (string_discrete value "") (err empty_event_id) (ok value)

abbrev pub is_command : EventPayload → Bool
is_command (command_submitted command) = true
is_command _ = false

abbrev pub is_exit : EventPayload → Bool
is_exit (process_exited status) = true
is_exit _ = false

-- the producers that may claim a command
abbrev pub may_submit : EventProvenance → Bool
may_submit structured_input = true
may_submit shell_mark = true
may_submit _ = false

abbrev pub is_process : EventProvenance → Bool
is_process process = true
is_process _ = false

abbrev pub check_range : Option (ℕ × ℕ) → Result TranscriptError (Unit {0})
check_range none = ok tt
check_range (some (start, end)) =
    if leb end start then err (invalid_terminal_range start end) else ok tt

abbrev pub check_producer : EventPayload → EventProvenance → Result TranscriptError (Unit {0})
check_producer payload provenance =
    if is_command payload && not (may_submit provenance)
    then err (unauthorized_provenance provenance "command submitted")
    else if is_exit payload && not (is_process provenance)
    then err (unauthorized_provenance provenance "process exited")
    else ok tt

-- `SemanticEvent::new`
unfoldable pub new_event :
    String → ℕ → ℕ → EventProvenance → EventPayload → Result TranscriptError SemanticEvent
new_event event_id sequence generation provenance payload = do
  check_range (terminal_range payload)
  check_producer payload provenance
  ok (record {
    event_id = event_id;
    sequence = sequence;
    execution_generation = generation;
    provenance = provenance;
    payload = payload;
  })
