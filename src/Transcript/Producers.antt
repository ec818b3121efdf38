-- ===== src/Transcript/Producers.antt =====
-- What `SemanticEvent::new` accepts.
use rill.Prelude.{ℕ, ◌<◌, ◌≡◌, ◌⊎◌, inl, inr, refl, String, arith, ok, err}
use rill.Transcript.Event.{
  EventProvenance, pty, structured_input, shell_mark, process, tool_adapter, runtime, EventPayload,
  terminal_output, command_submitted, process_exited, unstructured, discontinuity, TranscriptError,
  terminal_range, new_event,
}

-- A command is claimed by the input or by a shell mark, an exit by the process, and a range has its
-- start below its end.
abbrev pub Allowed : EventProvenance → EventPayload → Type 0
Allowed p (terminal_output start end) = start < end
Allowed p (command_submitted command) = (p ≡ structured_input) ⊎ (p ≡ shell_mark)
Allowed p (process_exited status) = p ≡ process
Allowed p (unstructured start end) = start < end
Allowed p (discontinuity start end) = start < end

-- `SemanticEvent::new` makes the event of its arguments if the producer may claim the payload and a
-- terminal range has its start below its end, and fails otherwise.
pub new_event_lem :
    (event_id : String) (sequence generation : ℕ) (p : EventProvenance) (payload : EventPayload)
    → (Allowed p payload
        × (new_event event_id sequence generation p payload
            ≡ ok (record {
              event_id = event_id;
              sequence = sequence;
              execution_generation = generation;
              provenance = p;
              payload = payload;
            })))
      ⊎ ((¬ Allowed p payload)
          × ((x : TranscriptError) × (new_event event_id sequence generation p payload ≡ err x)))
unfolding new_event terminal_range
new_event_lem i s g p (terminal_output start end) = ground arith
new_event_lem i s g pty (command_submitted command) = ground arith
new_event_lem i s g structured_input (command_submitted command) = inl (inl refl, refl)
new_event_lem i s g shell_mark (command_submitted command) = inl (inr refl, refl)
new_event_lem i s g process (command_submitted command) = ground arith
new_event_lem i s g tool_adapter (command_submitted command) = ground arith
new_event_lem i s g runtime (command_submitted command) = ground arith
new_event_lem i s g pty (process_exited status) = ground arith
new_event_lem i s g structured_input (process_exited status) = ground arith
new_event_lem i s g shell_mark (process_exited status) = ground arith
new_event_lem i s g process (process_exited status) = inl (refl, refl)
new_event_lem i s g tool_adapter (process_exited status) = ground arith
new_event_lem i s g runtime (process_exited status) = ground arith
new_event_lem i s g p (unstructured start end) = ground arith
new_event_lem i s g p (discontinuity start end) = ground arith
