-- ===== src/Transcript/Tests.antt =====
-- The theorems about the ledger at concrete events.
use rill.Prelude.{◌≡◌, ◌⊎◌, some, arith, ok, [], ◌∷◌}
use rill.Transcript.Event.{
  SemanticEvent, pty, structured_input, terminal_output, command_submitted, terminal_range,
}
use rill.Transcript.Ledger.{TranscriptLedger, Check, with_max_events, append}
use rill.Transcript.Identity.{IsValid, with_max_events-IsValid, append-IsValid}

abbrev empty : TranscriptLedger
empty = with_max_events 2

-- the bytes 0 to 5 of the first execution
abbrev output : SemanticEvent
output = record {
  event_id = "e1";
  sequence = 1;
  execution_generation = 1;
  provenance = pty;
  payload = terminal_output 0 5;
}

abbrev command : SemanticEvent
command = record {
  event_id = "e1";
  sequence = 2;
  execution_generation = 1;
  provenance = structured_input;
  payload = command_submitted "ls";
}

append-IsValid_example :
    (l' : TranscriptLedger) × (c : Check) × (append empty output ≡ some (l', c))
    × IsValid l'
    × ((c ≡ ok tt) ⊎ (l' ≡ empty))
unfolding terminal_range
append-IsValid_example = append-IsValid empty output (with_max_events-IsValid 2) (omega arith)

abbrev after : TranscriptLedger
after = record {
  events = output ∷ [];
  by_id = ("e1", 0) ∷ [];
  last_sequence = some 1;
  execution_generation = some 1;
  last_terminal_end = some 5;
  max_events = 2;
}
