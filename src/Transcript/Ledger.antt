-- ===== src/Transcript/Ledger.antt =====
-- `TranscriptLedger` and `append`.
use rill.Prelude.{
  ℕ, max, List, [], ◌∷◌, ◌++◌, Option, none, some, String, string_discrete, ite, not, ◌==◌, ltb,
  leb, if◌then◌else◌, length, get_elem?, lookup, insert, Result, ok, err, ◌>>◌,
}
use rill.Transcript.Event.{
  SemanticEvent, SemanticEvent-discrete, terminal_range, TranscriptError, conflicting_event_id,
  out_of_order_sequence, generation_mismatch, overlapping_terminal_range, capacity_exceeded,
}

pub record TranscriptLedger : Type 0 where
  pub events : List SemanticEvent
  pub by_id : List (String × ℕ)
  pub last_sequence : Option ℕ
  pub execution_generation : Option ℕ
  pub last_terminal_end : Option ℕ
  pub max_events : ℕ

unfoldable pub with_max_events : ℕ → TranscriptLedger
with_max_events max_events = record {
  events = [];
  by_id = [];
  last_sequence = none;
  execution_generation = none;
  last_terminal_end = none;
  max_events = max max_events 1;
}

abbrev pub new : TranscriptLedger
new = with_max_events 4096

abbrev pub unwrap_or_zero : Option ℕ → ℕ
unwrap_or_zero none = 0
unwrap_or_zero (some n) = n

abbrev pub Check : Type 0
Check = Result TranscriptError (Unit {0})

unfoldable pub check_capacity : TranscriptLedger → Check
check_capacity l =
    if leb l.max_events (length l.events)
    then err (capacity_exceeded l.max_events (unwrap_or_zero l.last_sequence))
    else ok tt

unfoldable pub check_sequence : Option ℕ → ℕ → Check
check_sequence none got = ok tt
check_sequence (some last) got =
    if leb got last then err (out_of_order_sequence last got) else ok tt

unfoldable pub check_generation : Option ℕ → ℕ → Check
check_generation none got = ok tt
check_generation (some generation) got =
    if not (got == generation) then err (generation_mismatch generation got) else ok tt

unfoldable pub check_overlap : Option ℕ → ℕ → Check
check_overlap none start = ok tt
check_overlap (some previous_end) start =
    if ltb start previous_end then err (overlapping_terminal_range previous_end start) else ok tt

unfoldable pub check_terminal : TranscriptLedger → SemanticEvent → Option (ℕ × ℕ) → Check
check_terminal l e none = ok tt
check_terminal l e (some (start, end)) =
    check_generation l.execution_generation e.execution_generation
    >> check_overlap l.last_terminal_end start

-- the fields that a terminal range moves
abbrev pub move_terminal : TranscriptLedger → SemanticEvent → Option (ℕ × ℕ) → TranscriptLedger
move_terminal l e none = l
move_terminal l e (some (start, end)) = record l {
  execution_generation = some e.execution_generation;
  last_terminal_end = some end;
}

unfoldable pub commit : TranscriptLedger → SemanticEvent → TranscriptLedger
commit l e =
    let moved = move_terminal l e (terminal_range e.payload) in
    record moved {
      last_sequence = some e.sequence;
      by_id = insert string_discrete e.event_id (length l.events) l.by_id;
      events = l.events ++ e ∷ [];
    }

-- the ledger after `append`, and what `append` returns
abbrev pub Appended : Type 0
Appended = TranscriptLedger × Check

abbrev pub committed : TranscriptLedger → SemanticEvent → Check → Appended
committed l e (ok _) = (commit l e, ok tt)
committed l e (err x) = (l, err x)

-- an event whose id is not in the ledger
unfoldable pub append_new : TranscriptLedger → SemanticEvent → Appended
append_new l e = committed l e (
    check_capacity l
    >> check_sequence l.last_sequence e.sequence
    >> check_terminal l e (terminal_range e.payload))

-- an event whose id is there, against the event stored under it; `none` is an index out of range,
-- where the code would panic
unfoldable pub append_again :
    TranscriptLedger → SemanticEvent → Option SemanticEvent → Option Appended
append_again l e none = none
append_again l e (some stored) =
    some
      (ite (SemanticEvent-discrete stored e) (l, ok tt) (l, err (conflicting_event_id e.event_id)))

unfoldable pub append_at : TranscriptLedger → SemanticEvent → Option ℕ → Option Appended
append_at l e none = some (append_new l e)
append_at l e (some index) = append_again l e (get_elem? l.events index)

unfoldable pub append : TranscriptLedger → SemanticEvent → Option Appended
append l e = append_at l e (lookup string_discrete e.event_id l.by_id)
