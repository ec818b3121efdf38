-- ===== src/Content/Tests.antt =====
-- The theorems about the timeline at a concrete event.
use rill.Prelude.{◌≡◌, ◌⊎◌, [], ◌∷◌, none, some, ok}
use rill.Content.Event.{ContentEvent, terminal_output, new_content_event}
use rill.Content.Policy.{RetentionPolicy, disabled, memory_only, durable}
use rill.Content.Timeline.{DurableTranscript, new, append}
use rill.Content.Valid.{IsSound, new-IsSound, append-IsSound}

abbrev output : ContentEvent
output = new_content_event (b'e' ∷ []) terminal_output 1 none (some (0, 8))

abbrev small : RetentionPolicy
small = record { mode = memory_only; limit_bytes = some 4 }

abbrev large : RetentionPolicy
large = record { mode = memory_only; limit_bytes = some 1024 }

abbrev lasting : RetentionPolicy
lasting = record { mode = durable; limit_bytes = some 10 }

abbrev off : DurableTranscript
off = record {
  policy = record { mode = disabled; limit_bytes = none };
  events = [];
  bytes_used = 0;
}

append-IsSound_example :
    IsSound (append new output).0
    × (((append new output).1 ≡ ok tt) ⊎ ((append new output).0 ≡ new))
append-IsSound_example = append-IsSound new output new-IsSound
