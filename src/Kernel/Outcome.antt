-- ===== src/Kernel/Outcome.antt =====
-- crates/rill-kernel/src/journal.rs: what may be said of an execution after discovery.
use rill.Prelude.{ℕ, Option, none, some, Bool, ◌&&◌, not, if◌then◌else◌}

pub data TerminalOutcome : Type 0 where
  running : ℕ → TerminalOutcome
  host_terminated : TerminalOutcome
  missing : TerminalOutcome
  exited : ℕ → TerminalOutcome

-- the outcome with a live worker
abbrev live_outcome : Option ℕ → TerminalOutcome
live_outcome (some child_pid) = running child_pid
live_outcome none = missing

-- the outcome without a worker, and without a marker of the host's shutdown
abbrev lost_outcome : Option ℕ → TerminalOutcome
lost_outcome (some child_pid) = missing
lost_outcome none = host_terminated

unfoldable pub reconcile_execution : Option ℕ → Bool → Bool → TerminalOutcome
reconcile_execution recorded_pid worker_live shutdown_marker =
    if shutdown_marker && not worker_live
    then host_terminated
    else if worker_live
    then live_outcome recorded_pid
    else lost_outcome recorded_pid
