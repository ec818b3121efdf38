-- ===== src/Kernel/Error.antt =====
-- crates/rill-kernel/src/error.rs: the kernel's errors. An `io::Error` is its error number.
use rill.Prelude.{ℕ, String}
use rill.Ring.{RingError, checkpoint_evicted as evicted}

pub data Error : Type 0 where
  pty : String → Error
  spawn : ℕ → Error
  io : ℕ → Error
  dead : Error
  attach_refused : Error
  unknown_session : Error
  cwd_unreadable : Error
  unsupported_platform : String → Error
  unknown_node : Error
  incompatible_checkpoint : Error
  checkpoint_evicted : Error
  no_checkpoint : Error

-- the ring's error as one of the kernel's
unfoldable pub from_ring : RingError → Error
from_ring evicted = checkpoint_evicted
