-- ===== src/Kernel/Checkpoint.antt =====
-- crates/rill-kernel/src/checkpoint.rs: the checkpoint record of one execution, with an opaque blob.
use rill.Prelude.{ℕ, List, ◌==◌, if◌then◌else◌, Result, ok, err}
use rill.Kernel.Error.{Error, incompatible_checkpoint}

abbrev pub checkpoint_format_version : ℕ
checkpoint_format_version = 1

pub record StoredCheckpoint : Type 0 where
  pub format_version : ℕ
  pub ending_offset : ℕ
  pub hash : ℕ
  pub blob : List ℕ

-- `StoredCheckpoint::new`
unfoldable pub stored : ℕ → ℕ → List ℕ → StoredCheckpoint
stored ending_offset hash blob = record {
  format_version = checkpoint_format_version;
  ending_offset = ending_offset;
  hash = hash;
  blob = blob;
}

unfoldable pub check_compatible : StoredCheckpoint → Result Error (Unit {0})
check_compatible rec =
    if rec.format_version == checkpoint_format_version then ok tt else err incompatible_checkpoint
