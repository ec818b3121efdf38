-- ===== src/Kernel/Session/Run.antt =====
-- session.rs: the reads of the terminal, and any run of calls of a session.
use rill.Prelude.{
  ℕ, ◌+◌, ◌*◌, ◌≤◌, subst, Option, List, [], ◌∷◌, ◌++◌, length, length-append, append_assoc, arith,
}
use rill.Attach.Frame.{Frame}
use rill.Ring.{u64_max}
use rill.Kernel.Checkpoint.{StoredCheckpoint}
use rill.Kernel.Session.State.{
  Session, Terminal, Winsize, enqueue_outbound, note_stalled_read, release_observer,
  apply_observer_viewport, take_resync_history, pop_outbound, install_checkpoint,
}
use rill.Kernel.Session.Input.{
  take_input_lease, expire_input_lease_if_due, terminate, cwd, poll_child, detach,
}
use rill.Kernel.Session.Output.{read_buf, drain_pty_at_most, on_pty_readable}
use rill.Kernel.Session.Frames.{on_frame, input_with_lease}
use rill.Kernel.Session.Observed.{Seen, observed, Tracks}
use rill.Kernel.Session.Quiet.{
  expire-Tracks, terminate-Tracks, cwd-Tracks, poll_child-Tracks, detach-Tracks, on_frame-Tracks,
  input_with_lease-Tracks, pop_outbound-Tracks, take_resync_history-Tracks,
  install_checkpoint-Tracks,
}
use rill.Kernel.Session.Reads.{
  IsBounded, Extends, quiet-Extends, on_pty_readable-Extends, drain_pty_at_most-Extends,
}

pub data Call : Type 0 where
  -- what a client or the daemon asks for
  frame_call : Frame → Call
  input_call : ℕ → List ℕ → Call
  lease_call : ℕ → Call
  expire_call : Call
  readable_call : Call
  drain_call : Option ℕ → Call
  poll_call : Call
  detach_call : Call
  terminate_call : Call
  cwd_call : Call
  install_call : StoredCheckpoint → Call
  viewport_call : Winsize → Call
  release_call : Call
  enqueue_call : Frame → Call
  pop_call : Call
  resync_call : Call
  stall_call : Call

-- the session after a call, whether it succeeds or not
unfoldable pub call : {W : Type 0} → Terminal W → Session W → Call → Session W
call t s (frame_call f) = (on_frame t f s).0
call t s (input_call nonce bytes) = (input_with_lease t nonce bytes s).0
call t s (lease_call nonce) = take_input_lease t nonce s
call t s expire_call = expire_input_lease_if_due t s
call t s readable_call = (on_pty_readable t s).0
call t s (drain_call limit) = (drain_pty_at_most t limit s).0
call t s poll_call = (poll_child t s).0
call t s detach_call = detach t s
call t s terminate_call = (terminate t s).0
call t s cwd_call = (cwd t s).0
call t s (install_call rec) = (install_checkpoint rec s).0
call t s (viewport_call size) = (apply_observer_viewport size s).0
call t s release_call = release_observer s
call t s (enqueue_call f) = enqueue_outbound f s
call t s pop_call = (pop_outbound s).0
call t s resync_call = (take_resync_history s).0
call t s stall_call = note_stalled_read s

unfoldable pub calls : {W : Type 0} → Terminal W → Session W → List Call → Session W
calls t s [] = s
calls t s (c ∷ cs) = calls t (call t s c) cs

module _ {W : Type 0} (t : Terminal W) (bounded : IsBounded t) where
  call-Extends :
      {h : List ℕ} (s : Session (Seen W)) (c : Call)
      → length h + read_buf ≤ u64_max
      → Tracks h s
      → Extends read_buf h (call (observed t) s c)
  unfolding call take_input_lease apply_observer_viewport release_observer enqueue_outbound
      note_stalled_read
  call-Extends s (frame_call f) fits v = quiet-Extends read_buf _ (on_frame-Tracks t f s v)
  call-Extends s (input_call n bytes) fits v =
      quiet-Extends read_buf _ (input_with_lease-Tracks t n bytes s v)
  call-Extends s (lease_call n) fits v = quiet-Extends read_buf _ v
  call-Extends s expire_call fits v = quiet-Extends read_buf _ (expire-Tracks t s v)
  call-Extends s readable_call fits v = on_pty_readable-Extends t bounded s fits v
  call-Extends s (drain_call limit) fits v = drain_pty_at_most-Extends t bounded limit s fits v
  call-Extends s poll_call fits v = quiet-Extends read_buf _ (poll_child-Tracks t s v)
  call-Extends s detach_call fits v = quiet-Extends read_buf _ (detach-Tracks t s v)
  call-Extends s terminate_call fits v = quiet-Extends read_buf _ (terminate-Tracks t s v)
  call-Extends s cwd_call fits v = quiet-Extends read_buf _ (cwd-Tracks t s v)
  call-Extends s (install_call rec) fits v =
      quiet-Extends read_buf _ (install_checkpoint-Tracks rec s v)
  call-Extends s (viewport_call size) fits v = quiet-Extends read_buf _ v
  call-Extends s release_call fits v = quiet-Extends read_buf _ v
  call-Extends s (enqueue_call f) fits v = quiet-Extends read_buf _ v
  call-Extends s pop_call fits v = quiet-Extends read_buf _ (pop_outbound-Tracks s v)
  call-Extends s resync_call fits v = quiet-Extends read_buf _ (take_resync_history-Tracks s v)
  call-Extends s stall_call fits v = quiet-Extends read_buf _ v

-- Whatever is called on a sound session, in any order, and whether the calls succeed or fail: the
-- bytes that the terminal's reads returned in these calls, all of them and in order, follow the
-- history that was there, of which the ring holds the last 4 MiB; `bytes_delivered` counts that
-- history; and the journal has the last 4096 events at most, numbered one after the other up to
-- `seq`. The history before is what the reads had returned by then. A read returns no more bytes than
-- its buffer has room for, and the history and the 64 KiB that each call may read stay within
-- `u64::MAX`.
pub calls-Extends :
    {W : Type 0} (t : Terminal W) (s : Session (Seen W)) (h : List ℕ) (cs : List Call)
    → IsBounded t
    → length h + length cs * read_buf ≤ u64_max
    → Tracks h s
    → Extends (length cs * read_buf) h (calls (observed t) s cs)
unfolding calls
calls-Extends t s h [] bounded fits v = quiet-Extends _ s v
calls-Extends t s h (c ∷ cs) bounded fits v =
    let one = call-Extends t bounded s c (omega arith) v in
    let joined = length-append h one.more in
    let rest =
      calls-Extends t (call (observed t) s c) (h ++ one.more) cs bounded (omega (arith, one.few))
        one.tracked in
    record {
      more = one.more ++ rest.more;
      few = omega (arith, one.few, rest.few, length-append one.more rest.more);
      tracked =
          subst (λ h. Tracks h (calls (observed t) (call (observed t) s c) cs))
            (append_assoc h one.more rest.more) rest.tracked;
    }
