-- ===== src/Kernel/Session/Frames.antt =====
-- session.rs: `on_frame`, and the input that a lease allows.
use rill.Prelude.{ℕ, ◌==◌, Bool, true, ◌||◌, not, if◌then◌else◌, some, List, [], ◌∷◌, ◌++◌, ok, err}
use rill.Attach.Frame.{
  Frame, bytes_frame, credit_frame, resize_frame, exit_frame, attach_frame, refused_frame,
  already_attached,
}
use rill.Ring.{saturating_add}
use rill.Kernel.Error.{dead}
use rill.Kernel.Session.State.{
  Session, Terminal, Answer, Winsize, and_then, on_option, on_pty, record_event, winsize, is_some,
  attached, enqueue_outbound, pending, saturating_add32,
}
use rill.Kernel.Session.Input.{
  take_input_lease, lease_blocks_input, flush_input, expire_input_lease_if_due,
}

module _ {W : Type 0} (t : Terminal W) where
  -- a death that the client before never learned about
  abbrev pub replay_exit : Session W → Session W
  replay_exit s =
      on_option s.child_exit s
        λ status. record (enqueue_outbound (exit_frame status) s) { exit_delivered = true }

  -- `Frame::Attach`
  unfoldable pub on_attach : ℕ → Bool → Session W → Session W
  on_attach generation observe s =
      if observe
      then record s { observers = saturating_add32 s.observers 1 }
      else if attached s
      then enqueue_outbound (refused_frame already_attached) s
      else replay_exit (
          take_input_lease t generation
            (record s { attach_generation = some generation; resync_pending = true }))

  -- the size of the terminal, after the input
  abbrev pub set_size : Winsize → Session W → Answer W (Unit {0})
  set_size size s =
      and_then (on_pty (t.set_winsize size) (record s { size = size }))
        (λ s done. (record_event (winsize size) s, ok tt))

  -- `Frame::Resize`
  unfoldable pub on_resize : Winsize → Session W → Answer W (Unit {0})
  on_resize size s =
      let lease = lease_blocks_input t s in
      if lease.1
      then (lease.0, ok tt)
      else and_then (flush_input t lease.0) (λ s done. set_size size s)

  -- `Frame::Data`
  unfoldable pub on_bytes : List ℕ → Session W → Answer W (Unit {0})
  on_bytes bytes s =
      let lease = lease_blocks_input t s in
      if is_some s.child_exit
      then (s, err dead)
      else if lease.1
      then (lease.0, ok tt)
      else flush_input t (record lease.0 {
        last_delivery = pending;
        pending_input = lease.0.pending_input ++ bytes ∷ [];
      })

  unfoldable pub on_frame : Frame → Session W → Answer W (Unit {0})
  on_frame (attach_frame generation session protocol observe) s =
      (on_attach generation observe s, ok tt)
  on_frame (credit_frame n) s = (record s { credit = saturating_add s.credit n }, ok tt)
  on_frame (resize_frame cols rows px_w px_h) s =
      on_resize (record { cols = cols; rows = rows; px_w = px_w; px_h = px_h }) s
  on_frame (bytes_frame bytes) s = on_bytes bytes s
  on_frame _ s = (s, ok tt)

  unfoldable pub input_with_lease : ℕ → List ℕ → Session W → Answer W (Unit {0})
  input_with_lease nonce bytes s =
      let s' = expire_input_lease_if_due t s in
      if (s'.lease_nonce == 0) || not (s'.lease_nonce == nonce)
      then (s', ok tt)
      else on_frame (bytes_frame bytes) s'
