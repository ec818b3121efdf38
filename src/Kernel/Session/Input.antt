-- ===== src/Kernel/Session/Input.antt =====
-- session.rs: the input lease, the queue of input, and the calls of the terminal but for its output.
use rill.Prelude.{
  ℕ, ◌+◌, ◌*◌, ◌==◌, Bool, true, false, ◌&&◌, not, ltb, leb, if◌then◌else◌, Option, none, some,
  List, [], ◌∷◌, String, filter, length, ok,
}
use rill.Attach.Frame.{Frame, bytes_frame, exit_frame}
use rill.Ring.{saturating_add}
use rill.Kernel.Session.State.{
  Session, Terminal, Answer, and_then, on_option, on_pty, record_event, pty_write, child_exit_event,
  is_some, has_listeners, enqueue_outbound, dispatched, unknown,
}

abbrev pub is_bytes : Frame → Bool
is_bytes (bytes_frame b) = true
is_bytes _ = false

module _ {W : Type 0} (t : Terminal W) where
  -- `lease_grace`, an hour unless the environment says otherwise
  unfoldable pub lease_grace : ℕ
  lease_grace = elim t.grace_variable [ some ms ↦ ms | none ↦ 3600 * 1000 ]

  unfoldable pub take_input_lease : ℕ → Session W → Session W
  take_input_lease nonce s =
      let generation = saturating_add s.lease_generation 1 in
      let clock = t.now s.pty in
      record s {
        pty = clock.0;
        lease_generation = if generation == 0 then 1 else generation;
        lease_nonce = nonce;
        lease_until = some (clock.1 + lease_grace);
      }

  unfoldable pub expire_input_lease_if_due : Session W → Session W
  expire_input_lease_if_due s = on_option s.lease_until s λ until.
      let clock = t.now s.pty in
      if leb until clock.1
      then record s { pty = clock.0; lease_nonce = 0; lease_until = none }
      else record s { pty = clock.0 }

  abbrev pub lease_blocks : Session W → Bool
  lease_blocks s = ltb 0 s.lease_generation && (s.lease_nonce == 0)

  -- the session after the lease was looked at, and whether it blocks
  unfoldable pub lease_blocks_input : Session W → Session W × Bool
  lease_blocks_input s = (expire_input_lease_if_due s, lease_blocks (expire_input_lease_if_due s))

  -- a buffer that was written
  abbrev pub sent : List ℕ → Session W → Session W
  sent buf s = record (record_event (pty_write (length buf)) s) { last_delivery = dispatched }

  -- the loop of `flush_input` over the queue: a buffer leaves the queue before it is written
  unfoldable pub flush : List (List ℕ) → Session W → Answer W (Unit {0})
  flush [] s = (record s { pending_input = [] }, ok tt)
  flush (buf ∷ rest) s =
      and_then (on_pty (t.write_all buf) (record s { pending_input = rest }))
        (λ s done. flush rest (sent buf s))

  unfoldable pub flush_input : Session W → Answer W (Unit {0})
  flush_input s = flush s.pending_input s

  unfoldable pub terminate : Session W → Answer W (Unit {0})
  terminate s =
      if s.terminated then (s, ok tt) else on_pty t.terminate (record s { terminated = true })

  unfoldable pub cwd : Session W → Answer W String
  cwd s = and_then (on_pty t.fg_cwd s) (λ s path. (record s { last_cwd = some path }, ok path))

  -- a death that is queued if somebody listens
  abbrev pub announce : ℕ → Session W → Session W
  announce status s =
      if has_listeners s
      then record (enqueue_outbound (exit_frame status) s) { exit_delivered = true }
      else s

  -- what `poll_child` does with the status that it read
  abbrev pub exited : Session W → Option ℕ → Answer W Bool
  exited s (some status) = (
    announce status
        (record_event (child_exit_event status) (record s { child_exit = some status })),
    ok true,
  )
  exited s none = (s, ok false)

  unfoldable pub poll_child : Session W → Answer W Bool
  poll_child s =
      if is_some s.child_exit then (s, ok false) else and_then (on_pty t.try_wait s) exited

  -- the input that is dropped at a detach
  abbrev pub forget_input : Session W → Session W
  forget_input s =
      if length s.pending_input == 0
      then s
      else record s { last_delivery = unknown; pending_input = [] }

  abbrev pub hang_up : Session W → Session W
  hang_up s = if s.ephemeral then (on_pty t.terminate s).0 else s

  unfoldable pub detach : Session W → Session W
  detach s =
      let left = forget_input (hang_up (record s { attach_generation = none; credit = 0 })) in
      record left { outbound = filter (λ frame. not (is_bytes frame)) left.outbound }

  -- `Drop`: only an ephemeral child ends with its session
  unfoldable pub drop_session : Session W → Session W
  drop_session s = hang_up s
