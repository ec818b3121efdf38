-- ===== src/Kernel/Session/Quiet.antt =====
-- session.rs: the calls that read nothing from the terminal.
use rill.Prelude.{ℕ, Bool, Option, none, some, List, [], ◌∷◌, length, branch, ok, err}
use rill.Attach.Frame.{
  Frame, bytes_frame, credit_frame, resize_frame, exit_frame, attach_frame, refused_frame,
  checkpoint_frame, delta_frame, resync_frame,
}
use rill.Kernel.Checkpoint.{StoredCheckpoint, check_compatible}
use rill.Kernel.Session.State.{
  Session, Terminal, Answer, Winsize, and_then, on_option, on_pty, winsize, pty_write,
  child_exit_event, pop_outbound, popped, take_resync_history, install_checkpoint, is_some,
  enqueue_outbound, attached,
}
use rill.Kernel.Session.Input.{
  expire_input_lease_if_due, lease_blocks, lease_blocks_input, flush, flush_input, sent, terminate,
  cwd, poll_child, exited, detach, take_input_lease,
}
use rill.Kernel.Session.Frames.{on_attach, on_resize, on_bytes, on_frame, input_with_lease}
use rill.Kernel.Session.Observed.{Seen, observed, Tracks, record_event-Tracks}

pub on_option-Keeps :
    {A S : Type 0} (P : S → Type 0) (o : Option A) (n : S) (f : A → S)
    → P n
    → ((a : A) → P (f a))
    → P (on_option o n f)
on_option-Keeps P none n f v w = v
on_option-Keeps P (some a) n f v w = w a

-- a call and the rest of the method keep what each of them keeps
pub and_then-Keeps :
    {W A B : Type 0} (P : Session W → Type 0) (r : Answer W A) (k : Session W → A → Answer W B)
    → P r.0
    → ((s : Session W) → (a : A) → P s → P (k s a).0)
    → P (and_then r k).0
and_then-Keeps P (s, ok a) k v next = next s a v
and_then-Keeps P (s, err e) k v next = v

abbrev pub TracksAnswer : {W A : Type 0} → List ℕ → Answer (Seen W) A → Type 0
TracksAnswer h r = Tracks h r.0

module _ {W : Type 0} (t : Terminal W) {h : List ℕ} where
  pub expire-Tracks :
      (s : Session (Seen W)) → Tracks h s → Tracks h (expire_input_lease_if_due (observed t) s)
  unfolding expire_input_lease_if_due
  expire-Tracks s v =
      on_option-Keeps (Tracks h) s.lease_until s _ v (λ until. branch _ (Tracks h) v v)

  flush-Tracks :
      (queue : List (List ℕ)) (s : Session (Seen W))
      → Tracks h s
      → Tracks h (flush (observed t) queue s).0
  unfolding flush
  flush-Tracks [] s v = v
  flush-Tracks (buf ∷ rest) s v =
      and_then-Keeps (Tracks h)
        (on_pty ((observed t).write_all buf) (record s { pending_input = rest })) _ v
        (λ s done v.
          flush-Tracks rest (sent (observed t) buf s)
            (record_event-Tracks (pty_write (length buf)) s v))

  pub flush_input-Tracks :
      (s : Session (Seen W)) → Tracks h s → Tracks h (flush_input (observed t) s).0
  unfolding flush_input
  flush_input-Tracks s v = flush-Tracks s.pending_input s v

  pub terminate-Tracks : (s : Session (Seen W)) → Tracks h s → Tracks h (terminate (observed t) s).0
  unfolding terminate
  terminate-Tracks s v = branch s.terminated (TracksAnswer h) v v

  pub cwd-Tracks : (s : Session (Seen W)) → Tracks h s → Tracks h (cwd (observed t) s).0
  unfolding cwd
  cwd-Tracks s v = and_then-Keeps (Tracks h) (on_pty (observed t).fg_cwd s) _ v (λ s path v. v)

  exited-Tracks :
      (s : Session (Seen W)) (o : Option ℕ) → Tracks h s → Tracks h (exited (observed t) s o).0
  unfolding enqueue_outbound
  exited-Tracks s none v = v
  exited-Tracks s (some status) v =
      let recorded =
        record_event-Tracks (child_exit_event status) (record s { child_exit = some status }) v in
      branch _ (Tracks h) recorded recorded

  pub poll_child-Tracks :
      (s : Session (Seen W)) → Tracks h s → Tracks h (poll_child (observed t) s).0
  unfolding poll_child
  poll_child-Tracks s v = branch _ (TracksAnswer h) v (
      and_then-Keeps (Tracks h) (on_pty (observed t).try_wait s) (exited (observed t)) v
        exited-Tracks)

  pub detach-Tracks : (s : Session (Seen W)) → Tracks h s → Tracks h (detach (observed t) s)
  unfolding detach
  detach-Tracks s v =
      branch _ (Tracks h) (branch s.ephemeral (Tracks h) v v) (branch s.ephemeral (Tracks h) v v)

  on_attach-Tracks :
      (g : ℕ) (o : Bool) (s : Session (Seen W))
      → Tracks h s
      → Tracks h (on_attach (observed t) g o s)
  unfolding on_attach enqueue_outbound take_input_lease
  on_attach-Tracks g o s v = branch o (Tracks h) v (
      branch (attached s) (Tracks h) v
        (on_option-Keeps (Tracks h) s.child_exit _ _ v (λ status. v)))

  on_resize-Tracks :
      (size : Winsize) (s : Session (Seen W))
      → Tracks h s
      → Tracks h (on_resize (observed t) size s).0
  unfolding on_resize lease_blocks_input
  on_resize-Tracks size s v = branch _ (TracksAnswer h) (expire-Tracks s v) (
      and_then-Keeps (Tracks h)
        (flush_input (observed t) (expire_input_lease_if_due (observed t) s)) _
        (flush_input-Tracks _ (expire-Tracks s v))
        (λ s done v.
          and_then-Keeps (Tracks h)
            (on_pty ((observed t).set_winsize size) (record s { size = size })) _ v
            (λ s done v. record_event-Tracks (winsize size) s v)))

  on_bytes-Tracks :
      (bytes : List ℕ) (s : Session (Seen W))
      → Tracks h s
      → Tracks h (on_bytes (observed t) bytes s).0
  unfolding on_bytes lease_blocks_input
  on_bytes-Tracks bytes s v = branch (is_some s.child_exit) (TracksAnswer h) v (
      branch (lease_blocks (observed t) (expire_input_lease_if_due (observed t) s)) (TracksAnswer h)
        (expire-Tracks s v) (flush_input-Tracks _ (expire-Tracks s v)))

  pub on_frame-Tracks :
      (f : Frame) (s : Session (Seen W)) → Tracks h s → Tracks h (on_frame (observed t) f s).0
  unfolding on_frame
  on_frame-Tracks (bytes_frame b) s v = on_bytes-Tracks b s v
  on_frame-Tracks (credit_frame n) s v = v
  on_frame-Tracks (resize_frame cols rows px_w px_h) s v = on_resize-Tracks _ s v
  on_frame-Tracks (exit_frame status) s v = v
  on_frame-Tracks (attach_frame g n p o) s v = on_attach-Tracks g o s v
  on_frame-Tracks (refused_frame reason) s v = v
  on_frame-Tracks (checkpoint_frame e c b) s v = v
  on_frame-Tracks (delta_frame e b) s v = v
  on_frame-Tracks resync_frame s v = v

  pub input_with_lease-Tracks :
      (n : ℕ) (bytes : List ℕ) (s : Session (Seen W))
      → Tracks h s
      → Tracks h (input_with_lease (observed t) n bytes s).0
  unfolding input_with_lease
  input_with_lease-Tracks n bytes s v =
      branch _ (TracksAnswer h) (expire-Tracks s v)
        (on_frame-Tracks (bytes_frame bytes) _ (expire-Tracks s v))

module _ {W : Type 0} {h : List ℕ} where
  popped-Tracks : (s : Session (Seen W)) (fs : List Frame) → Tracks h s → Tracks h (popped s fs).0
  popped-Tracks s [] v = v
  popped-Tracks s (f ∷ fs) v = v

  pub pop_outbound-Tracks : (s : Session (Seen W)) → Tracks h s → Tracks h (pop_outbound s).0
  unfolding pop_outbound
  pop_outbound-Tracks s v = popped-Tracks s s.outbound v

  pub take_resync_history-Tracks :
      (s : Session (Seen W)) → Tracks h s → Tracks h (take_resync_history s).0
  unfolding take_resync_history
  take_resync_history-Tracks s v =
      branch _ (λ (r : Session (Seen W) × Option (List ℕ)). Tracks h r.0) v v

  pub install_checkpoint-Tracks :
      (rec : StoredCheckpoint) (s : Session (Seen W))
      → Tracks h s
      → Tracks h (install_checkpoint rec s).0
  unfolding install_checkpoint
  install_checkpoint-Tracks rec s v =
      and_then-Keeps (Tracks h) (s, check_compatible rec) _ v (λ s done v. v)
