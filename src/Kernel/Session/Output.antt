-- ===== src/Kernel/Session/Output.antt =====
-- session.rs: reading the terminal into the ring.
use rill.Prelude.{
  ℕ, ◌*◌, ◌-◌, ◌==◌, min, if◌then◌else◌, Option, none, some, List, [], ◌∷◌, length, ok,
}
use rill.Attach.Frame.{bytes_frame}
use rill.Ring.{append, saturating_add}
use rill.Kernel.Session.State.{
  Session, Terminal, Answer, and_then, on_pty, record_event, pty_read, is_some, has_listeners,
  enqueue_outbound, note_stalled_read,
}

abbrev pub read_buf : ℕ
read_buf = 64 * 1024

-- the bytes that were read, in the ring, counted and recorded
unfoldable pub store : {W : Type 0} → List ℕ → Session W → Session W
store bytes s = record_event (pty_read (length bytes)) (record s {
  ring = append s.ring bytes;
  bytes_delivered = saturating_add s.bytes_delivered (length bytes);
})

-- what `drain_pty_at_most` does with what it read
abbrev pub drained : {W : Type 0} → Session W → List ℕ → Answer W (Option (List ℕ))
drained s [] = (s, ok none)
drained s (b ∷ bytes) = (store (b ∷ bytes) s, ok (some (b ∷ bytes)))

-- what listeners receive
abbrev pub forward : {W : Type 0} → List ℕ → Session W → Session W
forward bytes s = if has_listeners s then enqueue_outbound (bytes_frame bytes) s else s

-- what `on_pty_readable` does with what it read
abbrev pub received : {W : Type 0} → Session W → List ℕ → Answer W ℕ
received s [] = (s, ok 0)
received s (b ∷ bytes) = (
  forward (b ∷ bytes) (store (b ∷ bytes) (record s { credit = s.credit - length (b ∷ bytes) })),
  ok (length (b ∷ bytes)),
)

-- `max.unwrap_or(READ_BUF).min(READ_BUF)`
abbrev pub read_limit : Option ℕ → ℕ
read_limit none = read_buf
read_limit (some limit) = min limit read_buf

module _ {W : Type 0} (t : Terminal W) where
  unfoldable pub drain_pty_at_most : Option ℕ → Session W → Answer W (Option (List ℕ))
  drain_pty_at_most limit s =
      if is_some s.child_exit
      then (s, ok none)
      else if read_limit limit == 0
      then (note_stalled_read s, ok none)
      else and_then (on_pty (t.read (read_limit limit)) s) drained

  unfoldable pub on_pty_readable : Session W → Answer W ℕ
  on_pty_readable s =
      if s.credit == 0
      then (note_stalled_read s, ok 0)
      else and_then (on_pty (t.read (min s.credit read_buf)) s) received
