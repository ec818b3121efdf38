-- ===== src/Kernel/Session/State.antt =====
-- session.rs: the fields of `Session`, the pseudo terminal that it drives, and the methods that neither
-- read nor write it. `Terminal` has the calls of crates/rill-kernel/src/pty.rs and the clock; `W` is
-- the state of the machine behind them, and each call returns the next one. An `Instant` and a
-- `Duration` are milliseconds.
use rill.Prelude.{
  ℕ, ◌+◌, ◌*◌, ◌-◌, ◌^◌, ◌==◌, min, Bool, true, false, ◌||◌, not, ltb, if◌then◌else◌, Option, none,
  some, List, [], ◌∷◌, ◌++◌, String, drop, length, Result, ok, err,
}
use rill.Attach.Frame.{Frame}
use rill.Ring.{ByteRing, RingError, deltas_after, snapshot, saturating_add, new as new_ring}
use rill.Kernel.Error.{Error, no_checkpoint, from_ring}
use rill.Kernel.Checkpoint.{StoredCheckpoint, check_compatible}

abbrev pub ring_cap : ℕ
ring_cap = 4 * 1024 * 1024

abbrev pub journal_cap : ℕ
journal_cap = 4096

-- `u32::saturating_add(1)`
abbrev pub saturating_add32 : ℕ → ℕ → ℕ
saturating_add32 a b = min (2 ^ 32 - 1) (a + b)

-- `Winsize` of pty.rs
pub record Winsize : Type 0 where
  pub cols : ℕ
  pub rows : ℕ
  pub px_w : ℕ
  pub px_h : ℕ

pub data IoEvent : Type 0 where
  pty_write : ℕ → IoEvent
  pty_read : ℕ → IoEvent
  winsize : Winsize → IoEvent
  child_exit_event : ℕ → IoEvent

pub data InputDelivery : Type 0 where
  pending dispatched unknown : InputDelivery

pub data HostIdentity : Type 0 where
  local_host : HostIdentity

pub record Terminal (W : Type 0) : Type 0 where
  pub write_all : List ℕ → W → W × Result Error (Unit {0})
  -- at most so many bytes; none if there is nothing to read
  pub read : ℕ → W → W × Result Error (List ℕ)
  pub set_winsize : Winsize → W → W × Result Error (Unit {0})
  -- the status of a child that has exited
  pub try_wait : W → W × Result Error (Option ℕ)
  pub terminate : W → W × Result Error (Unit {0})
  pub fg_cwd : W → W × Result Error String
  pub child_id : W → ℕ
  -- `Instant::now`
  pub now : W → W × ℕ
  -- the environment variable of `lease_grace`, parsed
  pub grace_variable : Option ℕ

pub record Session (W : Type 0) : Type 0 where
  pub pty : W
  pub ephemeral : Bool
  pub ring : ByteRing
  pub attach_generation : Option ℕ
  pub credit : ℕ
  pub outbound : List Frame
  pub pending_input : List (List ℕ)
  pub child_exit : Option ℕ
  pub exit_delivered : Bool
  pub resync_pending : Bool
  pub resync_count : ℕ
  pub stalled_reads : ℕ
  pub bytes_delivered : ℕ
  pub journal : List (ℕ × IoEvent)
  pub seq : ℕ
  pub size : Winsize
  pub last_cwd : Option String
  pub last_delivery : InputDelivery
  pub observers : ℕ
  pub terminated : Bool
  pub checkpoint : Option StoredCheckpoint
  pub lease_generation : ℕ
  pub lease_nonce : ℕ
  pub lease_until : Option ℕ

-- a call that changes the session also if it fails
abbrev pub Answer : Type 0 → Type 0 → Type 0
Answer W A = Session W × Result Error A

-- `match` on an option
abbrev pub on_option : {A S : Type 0} → Option A → S → (A → S) → S
on_option none n f = n
on_option (some a) n f = f a

-- `?` and the rest of the method
abbrev pub and_then : {W A B : Type 0} → Answer W A → (Session W → A → Answer W B) → Answer W B
and_then (s, ok a) k = k s a
and_then (s, err e) k = (s, err e)

-- a call of the terminal, with the machine's next state in its place
abbrev pub on_pty : {W A : Type 0} → (W → W × Result Error A) → Session W → Answer W A
on_pty call s = let out = call s.pty in (record s { pty = out.0 }, out.1)

-- `spawn_configured`, for the terminal that was spawned
unfoldable pub spawned : {W : Type 0} → W → Winsize → Bool → Session W
spawned w size ephemeral = record {
  pty = w;
  ephemeral = ephemeral;
  ring = new_ring ring_cap;
  attach_generation = none;
  credit = 0;
  outbound = [];
  pending_input = [];
  child_exit = none;
  exit_delivered = false;
  resync_pending = false;
  resync_count = 0;
  stalled_reads = 0;
  bytes_delivered = 0;
  journal = [];
  seq = 0;
  size = size;
  last_cwd = none;
  last_delivery = unknown;
  observers = 0;
  terminated = false;
  checkpoint = none;
  lease_generation = 0;
  lease_nonce = 0;
  lease_until = none;
}

unfoldable pub is_some : {A : Type 0} → Option A → Bool
is_some none = false
is_some (some a) = true

-- `pop_front` on a queue that has `journal_cap` entries
abbrev pub room : List (ℕ × IoEvent) → List (ℕ × IoEvent)
room j = if length j == journal_cap then drop 1 j else j

-- the number is advanced, and the oldest event goes if the journal is full
unfoldable pub record_event : {W : Type 0} → IoEvent → Session W → Session W
record_event event s = record s {
  seq = s.seq + 1;
  journal = room s.journal ++ (s.seq + 1, event) ∷ [];
}

-- the bytes after a checkpoint, with the kernel's error
abbrev pub with_deltas :
    StoredCheckpoint → Result RingError (List ℕ) → Result Error (StoredCheckpoint × List ℕ)
with_deltas cp (ok deltas) = ok (cp, deltas)
with_deltas cp (err e) = err (from_ring e)

module _ {W : Type 0} where
  unfoldable pub attached : Session W → Bool
  attached s = is_some s.attach_generation

  unfoldable pub child_alive : Session W → Bool
  child_alive s = not (is_some s.child_exit)

  unfoldable pub host_identity : Session W → HostIdentity
  host_identity s = local_host

  unfoldable pub history : Session W → List ℕ
  history s = snapshot s.ring

  unfoldable pub has_listeners : Session W → Bool
  has_listeners s = attached s || ltb 0 s.observers

  unfoldable pub install_checkpoint : StoredCheckpoint → Session W → Answer W (Unit {0})
  install_checkpoint rec s =
      and_then (s, check_compatible rec) (λ s done. (record s { checkpoint = some rec }, ok tt))

  unfoldable pub recovery : Session W → Result Error (StoredCheckpoint × List ℕ)
  recovery s = elim s.checkpoint [
    | none ↦ err no_checkpoint
    | some cp ↦ with_deltas cp (deltas_after s.ring cp.ending_offset)
  ]

  unfoldable pub release_observer : Session W → Session W
  release_observer s = record s { observers = s.observers - 1 }

  -- the viewport of an observer changes nothing
  unfoldable pub apply_observer_viewport : Winsize → Session W → Answer W (Unit {0})
  apply_observer_viewport viewport s = (s, ok tt)

  unfoldable pub enqueue_outbound : Frame → Session W → Session W
  enqueue_outbound frame s = record s { outbound = s.outbound ++ frame ∷ [] }

  -- the first frame of a queue, and the session with the rest of it
  abbrev pub popped : Session W → List Frame → Session W × Option Frame
  popped s [] = (s, none)
  popped s (frame ∷ rest) = (record s { outbound = rest }, some frame)

  unfoldable pub pop_outbound : Session W → Session W × Option Frame
  pop_outbound s = popped s s.outbound

  unfoldable pub take_resync_history : Session W → Session W × Option (List ℕ)
  take_resync_history s =
      if s.resync_pending
      then (
        record s { resync_pending = false; resync_count = saturating_add32 s.resync_count 1 },
        some (snapshot s.ring),
      )
      else (s, none)

  unfoldable pub note_stalled_read : Session W → Session W
  note_stalled_read s = record s { stalled_reads = saturating_add s.stalled_reads 1 }

  -- `lease_generation()`, where 0 says that no lease was ever taken
  unfoldable pub current_lease : Session W → Option ℕ
  current_lease s = if s.lease_generation == 0 then none else some s.lease_generation
