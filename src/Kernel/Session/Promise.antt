-- ===== src/Kernel/Session/Promise.antt =====
-- session.rs: credit, recovery, the report of a death, and the input lease.
use rill.Prelude.{
  ℕ, ◌+◌, ◌-◌, ◌^◌, ◌≤◌, ◌==◌, ◌≡◌, ◌≢◌, refl, sym, ap, subst, append-nil, ◌∙◌, min, Bool, true,
  false, not, ◌&&◌, ◌||◌, leb, if◌then◌else◌, Option, none, some, List, [], ◌∷◌, ◌++◌, filter, drop,
  length, arith, branch, if_taken, ◌⊎◌, Bool-cases, inl, inr, Result, ok, err, ok-injective,
}
use rill.Attach.Frame.{Frame, exit_frame, attach_frame}
use rill.Ring.{deltas_after, saturating_add}
use rill.Ring.History.{deltas_after_lem}
use rill.Kernel.Error.{Error, no_checkpoint, checkpoint_evicted, from_ring}
use rill.Kernel.Checkpoint.{StoredCheckpoint}
use rill.Kernel.Session.State.{
  Session, Terminal, attached, recovery, record_event, is_some, enqueue_outbound, note_stalled_read,
  ring_cap, has_listeners, with_deltas, on_pty,
}
use rill.Kernel.Session.Input.{is_bytes, detach, take_input_lease, expire_input_lease_if_due}
use rill.Kernel.Session.Output.{read_buf, received, forward, store, on_pty_readable}
use rill.Kernel.Session.Frames.{on_frame, on_attach, input_with_lease}
use rill.Kernel.Session.Sound.{IsSound}
use rill.Kernel.Session.Reads.{IsBounded}
use rill.Kernel.Session.Observed.{Seen, observed, heard_of, and_then-Succeeds}

-- what a recovery of the history `h` is, for the checkpoint that is installed
abbrev pub recovered : List ℕ → Option StoredCheckpoint → Result Error (StoredCheckpoint × List ℕ)
recovered h none = err no_checkpoint
recovered h (some cp) =
    if leb (length h - ring_cap) cp.ending_offset && leb cp.ending_offset (length h)
    then ok (cp, drop cp.ending_offset h)
    else err checkpoint_evicted

-- A recovery gives the checkpoint with all of the history behind its offset, exactly if that offset
-- is in the history and at most 4 MiB before its end; it fails with the reason otherwise. The session
-- is sound for the history.
pub recovery-recovered :
    {W : Type 0} (h : List ℕ) (s : Session W) → IsSound h s → recovery s ≡ recovered h s.checkpoint
unfolding recovery from_ring
recovery-recovered h s v = by_checkpoint s.checkpoint
  where
    by_checkpoint :
        (o : Option StoredCheckpoint)
        → elim o [
          | none ↦ err no_checkpoint
          | some cp ↦ with_deltas cp (deltas_after s.ring cp.ending_offset)
        ]
          ≡ recovered h o
    by_checkpoint none = refl
    by_checkpoint (some cp) =
        elim (Bool-cases
          (leb (length h - s.ring.cap) cp.ending_offset && leb cp.ending_offset (length h))) [
            | inl e ↦ rw (deltas_after_lem cp.ending_offset v.held, e, rw v.cap_is at e)
            | inr e ↦ rw (deltas_after_lem cp.ending_offset v.held, e, rw v.cap_is at e)
          ]

-- What a read of `n` bytes leaves: the terminal has returned `bytes` behind what it had returned
-- before, and their number is the credit that was spent and what was counted.
pub record IsSpent {W : Type 0} (heard : List ℕ) (credit delivered n : ℕ) (s' : Session (Seen W))
    : Type 0 where
  pub bytes : List ℕ
  pub taken : s'.pty.heard ≡ heard ++ bytes
  pub amount : length bytes ≡ n
  pub paid : s'.credit + n ≡ credit
  pub small : n ≤ read_buf
  pub counted : s'.bytes_delivered ≡ saturating_add delivered n

-- the two ways a read ends that moves bytes: with and without a listener
forward-IsSpent :
    {W : Type 0} {heard : List ℕ} {credit delivered n : ℕ} (bytes : List ℕ) (s' : Session (Seen W))
    → IsSpent heard credit delivered n s'
    → IsSpent heard credit delivered n (forward bytes s')
unfolding enqueue_outbound
forward-IsSpent bytes s' v = elim (Bool-cases (has_listeners s')) [
  | inl e ↦ rw e (record {
    bytes = v.bytes;
    taken = v.taken;
    amount = v.amount;
    paid = v.paid;
    small = v.small;
    counted = v.counted;
  })
  | inr e ↦ rw e v
]

received-IsSpent :
    {W : Type 0} {heard : List ℕ} (s : Session (Seen W)) (n : ℕ) (bytes : List ℕ)
    → s.pty.heard ≡ heard ++ bytes
    → length bytes ≤ min s.credit read_buf
    → s.bytes_delivered ≤ 2 ^ 64 - 1
    → (received s bytes).1 ≡ ok n
    → IsSpent heard s.credit s.bytes_delivered n (received s bytes).0
unfolding store record_event
received-IsSpent s n [] taken few width e =
    let none_read : 0 ≡ n = ok-injective e in
    record {
      bytes = [];
      taken = taken;
      amount = none_read;
      paid = omega arith;
      small = omega arith;
      counted = omega arith;
    }
received-IsSpent s n (b ∷ bytes) taken few width e =
    let got : length (b ∷ bytes) ≡ n = ok-injective e in
    forward-IsSpent (b ∷ bytes) _ (record {
      bytes = b ∷ bytes;
      taken = taken;
      amount = got;
      paid = omega arith;
      small = omega arith;
      counted = ap (saturating_add s.bytes_delivered) got;
    })

-- `on_pty_readable` reads output only against credit: a call that succeeds has taken from the
-- terminal exactly as many bytes as it returns, 64 KiB at most, and that number is the credit that it
-- spends and the bytes that it counts. Without credit it takes nothing. `read` returns at most as
-- many bytes as it is asked for, and the count is a `u64`.
pub on_pty_readable-IsSpent :
    {W : Type 0} (t : Terminal W) (s : Session (Seen W)) (n : ℕ)
    → IsBounded t
    → s.bytes_delivered ≤ 2 ^ 64 - 1
    → (on_pty_readable (observed t) s).1 ≡ ok n
    → IsSpent s.pty.heard s.credit s.bytes_delivered n (on_pty_readable (observed t) s).0
unfolding on_pty_readable note_stalled_read
on_pty_readable-IsSpent t s n bounded width done = elim (Bool-cases (s.credit == 0)) [
  | inl z ↦
      let none_read : 0 ≡ n = ok-injective (rw z at done) in
      rw z record {
        bytes = [];
        taken = sym (append-nil s.pty.heard);
        amount = none_read;
        paid = omega arith;
        small = omega arith;
        counted = omega arith;
      }
  | inr some_left ↦
      let asked = min s.credit read_buf in
      rw some_left (
        and_then-Succeeds (IsSpent s.pty.heard s.credit s.bytes_delivered n)
          (on_pty ((observed t).read asked) s) received (rw some_left at done)
          (λ bytes e.
            received-IsSpent (on_pty ((observed t).read asked) s).0 n bytes
              (ap (λ r. s.pty.heard ++ heard_of r) e) (bounded asked s.pty.machine bytes e) width))
]

abbrev pub control : Frame → Bool
control frame = not (is_bytes frame)

-- a detach takes no death back, and drops the output that is queued only
detach-outbound :
    {W : Type 0} (t : Terminal W) (s : Session W)
    → ((detach t s).outbound ≡ filter control s.outbound)
      × ((detach t s).child_exit ≡ s.child_exit)
      × ((detach t s).attach_generation ≡ none)
unfolding detach
detach-outbound t s = elim (Bool-cases s.ephemeral) [
  | inl e ↦ elim (Bool-cases (length s.pending_input == 0)) [
    | inl z ↦ rw (e, z) (refl, refl, refl)
    | inr z ↦ rw (e, z) (refl, refl, refl)
  ]
  | inr e ↦ elim (Bool-cases (length s.pending_input == 0)) [
    | inl z ↦ rw (e, z) (refl, refl, refl)
    | inr z ↦ rw (e, z) (refl, refl, refl)
  ]
]

-- what a writer's attach leaves
pub record IsReported {W : Type 0} (queued : List Frame) (g status : ℕ) (s' : Session W)
    : Type 0 where
  pub told : s'.outbound ≡ queued ++ exit_frame status ∷ []
  pub writer : s'.attach_generation ≡ some g
  pub delivered : s'.exit_delivered ≡ true

on_attach-IsReported :
    {W : Type 0} (t : Terminal W) (s : Session W) (g status : ℕ)
    → s.attach_generation ≡ none
    → s.child_exit ≡ some status
    → IsReported s.outbound g status (on_attach t g false s)
unfolding on_attach attached is_some take_input_lease enqueue_outbound
on_attach-IsReported t s g status free gone =
    rw (free, gone) (record { told = refl; writer = refl; delivered = refl })

-- A death is not lost with the client that was to learn of it: when the client detaches and another
-- one attaches as the writer, whatever the child's status, the session queues EXIT with that status
-- behind the frames that were queued, of which the detach drops the output only.
pub detach-on_frame-IsReported :
    {W : Type 0} (t : Terminal W) (s : Session W) (g status protocol : ℕ) (session : Option ℕ)
    → s.child_exit ≡ some status
    → IsReported
        (filter control s.outbound)
        g
        status
        (on_frame t (attach_frame g session protocol false) (detach t s)).0
unfolding on_frame
detach-on_frame-IsReported t s g status protocol session gone =
    let left = detach-outbound t s in
    subst (λ queued. IsReported queued g status (on_attach t g false (detach t s))) left.0
      (on_attach-IsReported t (detach t s) g status left.2 (left.1 ∙ gone))

-- the nonce after the lease was taken and looked at: the taker's, or none
nonce_after :
    {W : Type 0} (t : Terminal W) (s : Session W) (other : ℕ)
    → let s' = expire_input_lease_if_due t (take_input_lease t other s) in
      (s'.lease_nonce ≡ other) ⊎ (s'.lease_nonce ≡ 0)
unfolding expire_input_lease_if_due take_input_lease
nonce_after {W = W} t s other =
    branch _ (λ (s' : Session W). (s'.lease_nonce ≡ other) ⊎ (s'.lease_nonce ≡ 0)) (inr refl)
      (inl refl)

refused :
    (n nonce other : ℕ)
    → nonce ≢ other
    → (n ≡ other) ⊎ (n ≡ 0)
    → ((n == 0) || not (n == nonce)) ≡ true
refused n nonce other differs (inl e) = ground arith
refused n nonce other differs (inr e) = ground arith

-- Input with a nonce that does not hold the lease reaches neither the terminal nor the queue: after
-- another client took the lease, the call succeeds and leaves what looking at the lease leaves.
pub input_with_lease-take_input_lease :
    {W : Type 0} (t : Terminal W) (s : Session W) (nonce other : ℕ) (bytes : List ℕ)
    → nonce ≢ other
    → input_with_lease t nonce bytes (take_input_lease t other s)
      ≡ (expire_input_lease_if_due t (take_input_lease t other s), ok tt)
unfolding input_with_lease
input_with_lease-take_input_lease t s nonce other bytes differs =
    if_taken _ _ (refused _ nonce other differs (nonce_after t s other))
