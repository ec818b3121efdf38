-- ===== src/Kernel/Graph/Leaves.antt =====
-- kernel.rs: the calls that name one leaf.
use rill.Prelude.{
  ℕ, ◌+◌, Bool, false, not, ◌&&◌, if◌then◌else◌, Option, none, some, List, [], ◌∷◌, String, length,
  Result, ok, err,
}
use rill.Attach.Frame.{Frame, attach_frame}
use rill.Kernel.Error.{Error, unknown_session}
use rill.Kernel.Session.State.{
  Session, Terminal, Winsize, HostIdentity, attached, spawned, host_identity as session_identity,
}
use rill.Kernel.Session.Input.{
  expire_input_lease_if_due, poll_child, cwd as session_cwd, terminate as terminate_session,
}
use rill.Kernel.Session.Frames.{on_frame as session_frame}
use rill.Kernel.Graph.State.{
  Kernel, KernelAnswer, GraphEventKind, spawn_event, attach_event, terminate_event, exit_event,
  LeafLayout, get, put, allocate, kernel_then, record_graph, with_leaf, sort_ids, keys,
}

-- whether a map has the leaf, and a writer is attached to it
abbrev pub leaf_attached : {W : Type 0} → Option (Session W) → Bool
leaf_attached none = false
leaf_attached (some s) = attached s

abbrev pub is_writer_attach : Frame → Bool
is_writer_attach (attach_frame generation session protocol observe) = not observe
is_writer_attach _ = false

-- the leaf under the id that was allocated
abbrev pub insert_leaf :
    {W : Type 0} → Session W → Kernel W → Option (ℕ × ℕ) → Option (Kernel W × ℕ)
insert_leaf s k none = none
insert_leaf s k (some (id, next)) =
    some (record_graph id spawn_event (record k { next = next; leaves = put id s k.leaves }), id)

-- what is left, if the loop of ids ends
abbrev pub spawn_answer : {W : Type 0} → Option (Kernel W × ℕ) → Option (KernelAnswer W ℕ)
spawn_answer none = none
spawn_answer (some (k, id)) = some (k, ok id)

-- `spawn_leaf_with`, for what `Pty::spawn_with` answers; the loop of ids has a round for each leaf and
-- one more
unfoldable pub spawn_leaf_with :
    {W : Type 0} → Result Error W → Winsize → Kernel W → Option (KernelAnswer W ℕ)
spawn_leaf_with (err e) size k = some (k, err e)
spawn_leaf_with (ok w) size k =
    spawn_answer
      (insert_leaf (spawned w size false) k (allocate (length k.leaves + 1) k.next k.leaves))

-- the identity of a leaf that is there
unfoldable pub host_identity : {W : Type 0} → ℕ → Kernel W → Result Error HostIdentity
host_identity id k = elim (get id k.leaves) [
  | none ↦ err unknown_session
  | some s ↦ ok (session_identity s)
]

module _ {W : Type 0} (t : Terminal W) where
  -- an event that is recorded after the call, or not
  abbrev pub record_if : Bool → ℕ → GraphEventKind → Kernel W → KernelAnswer W (Unit {0})
  record_if b id kind k = (if b then record_graph id kind k else k, ok tt)

  unfoldable pub reap : ℕ → Kernel W → KernelAnswer W (Unit {0})
  reap id k =
      kernel_then (with_leaf id (λ s. poll_child t (expire_input_lease_if_due t s)) k)
        (λ k died. record_if died id exit_event k)

  unfoldable pub on_frame : ℕ → Frame → Kernel W → KernelAnswer W (Unit {0})
  on_frame id frame k =
      let was = leaf_attached (get id k.leaves) in
      kernel_then (with_leaf id (session_frame t frame) k) (λ k done.
        record_if (is_writer_attach frame && (not was && leaf_attached (get id k.leaves))) id
          attach_event k)

  -- the call on a leaf that was not terminated, and its event
  abbrev pub terminate_leaf : ℕ → Kernel W → KernelAnswer W (Unit {0})
  terminate_leaf id k =
      kernel_then (with_leaf id (terminate_session t) k)
        (λ k done. (record_graph id terminate_event k, ok tt))

  unfoldable pub terminate : ℕ → Kernel W → KernelAnswer W (Unit {0})
  terminate id k = elim (get id k.leaves) [
    | none ↦ (k, err unknown_session)
    | some s ↦ if s.terminated then (k, ok tt) else terminate_leaf id k
  ]

  unfoldable pub cwd : ℕ → Kernel W → KernelAnswer W String
  cwd id k = with_leaf id (session_cwd t) k

  -- `Result::ok`
  abbrev pub path_of : Result Error String → Option String
  path_of (ok path) = some path
  path_of (err e) = none

  unfoldable pub leaf_layout : ℕ → Session W → Session W × LeafLayout
  leaf_layout id s =
      let out = session_cwd t s in
      (
        out.0,
        record {
          id = id;
          cols = s.size.cols;
          rows = s.size.rows;
          child_pid = t.child_id s.pty;
          cwd = path_of out.1;
        },
      )

  -- the rows of the leaves in the order of `ids`
  unfoldable pub layouts : List ℕ → Kernel W → Kernel W × List LeafLayout
  layouts [] k = (k, [])
  layouts (id ∷ ids) k = elim (get id k.leaves) [
    | none ↦ layouts ids k
    | some s ↦
        let out = leaf_layout id s in
        let rest = layouts ids (record k { leaves = put id out.0 k.leaves }) in
        (rest.0, out.1 ∷ rest.1)
  ]

  unfoldable pub layout_snapshot : Kernel W → Kernel W × List LeafLayout
  layout_snapshot k = layouts (sort_ids (keys k.leaves)) k
