-- ===== src/Kernel/Graph/Isolated.antt =====
-- kernel.rs: what a call of one leaf leaves of the other leaves, and of a leaf that was terminated.
use rill.Prelude.{
  ℕ, ◌==◌, ◌≡◌, ◌≢◌, refl, ◌∙◌, true, false, some, List, [], ◌∷◌, ok, err, arith, branch,
  Bool-cases, Option-cases, inl, inr, err-not-ok, ==-refl,
}
use rill.Attach.Frame.{Frame}
use rill.Kernel.Session.State.{Session, Terminal, Answer}
use rill.Kernel.Session.Input.{
  poll_child, expire_input_lease_if_due, terminate as terminate_session,
}
use rill.Kernel.Session.Frames.{on_frame as session_frame}
use rill.Kernel.Graph.State.{
  Kernel, KernelAnswer, GraphEventKind, get, kernel_then, record_graph, with_leaf, terminate_event,
}
use rill.Kernel.Graph.Leaves.{reap, on_frame, terminate, cwd}
use rill.Kernel.Graph.Nodes.{terminate_all}
use rill.Kernel.Graph.Links.{get-put}
use rill.Kernel.Graph.Subtree.{has}
use rill.Kernel.Graph.Log.{kernel_then-Keeps}

-- a call of one leaf
pub data LeafCall : Type 0 where
  frame_call : Frame → LeafCall
  reap_call terminate_call cwd_call : LeafCall

-- the kernel that the call leaves
unfoldable pub leaf_call : {W : Type 0} → Terminal W → ℕ → LeafCall → Kernel W → Kernel W
leaf_call t id (frame_call f) k = (on_frame t id f k).0
leaf_call t id reap_call k = (reap t id k).0
leaf_call t id terminate_call k = (terminate t id k).0
leaf_call t id cwd_call k = (cwd t id k).0

with_leaf-other :
    {W A : Type 0} (id other : ℕ) (call : Session W → Answer W A) (k : Kernel W)
    → (id == other) ≡ false
    → get other (with_leaf id call k).0.leaves ≡ get other k.leaves
with_leaf-other id other call k differs = elim (Option-cases (get id k.leaves)) [
  | inl e ↦ rw (with_leaf, e)
  | inr (s, e) ↦ rw (with_leaf, e) (get-put other id (call s).0 k.leaves ∙ rw differs)
]

module _ {W : Type 0} (t : Terminal W) (id other : ℕ) (differs : (id == other) ≡ false) where
  terminate-other : (k : Kernel W) → get other (terminate t id k).0.leaves ≡ get other k.leaves
  unfolding terminate record_graph
  terminate-other k = elim (Option-cases (get id k.leaves)) [
    | inl e ↦ rw (terminate, e)
    | inr (s, e) ↦
        rw (terminate, e)
          (branch s.terminated
            (λ (r : KernelAnswer W Unit). get other r.0.leaves ≡ get other k.leaves) refl
            (kernel_then-Keeps (λ k'. get other k'.leaves ≡ get other k.leaves)
              (with_leaf id (terminate_session t) k) _
              (with_leaf-other id other (terminate_session t) k differs) (λ k done v. v)))
  ]

  leaf_call-other :
      (c : LeafCall) (k : Kernel W) → get other (leaf_call t id c k).leaves ≡ get other k.leaves
  unfolding leaf_call on_frame reap cwd record_graph
  leaf_call-other (frame_call f) k =
      kernel_then-Keeps (λ k'. get other k'.leaves ≡ get other k.leaves)
        (with_leaf id (session_frame t f) k) _
        (with_leaf-other id other (session_frame t f) k differs)
        (λ k' done v. branch _ (λ (k' : Kernel W). get other k'.leaves ≡ get other k.leaves) v v)
  leaf_call-other reap_call k =
      kernel_then-Keeps (λ k'. get other k'.leaves ≡ get other k.leaves)
        (with_leaf id (λ s. poll_child t (expire_input_lease_if_due t s)) k) _
        (with_leaf-other id other _ k differs)
        (λ k' died v. branch died (λ (k' : Kernel W). get other k'.leaves ≡ get other k.leaves) v v)
  leaf_call-other terminate_call k = terminate-other k
  leaf_call-other cwd_call k = with_leaf-other id other _ k differs

-- the leaves that are not in the list stay
pub terminate_all-other :
    {W : Type 0} (t : Terminal W) (other : ℕ) (ids : List ℕ) (k : Kernel W)
    → has other ids ≡ false
    → get other (terminate_all t ids k).0.leaves ≡ get other k.leaves
unfolding terminate_all
terminate_all-other t other [] k outside = refl
terminate_all-other t other (id ∷ ids) k outside =
    let differs : (id == other) ≡ false = ground arith in
    let rest : has other ids ≡ false = ground arith in
    kernel_then-Keeps (λ k'. get other k'.leaves ≡ get other k.leaves) (terminate t id k) _
      (terminate-other t id other differs k)
      (λ k' done v. terminate_all-other t other ids k' rest ∙ v)

-- Frames, reaping, terminating and reading the path of one leaf leave every other leaf as it was,
-- whether the call succeeds or fails.
pub leaf_call-kept :
    {W : Type 0} (t : Terminal W) (id other : ℕ) (c : LeafCall) (k : Kernel W)
    → id ≢ other
    → get other (leaf_call t id c k).leaves ≡ get other k.leaves
leaf_call-kept t id other c k differs = leaf_call-other t id other (ground arith) c k

-- a leaf that is marked as terminated
record IsMarked {W : Type 0} (id : ℕ) (k : Kernel W) : Type 0 where
  leaf : Session W
  there : get id k.leaves ≡ some leaf
  marked : leaf.terminated ≡ true

marked-terminate :
    {W : Type 0} (t : Terminal W) (id : ℕ) (k : Kernel W)
    → IsMarked id k
    → terminate t id k ≡ (k, ok tt)
unfolding terminate
marked-terminate t id k v = rw (terminate, v.there, v.marked)

-- the event that is recorded behind a call changes no leaf
recorded-IsMarked :
    {W : Type 0} (id : ℕ) (kind : GraphEventKind) (r : KernelAnswer W (Unit {0}))
    → IsMarked id r.0
    → IsMarked id (kernel_then r (λ k done. (record_graph id kind k, ok tt))).0
unfolding record_graph
recorded-IsMarked id kind (k, ok _) v = record { leaf = v.leaf; there = v.there; marked = v.marked }
recorded-IsMarked id kind (k, err e) v = v

terminate-IsMarked :
    {W : Type 0} (t : Terminal W) (id : ℕ) (k : Kernel W)
    → (terminate t id k).1 ≡ ok tt
    → IsMarked id (terminate t id k).0
unfolding terminate terminate_session
terminate-IsMarked t id k done = elim (Option-cases (get id k.leaves)) [
  | inl e ↦ err-not-ok (rw (terminate, e) at done)
  | inr (s, e) ↦ elim (Bool-cases s.terminated) [
    | inl f ↦ rw (terminate, e, f) (record { leaf = s; there = e; marked = f })
    | inr f ↦
        let after : Session _ = (terminate_session t s).0 in
        rw (terminate, e, f)
          (recorded-IsMarked id terminate_event (with_leaf id (terminate_session t) k) (
            rw (with_leaf, e)
              (record {
                leaf = after;
                there = get-put id id after k.leaves ∙ rw (==-refl id);
                marked = rw f;
              })))
  ]
]

-- A leaf that was terminated is not terminated again: after a call that succeeded, the next one
-- succeeds, and changes neither the leaf nor the log.
pub terminate-terminate :
    {W : Type 0} (t : Terminal W) (id : ℕ) (k : Kernel W)
    → (terminate t id k).1 ≡ ok tt
    → terminate t id (terminate t id k).0 ≡ ((terminate t id k).0, ok tt)
terminate-terminate t id k done =
    marked-terminate t id (terminate t id k).0 (terminate-IsMarked t id k done)
