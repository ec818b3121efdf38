-- ===== src/Kernel/Graph/Steps.antt =====
-- kernel.rs: the calls of the kernel as steps, and what every kernel that they reach satisfies.
use rill.Prelude.{
  ℕ, ◌≡◌, ◌<◌, false, Option, none, some, List, [], ◌∷◌, length, Result, ok, err, Bool-cases,
  Option-cases, inl, inr,
}
use rill.Attach.Frame.{Frame}
use rill.Ring.{u64_max}
use rill.Kernel.Error.{Error}
use rill.Kernel.Session.State.{Session, Terminal, Winsize, spawned}
use rill.Kernel.Graph.State.{
  Kernel, KernelAnswer, NodeKind, get, put, new_kernel, spawn_event, sort_ids, keys,
}
use rill.Kernel.Graph.Leaves.{
  spawn_leaf_with, spawn_answer, insert_leaf, reap, on_frame, terminate, cwd, leaf_layout, layouts,
  layout_snapshot,
}
use rill.Kernel.Graph.Nodes.{has_node, create_node, attach_leaf, reparent_node, close_node, collect}
use rill.Kernel.Graph.Links.{IsLinked}
use rill.Kernel.Graph.Good.{
  reap-IsGood, on_frame-IsGood, terminate-IsGood, cwd-IsGood, close-IsGood, attach_leaf-IsGood,
  reparent_node-IsGood, create_node-IsGood,
}
use rill.Kernel.Graph.Log.{IsGood, Numbers, in_some, new-IsGood, record_graph-IsGood}

-- what a call leaves, whether it succeeds or not; a call whose loop does not end is no step
pub data Step {W : Type 0} (t : Terminal W) : Kernel W → Kernel W → Type 0 where
  spawn_step :
      (answer : Result Error W) (size : Winsize) (k : Kernel W) (r : KernelAnswer W ℕ)
      → spawn_leaf_with answer size k ≡ some r
      → Step t k r.0
  frame_step : (id : ℕ) (f : Frame) (k : Kernel W) → Step t k (on_frame t id f k).0
  reap_step : (id : ℕ) (k : Kernel W) → Step t k (reap t id k).0
  terminate_step : (id : ℕ) (k : Kernel W) → Step t k (terminate t id k).0
  cwd_step : (id : ℕ) (k : Kernel W) → Step t k (cwd t id k).0
  layout_step : (k : Kernel W) → Step t k (layout_snapshot t k).0
  create_step :
      (kind : NodeKind) (parent : Option ℕ) (k : Kernel W) (r : KernelAnswer W ℕ)
      → create_node kind parent k ≡ some r
      → Step t k r.0
  attach_step : (node leaf : ℕ) (k : Kernel W) → Step t k (attach_leaf node leaf k).0
  reparent_step :
      (node : ℕ) (parent : Option ℕ) (k : Kernel W) → Step t k (reparent_node node parent k).0
  close_step :
      (fuel node : ℕ) (k : Kernel W) (r : KernelAnswer W (Unit {0}))
      → close_node t fuel node k ≡ some r
      → Step t k r.0

-- the kernels that calls reach from a new one
pub data Reached {W : Type 0} (t : Terminal W) : Kernel W → Type 0 where
  new_reached : Reached t new_kernel
  step_reached : (k k' : Kernel W) → Reached t k → Step t k k' → Reached t k'

insert_leaf-IsGood :
    {W : Type 0} (s : Session W) (k : Kernel W) (o : Option (ℕ × ℕ)) (r : KernelAnswer W ℕ)
    → spawn_answer (insert_leaf s k o) ≡ some r
    → IsGood k
    → IsGood r.0
insert_leaf-IsGood s k none r e v = cc
insert_leaf-IsGood {W} s k (some (id, next)) r e v =
    in_some (λ (r : KernelAnswer W ℕ). IsGood r.0) e
      (record_graph-IsGood id spawn_event (record k { next = next; leaves = put id s k.leaves })
        (record { linked = v.linked; counted = v.counted; numbers = v.numbers }))

spawn_leaf_with-IsGood :
    {W : Type 0} (answer : Result Error W) (size : Winsize) (k : Kernel W) (r : KernelAnswer W ℕ)
    → spawn_leaf_with answer size k ≡ some r
    → IsGood k
    → IsGood r.0
unfolding spawn_leaf_with
spawn_leaf_with-IsGood {W} (err x) size k r e v = in_some (λ (r : KernelAnswer W ℕ). IsGood r.0) e v
spawn_leaf_with-IsGood (ok w) size k r e v = insert_leaf-IsGood (spawned w size false) k _ r e v

module _ {W : Type 0} (t : Terminal W) where
  layouts-IsGood : (ids : List ℕ) (k : Kernel W) → IsGood k → IsGood (layouts t ids k).0
  unfolding layouts
  layouts-IsGood [] k v = v
  layouts-IsGood (id ∷ ids) k v = elim (Option-cases (get id k.leaves)) [
    | inl e ↦ rw (layouts, e) (layouts-IsGood ids k v)
    | inr (s, e) ↦
        rw (layouts, e)
          (layouts-IsGood ids (record k { leaves = put id (leaf_layout t id s).0 k.leaves })
            (record { linked = v.linked; counted = v.counted; numbers = v.numbers }))
  ]

  close_node-IsGood :
      (fuel node : ℕ) (k : Kernel W) (r : KernelAnswer W (Unit {0}))
      → close_node t fuel node k ≡ some r
      → IsGood k
      → IsGood r.0
  unfolding close_node
  close_node-IsGood fuel node k r e v = elim (Bool-cases (has_node node k.nodes)) [
    | inr f ↦ in_some (λ (r : KernelAnswer W Unit). IsGood r.0) (rw f at e) v
    | inl f ↦ elim (Option-cases (collect fuel k.nodes (node ∷ []) (node ∷ []))) [
      | inl g ↦ let wrong = rw (f, g) at e in cc
      | inr (subtree, g) ↦
          in_some (λ (r : KernelAnswer W Unit). IsGood r.0) (rw (f, g) at e)
            (close-IsGood t fuel node k subtree g v)
    ]
  ]

  Step-IsGood : (k k' : Kernel W) → Step t k k' → IsGood k → IsGood k'
  unfolding layout_snapshot
  Step-IsGood k k' (spawn_step answer size _ r e) v = spawn_leaf_with-IsGood answer size k r e v
  Step-IsGood k k' (frame_step id f _) v = on_frame-IsGood t id f k v
  Step-IsGood k k' (reap_step id _) v = reap-IsGood t id k v
  Step-IsGood k k' (terminate_step id _) v = terminate-IsGood t id k v
  Step-IsGood k k' (cwd_step id _) v = cwd-IsGood t id k v
  Step-IsGood k k' (layout_step _) v = layouts-IsGood (sort_ids (keys k.leaves)) k v
  Step-IsGood k k' (create_step kind parent _ r e) v = create_node-IsGood kind parent k e v
  Step-IsGood k k' (attach_step node leaf _) v = attach_leaf-IsGood node leaf k v
  Step-IsGood k k' (reparent_step node parent _) v = reparent_node-IsGood node parent k v
  Step-IsGood k k' (close_step fuel node _ r e) v = close_node-IsGood fuel node k r e v

  Reached-IsGood : (k : Kernel W) → Reached t k → IsGood k
  Reached-IsGood k new_reached = new-IsGood
  Reached-IsGood k (step_reached k0 _ r s) = Step-IsGood k0 k s (Reached-IsGood k0 r)

-- In every kernel that calls reach from a new one, the two directions of the container links agree: a
-- container names another one as its parent exactly if that one has it among its children. The calls
-- are spawning, frames, reaping, terminating, reading paths and layouts, and creating, filling,
-- moving and closing containers.
pub Reached-IsLinked : {W : Type 0} (t : Terminal W) (k : Kernel W) → Reached t k → IsLinked k.nodes
Reached-IsLinked t k r = (Reached-IsGood t k r).linked

-- In every kernel that calls reach from a new one, the events in the log have the ids 1, 2, 3 and so
-- on, in the order in which they were recorded, as long as they are fewer than `u64::MAX`.
pub Reached-Numbers :
    {W : Type 0} (t : Terminal W) (k : Kernel W)
    → Reached t k
    → length k.events < u64_max
    → Numbers 1 k.events
Reached-Numbers t k r fits = (Reached-IsGood t k r).numbers fits
