-- ===== src/Kernel/Graph/Good.antt =====
-- kernel.rs: what the calls of the kernel keep, the links of the containers and the numbers of the log.
use rill.Prelude.{
  ℕ, ◌+◌, ◌≡◌, refl, sym, subst, ◌∙◌, Bool, true, false, Option, none, some, List, [], ◌∷◌, length,
  ok, arith, branch, Bool-cases, Option-cases, inl, inr,
}
use rill.Attach.Frame.{Frame}
use rill.Kernel.Session.State.{Terminal}
use rill.Kernel.Session.Input.{
  poll_child, expire_input_lease_if_due, terminate as terminate_session,
}
use rill.Kernel.Session.Frames.{on_frame as session_frame}
use rill.Kernel.Graph.State.{
  Kernel, KernelAnswer, GraphEventKind, NodeKind, leaf_child, get, kernel_then, record_graph,
  with_leaf,
}
use rill.Kernel.Graph.Leaves.{reap, on_frame, terminate, terminate_leaf, cwd, record_if}
use rill.Kernel.Graph.Nodes.{
  Nodes, has_node, parent_known, create_node, insert_node, attach_leaf, reparent_node, collect,
  leaves_in, terminate_all, remove_subtree, push_child, modify_node, is_self,
}
use rill.Kernel.Graph.Links.{IsLinked, push-up}
use rill.Kernel.Graph.Moves.{moved-IsLinked, push-down}
use rill.Kernel.Graph.Subtree.{removed-IsLinked, collect-IsCollected, start-IsCollected}
use rill.Kernel.Graph.Create.{allocate-free, created-IsLinked}
use rill.Kernel.Graph.Log.{
  kernel_then-Keeps, kernel_then-Gives, in_some, with_leaf-Same, IsGood, record_graph-IsGood,
  with_leaf-IsGood, relinked,
}

module _ {W : Type 0} (t : Terminal W) where
  record_if-IsGood :
      (b : Bool) (id : ℕ) (kind : GraphEventKind) (k : Kernel W)
      → IsGood k
      → IsGood (record_if t b id kind k).0
  record_if-IsGood true id kind k v = record_graph-IsGood id kind k v
  record_if-IsGood false id kind k v = v

  pub reap-IsGood : (id : ℕ) (k : Kernel W) → IsGood k → IsGood (reap t id k).0
  unfolding reap
  reap-IsGood id k v =
      kernel_then-Keeps IsGood (with_leaf id (λ s. poll_child t (expire_input_lease_if_due t s)) k)
        _ (with_leaf-IsGood id _ k v) (λ k died v. record_if-IsGood died id _ k v)

  pub on_frame-IsGood :
      (id : ℕ) (f : Frame) (k : Kernel W) → IsGood k → IsGood (on_frame t id f k).0
  unfolding on_frame
  on_frame-IsGood id f k v =
      kernel_then-Keeps IsGood (with_leaf id (session_frame t f) k) _ (with_leaf-IsGood id _ k v)
        (λ k done v. record_if-IsGood _ id _ k v)

  terminate_leaf-IsGood : (id : ℕ) (k : Kernel W) → IsGood k → IsGood (terminate_leaf t id k).0
  terminate_leaf-IsGood id k v =
      kernel_then-Keeps IsGood (with_leaf id (terminate_session t) k) _ (with_leaf-IsGood id _ k v)
        (λ k done v. record_graph-IsGood id _ k v)

  pub terminate-IsGood : (id : ℕ) (k : Kernel W) → IsGood k → IsGood (terminate t id k).0
  unfolding terminate
  terminate-IsGood id k v = elim (Option-cases (get id k.leaves)) [
    | inl e ↦ rw (terminate, e) v
    | inr (s, e) ↦
        rw (terminate, e)
          (branch s.terminated (λ (r : KernelAnswer W Unit). IsGood r.0) v
            (terminate_leaf-IsGood id k v))
  ]

  pub cwd-IsGood : (id : ℕ) (k : Kernel W) → IsGood k → IsGood (cwd t id k).0
  unfolding cwd
  cwd-IsGood id k v = with_leaf-IsGood id _ k v

  terminate_all-IsGood : (ids : List ℕ) (k : Kernel W) → IsGood k → IsGood (terminate_all t ids k).0
  unfolding terminate_all
  terminate_all-IsGood [] k v = v
  terminate_all-IsGood (id ∷ ids) k v =
      kernel_then-Keeps IsGood (terminate t id k) _ (terminate-IsGood id k v)
        (λ k done v. terminate_all-IsGood ids k v)

  -- a terminated leaf leaves the containers alone
  terminate-nodes : (id : ℕ) (k : Kernel W) → (terminate t id k).0.nodes ≡ k.nodes
  unfolding terminate record_graph
  terminate-nodes id k = elim (Option-cases (get id k.leaves)) [
    | inl e ↦ rw (terminate, e)
    | inr (s, e) ↦
        rw (terminate, e)
          (branch s.terminated (λ (r : KernelAnswer W Unit). r.0.nodes ≡ k.nodes) refl
            (kernel_then-Keeps (λ k'. k'.nodes ≡ k.nodes) (with_leaf id (terminate_session t) k) _
              (with_leaf-Same id (terminate_session t) k).nodes_same (λ k done v. v)))
  ]

  terminate_all-nodes : (ids : List ℕ) (k : Kernel W) → (terminate_all t ids k).0.nodes ≡ k.nodes
  unfolding terminate_all
  terminate_all-nodes [] k = refl
  terminate_all-nodes (id ∷ ids) k =
      kernel_then-Keeps (λ k'. k'.nodes ≡ k.nodes) (terminate t id k) _ (terminate-nodes id k)
        (λ k' done v. terminate_all-nodes ids k' ∙ v)

  -- a subtree that was collected goes, behind its leaves
  pub close-IsGood :
      (fuel node : ℕ) (k : Kernel W) (subtree : List ℕ)
      → collect fuel k.nodes (node ∷ []) (node ∷ []) ≡ some subtree
      → IsGood k
      → IsGood
          (kernel_then
            (terminate_all t (leaves_in k.nodes subtree) k)
            (λ k done. (record k { nodes = remove_subtree subtree node k.nodes }, ok tt))).0
  close-IsGood fuel node k subtree e v =
      kernel_then-Gives (λ k'. IsGood k' × (k'.nodes ≡ k.nodes)) IsGood
        (terminate_all t (leaves_in k.nodes subtree) k) _
        (terminate_all-IsGood _ k v, terminate_all-nodes _ k) (λ k' w. w.0)
        (λ k' done w.
          relinked k' (remove_subtree subtree node k'.nodes) k'.next_node
            (subst (λ m. IsLinked (remove_subtree subtree node m)) (sym w.1) without) w.0)
    where
      without : IsLinked (remove_subtree subtree node k.nodes)
      without =
          let collected =
            collect-IsCollected fuel k.nodes node (node ∷ []) (node ∷ [])
              (start-IsCollected k.nodes node) e in
          removed-IsLinked k.nodes node subtree collected.0 (collected.1 (ground arith)) v.linked

-- a leaf among the children changes no link
attached-IsLinked :
    (leaf node : ℕ) (m : Nodes)
    → IsLinked m
    → IsLinked (modify_node node (push_child (leaf_child leaf)) m)
attached-IsLinked leaf node m v n p =
    push-up (leaf_child leaf) node n p m
    ∙ v n p
    ∙ ground arith
    ∙ sym (push-down (leaf_child leaf) node n p m)

module _ {W : Type 0} where
  pub attach_leaf-IsGood :
      (node leaf : ℕ) (k : Kernel W) → IsGood k → IsGood (attach_leaf node leaf k).0
  unfolding attach_leaf
  attach_leaf-IsGood node leaf k v =
      branch _ (λ (r : KernelAnswer W Unit). IsGood r.0)
        (branch _ (λ (r : KernelAnswer W Unit). IsGood r.0)
          (relinked k _ _ (attached-IsLinked leaf node k.nodes v.linked) v) v)
        v

  pub reparent_node-IsGood :
      (node : ℕ) (parent : Option ℕ) (k : Kernel W)
      → IsGood k
      → IsGood (reparent_node node parent k).0
  unfolding reparent_node
  reparent_node-IsGood node parent k v = elim (Bool-cases (has_node node k.nodes)) [
    | inr e ↦ rw e v
    | inl e ↦ elim (Bool-cases (parent_known parent k.nodes)) [
      | inr f ↦ rw (e, f) v
      | inl f ↦
          rw (e, f)
            (branch (is_self node parent) (λ (r : KernelAnswer W Unit). IsGood r.0) v
              (relinked k _ _ (moved-IsLinked node parent k.nodes e f v.linked) v))
    ]
  ]

  -- the kernel that a call leaves, if its loop ends
  insert_node-IsGood :
      (kind : NodeKind) (parent : Option ℕ) (k : Kernel W) (o : Option (ℕ × ℕ))
      {r : KernelAnswer W ℕ}
      → parent_known parent k.nodes ≡ true
      → ((id next : ℕ) → o ≡ some (id, next) → get id k.nodes ≡ none)
      → insert_node kind parent k o ≡ some r
      → IsGood k
      → IsGood r.0
  insert_node-IsGood kind parent k none known free e v = cc
  insert_node-IsGood kind parent k (some (id, next)) known free e v =
      in_some (λ (r : KernelAnswer W ℕ). IsGood r.0) e
        (relinked k _ next
          (created-IsLinked kind parent id k.nodes (free id next refl) known v.linked) v)

  pub create_node-IsGood :
      (kind : NodeKind) (parent : Option ℕ) (k : Kernel W) {r : KernelAnswer W ℕ}
      → create_node kind parent k ≡ some r
      → IsGood k
      → IsGood r.0
  unfolding create_node
  create_node-IsGood kind parent k e v = elim (Bool-cases (parent_known parent k.nodes)) [
    | inr f ↦ in_some (λ (r : KernelAnswer W ℕ). IsGood r.0) (rw f at e) v
    | inl f ↦
        insert_node-IsGood kind parent k _ f
          (λ id next e. allocate-free (length k.nodes + 1) k.next_node k.nodes e) (rw f at e) v
  ]
