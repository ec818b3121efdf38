-- ===== src/Kernel/Graph/Nodes.antt =====
-- kernel.rs: the containers. A loop runs on fuel, and gives `none` if it runs out: the loop of ids has
-- a round for each node and one more, the loop of `collect_subtree` the rounds that its caller gives.
use rill.Prelude.{
  ℕ, zero, suc, ◌+◌, ◌==◌, Bool, true, false, not, if◌then◌else◌, Option, none, some, List, [], ◌∷◌,
  ◌++◌, length, filter, ok, err, remove, ℕ_discrete,
}
use rill.Kernel.Error.{unknown_session, unknown_node}
use rill.Kernel.Session.State.{Terminal, is_some}
use rill.Kernel.Graph.State.{
  Kernel, KernelAnswer, ContainerNode, ContainerSnapshot, NodeKind, NodeChild, node_child,
  leaf_child, get, put, allocate, kernel_then, sort_ids, keys,
}
use rill.Kernel.Graph.Leaves.{terminate}

abbrev pub Nodes : Type 0
Nodes = List (ℕ × ContainerNode)

abbrev pub has_node : ℕ → Nodes → Bool
has_node id m = is_some (get id m)

-- a parent that is given has to be there
abbrev pub parent_known : Option ℕ → Nodes → Bool
parent_known none m = true
parent_known (some p) m = has_node p m

-- `get_mut` and a change of the node, if it is there
unfoldable pub modify_node : ℕ → (ContainerNode → ContainerNode) → Nodes → Nodes
modify_node id f m = elim (get id m) [ none ↦ m | some n ↦ put id (f n) m ]

abbrev pub modify_parent : Option ℕ → (ContainerNode → ContainerNode) → Nodes → Nodes
modify_parent none f m = m
modify_parent (some p) f m = modify_node p f m

abbrev pub push_child : NodeChild → ContainerNode → ContainerNode
push_child c n = record n { children = n.children ++ c ∷ [] }

abbrev pub is_node : ℕ → NodeChild → Bool
is_node id (node_child n) = n == id
is_node id (leaf_child s) = false

-- `children.retain`
abbrev pub drop_child : ℕ → ContainerNode → ContainerNode
drop_child id n = record n { children = filter (λ c. not (is_node id c)) n.children }

abbrev pub parent_of : Option ContainerNode → Option ℕ
parent_of none = none
parent_of (some n) = n.parent

-- the node under the id that was allocated
abbrev pub insert_node :
    {W : Type 0} → NodeKind → Option ℕ → Kernel W → Option (ℕ × ℕ) → Option (KernelAnswer W ℕ)
insert_node kind parent k none = none
insert_node kind parent k (some (id, next)) = some (
  record k {
    next_node = next;
    nodes =
        modify_parent parent (push_child (node_child id))
          (put id (record { kind = kind; parent = parent; children = [] }) k.nodes);
  },
  ok id,
)

unfoldable pub create_node :
    {W : Type 0} → NodeKind → Option ℕ → Kernel W → Option (KernelAnswer W ℕ)
create_node kind parent k =
    if parent_known parent k.nodes
    then insert_node kind parent k (allocate (length k.nodes + 1) k.next_node k.nodes)
    else some (k, err unknown_node)

unfoldable pub attach_leaf : {W : Type 0} → ℕ → ℕ → Kernel W → KernelAnswer W (Unit {0})
attach_leaf node leaf k =
    if is_some (get leaf k.leaves)
    then if has_node node k.nodes
      then (record k { nodes = modify_node node (push_child (leaf_child leaf)) k.nodes }, ok tt)
      else (k, err unknown_node)
    else (k, err unknown_session)

-- a parent that is the node itself is refused
abbrev pub is_self : ℕ → Option ℕ → Bool
is_self node none = false
is_self node (some p) = p == node

-- the node's place in the old parent goes, it gets one in the new parent, and it gets that parent
abbrev pub moved : ℕ → Option ℕ → Nodes → Nodes
moved node new_parent m =
    modify_node node (λ n. record n { parent = new_parent })
      (modify_parent new_parent (push_child (node_child node))
        (modify_parent (parent_of (get node m)) (drop_child node) m))

unfoldable pub reparent_node : {W : Type 0} → ℕ → Option ℕ → Kernel W → KernelAnswer W (Unit {0})
reparent_node node new_parent k =
    if not (has_node node k.nodes)
    then (k, err unknown_node)
    else if not (parent_known new_parent k.nodes)
    then (k, err unknown_node)
    else if is_self node new_parent
    then (k, err unknown_node)
    else (record k { nodes = moved node new_parent k.nodes }, ok tt)

-- the containers and the leaves among the children
abbrev pub child_nodes : List NodeChild → List ℕ
child_nodes [] = []
child_nodes (node_child n ∷ cs) = n ∷ child_nodes cs
child_nodes (leaf_child s ∷ cs) = child_nodes cs

abbrev pub child_leaves : List NodeChild → List ℕ
child_leaves [] = []
child_leaves (node_child n ∷ cs) = child_leaves cs
child_leaves (leaf_child s ∷ cs) = s ∷ child_leaves cs

abbrev pub children_of : Option ContainerNode → List NodeChild
children_of none = []
children_of (some n) = n.children

-- the children on top of the frontier, the last one first
abbrev pub push_all : List ℕ → List ℕ → List ℕ
push_all [] frontier = frontier
push_all (c ∷ cs) frontier = push_all cs (c ∷ frontier)

-- the loop of `collect_subtree`, with the top of the frontier first
unfoldable pub collect : ℕ → Nodes → List ℕ → List ℕ → Option (List ℕ)
collect fuel m out [] = some out
collect zero m out (id ∷ frontier) = none
collect (suc fuel) m out (id ∷ frontier) =
    let below = child_nodes (children_of (get id m)) in
    collect fuel m (out ++ below) (push_all below frontier)

unfoldable pub leaves_in : Nodes → List ℕ → List ℕ
leaves_in m [] = []
leaves_in m (id ∷ ids) = child_leaves (children_of (get id m)) ++ leaves_in m ids

abbrev pub remove_all : List ℕ → Nodes → Nodes
remove_all [] m = m
remove_all (id ∷ ids) m = remove_all ids (remove ℕ_discrete id m)

unfoldable pub remove_subtree : List ℕ → ℕ → Nodes → Nodes
remove_subtree subtree root m =
    remove_all subtree (modify_parent (parent_of (get root m)) (drop_child root) m)

module _ {W : Type 0} (t : Terminal W) where
  -- the leaves are terminated in their order, until one of the calls fails
  unfoldable pub terminate_all : List ℕ → Kernel W → KernelAnswer W (Unit {0})
  terminate_all [] k = (k, ok tt)
  terminate_all (id ∷ ids) k = kernel_then (terminate t id k) (λ k done. terminate_all ids k)

  -- `close_node` for the subtree that was collected
  abbrev pub close : ℕ → Kernel W → Option (List ℕ) → Option (KernelAnswer W (Unit {0}))
  close node k none = none
  close node k (some subtree) = some (
      kernel_then (terminate_all (leaves_in k.nodes subtree) k)
        (λ k done. (record k { nodes = remove_subtree subtree node k.nodes }, ok tt)))

  unfoldable pub close_node : ℕ → ℕ → Kernel W → Option (KernelAnswer W (Unit {0}))
  close_node fuel node k =
      if has_node node k.nodes
      then close node k (collect fuel k.nodes (node ∷ []) (node ∷ []))
      else some (k, err unknown_node)

-- the snapshot of the nodes in the order of `ids`
unfoldable pub snapshots : Nodes → List ℕ → List ContainerSnapshot
snapshots m [] = []
snapshots m (id ∷ ids) = elim (get id m) [
  | none ↦ snapshots m ids
  | some n ↦
      record { id = id; kind = n.kind; parent = n.parent; children = n.children } ∷ snapshots m ids
]

unfoldable pub container_snapshot : {W : Type 0} → Kernel W → List ContainerSnapshot
container_snapshot k = snapshots k.nodes (sort_ids (keys k.nodes))
