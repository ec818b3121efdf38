-- ===== src/Kernel/Graph/Tests.antt =====
-- The graph of the kernel at concrete inputs, on a terminal that does nothing.
use rill.Prelude.{
  ℕ, ◌+◌, ◌≡◌, refl, false, none, some, [], ◌∷◌, ok, arith, lookup, insert, ℕ_discrete, ltb,
  if◌then◌else◌,
}
use rill.Kernel.Session.State.{Terminal, Winsize, spawned, is_some}
use rill.Kernel.Session.Input.{terminate as terminate_session}
use rill.Kernel.Graph.State.{
  Kernel, KernelAnswer, get, new_kernel, workspace, tab, group, spawn_event, node_child, leaf_child,
  allocate, record_graph,
}
use rill.Kernel.Graph.Leaves.{terminate, spawn_leaf_with}
use rill.Kernel.Graph.Nodes.{
  Nodes, create_node, reparent_node, modify_node, close_node, collect, child_leaves, children_of,
}
use rill.Kernel.Graph.Links.{IsLinked}
use rill.Kernel.Graph.Subtree.{has}
use rill.Kernel.Graph.Create.{IsCreated, create_node-IsCreated}
use rill.Kernel.Graph.Log.{Numbers}
use rill.Kernel.Graph.Steps.{
  Reached, new_reached, step_reached, create_step, reparent_step, spawn_step, Reached-IsLinked,
  Reached-Numbers,
}
use rill.Kernel.Graph.Isolated.{terminate_call, leaf_call, leaf_call-kept, terminate-terminate}
use rill.Kernel.Graph.Closing.{IsClosed, IsSized, close_node-IsClosed}

abbrev quiet : Terminal ℕ
quiet = record {
  write_all = λ bytes w. (w, ok tt);
  read = λ n w. (w, ok []);
  set_winsize = λ size w. (w, ok tt);
  try_wait = λ w. (w, ok none);
  terminate = λ w. (w + 1, ok tt);
  fg_cwd = λ w. (w, ok "/");
  child_id = λ w. 7;
  now = λ w. (w, w);
  grace_variable = none;
}

abbrev window : Winsize
window = record { cols = 80; rows = 24; px_w = 640; px_h = 384 }

abbrev fresh_kernel : Kernel ℕ
fresh_kernel = new_kernel

-- a workspace with a tab, and a leaf in the tab
abbrev two_nodes : Nodes
two_nodes =
    (1, record { kind = workspace; parent = none; children = node_child 2 ∷ [] })
    ∷ (2, record { kind = tab; parent = some 1; children = leaf_child 1 ∷ [] })
    ∷ []

abbrev busy : Kernel ℕ
busy = record fresh_kernel {
  nodes = two_nodes;
  next_node = 3;
  leaves = (1, spawned 0 window false) ∷ (2, spawned 5 window false) ∷ [];
  next = 3;
}

-- a group in a kernel that has none yet, and its move to the top
abbrev made : KernelAnswer ℕ ℕ
made = (
  record fresh_kernel {
    nodes = (1, record { kind = group; parent = none; children = [] }) ∷ [];
    next_node = 2;
  },
  ok 1,
)

made_lem : create_node group none fresh_kernel ≡ some made
unfolding create_node new_kernel allocate is_some lookup insert
made_lem = refl

abbrev moved_kernel : Kernel ℕ
moved_kernel = (reparent_node 1 none made.0).0

moved-Reached : Reached quiet moved_kernel
moved-Reached =
    step_reached made.0 moved_kernel
      (step_reached fresh_kernel made.0 new_reached
        (create_step group none fresh_kernel made made_lem))
      (reparent_step 1 none made.0)

Reached-IsLinked_example : IsLinked moved_kernel.nodes
Reached-IsLinked_example = Reached-IsLinked quiet moved_kernel moved-Reached

abbrev started : KernelAnswer ℕ ℕ
started = (
  record_graph 1 spawn_event
      (record fresh_kernel { next = 2; leaves = (1, spawned 0 window false) ∷ [] }),
  ok 1,
)

started_lem : spawn_leaf_with (ok 0) window fresh_kernel ≡ some started
unfolding spawn_leaf_with new_kernel allocate is_some lookup insert
started_lem = refl

Reached-Numbers_example : Numbers 1 started.0.events
unfolding record_graph new_kernel
Reached-Numbers_example =
    Reached-Numbers quiet started.0
      (step_reached fresh_kernel started.0 new_reached
        (spawn_step (ok 0) window fresh_kernel started started_lem))
      (omega arith)

create_node-IsCreated_example : IsCreated fresh_kernel (create_node workspace none fresh_kernel)
unfolding new_kernel lookup
create_node-IsCreated_example =
    create_node-IsCreated workspace none fresh_kernel (omega arith) refl (λ n p. refl)

leaf_call-kept_example : get 2 (leaf_call quiet 1 terminate_call busy).leaves ≡ get 2 busy.leaves
leaf_call-kept_example = leaf_call-kept quiet 1 2 terminate_call busy (omega arith)

terminate-terminate_example :
    terminate quiet 1 (terminate quiet 1 busy).0 ≡ ((terminate quiet 1 busy).0, ok tt)
unfolding terminate terminate_session lookup spawned new_kernel ℕ_discrete
terminate-terminate_example = terminate-terminate quiet 1 busy refl

-- the sizes of the two containers
abbrev small_sizes : ℕ → ℕ
small_sizes id = if ltb id 2 then 2 else 1

small_sizes-IsSized : IsSized two_nodes small_sizes
unfolding lookup
small_sizes-IsSized id = ground arith

-- no container has leaf 2
other_leaf : (p : ℕ) → has 2 (child_leaves (children_of (get p two_nodes))) ≡ false
unfolding lookup
other_leaf p = ground arith

close_node-IsClosed_example : IsClosed busy 2 (close_node quiet 2 1 busy)
close_node-IsClosed_example =
    close_node-IsClosed quiet busy 2 1 2 small_sizes small_sizes-IsSized (omega arith)
      (λ p b. other_leaf p)

-- a container that is moved below its own child
cyclic : close_node quiet 50 1 (reparent_node 1 (some 2) busy).0 ≡ none
unfolding close_node reparent_node modify_node collect lookup insert is_some ℕ_discrete
cyclic = refl
