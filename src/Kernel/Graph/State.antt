-- ===== src/Kernel/Graph/State.antt =====
-- kernel.rs: the fields of `Kernel`, its counters and its log of events. A `SessionId` and a `NodeId`
-- are their numbers.
use rill.Prelude.{
  ℕ, zero, suc, ◌+◌, if◌then◌else◌, Option, none, some, List, [], ◌∷◌, ◌++◌, String, ltb, leb,
  Result, ok, err, lookup, insert, ℕ_discrete,
}
use rill.Ring.{u64_max, saturating_add}
use rill.Kernel.Error.{Error, unknown_session}
use rill.Kernel.Session.State.{Session, Answer, is_some}

pub data GraphEventKind : Type 0 where
  spawn_event attach_event terminate_event exit_event : GraphEventKind

pub record GraphEvent : Type 0 where
  pub id : ℕ
  pub session : ℕ
  pub kind : GraphEventKind

pub record LeafLayout : Type 0 where
  pub id : ℕ
  pub cols : ℕ
  pub rows : ℕ
  pub child_pid : ℕ
  pub cwd : Option String

pub data NodeKind : Type 0 where
  workspace group tab split : NodeKind

pub data NodeChild : Type 0 where
  node_child : ℕ → NodeChild
  leaf_child : ℕ → NodeChild

pub record ContainerNode : Type 0 where
  pub kind : NodeKind
  pub parent : Option ℕ
  pub children : List NodeChild

pub record ContainerSnapshot : Type 0 where
  pub id : ℕ
  pub kind : NodeKind
  pub parent : Option ℕ
  pub children : List NodeChild

pub record Kernel (W : Type 0) : Type 0 where
  pub next : ℕ
  pub leaves : List (ℕ × Session W)
  pub events : List GraphEvent
  pub next_event : ℕ
  pub nodes : List (ℕ × ContainerNode)
  pub next_node : ℕ

-- `Kernel::new`
unfoldable pub new_kernel : {W : Type 0} → Kernel W
new_kernel = record {
  next = 1;
  leaves = [];
  events = [];
  next_event = 1;
  nodes = [];
  next_node = 1;
}

-- `get` of a map
abbrev pub get : {V : Type 0} → ℕ → List (ℕ × V) → Option V
get id m = lookup ℕ_discrete id m

-- the map with another value for an id that is there, or with a new id
abbrev pub put : {V : Type 0} → ℕ → V → List (ℕ × V) → List (ℕ × V)
put id v m = insert ℕ_discrete id v m

-- `checked_add(1).unwrap_or(1)`
abbrev pub next_id : ℕ → ℕ
next_id id = if ltb id u64_max then id + 1 else 1

-- the loop of `allocate_id` and `allocate_node_id`: the first id from the counter on that is free, and
-- the counter behind it
unfoldable pub allocate : {V : Type 0} → ℕ → ℕ → List (ℕ × V) → Option (ℕ × ℕ)
allocate zero id m = none
allocate (suc fuel) id m =
    let rest = allocate fuel (next_id id) m in
    if is_some (get id m) then rest else some (id, next_id id)

abbrev pub KernelAnswer : Type 0 → Type 0 → Type 0
KernelAnswer W A = Kernel W × Result Error A

-- `?` and the rest of the method
abbrev pub kernel_then :
    {W A B : Type 0} → KernelAnswer W A → (Kernel W → A → KernelAnswer W B) → KernelAnswer W B
kernel_then (k, ok a) f = f k a
kernel_then (k, err e) f = (k, err e)

unfoldable pub record_graph : {W : Type 0} → ℕ → GraphEventKind → Kernel W → Kernel W
record_graph session kind k = record k {
  next_event = saturating_add k.next_event 1;
  events = k.events ++ record { id = k.next_event; session = session; kind = kind } ∷ [];
}

-- `get_mut(&id).ok_or(UnknownSession)` and a call of the session
abbrev pub with_leaf : {W A : Type 0} → ℕ → (Session W → Answer W A) → Kernel W → KernelAnswer W A
with_leaf id call k = elim (get id k.leaves) [
  | none ↦ (k, err unknown_session)
  | some s ↦ (record k { leaves = put id (call s).0 k.leaves }, (call s).1)
]

-- `sort_by_key` of ids
unfoldable pub insert_id : ℕ → List ℕ → List ℕ
insert_id id [] = id ∷ []
insert_id id (j ∷ js) = if leb id j then id ∷ j ∷ js else j ∷ insert_id id js

unfoldable pub sort_ids : List ℕ → List ℕ
sort_ids [] = []
sort_ids (id ∷ ids) = insert_id id (sort_ids ids)

abbrev pub keys : {V : Type 0} → List (ℕ × V) → List ℕ
keys [] = []
keys (x ∷ m) = x.0 ∷ keys m
