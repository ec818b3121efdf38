-- ===== src/Kernel/Graph/Log.antt =====
-- kernel.rs: the numbers of the log, and what keeps them and the links of the containers.
use rill.Prelude.{
  ℕ, ◌+◌, ◌≡◌, ◌<◌, refl, subst, Option, some, List, [], ◌∷◌, ◌++◌, length, ok, err, arith,
  Option-cases, inl, inr, length-append, lookup,
}
use rill.Ring.{u64_max}
use rill.Kernel.Session.State.{Session, Answer}
use rill.Kernel.Graph.State.{
  Kernel, KernelAnswer, GraphEvent, GraphEventKind, get, kernel_then, record_graph, with_leaf,
  new_kernel,
}
use rill.Kernel.Graph.Nodes.{Nodes}
use rill.Kernel.Graph.Links.{IsLinked}

-- what holds of a kernel after a call and after the rest of the method
pub kernel_then-Keeps :
    {W A B : Type 0} (P : Kernel W → Type 0) (r : KernelAnswer W A)
    (f : Kernel W → A → KernelAnswer W B)
    → P r.0
    → ((k : Kernel W) → (a : A) → P k → P (f k a).0)
    → P (kernel_then r f).0
kernel_then-Keeps P (k, ok a) f v next = next k a v
kernel_then-Keeps P (k, err e) f v next = v

-- the same with a property of its own for the rest
pub kernel_then-Gives :
    {W A B : Type 0} (P Q : Kernel W → Type 0) (r : KernelAnswer W A)
    (f : Kernel W → A → KernelAnswer W B)
    → P r.0
    → ((k : Kernel W) → P k → Q k)
    → ((k : Kernel W) → (a : A) → P k → Q (f k a).0)
    → Q (kernel_then r f).0
kernel_then-Gives P Q (k, ok a) f v failed next = next k a v
kernel_then-Gives P Q (k, err e) f v failed next = failed k v

-- what holds of the value of an option that is there
pub in_some :
    {A : Type 0} (P : A → Type 0) {a b : A} → ◌≡◌ {A = Option A} (some a) (some b) → P a → P b
in_some P {a} {b} e v = let same : a ≡ b = cc in subst P same v

-- the containers and the log: what the calls of a leaf change is in its session
pub record Same {W : Type 0} (k k' : Kernel W) : Type 0 where
  pub nodes_same : k'.nodes ≡ k.nodes
  pub events_same : k'.events ≡ k.events
  pub next_same : k'.next_event ≡ k.next_event

pub with_leaf-Same :
    {W A : Type 0} (id : ℕ) (call : Session W → Answer W A) (k : Kernel W)
    → Same k (with_leaf id call k).0
with_leaf-Same id call k = elim (Option-cases (get id k.leaves)) [
  | inl e ↦ rw (with_leaf, e) (record { nodes_same = refl; events_same = refl; next_same = refl })
  | inr (s, e) ↦
      rw (with_leaf, e) (record { nodes_same = refl; events_same = refl; next_same = refl })
]

-- the events numbered from `n` on
unfoldable pub Numbers : ℕ → List GraphEvent → Type 0
Numbers n [] = Unit
Numbers n (e ∷ es) = (e.id ≡ n) × Numbers (n + 1) es

append-Numbers :
    (n m : ℕ) (es : List GraphEvent) (e : GraphEvent)
    → m ≡ n + length es
    → e.id ≡ m
    → Numbers n es
    → Numbers n (es ++ e ∷ [])
unfolding Numbers
append-Numbers n m [] e q i v = (omega arith, tt)
append-Numbers n m (d ∷ es) e q i v = (v.0, append-Numbers (n + 1) m es e (omega arith) i v.1)

-- the links agree, and the events have the numbers from 1 on, as far as the counter goes
pub record IsGood {W : Type 0} (k : Kernel W) : Type 0 where
  pub linked : IsLinked k.nodes
  pub counted : length k.events < u64_max → k.next_event ≡ length k.events + 1
  pub numbers : length k.events < u64_max → Numbers 1 k.events

pub new-IsGood : {W : Type 0} → IsGood (new_kernel {W = W})
unfolding new_kernel Numbers lookup
new-IsGood = record { linked = λ n p. refl; counted = λ fits. refl; numbers = λ fits. tt }

Same-IsGood : {W : Type 0} (k k' : Kernel W) → Same k k' → IsGood k → IsGood k'
Same-IsGood k k' s v = record {
  linked = rw s.nodes_same v.linked;
  counted = rw (s.events_same, s.next_same) v.counted;
  numbers = rw s.events_same v.numbers;
}

pub record_graph-IsGood :
    {W : Type 0} (id : ℕ) (kind : GraphEventKind) (k : Kernel W)
    → IsGood k
    → IsGood (record_graph id kind k)
unfolding record_graph
record_graph-IsGood id kind k v = record {
  linked = v.linked;
  counted = λ fits. omega (arith, fits, longer, v.counted (omega (arith, fits, longer)));
  numbers = λ fits.
      append-Numbers 1 k.next_event k.events written
        (omega (arith, v.counted (omega (arith, fits, longer)))) refl
        (v.numbers (omega (arith, fits, longer)));
}
  where
    written : GraphEvent
    written = record { id = k.next_event; session = id; kind = kind }

    longer : length (k.events ++ written ∷ []) ≡ length k.events + 1
    longer = length-append k.events (written ∷ [])

pub with_leaf-IsGood :
    {W A : Type 0} (id : ℕ) (call : Session W → Answer W A) (k : Kernel W)
    → IsGood k
    → IsGood (with_leaf id call k).0
with_leaf-IsGood id call k v = Same-IsGood k _ (with_leaf-Same id call k) v

-- another map of containers with links that agree
pub relinked :
    {W : Type 0} (k : Kernel W) (m : Nodes) (next : ℕ)
    → IsLinked m
    → IsGood k
    → IsGood (record k { nodes = m; next_node = next })
relinked k m next l v = record { linked = l; counted = v.counted; numbers = v.numbers }
