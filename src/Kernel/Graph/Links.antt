-- ===== src/Kernel/Graph/Links.antt =====
-- kernel.rs: the two directions of the links between containers, `parent` and `children`.
use rill.Prelude.{
  ℕ, ◌==◌, ◌≡◌, refl, sym, ap, ◌∙◌, Bool, true, false, not, ◌&&◌, ◌||◌, if◌then◌else◌, Option, none,
  some, List, [], ◌∷◌, ◌++◌, filter, arith, Bool-cases, ==→eq, Option-cases, inl, inr, ℕ_discrete,
  lookup-insert,
}
use rill.Kernel.Graph.State.{ContainerNode, NodeChild, node_child, leaf_child, get, put}
use rill.Kernel.Graph.Nodes.{
  Nodes, modify_node, push_child, drop_child, is_node, parent_of, children_of,
}

abbrev pub has_child : ℕ → List NodeChild → Bool
has_child c [] = false
has_child c (x ∷ xs) = is_node c x || has_child c xs

-- whether an option has this id
abbrev pub names : Option ℕ → ℕ → Bool
names none p = false
names (some q) p = q == p

-- the parent that a node names, and the children that it has
abbrev pub points_up : Nodes → ℕ → ℕ → Bool
points_up m n p = names (parent_of (get n m)) p

abbrev pub points_down : Nodes → ℕ → ℕ → Bool
points_down m p n = has_child n (children_of (get p m))

-- a node names its parent exactly if that has it as a child
abbrev pub IsLinked : Nodes → Type 0
IsLinked m = (n p : ℕ) → points_up m n p ≡ points_down m p n

pub has_child-append :
    (c : ℕ) (xs ys : List NodeChild) → has_child c (xs ++ ys) ≡ (has_child c xs || has_child c ys)
has_child-append c [] ys = refl
has_child-append c (x ∷ xs) ys = ground (arith, has_child-append c xs ys)

is_node-same : (n c : ℕ) (x : NodeChild) → is_node c x ≡ true → is_node n x ≡ (c == n)
is_node-same n c (node_child i) h = ground arith
is_node-same n c (leaf_child s) h = cc

pub has_child-drop :
    (n c : ℕ) (xs : List NodeChild)
    → has_child n (filter (λ x. not (is_node c x)) xs) ≡ (has_child n xs && not (c == n))
unfolding filter
has_child-drop n c [] = refl
has_child-drop n c (x ∷ xs) = elim (Bool-cases (is_node c x)) [
  | inl e ↦ rw e (ground (arith, has_child-drop n c xs, is_node-same n c x e))
  | inr e ↦ rw e (ground (arith, has_child-drop n c xs, not_same))
]
  where
    not_same : is_node n x ≡ true → (c == n) ≡ true → is_node c x ≡ true
    not_same h q = ground (arith, h, q)

-- a lookup after a change
pub get-put :
    {V : Type 0} (j i : ℕ) (v : V) (m : List (ℕ × V))
    → get j (put i v m) ≡ (if i == j then some v else get j m)
get-put j i v m = ground (arith, lookup-insert ℕ_discrete j i v m)

get-modify_node :
    (j i : ℕ) (f : ContainerNode → ContainerNode) (x : ContainerNode) (m : Nodes)
    → get i m ≡ some x
    → get j (modify_node i f m) ≡ (if i == j then some (f x) else get j m)
unfolding modify_node
get-modify_node j i f x m e = rw (modify_node, e) (get-put j i (f x) m)

pub modify_node-missing :
    (i : ℕ) (f : ContainerNode → ContainerNode) (m : Nodes) → get i m ≡ none → modify_node i f m ≡ m
unfolding modify_node
modify_node-missing i f m e = rw (modify_node, e)

-- a property of a node that is read from the lookup, after a change of one node
pub read_modified :
    {B : Type 0} (g : Option ContainerNode → B) (j i : ℕ) (f : ContainerNode → ContainerNode)
    (x : ContainerNode) (m : Nodes)
    → get i m ≡ some x
    → g (get j (modify_node i f m)) ≡ (if i == j then g (some (f x)) else g (get j m))
read_modified g j i f x m e = elim (Bool-cases (i == j)) [
  | inl q ↦ ap g (get-modify_node j i f x m e) ∙ rw q
  | inr q ↦ ap g (get-modify_node j i f x m e) ∙ rw q
]

-- a change that keeps what is read
pub read_kept :
    {B : Type 0} (g : Option ContainerNode → B) (f : ContainerNode → ContainerNode)
    → ((x : ContainerNode) → g (some (f x)) ≡ g (some x))
    → (j i : ℕ) (m : Nodes) → g (get j (modify_node i f m)) ≡ g (get j m)
read_kept g f same j i m = elim (Option-cases (get i m)) [
  | inl e ↦ ap (λ m. g (get j m)) (modify_node-missing i f m e)
  | inr (x, e) ↦ read_modified g j i f x m e ∙ at_node x e
]
  where
    at_node :
        (x : ContainerNode)
        → get i m ≡ some x
        → (if i == j then g (some (f x)) else g (get j m)) ≡ g (get j m)
    at_node x e = elim (Bool-cases (i == j)) [
      | inl q ↦ rw q (same x ∙ ap g (sym (rw (==→eq i j q) at e)))
      | inr q ↦ rw q
    ]

pub push-up :
    (c : NodeChild) (i n p : ℕ) (m : Nodes)
    → points_up (modify_node i (push_child c) m) n p ≡ points_up m n p
push-up c i n p m = read_kept (λ o. names (parent_of o) p) (push_child c) (λ x. refl) n i m

pub drop-up :
    (c i n p : ℕ) (m : Nodes) → points_up (modify_node i (drop_child c) m) n p ≡ points_up m n p
drop-up c i n p m = read_kept (λ o. names (parent_of o) p) (drop_child c) (λ x. refl) n i m

pub set-down :
    (q : Option ℕ) (i n p : ℕ) (m : Nodes)
    → points_down (modify_node i (λ x. record x { parent = q }) m) p n ≡ points_down m p n
set-down q i n p m =
    read_kept (λ o. has_child n (children_of o)) (λ x. record x { parent = q }) (λ x. refl) p i m
