-- ===== src/Kernel/Graph/Moves.antt =====
-- kernel.rs: what `create_node`, `attach_leaf` and `reparent_node` do to the links.
use rill.Prelude.{
  ℕ, ◌==◌, ◌≡◌, refl, sym, ap, ◌∙◌, Bool, true, not, ◌&&◌, ◌||◌, if◌then◌else◌, Option, none, some,
  [], ◌∷◌, ◌++◌, filter, arith, Bool-cases, ==→eq, Option-cases, inl, inr,
}
use rill.Kernel.Session.State.{is_some}
use rill.Kernel.Graph.State.{ContainerNode, NodeChild, node_child, get}
use rill.Kernel.Graph.Nodes.{
  Nodes, has_node, parent_known, modify_node, modify_parent, push_child, drop_child, is_node,
  parent_of, children_of, moved,
}
use rill.Kernel.Graph.Links.{
  has_child, names, points_up, points_down, IsLinked, has_child-append, has_child-drop,
  modify_node-missing, read_modified, read_kept, push-up, drop-up, set-down,
}

pub push-down :
    (c : NodeChild) (i n p : ℕ) (m : Nodes)
    → points_down (modify_node i (push_child c) m) p n
      ≡ (points_down m p n || (has_node i m && ((i == p) && is_node n c)))
unfolding is_some
push-down c i n p m = elim (Option-cases (get i m)) [
  | inl e ↦ rw (modify_node-missing i (push_child c) m e) (rw (is_some, e) (ground arith))
  | inr (x, e) ↦
      read_modified (λ o. has_child n (children_of o)) p i (push_child c) x m e ∙ at_node x e
]
  where
    at_node :
        (x : ContainerNode)
        → get i m ≡ some x
        → (if i == p then has_child n (x.children ++ c ∷ []) else points_down m p n)
          ≡ (points_down m p n || (has_node i m && ((i == p) && is_node n c)))
    at_node x e = elim (Bool-cases (i == p)) [
      | inl q ↦
          let here = rw (==→eq i p q) at e in
          rw (q, is_some, e, here) (has_child-append n x.children (c ∷ []) ∙ ground arith)
      | inr q ↦ rw (q, is_some, e) (ground arith)
    ]

drop-down :
    (c i n p : ℕ) (m : Nodes)
    → points_down (modify_node i (drop_child c) m) p n
      ≡ (points_down m p n && not ((i == p) && (c == n)))
drop-down c i n p m = elim (Option-cases (get i m)) [
  | inl e ↦ rw (modify_node-missing i (drop_child c) m e) (missing e)
  | inr (x, e) ↦
      read_modified (λ o. has_child n (children_of o)) p i (drop_child c) x m e ∙ at_node x e
]
  where
    missing : get i m ≡ none → points_down m p n ≡ (points_down m p n && not ((i == p) && (c == n)))
    missing e = elim (Bool-cases (i == p)) [
      | inl q ↦ let here = rw (==→eq i p q) at e in rw here
      | inr q ↦ rw q (ground arith)
    ]

    at_node :
        (x : ContainerNode)
        → get i m ≡ some x
        → (if i == p
            then has_child n (filter (λ y. not (is_node c y)) x.children)
            else points_down m p n)
          ≡ (points_down m p n && not ((i == p) && (c == n)))
    at_node x e = elim (Bool-cases (i == p)) [
      | inl q ↦ let here = rw (==→eq i p q) at e in rw (q, here) (has_child-drop n c x.children)
      | inr q ↦ rw q (ground arith)
    ]

set-up :
    (q : Option ℕ) (i n p : ℕ) (m : Nodes)
    → has_node i m ≡ true
    → points_up (modify_node i (λ x. record x { parent = q }) m) n p
      ≡ (if i == n then names q p else points_up m n p)
unfolding is_some
set-up q i n p m there = elim (Option-cases (get i m)) [
  | inl e ↦ cc
  | inr (x, e) ↦ read_modified (λ o. names (parent_of o) p) n i (λ x. record x { parent = q }) x m e
]

-- a change keeps which nodes there are
modify_node-has_node :
    (f : ContainerNode → ContainerNode) (i j : ℕ) (m : Nodes)
    → has_node j (modify_node i f m) ≡ has_node j m
unfolding is_some
modify_node-has_node f i j m = read_kept is_some f (λ x. refl) j i m

modify_parent-has_node :
    (f : ContainerNode → ContainerNode) (o : Option ℕ) (j : ℕ) (m : Nodes)
    → has_node j (modify_parent o f m) ≡ has_node j m
modify_parent-has_node f none j m = refl
modify_parent-has_node f (some i) j m = modify_node-has_node f i j m

modify_parent-parent_known :
    (f : ContainerNode → ContainerNode) (o q : Option ℕ) (m : Nodes)
    → parent_known q (modify_parent o f m) ≡ parent_known q m
modify_parent-parent_known f o none m = refl
modify_parent-parent_known f o (some p) m = modify_parent-has_node f o p m

pub parent_drop-up :
    (c : ℕ) (o : Option ℕ) (n p : ℕ) (m : Nodes)
    → points_up (modify_parent o (drop_child c) m) n p ≡ points_up m n p
parent_drop-up c none n p m = refl
parent_drop-up c (some i) n p m = drop-up c i n p m

pub parent_push-up :
    (c : NodeChild) (o : Option ℕ) (n p : ℕ) (m : Nodes)
    → points_up (modify_parent o (push_child c) m) n p ≡ points_up m n p
parent_push-up c none n p m = refl
parent_push-up c (some i) n p m = push-up c i n p m

pub parent_drop-down :
    (c : ℕ) (o : Option ℕ) (n p : ℕ) (m : Nodes)
    → points_down (modify_parent o (drop_child c) m) p n
      ≡ (points_down m p n && not (names o p && (c == n)))
parent_drop-down c none n p m = ground arith
parent_drop-down c (some i) n p m = drop-down c i n p m

pub parent_push-down :
    (c : ℕ) (o : Option ℕ) (n p : ℕ) (m : Nodes)
    → parent_known o m ≡ true
    → points_down (modify_parent o (push_child (node_child c)) m) p n
      ≡ (points_down m p n || (names o p && (c == n)))
parent_push-down c none n p m known = ground arith
parent_push-down c (some i) n p m known = push-down (node_child c) i n p m ∙ rw known

-- the links after a move: the node points to its new parent only
module _ (node : ℕ) (q : Option ℕ) (m : Nodes) (there : has_node node m ≡ true)
    (known : parent_known q m ≡ true) where
  moved-up :
      (n p : ℕ)
      → points_up (moved node q m) n p ≡ (if node == n then names q p else points_up m n p)
  moved-up n p =
      let old = parent_of (get node m) in
      let m1 = modify_parent old (drop_child node) m in
      let m2 = modify_parent q (push_child (node_child node)) m1 in
      set-up q node n p m2 (
        modify_parent-has_node (push_child (node_child node)) q node m1
        ∙ modify_parent-has_node (drop_child node) old node m
        ∙ there)
      ∙ ap (λ (b : Bool). if node == n then names q p else b)
          (parent_push-up (node_child node) q n p m1 ∙ parent_drop-up node old n p m)

  moved-down :
      (n p : ℕ)
      → points_down (moved node q m) p n ≡ (
          (points_down m p n && not (points_up m node p && (node == n)))
          || (names q p && (node == n)))
  moved-down n p =
      let old = parent_of (get node m) in
      let m1 = modify_parent old (drop_child node) m in
      let m2 = modify_parent q (push_child (node_child node)) m1 in
      set-down q node n p m2
      ∙ parent_push-down node q n p m1
          (modify_parent-parent_known (drop_child node) old q m ∙ known)
      ∙ ap (λ (b : Bool). b || (names q p && (node == n))) (parent_drop-down node old n p m)

  pub moved-IsLinked : IsLinked m → IsLinked (moved node q m)
  moved-IsLinked v n p = moved-up n p ∙ agree ∙ sym (moved-down n p)
    where
      agree : (if node == n then names q p else points_up m n p) ≡ (
          (points_down m p n && not (points_up m node p && (node == n)))
          || (names q p && (node == n)))
      agree = elim (Bool-cases (node == n)) [
        | inl e ↦
            let same : points_up m node p ≡ points_down m p n =
              ap (λ i. points_up m i p) (==→eq node n e) ∙ v n p in
            rw (e, same) (ground arith)
        | inr e ↦ rw (e, v n p) (ground arith)
      ]
