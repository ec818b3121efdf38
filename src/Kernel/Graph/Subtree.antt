-- ===== src/Kernel/Graph/Subtree.antt =====
-- kernel.rs: `collect_subtree` and `remove_subtree`.
use rill.Prelude.{
  ℕ, zero, suc, ◌==◌, ◌≡◌, ◌⊎◌, refl, sym, ap, subst, ◌∙◌, Bool, true, false, not, ◌&&◌, ◌||◌,
  if◌then◌else◌, Option, none, some, List, [], ◌∷◌, ◌++◌, arith, Bool-cases, ==→eq, ==-refl, inl,
  inr, ℕ_discrete, lookup-remove, remove,
}
use rill.Kernel.Graph.State.{NodeChild, node_child, leaf_child, get}
use rill.Kernel.Graph.Nodes.{
  Nodes, modify_parent, drop_child, parent_of, children_of, child_nodes, push_all, collect,
  remove_all, remove_subtree,
}
use rill.Kernel.Graph.Links.{has_child, names, points_up, points_down, IsLinked}
use rill.Kernel.Graph.Moves.{parent_drop-up, parent_drop-down}

abbrev pub has : ℕ → List ℕ → Bool
has c [] = false
has c (x ∷ xs) = (x == c) || has c xs

pub has-append : (c : ℕ) (xs ys : List ℕ) → has c (xs ++ ys) ≡ (has c xs || has c ys)
has-append c [] ys = refl
has-append c (x ∷ xs) ys = ground (arith, has-append c xs ys)

pub has-child_nodes : (c : ℕ) (cs : List NodeChild) → has c (child_nodes cs) ≡ has_child c cs
has-child_nodes c [] = refl
has-child_nodes c (node_child n ∷ cs) = ap (λ (b : Bool). (n == c) || b) (has-child_nodes c cs)
has-child_nodes c (leaf_child s ∷ cs) = has-child_nodes c cs

pub has-push_all : (c : ℕ) (xs ys : List ℕ) → has c (push_all xs ys) ≡ (has c xs || has c ys)
has-push_all c [] ys = refl
has-push_all c (x ∷ xs) ys = has-push_all c xs (x ∷ ys) ∙ ground arith

-- what the loop keeps: a child of a collected node is collected, unless the node waits in the
-- frontier; and a collected node is the root, or a child of one
pub record IsCollected (m : Nodes) (root : ℕ) (out frontier : List ℕ) : Type 0 where
  pub closed :
      (p n : ℕ) → has p out ≡ true → points_down m p n ≡ true → (has p frontier || has n out) ≡ true
  pub waits : (p : ℕ) → has p frontier ≡ true → has p out ≡ true
  pub reached :
      (n : ℕ)
      → has n out ≡ true
      → (root ≡ n) ⊎ ((p : ℕ) × (has p out ≡ true) × (points_down m p n ≡ true))

abbrev below : Nodes → ℕ → List ℕ
below m id = child_nodes (children_of (get id m))

pub or-cases : (a b : Bool) → (a || b) ≡ true → (a ≡ true) ⊎ (b ≡ true)
or-cases true b h = inl refl
or-cases false b h = inr h

or-left : (a b : Bool) → a ≡ true → (a || b) ≡ true
or-left a b h = rw h

or-right : (a b : Bool) → b ≡ true → (a || b) ≡ true
or-right true b h = refl
or-right false b h = h

module _ (m : Nodes) (root id : ℕ) (out frontier : List ℕ)
    (v : IsCollected m root out (id ∷ frontier)) where
  old : (n : ℕ) → has n out ≡ true → has n (out ++ below m id) ≡ true
  old n h = has-append n out (below m id) ∙ or-left (has n out) (has n (below m id)) h

  new : (n : ℕ) → has n (below m id) ≡ true → has n (out ++ below m id) ≡ true
  new n h = has-append n out (below m id) ∙ or-right (has n out) (has n (below m id)) h

  collected :
      (n : ℕ) → has n (out ++ below m id) ≡ true → (has n out ≡ true) ⊎ (has n (below m id) ≡ true)
  collected n h =
      or-cases (has n out) (has n (below m id)) (sym (has-append n out (below m id)) ∙ h)

  step_frontier :
      (n : ℕ) → has n (push_all (below m id) frontier) ≡ (has n (below m id) || has n frontier)
  step_frontier n = has-push_all n (below m id) frontier

  step-IsCollected : IsCollected m root (out ++ below m id) (push_all (below m id) frontier)
  step-IsCollected = record {
    closed = λ p n h d. elim (collected p h) [
      | inl h ↦ elim (or-cases ((id == p) || has p frontier) (has n out) (v.closed p n h d)) [
        | inl w ↦ elim (or-cases (id == p) (has p frontier) w) [
          | inl e ↦ or-right (has p (push_all (below m id) frontier)) _ (
              new n (
                has-child_nodes n (children_of (get id m))
                ∙ ap (λ i. points_down m i n) (==→eq id p e)
                ∙ d))
          | inr w ↦
              or-left _ (has n (out ++ below m id))
                (step_frontier p ∙ or-right (has p (below m id)) _ w)
        ]
        | inr h ↦ or-right (has p (push_all (below m id) frontier)) _ (old n h)
      ]
      | inr h ↦
          or-left _ (has n (out ++ below m id)) (step_frontier p ∙ or-left _ (has p frontier) h)
    ];
    waits = λ p h.
        elim (or-cases (has p (below m id)) (has p frontier) (sym (step_frontier p) ∙ h)) [
          | inl b ↦ new p b
          | inr w ↦ old p (v.waits p (or-right (id == p) (has p frontier) w))
        ];
    reached = λ n h. elim (collected n h) [
      | inl h ↦ elim (v.reached n h) [ inl e ↦ inl e | inr (p, there, d) ↦ inr (p, old p there, d) ]
      | inr b ↦ inr (
        id,
        old id (v.waits id (or-left (id == id) (has id frontier) (==-refl id))),
        sym (has-child_nodes n (children_of (get id m))) ∙ b,
      )
    ];
  }

-- the root alone, before the first round
pub start-IsCollected : (m : Nodes) (root : ℕ) → IsCollected m root (root ∷ []) (root ∷ [])
start-IsCollected m root = record {
  closed = λ p n h d. or-left _ (has n (root ∷ [])) h;
  waits = λ p h. h;
  reached = λ n h. inl (at_root n h);
}
  where
    at_root : (n : ℕ) → has n (root ∷ []) ≡ true → root ≡ n
    at_root n h = ground arith

pub collect-IsCollected :
    (fuel : ℕ) (m : Nodes) (root : ℕ) (out frontier : List ℕ) {s : List ℕ}
    → IsCollected m root out frontier
    → collect fuel m out frontier ≡ some s
    → IsCollected m root s [] × (has root out ≡ true → has root s ≡ true)
unfolding collect
collect-IsCollected zero m root out [] v e =
    let same : out ≡ _ = cc in
    subst (λ s. IsCollected m root s [] × (has root out ≡ true → has root s ≡ true)) same
      (v, λ h. h)
collect-IsCollected (suc fuel) m root out [] v e =
    let same : out ≡ _ = cc in
    subst (λ s. IsCollected m root s [] × (has root out ≡ true → has root s ≡ true)) same
      (v, λ h. h)
collect-IsCollected zero m root out (id ∷ frontier) v e = cc
collect-IsCollected (suc fuel) m root out (id ∷ frontier) v e =
    let rest =
      collect-IsCollected fuel m root (out ++ below m id) (push_all (below m id) frontier)
        (step-IsCollected m root id out frontier v) e in
    (rest.0, λ h. rest.1 (old m root id out frontier v root h))

-- the lookups after nodes went
get-remove_all :
    (j : ℕ) (ids : List ℕ) (m : Nodes)
    → get j (remove_all ids m) ≡ (if has j ids then none else get j m)
get-remove_all j [] m = refl
get-remove_all j (id ∷ ids) m =
    get-remove_all j ids (remove ℕ_discrete id m) ∙ ground (arith, lookup-remove ℕ_discrete j id m)

names-functional : (o : Option ℕ) (p q : ℕ) → names o p ≡ true → names o q ≡ true → p ≡ q
names-functional none p q h k = cc
names-functional (some i) p q h k = ground arith

module _ (m : Nodes) (root : ℕ) (s : List ℕ) (v : IsCollected m root s [])
    (at_root : has root s ≡ true) (linked : IsLinked m) where
  removed-up :
      (n p : ℕ)
      → points_up (remove_subtree s root m) n p ≡ (if has n s then false else points_up m n p)
  unfolding remove_subtree
  removed-up n p =
      let m1 = modify_parent (parent_of (get root m)) (drop_child root) m in
      ap (λ o. names (parent_of o) p) (get-remove_all n s m1) ∙ elim (Bool-cases (has n s)) [
        | inl e ↦ rw e
        | inr e ↦ rw e (parent_drop-up root (parent_of (get root m)) n p m)
      ]

  removed-down :
      (n p : ℕ)
      → points_down (remove_subtree s root m) p n
        ≡ (if has p s then false else points_down m p n && not (points_up m root p && (root == n)))
  unfolding remove_subtree
  removed-down n p =
      let m1 = modify_parent (parent_of (get root m)) (drop_child root) m in
      ap (λ o. has_child n (children_of o)) (get-remove_all p s m1) ∙ elim (Bool-cases (has p s)) [
        | inl e ↦ rw e
        | inr e ↦ rw e (parent_drop-down root (parent_of (get root m)) n p m)
      ]

  -- a collected node is the root, or its parent is collected
  parent_inside : (n p : ℕ) → points_up m n p ≡ true → has n s ≡ true → has p s ≡ false → root ≡ n
  parent_inside n p up inside outside = elim (v.reached n inside) [
    | inl e ↦ e
    | inr (q, there, d) ↦
        let same : q ≡ p = names-functional (parent_of (get n m)) q p (linked n q ∙ d) up in
        let wrong : has p s ≡ true = ap (λ i. has i s) (sym same) ∙ there in cc
  ]

  pub removed-IsLinked : IsLinked (remove_subtree s root m)
  removed-IsLinked n p = removed-up n p ∙ agree ∙ sym (removed-down n p)
    where
      child_inside : points_down m p n ≡ true → has p s ≡ true → has n s ≡ true
      child_inside d h = v.closed p n h d

      agree : (if has n s then false else points_up m n p) ≡ (
          if has p s then false else points_down m p n && not (points_up m root p && (root == n)))
      agree = elim (Bool-cases (points_up m n p)) [
        | inr e ↦ rw (e, sym (linked n p) ∙ e) (ground arith)
        | inl e ↦
            let d : points_down m p n ≡ true = sym (linked n p) ∙ e in
            elim (Bool-cases (has n s)) [
              | inl inside ↦ elim (Bool-cases (has p s)) [
                | inl h ↦ rw (inside, h)
                | inr h ↦
                    let r : root ≡ n = parent_inside n p e inside h in
                    let up : points_up m root p ≡ true = ap (λ i. points_up m i p) r ∙ e in
                    rw (inside, h, up) (ground arith)
              ]
              | inr outside ↦ elim (Bool-cases (has p s)) [
                | inl h ↦ let wrong = child_inside d h in cc
                | inr h ↦ elim (Bool-cases (root == n)) [
                  | inl r ↦
                      let wrong : has n s ≡ true =
                        ap (λ i. has i s) (sym (==→eq root n r)) ∙ at_root in
                      cc
                  | inr r ↦ rw (outside, h, r, d, e) (ground arith)
                ]
              ]
            ]
      ]
