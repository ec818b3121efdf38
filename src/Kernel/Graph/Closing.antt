-- ===== src/Kernel/Graph/Closing.antt =====
-- kernel.rs: when `close_node` ends, and what it leaves of the leaves outside.
use rill.Prelude.{
  ℕ, zero, suc, ◌+◌, ◌≡◌, ◌≤◌, ◌<◌, refl, sym, ap, subst, ◌∙◌, true, false, Option, some, List, [],
  ◌∷◌, ◌++◌, Result, arith, Bool-cases, inl, inr, ==-refl,
}
use rill.Kernel.Error.{Error}
use rill.Kernel.Session.State.{Terminal}
use rill.Kernel.Graph.State.{Kernel, KernelAnswer, get}
use rill.Kernel.Graph.Nodes.{
  Nodes, has_node, close_node, collect, leaves_in, terminate_all, child_nodes, child_leaves,
  children_of, push_all,
}
use rill.Kernel.Graph.Links.{points_down}
use rill.Kernel.Graph.Subtree.{has, has-append, has-push_all, has-child_nodes, or-cases}
use rill.Kernel.Graph.Log.{kernel_then-Keeps}
use rill.Kernel.Graph.Isolated.{terminate_all-other}

-- what a call that closes a container returns
pub record IsClosed {W : Type 0} (k : Kernel W) (other : ℕ) (r : Option (KernelAnswer W (Unit {0})))
    : Type 0 where
  pub after : Kernel W
  pub result : Result Error (Unit {0})
  pub returned : r ≡ some (after, result)
  pub kept : get other after.leaves ≡ get other k.leaves

abbrev pub total : (ℕ → ℕ) → List ℕ → ℕ
total size [] = 0
total size (id ∷ ids) = size id + total size ids

total-push_all :
    (size : ℕ → ℕ) (xs ys : List ℕ) → total size (push_all xs ys) ≡ total size xs + total size ys
total-push_all size [] ys = omega arith
total-push_all size (x ∷ xs) ys = total-push_all size xs (x ∷ ys) ∙ omega arith

-- a size that is larger than that of the children together, which only containers without a cycle have
abbrev pub IsSized : Nodes → (ℕ → ℕ) → Type 0
IsSized m size = (id : ℕ) → total size (child_nodes (children_of (get id m))) < size id

collect-total :
    (size : ℕ → ℕ) (m : Nodes) (fuel : ℕ) (out frontier : List ℕ)
    → IsSized m size
    → total size frontier ≤ fuel
    → (s : List ℕ) × (collect fuel m out frontier ≡ some s)
unfolding collect
collect-total size m zero out [] sized enough = (out, refl)
collect-total size m (suc fuel) out [] sized enough = (out, refl)
collect-total size m zero out (id ∷ frontier) sized enough = absurd (omega (arith, sized id))
collect-total size m (suc fuel) out (id ∷ frontier) sized enough =
    let below = child_nodes (children_of (get id m)) in
    collect-total size m fuel (out ++ below) (push_all below frontier) sized
      (omega (arith, sized id, total-push_all size below frontier))

-- the containers at and below the root
pub data Below (m : Nodes) (root : ℕ) : ℕ → Type 0 where
  at_root : Below m root root
  at_child : (p n : ℕ) → Below m root p → points_down m p n ≡ true → Below m root n

collect-Below :
    (fuel : ℕ) (m : Nodes) (root : ℕ) (out frontier : List ℕ) {s : List ℕ}
    → ((n : ℕ) → has n out ≡ true → Below m root n)
    → ((n : ℕ) → has n frontier ≡ true → Below m root n)
    → collect fuel m out frontier ≡ some s
    → (n : ℕ) → has n s ≡ true
    → Below m root n
unfolding collect
collect-Below zero m root out [] v w e n h = let same : out ≡ _ = cc in v n (ap (has n) same ∙ h)
collect-Below (suc fuel) m root out [] v w e n h =
    let same : out ≡ _ = cc in v n (ap (has n) same ∙ h)
collect-Below zero m root out (id ∷ frontier) v w e n h = cc
collect-Below (suc fuel) m root out (id ∷ frontier) v w e n h =
    collect-Below fuel m root (out ++ below) (push_all below frontier)
      (λ n h. elim (or-cases (has n out) (has n below) (sym (has-append n out below) ∙ h)) [
        | inl h ↦ v n h
        | inr b ↦ here n b
      ])
      (λ n h.
        elim (or-cases (has n below) (has n frontier) (sym (has-push_all n below frontier) ∙ h)) [
          | inl b ↦ here n b
          | inr h ↦ w n (ground arith)
        ])
      e n h
  where
    below : List ℕ
    below = child_nodes (children_of (get id m))

    here : (n : ℕ) → has n below ≡ true → Below m root n
    here n b =
        at_child id n (w id (ground (arith, ==-refl id)))
          (sym (has-child_nodes n (children_of (get id m))) ∙ b)

leaves_in-outside :
    (m : Nodes) (other : ℕ) (ids : List ℕ)
    → ((p : ℕ) → has p ids ≡ true → has other (child_leaves (children_of (get p m))) ≡ false)
    → has other (leaves_in m ids) ≡ false
unfolding leaves_in
leaves_in-outside m other [] outside = refl
leaves_in-outside m other (id ∷ ids) outside =
    let mine = outside id (ground (arith, ==-refl id)) in
    let rest = leaves_in-outside m other ids (λ p h. outside p (ground arith)) in
    has-append other (child_leaves (children_of (get id m))) (leaves_in m ids) ∙ rw (mine, rest)

-- `close_node` returns, and a leaf that no container at or below the closed one has stays as it was,
-- whether the call succeeds or fails. The containers have no cycle: there is a size of containers in
-- which each is larger than its children together, and the loop has as many rounds as that size.
pub close_node-IsClosed :
    {W : Type 0} (t : Terminal W) (k : Kernel W) (fuel node other : ℕ) (size : ℕ → ℕ)
    → IsSized k.nodes size
    → size node ≤ fuel
    → ((p : ℕ)
        → Below k.nodes node p
        → has other (child_leaves (children_of (get p k.nodes))) ≡ false)
    → IsClosed k other (close_node t fuel node k)
unfolding close_node
close_node-IsClosed t k fuel node other size sized enough outside =
    elim (Bool-cases (has_node node k.nodes)) [
      | inr f ↦ rw f (record { after = k; result = _; returned = refl; kept = refl })
      | inl f ↦
          let (subtree, e) =
            collect-total size k.nodes fuel (node ∷ []) (node ∷ []) sized (omega arith) in
          let inside =
            collect-Below fuel k.nodes node (node ∷ []) (node ∷ []) root_only root_only e in
          let apart = leaves_in-outside k.nodes other subtree (λ p h. outside p (inside p h)) in
          rw (f, e)
            (record {
              after = _;
              result = _;
              returned = refl;
              kept =
                  kernel_then-Keeps (λ k'. get other k'.leaves ≡ get other k.leaves)
                    (terminate_all t (leaves_in k.nodes subtree) k) _
                    (terminate_all-other t other (leaves_in k.nodes subtree) k apart)
                    (λ k' done v. v);
            })
    ]
  where
    root_only : (n : ℕ) → has n (node ∷ []) ≡ true → Below k.nodes node n
    root_only n h = let same : node ≡ n = ground arith in subst (Below k.nodes node) same at_root
