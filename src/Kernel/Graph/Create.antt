-- ===== src/Kernel/Graph/Create.antt =====
-- kernel.rs: `create_node`, and the loop that finds a free id.
use rill.Prelude.{
  ℕ, zero, suc, ◌+◌, ◌==◌, ◌≡◌, ◌≤◌, ◌<◌, refl, sym, ap, ◌∙◌, Bool, true, false, ◌&&◌, ◌||◌, lt→ltb,
  if◌then◌else◌, Option, none, some, List, [], ◌∷◌, length, ok, arith, if_pos, if_neg, Bool-cases,
  ==→eq, Option-cases, inl, inr, ℕ_discrete, lookup, lookup-remove, remove,
}
use rill.Ring.{u64_max}
use rill.Kernel.Session.State.{is_some}
use rill.Kernel.Graph.State.{
  Kernel, KernelAnswer, ContainerNode, NodeKind, node_child, get, put, allocate, next_id,
}
use rill.Kernel.Graph.Nodes.{
  Nodes, parent_known, modify_parent, push_child, parent_of, children_of, create_node,
}
use rill.Kernel.Graph.Links.{has_child, names, points_up, points_down, IsLinked, get-put}
use rill.Kernel.Graph.Moves.{parent_push-up, parent_push-down}

-- the id that the loop returns is free
pub allocate-free :
    {V : Type 0} (fuel i : ℕ) (m : List (ℕ × V)) {id next : ℕ}
    → allocate fuel i m ≡ some (id, next)
    → get id m ≡ none
unfolding allocate is_some
allocate-free zero i m e = cc
allocate-free (suc fuel) i m {id} e = elim (Option-cases (get i m)) [
  | inl free ↦
      let same : i ≡ id = ap (λ o. elim o [ none ↦ i | some r ↦ r.0 ]) (rw free at e) in
      ap (λ j. get j m) (sym same) ∙ free
  | inr (v, taken) ↦ allocate-free fuel (next_id i) m (rw taken at e)
]

length-remove_le :
    {V : Type 0} (i : ℕ) (m : List (ℕ × V)) → length (remove ℕ_discrete i m) ≤ length m
unfolding remove
length-remove_le i [] = omega arith
length-remove_le i ((j, w) ∷ m) = ground (arith, length-remove_le i m)

length-remove :
    {V : Type 0} (i : ℕ) (m : List (ℕ × V)) {v : V}
    → get i m ≡ some v
    → length (remove ℕ_discrete i m) < length m
unfolding remove lookup
length-remove i [] e = cc
length-remove i ((j, w) ∷ m) e = elim (ℕ_discrete j i) [
  | yes p ↦ rw (if_pos _ p) (omega (arith, length-remove_le i m))
  | no p ↦ rw (if_neg _ p) (omega (arith, length-remove i m (rw (if_neg _ p) at e)))
]

-- the loop reads the ids from the counter on only
allocate-agree :
    {V : Type 0} (fuel i : ℕ) (m m' : List (ℕ × V))
    → i + fuel ≤ u64_max
    → ((j : ℕ) → i ≤ j → get j m ≡ get j m')
    → allocate fuel i m ≡ allocate fuel i m'
unfolding allocate
allocate-agree zero i m m' fits same = refl
allocate-agree (suc fuel) i m m' fits same =
    let up : next_id i ≡ i + 1 = rw (lt→ltb i u64_max (omega arith)) in
    let rest = allocate-agree fuel (i + 1) m m' (omega arith) (λ j le. same j (omega arith)) in
    rw (up, same i (omega arith), rest)

-- a free id is found within one round more than the map has entries
pub allocate-total :
    {V : Type 0} (fuel i : ℕ) (m : List (ℕ × V))
    → length m < fuel
    → i + fuel ≤ u64_max
    → (r : ℕ × ℕ) × (allocate fuel i m ≡ some r)
unfolding allocate is_some
allocate-total zero i m few fits = absurd (omega arith)
allocate-total (suc fuel) i m few fits = elim (Option-cases (get i m)) [
  | inl free ↦ ((i, next_id i), rw free)
  | inr (v, taken) ↦
      let up : next_id i ≡ i + 1 = rw (lt→ltb i u64_max (omega arith)) in
      let fewer = length-remove i m taken in
      let (r, e) =
        allocate-total fuel (i + 1) (remove ℕ_discrete i m) (omega arith) (omega arith) in
      let same =
        allocate-agree fuel (i + 1) m (remove ℕ_discrete i m) (omega arith) (λ j le. other j le) in
      (r, rw taken (ap (λ j. allocate fuel j m) up ∙ same ∙ e))
]
  where
    other : (j : ℕ) → i + 1 ≤ j → get j m ≡ get j (remove ℕ_discrete i m)
    other j le = ground (arith, lookup-remove ℕ_discrete j i m)

-- what a node that was created is: its id was free, and the links stay in agreement
pub record IsCreated {W : Type 0} (k : Kernel W) (made : Option (KernelAnswer W ℕ)) : Type 0 where
  pub after : Kernel W
  pub id : ℕ
  pub returned : made ≡ some (after, ok id)
  pub fresh : get id k.nodes ≡ none
  pub linked : IsLinked after.nodes

module _ (kind : NodeKind) (parent : Option ℕ) (id : ℕ) (m : Nodes) (fresh : get id m ≡ none) where
  abbrev created : ContainerNode
  created = record { kind = kind; parent = parent; children = [] }

  put-up :
      (n p : ℕ)
      → points_up (put id created m) n p ≡ (if id == n then names parent p else points_up m n p)
  put-up n p =
      ap (λ o. names (parent_of o) p) (get-put n id created m)
      ∙ elim (Bool-cases (id == n)) [ inl e ↦ rw e | inr e ↦ rw e ]

  put-down : (n p : ℕ) → points_down (put id created m) p n ≡ points_down m p n
  put-down n p =
      ap (λ o. has_child n (children_of o)) (get-put p id created m) ∙ elim (Bool-cases (id == p)) [
        | inl e ↦ let here = rw (==→eq id p e) at fresh in rw (e, here)
        | inr e ↦ rw e
      ]

  put-parent_known :
      (o : Option ℕ) → parent_known o m ≡ true → parent_known o (put id created m) ≡ true
  unfolding is_some
  put-parent_known none known = refl
  put-parent_known (some p) known =
      ap is_some (get-put p id created m)
      ∙ elim (Bool-cases (id == p)) [ inl e ↦ rw e | inr e ↦ rw e known ]

  pub created-IsLinked :
      parent_known parent m ≡ true
      → IsLinked m
      → IsLinked (modify_parent parent (push_child (node_child id)) (put id created m))
  created-IsLinked known v n p =
      parent_push-up (node_child id) parent n p (put id created m)
      ∙ put-up n p
      ∙ agree
      ∙ sym (
          parent_push-down id parent n p (put id created m) (put-parent_known parent known)
          ∙ ap (λ (b : Bool). b || (names parent p && (id == n))) (put-down n p))
    where
      agree :
          (if id == n then names parent p else points_up m n p)
          ≡ (points_down m p n || (names parent p && (id == n)))
      agree = elim (Bool-cases (id == n)) [
        | inl e ↦
            let none_yet : points_down m p n ≡ false =
              sym (v n p) ∙ ap (λ i. points_up m i p) (sym (==→eq id n e)) ∙ rw fresh in
            rw (e, none_yet) (ground arith)
        | inr e ↦ rw (e, v n p) (ground arith)
      ]

-- `create_node` under a parent that is there, or under none, returns: it finds an id that no node has,
-- and nodes and parents stay in agreement on who is whose child. The counter is so far below
-- `u64::MAX` that it does not wrap while the loop passes each node once.
pub create_node-IsCreated :
    {W : Type 0} (kind : NodeKind) (parent : Option ℕ) (k : Kernel W)
    → k.next_node + (length k.nodes + 1) ≤ u64_max
    → parent_known parent k.nodes ≡ true
    → IsLinked k.nodes
    → IsCreated k (create_node kind parent k)
unfolding create_node
create_node-IsCreated kind parent k fits known v =
    let ((id, next), e) =
      allocate-total (length k.nodes + 1) k.next_node k.nodes (omega arith) fits in
    let fresh = allocate-free (length k.nodes + 1) k.next_node k.nodes e in
    record {
      after = record k {
        next_node = next;
        nodes =
            modify_parent parent (push_child (node_child id))
              (put id (created kind parent id k.nodes fresh) k.nodes);
      };
      id = id;
      returned = rw (known, e);
      fresh = fresh;
      linked = created-IsLinked kind parent id k.nodes fresh known v;
    }
