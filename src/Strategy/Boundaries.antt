-- ===== src/Strategy/Boundaries.antt =====
-- strategies/base.py, BaseSplitter.validate: what it accepts tiles the graph, and each partition
-- starts at a boundary.
use torch_slicer.Strategy.Accepts.{owner_inv, tiling-accepted}
use torch_slicer.Common.{
  ℕ, zero, suc, ◌+◌, ◌≤◌, ◌<◌, ◌≡◌, refl, sym, ap, ◌∙◌, subst, ◌⊎◌, inl, inr, ◌↔◌, Bool, true,
  false, none, some, List, [], ◌∷◌, arith, ◌==◌, ==_iff, not, ◌&&◌, ◌||◌, length, get_elem?, All,
  All-at, count_up, last?-count_up, Result, ok, is_nil, range, if◌then◌else◌, lt_of_get_elem?,
  dec_le, map-All, >>-eq-ok, and-eq-true, require-eq-ok, not-eq-true,
}
use torch_slicer.Graph.{LayerNode, ModelGraph, IsOrdered}
use torch_slicer.Strategy.Base.{
  Partition, Rejection, owner_from, is_last_of, check_nodes, validate, flat_indices,
}
use torch_slicer.Strategy.Tiles.{
  IsTiling, IsSealed, IsBoundary, IsNear, same, prev, edge, owner_from-below, owner_from-here,
  some_eq, owner_from-later,
}
use torch_slicer.Strategy.Validate.{
  NodeOk, PredOk, check_nodes_iff, list_eq_sound, IsTiling-of_flat,
}

-- What `check_nodes` found, as seen from a suffix of the partitions that starts at node `a`.
abbrev Seen : {M : Type 0} → List (LayerNode M) → ℕ → ℕ → ℕ → List Partition → Type 0
Seen nodes pos a n ps =
    (j : ℕ) (node : _) (r : ℕ)
    → a ≤ j
    → get_elem? nodes j ≡ some node
    → owner_from pos ps j ≡ some r
    → ((node.takes_input ≡ false) ⊎ (r ≡ 0)) × All (λ q. IsNear pos a r q ps) node.predecessors

owner_from-ge :
    (pos : ℕ) (ps : List Partition) (idx r : ℕ) → owner_from pos ps idx ≡ some r → pos ≤ r
unfolding owner_from
owner_from-ge pos [] idx r h = absurd (cc)
owner_from-ge pos (p ∷ ps) idx r h = grind (arith, owner_from-ge (suc pos) ps idx)

none_some {ℓ κ} : {A : Type ℓ} {B : Type κ} {x : A} → none ≡ some x → B
none_some h = absurd (cc)

-- An owned index is not before the first partition.
owner_from-low :
    (pos a n : ℕ) (ps : List Partition) (idx r : ℕ)
    → IsTiling a n ps
    → owner_from pos ps idx ≡ some r
    → a ≤ idx
owner_from-low pos a n ps idx r t h = elim (dec_le a idx) [
  | yes low ↦ low
  | no high ↦ none_some (sym (owner_from-below pos a n ps idx t (omega arith)) ∙ h)
]

near-low :
    (pos a n : ℕ) (ps : List Partition) (r q : ℕ)
    → IsTiling a n ps
    → IsNear pos a r q ps
    → a ≤ suc q
near-low pos a n ps r q t (same own) = let low = owner_from-low pos a n ps q r t own in omega arith
near-low pos a n ps r q t (prev d at own is_last) =
    let low = owner_from-low pos a n ps q (pos + d) t own in omega arith
near-low pos a n ps r q t (edge here first) = omega arith

owner_from-tail :
    (pos : ℕ) (p : Partition) (ps : List Partition) (q r : ℕ)
    → suc pos ≤ r
    → owner_from pos (p ∷ ps) q ≡ some r
    → owner_from (suc pos) ps q ≡ some r
unfolding owner_from
owner_from-tail pos p ps q r later own = ground arith

-- The converse of `IsNear-cons`, for an owner in the rest of the list.
IsNear-tail :
    (pos a n : ℕ) (p : Partition) (ps : List Partition) (q r len : ℕ)
    → p.layer_indices ≡ count_up a (suc len)
    → IsTiling (suc (a + len)) n ps
    → suc pos ≤ r
    → IsNear pos a r q (p ∷ ps)
    → IsNear (suc pos) (suc (a + len)) r q ps
unfolding is_last_of
IsNear-tail pos a n p ps q r len e t later (same own) =
    same (owner_from-tail pos p ps q r later own)
IsNear-tail pos a n p ps q r len e t later (prev zero at own is_last) =
    let is_end = rw (e, last?-count_up a len) at is_last in
    edge (ap suc ((==_iff q (a + len)).0 is_end)) (omega arith)
IsNear-tail pos a n p ps q r len e t later (prev (suc d) at own is_last) =
    let shift : pos + suc d ≡ suc pos + d = omega arith in
    prev d (omega arith)
      (owner_from-tail pos p ps q (suc pos + d) (omega arith) (own ∙ ap some shift)) is_last
IsNear-tail pos a n p ps q r len e t later (edge here first) = absurd (omega arith)

owned :
    (pos a n : ℕ) (ps : List Partition) (j : ℕ)
    → IsTiling a n ps
    → a ≤ j
    → j < n
    → (r : ℕ) × (owner_from pos ps j ≡ some r)
owned pos a n [] j t low high = absurd (omega arith)
owned pos a n (p ∷ ps) j (len, e, t) low high = elim (dec_le j (a + len)) [
  | yes h ↦ (pos, owner_from-here pos a n p ps j len e t low h)
  | no h ↦
      let (r, found) = owned (suc pos) (suc (a + len)) n ps j t (omega arith) high in
      (r, owner_from-later pos a n p ps j len e t (omega arith) ∙ found)
]

module _ {M : Type 0} (nodes : List (LayerNode M)) where
  Seen-IsBoundary :
      (pos a : ℕ) (ps : List Partition)
      → IsTiling a (length nodes) ps
      → Seen nodes pos a (length nodes) ps
      → (0 < a → 0 < pos)
      → IsBoundary nodes a
  Seen-IsBoundary pos a ps t seen first = record {
    reads = λ j node low at.
        let (r, own) = owned pos a (length nodes) ps j t low (lt_of_get_elem? nodes j at) in
        map-All (λ q near_q. near-low pos a (length nodes) ps r q t near_q) node.predecessors
          (seen j node r low at own).1;
    no_input = λ j node low pos_a at.
        let (r, own) = owned pos a (length nodes) ps j t low (lt_of_get_elem? nodes j at) in
        first_only node.takes_input r (seen j node r low at own).0
          (let ge = owner_from-ge pos ps j r own in let p = first pos_a in omega arith);
  }
    where
      first_only : (b : Bool) (r : ℕ) → (b ≡ false) ⊎ (r ≡ 0) → 0 < r → b ≡ false
      first_only b r h lt = ground arith

  Seen-IsSealed :
      (pos a : ℕ) (ps : List Partition)
      → IsTiling a (length nodes) ps
      → Seen nodes pos a (length nodes) ps
      → (0 < a → 0 < pos)
      → All (IsSealed nodes) ps
  Seen-IsSealed pos a [] t seen first = tt
  Seen-IsSealed pos a (p ∷ ps) (len, e, t) seen first = (
    λ b head.
        let same_b : a ≡ b = some_eq (sym (rw e refl) ∙ head) in
        subst (IsBoundary nodes) same_b (Seen-IsBoundary pos a (p ∷ ps) (len, e, t) seen first),
    Seen-IsSealed (suc pos) (suc (a + len)) ps t
        (λ j node r low at own.
          let (reads, nears) =
            seen j node r (omega arith) at
              (owner_from-later pos a (length nodes) p ps j len e t (omega arith) ∙ own) in
          (
            reads,
            map-All
                (λ q.
                  IsNear-tail pos a (length nodes) p ps q r len e t
                    (owner_from-ge (suc pos) ps j r own))
                node.predecessors nears,
          ))
        (λ _. omega arith),
  )

PredOk-IsNear : (ps : List Partition) (pos q : ℕ) → PredOk ps pos q → IsNear 0 0 pos q ps
PredOk-IsNear ps pos q (q_pos, found, test) =
    let own = owner_inv ps q found in
    elim (choose (q_pos == pos) (suc q_pos == pos) (is_last_of ps q_pos q) test) [
      | inl here ↦ same (own ∙ ap some ((==_iff q_pos pos).0 here))
      | inr (before, is_last) ↦
          let at = (==_iff (suc q_pos) pos).0 before in
          prev q_pos (omega arith) (own ∙ ap some (omega arith)) is_last
    ]
  where
    choose : (a b c : Bool) → (a || (b && c)) ≡ true → (a ≡ true) ⊎ ((b ≡ true) × (c ≡ true))
    choose a b c h = ground arith

module _ {M : Type 0} (g : ModelGraph M) (ordered : IsOrdered g.nodes) (ps : List Partition) where
  checked-Seen : All (NodeOk ps) g.nodes → Seen g.nodes 0 0 (length g.nodes) ps
  checked-Seen checked j node r low at own =
      let (pos, found, reads, preds) = All-at (NodeOk ps) g.nodes j checked at in
      let here : pos ≡ r = some_eq (
        sym (owner_inv ps node.index found)
        ∙ ap (owner_from 0 ps) (ordered.indexed j node at)
        ∙ own) in
      (
        subst (λ k. (node.takes_input ≡ false) ⊎ (k ≡ 0)) here
            (reads_first node.takes_input pos reads),
        subst (λ k. All (λ q. IsNear 0 0 k q ps) node.predecessors) here
            (map-All (PredOk-IsNear ps pos) node.predecessors preds),
      )
    where
      reads_first : (b : Bool) (r : ℕ) → not (b && not (r == 0)) ≡ true → (b ≡ false) ⊎ (r ≡ 0)
      reads_first b r h = ground arith

  accepted-IsTiling :
      0 < length g.nodes
      → validate g ps ≡ ok tt
      → IsTiling 0 (length g.nodes) ps × All (IsSealed g.nodes) ps
  unfolding validate
  accepted-IsTiling some_node h =
      let (covered, more) = >>-eq-ok _ _ h in
      let (contiguous, checked) =
        >>-eq-ok _ (check_nodes ps g.nodes) (filled g.nodes some_node more) in
      let (full, flat) = and-eq-true _ _ (require-eq-ok _ _ contiguous) in
      let shape = list_eq_sound (flat_indices ps) (range 0 (length g.nodes)) flat in
      let t =
        IsTiling-of_flat 0 (length g.nodes) ps (not-eq-true _ full)
          (shape ∙ ap (count_up 0) (omega arith)) in
      let t' : IsTiling 0 (length g.nodes) ps = subst (λ m. IsTiling 0 m ps) (omega arith) t in
      (
        t',
        Seen-IsSealed g.nodes 0 0 ps t' (checked-Seen ((check_nodes_iff ps g.nodes).0 checked))
            (λ lt. lt),
      )
    where
      filled :
          {r : Result Rejection (Unit {0})} (nodes : List (LayerNode M))
          {k : Result Rejection (Unit {0})}
          → 0 < length nodes
          → (if is_nil nodes then ok tt else k) ≡ r
          → k ≡ r
      filled [] lt e = absurd (omega arith)
      filled (x ∷ xs) lt e = e

-- On a graph with a node, validate accepts exactly the partitions that tile the layers, in order
-- and none of them empty, and of which each starts where no later node reads an output from before
-- the layer just before the start, nor, after the first partition, the model input.
pub validate_iff :
    {M : Type 0} (g : ModelGraph M) (ps : List Partition)
    → IsOrdered g.nodes
    → 0 < length g.nodes
    → (validate g ps ≡ ok tt) ↔ (IsTiling 0 (length g.nodes) ps × All (IsSealed g.nodes) ps)
validate_iff g ps ordered some_node =
    (accepted-IsTiling g ordered ps some_node, λ (t, sealed). tiling-accepted g ordered ps t sealed)
