-- ===== src/Strategy/Accepts.antt =====
-- strategies/base.py, BaseSplitter.validate: it accepts exactly the tilings that start at
-- boundaries.
use torch_slicer.Common.{
  ℕ, suc, ◌≤◌, ◌<◌, ◌≡◌, refl, ap, ◌∙◌, ◌⊎◌, Bool, true, false, some, List, arith, ltb, ◌==◌,
  ==_refl, not, ◌&&◌, ◌||◌, length, elem, All, at-All, count_up, elem-All, All-elem, elem-count_up,
  ok, all, range, lt_of_get_elem?, all-of_elem, ltb_iff, ◌-◌,
}
use torch_slicer.Graph.{ModelGraph, IsOrdered}
use torch_slicer.Strategy.Base.{Partition, owner_from, owner, is_last_of, validate, flat_indices}
use torch_slicer.Strategy.Tiles.{IsTiling, IsSealed, IsNear, same, prev, edge, near, owner_of}
use torch_slicer.Strategy.Validate.{
  NodeOk, PredOk, check_nodes_iff, flat_indices_lem, list_eq_refl, tiling-nonempty,
}

owner_lem : (ps : List Partition) (q : ℕ) {d : ℕ} → owner_from 0 ps q ≡ some d → owner ps q ≡ ok d
unfolding owner
owner_lem ps q h = rw (h, owner) refl

pub owner_inv :
    (ps : List Partition) (q : ℕ) {d : ℕ} → owner ps q ≡ ok d → owner_from 0 ps q ≡ some d
unfolding owner
owner_inv ps q h = ground arith

module _ {M : Type 0} (g : ModelGraph M) (ordered : IsOrdered g.nodes) (ps : List Partition) where
  follows :
      (d pos q : ℕ)
      → pos ≡ suc d
      → is_last_of ps d q ≡ true
      → (d == pos || (suc d == pos && is_last_of ps d q)) ≡ true
  follows d pos q e is_last = rw is_last (ground arith)

  no_reads : (b : Bool) (r : ℕ) → (b ≡ false) ⊎ (r ≡ 0) → not (b && not (r == 0)) ≡ true
  no_reads b r h = ground arith

  near-PredOk : (pos q : ℕ) → IsNear 0 0 pos q ps → PredOk ps pos q
  near-PredOk pos q (same own) = (pos, owner_lem ps q own, rw (==_refl pos) refl)
  near-PredOk pos q (prev d at own is_last) =
      (d, owner_lem ps q (own ∙ ap some (omega arith)), follows d pos q (omega arith) is_last)
  near-PredOk pos q (edge here first) = absurd (omega arith)

  tiling-NodeOk :
      IsTiling 0 (length g.nodes) ps → All (IsSealed g.nodes) ps → All (NodeOk ps) g.nodes
  tiling-NodeOk t sealed = at-All (NodeOk ps) g.nodes λ i node at.
      let high = lt_of_get_elem? g.nodes i at in
      let (r, own, reads) =
        owner_of g.nodes 0 0 (length g.nodes) ps i node t sealed (omega arith) high at in
      (
        r,
        rw (ordered.indexed i node at) (owner_lem ps i own),
        no_reads node.takes_input r reads,
        All-elem (PredOk ps r) node.predecessors λ q mem. near-PredOk r q (
            near g.nodes (length g.nodes) i q
              (λ b boundary low.
                elem-All (λ q'. b ≤ suc q') node.predecessors q (boundary.reads i node low at) mem)
              (elem-All (λ q'. q' < i) node.predecessors q (ordered.earlier i node at) mem) high 0 0
              ps r t sealed (omega arith) own),
      )

  -- The partitions of a tiling that starts at boundaries are accepted.
  pub tiling-accepted :
      IsTiling 0 (length g.nodes) ps → All (IsSealed g.nodes) ps → validate g ps ≡ ok tt
  unfolding validate
  tiling-accepted t sealed =
      let (k, flat, size) = flat_indices_lem 0 (length g.nodes) ps t in
      let flat' : flat_indices ps ≡ range 0 (length g.nodes) =
        flat ∙ ap (count_up 0) (omega arith) in
      rw
        (
          flat',
          covers,
          bounded,
          list_eq_refl (range 0 (length g.nodes)),
          tiling-nonempty 0 (length g.nodes) ps t,
          (check_nodes_iff ps g.nodes).1 (tiling-NodeOk t sealed),
        )
        (ground arith)
    where
      run : List ℕ
      run = range 0 (length g.nodes)

      covers : all (λ i. elem i run) run ≡ true
      covers = all-of_elem (λ i. elem i run) run (λ x h. h)

      bounded : all (λ i. ltb i (length g.nodes)) run ≡ true
      bounded =
          all-of_elem (λ i. ltb i (length g.nodes)) run
            λ x h.
              (ltb_iff x (length g.nodes)).1
                (let b = ((elem-count_up x 0 (length g.nodes - 0)).0 h).1 in omega arith)
