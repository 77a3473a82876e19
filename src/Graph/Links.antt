-- ===== src/Graph/Links.antt =====
-- core/model_graph.py, the end of _trace: the successors that it fills in are complete.
use torch_slicer.Common.{
  ◌<◌, ℕ, zero, suc, ◌+◌, ◌≡◌, refl, sym, ap, ◌∙◌, subst, true, some, List, [], ◌∷◌, ◌++◌, ◌==◌,
  get_elem?, elem, elem-append, All, arith, Bool-cases, inl, inr, some_injective,
}
use torch_slicer.Graph.{
  LayerNode, ModelGraph, IsOrdered, IsLinked, repeats, links_to, link_from, link,
}

elem-repeats :
    (p index : ℕ) (ps : List ℕ) → elem p ps ≡ true → elem index (repeats p index ps) ≡ true
unfolding repeats
elem-repeats p index [] mem = absurd (cc)
elem-repeats p index (q ∷ qs) mem = elim (Bool-cases (q == p)) [
  | inl here ↦ rw here (ground arith)
  | inr away ↦ rw away (elem-repeats p index qs (ground arith))
]

module _ {M : Type 0} where
  elem-links_to :
      (p j : ℕ) (nodes : List (LayerNode M)) (node : LayerNode M)
      → get_elem? nodes j ≡ some node
      → elem p node.predecessors ≡ true
      → elem node.index (links_to p nodes) ≡ true
  unfolding links_to
  elem-links_to p j [] node at mem = absurd (cc)
  elem-links_to p zero (n ∷ nodes) node at mem =
      let e = sym (some_injective at) in
      elem-append node.index (repeats p n.index n.predecessors) (links_to p nodes)
      ∙ (let here : elem node.index (repeats p n.index n.predecessors) ≡ true =
            subst (λ (m : LayerNode M). elem node.index (repeats p m.index m.predecessors) ≡ true) e
              (elem-repeats p node.index node.predecessors mem) in
          ground arith)
  elem-links_to p (suc j) (n ∷ nodes) node at mem =
      elem-append node.index (repeats p n.index n.predecessors) (links_to p nodes)
      ∙ (let later = elem-links_to p j nodes node at mem in ground arith)

  -- A node of the linked graph.
  abbrev linked_node : List (LayerNode M) → ℕ → LayerNode M → LayerNode M
  linked_node nodes j n = record n { successors = n.successors ++ links_to j nodes }

  link_from-at :
      (nodes : List (LayerNode M)) (k j : ℕ) (rest : List (LayerNode M)) (node : LayerNode M)
      → get_elem? (link_from nodes k rest) j ≡ some node
      → (n : LayerNode M) × (get_elem? rest j ≡ some n) × (node ≡ linked_node nodes (k + j) n)
  unfolding link_from
  link_from-at nodes k j [] node at = absurd (cc)
  link_from-at nodes k zero (n ∷ rest) node at =
      (n, refl, sym (some_injective at) ∙ ap (λ i. linked_node nodes i n) (omega arith))
  link_from-at nodes k (suc j) (n ∷ rest) node at =
      let (m, there, e) = link_from-at nodes (suc k) j rest node at in
      (m, there, e ∙ ap (λ i. linked_node nodes i m) (omega arith))

  link-at :
      (g : ModelGraph M) (j : ℕ) (node : LayerNode M)
      → get_elem? (link g).nodes j ≡ some node
      → (n : LayerNode M) × (get_elem? g.nodes j ≡ some n) × (node ≡ linked_node g.nodes j n)
  unfolding link
  link-at g j node at =
      let (n, there, e) = link_from-at g.nodes 0 j g.nodes node at in
      (n, there, e ∙ ap (λ i. linked_node g.nodes i n) (omega arith))

  -- If the traced nodes are in order and read earlier nodes only, then so are the linked ones, and
  -- each is among the successors of every node that it reads.
  pub link-IsLinked :
      (g : ModelGraph M) → IsOrdered g.nodes → IsOrdered (link g).nodes × IsLinked (link g).nodes
  link-IsLinked g ordered = (
    record {
      indexed = λ i node at.
          let (n, there, e) = link-at g i node at in
          ap (λ (m : LayerNode M). m.index) e ∙ ordered.indexed i n there;
      earlier = λ i node at.
          let (n, there, e) = link-at g i node at in
          subst (λ (m : LayerNode M). All (λ q. q < i) m.predecessors) (sym e)
            (ordered.earlier i n there);
    },
    λ i q node source at_i at_q mem.
        let (n, there, e) = link-at g i node at_i in
        let (s, s_there, s_e) = link-at g q source at_q in
        let reads : elem q n.predecessors ≡ true =
          ap (λ (m : LayerNode M). elem q m.predecessors) (sym e) ∙ mem in
        let index : n.index ≡ i = ordered.indexed i n there in
        let used : elem i (links_to q g.nodes) ≡ true =
          subst (λ k. elem k (links_to q g.nodes) ≡ true) index
            (elem-links_to q i g.nodes n there reads) in
        ap (λ (m : LayerNode M). elem i m.successors) s_e
        ∙ elem-append i s.successors (links_to q g.nodes)
        ∙ ground arith,
  )
