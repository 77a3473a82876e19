-- ===== src/Graph/Chains.antt =====
-- core/model_graph.py, _chain: the graph of a plain sequence of modules.
use torch_slicer.Common.{
  ℕ, zero, suc, ◌+◌, ◌<◌, String, List, [], ◌∷◌, ◌≡◌, refl, arith, ap, sym, ◌∙◌, true, some, ◌==◌,
  length, get_elem?, elem, All, subst, some_injective,
}
use torch_slicer.Graph.{LayerNode, before, chain_from, chain, IsOrdered, IsLinked}

before-All : (i : ℕ) → All (λ q. q < i) (before i)
unfolding before
before-All zero = tt
before-All (suc i) = (omega arith, tt)

elem-before : (i q : ℕ) → elem q (before i) ≡ true → i ≡ suc q
unfolding before
elem-before zero q mem = absurd (cc)
elem-before (suc i) q mem = ground arith

module _ {M : Type 0} where
  -- Node `k` reads node `k - 1`, and only node 0 reads the model input.
  pub record IsChainNode (node : LayerNode M) (k : ℕ) : Type 0 where
    pub at : node.index ≡ k
    pub reads : node.predecessors ≡ before k
    pub first : node.takes_input ≡ (k == 0)

  chain_from-node :
      (i k : ℕ) (modules : List (String × M)) (node : LayerNode M)
      → get_elem? (chain_from i modules) k ≡ some node
      → IsChainNode node (i + k)
  unfolding chain_from
  chain_from-node i k [] node at = absurd (cc)
  chain_from-node i zero ((name, layer) ∷ rest) node at =
      subst (λ n. IsChainNode n (i + 0)) (some_injective at)
        (record {
          at = omega arith;
          reads = ap before (omega arith);
          first = ap (λ j. j == 0) (omega arith);
        })
  chain_from-node i (suc k) ((name, layer) ∷ rest) node at =
      subst (IsChainNode node) (omega arith) (chain_from-node (suc i) k rest node at)

  -- The successor of a node that another follows.
  chain_from-next :
      (i k : ℕ) (modules : List (String × M)) (node next : LayerNode M)
      → get_elem? (chain_from i modules) k ≡ some node
      → get_elem? (chain_from i modules) (suc k) ≡ some next
      → node.successors ≡ suc (i + k) ∷ []
  unfolding chain_from
  chain_from-next i k [] node next at after = absurd (cc)
  chain_from-next i zero ((name, layer) ∷ []) node next at after = absurd (cc)
  chain_from-next i zero ((name, layer) ∷ m ∷ rest) node next at after =
      subst (λ (n : LayerNode M). n.successors ≡ suc (i + 0) ∷ []) (some_injective at)
        (ap (λ j. suc j ∷ []) (omega arith))
  chain_from-next i (suc k) ((name, layer) ∷ rest) node next at after =
      chain_from-next (suc i) k rest node next at after ∙ ap (λ j. suc j ∷ []) (omega arith)

  pub length-chain :
      (modules : List (String × M)) (source : String)
      → length (chain modules source).nodes ≡ length modules
  unfolding chain chain_from
  length-chain modules source = go 0 modules
    where
      go : (i : ℕ) (modules : List (String × M)) → length (chain_from i modules) ≡ length modules
      go i [] = refl
      go i (m ∷ modules) = ap suc (go (suc i) modules)

  pub chain-IsChainNode :
      (modules : List (String × M)) (source : String) (i : ℕ) (node : LayerNode M)
      → get_elem? (chain modules source).nodes i ≡ some node
      → IsChainNode node i
  unfolding chain
  chain-IsChainNode modules source i node at =
      subst (IsChainNode node) (omega arith) (chain_from-node 0 i modules node at)

  -- A chain reads earlier nodes only.
  pub chain-IsOrdered :
      (modules : List (String × M)) (source : String) → IsOrdered (chain modules source).nodes
  chain-IsOrdered modules source = record {
    indexed = λ i node at. (chain-IsChainNode modules source i node at).at;
    earlier = λ i node at.
        subst (All (λ q. q < i)) (sym (chain-IsChainNode modules source i node at).reads)
          (before-All i);
  }

  pub chain-IsLinked :
      (modules : List (String × M)) (source : String) → IsLinked (chain modules source).nodes
  unfolding chain
  chain-IsLinked modules source i q node source_node at_i at_q mem =
      let reads = (chain-IsChainNode modules source i node at_i).reads in
      let follows : i ≡ suc q = elem-before i q (ap (elem q) (sym reads) ∙ mem) in
      let nodes = (chain modules source).nodes in
      let next =
        chain_from-next 0 q modules source_node node at_q
          (ap (get_elem? nodes) (sym follows) ∙ at_i) in
      ap (elem i) next ∙ ground arith
