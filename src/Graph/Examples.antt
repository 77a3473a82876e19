-- ===== src/Graph/Examples.antt =====
-- core/model_graph.py: the theorems at a graph with a skip connection.
use torch_slicer.Common.{refl, ℕ, map, [], ◌≡◌, ◌↔◌, true, elem}
use torch_slicer.Graph.{LayerNode, ModelGraph, IsOrdered, IsLinked, link, valid_cuts}
use torch_slicer.Graph.Cuts.{IsCut, valid_cuts_iff}
use torch_slicer.Graph.Links.{link-IsLinked}
use torch_slicer.Graph.Samples.{is_ordered-IsOrdered, residual}

valid_cuts_iff_example : (elem 2 (valid_cuts residual) ≡ true) ↔ IsCut residual 2
valid_cuts_iff_example = valid_cuts_iff residual 2

-- The same nodes before their successors are filled in.
abbrev unlinked : ModelGraph ℕ
unlinked = record residual {
  nodes = map (λ (n : LayerNode ℕ). record n { successors = [] }) residual.nodes;
}

filled_in : link unlinked ≡ residual
unfolding link
filled_in = refl

link-IsLinked_example : IsOrdered (link unlinked).nodes × IsLinked (link unlinked).nodes
link-IsLinked_example = link-IsLinked unlinked (is_ordered-IsOrdered unlinked.nodes refl)
