-- ===== src/Graph/Increasing.antt =====
-- core/model_graph.py, ModelGraph.valid_cuts: the order of the cuts.
use torch_slicer.Common.{ℕ, suc, ◌≤◌, max, List, [], ◌∷◌, arith, Bool, true, false, if◌then◌else◌}
use torch_slicer.Common.Sorting.{IsIncreasing}
use torch_slicer.Graph.{LayerNode, ModelGraph, cuts_from, valid_cuts, past}

lower : (low low' : ℕ) (xs : List ℕ) → low ≤ low' → IsIncreasing low' xs → IsIncreasing low xs
lower low low' [] le h = tt
lower low low' (x ∷ xs) le h = (let l = h.0 in omega arith, h.1)

kept :
    (test : Bool) (k : ℕ) (xs : List ℕ)
    → IsIncreasing (suc k) xs
    → IsIncreasing k (if test then k ∷ xs else xs)
kept true k xs h = (omega arith, h)
kept false k xs h = lower k (suc k) xs (omega arith) h

module _ {M : Type 0} where
  cuts_from-IsIncreasing :
      (k reach : ℕ) (nodes : List (LayerNode M)) → IsIncreasing k (cuts_from k reach nodes)
  unfolding cuts_from
  cuts_from-IsIncreasing k reach [] = tt
  cuts_from-IsIncreasing k reach (node ∷ []) = tt
  cuts_from-IsIncreasing k reach (node ∷ next ∷ rest) =
      kept _ k _ (cuts_from-IsIncreasing (suc k) (max reach (past node.successors)) (next ∷ rest))

  pub valid_cuts-IsIncreasing : (g : ModelGraph M) → IsIncreasing 0 (valid_cuts g)
  unfolding valid_cuts
  valid_cuts-IsIncreasing g = cuts_from-IsIncreasing 0 0 g.nodes
