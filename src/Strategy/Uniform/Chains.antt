-- ===== src/Strategy/Uniform/Chains.antt =====
-- strategies/uniform.py on a plain sequence of modules, which can be cut after every node.
use torch_slicer.Common.{
  ℕ, zero, suc, ◌≤◌, ◌<◌, String, List, [], ◌∷◌, ◌≡◌, arith, sym, ◌∙◌, length, All, ok, subst,
}
use torch_slicer.Graph.{before, chain}
use torch_slicer.Graph.Chains.{chain-IsChainNode, chain-IsOrdered, length-chain}
use torch_slicer.Strategy.Base.{Partition, validate}
use torch_slicer.Strategy.Tiles.{IsBoundary, IsSealed}
use torch_slicer.Strategy.Accepts.{tiling-accepted}
use torch_slicer.Strategy.Uniform.{split_uniform}
use torch_slicer.Strategy.Uniform.Tiled.{split_uniform_lem}

module _ {M : Type 0} (modules : List (String × M)) (source : String) where
  before-from : (a j : ℕ) → a ≤ j → All (λ q. a ≤ suc q) (before j)
  unfolding before
  before-from a zero le = tt
  before-from a (suc j) le = (le, tt)

  chain-IsBoundary : (a : ℕ) → IsBoundary (chain modules source).nodes a
  chain-IsBoundary a = record {
    reads = λ j node low at.
        subst (All (λ q. a ≤ suc q)) (sym (chain-IsChainNode modules source j node at).reads)
          (before-from a j low);
    no_input =
        λ j node low pos at. (chain-IsChainNode modules source j node at).first ∙ ground arith;
  }

  pub All-IsSealed :
      (partitions : List Partition) → All (IsSealed (chain modules source).nodes) partitions
  All-IsSealed [] = tt
  All-IsSealed (p ∷ ps) = ((λ b head. chain-IsBoundary b), All-IsSealed ps)

  -- On a plain sequence of modules UniformSplitter makes any number of partitions from 1 to the
  -- number of modules, and validate accepts them.
  pub split_uniform-chain :
      (n : ℕ)
      → 0 < n
      → n ≤ length modules
      → (partitions : List Partition) × (split_uniform (chain modules source) n ≡ ok partitions)
        × (validate (chain modules source) partitions ≡ ok tt)
        × (length partitions ≡ n)
  split_uniform-chain n pos fits =
      let size = length-chain modules source in
      let (partitions, made, tiling, count) =
        split_uniform_lem (chain modules source) n pos (omega arith) in
      (
        partitions,
        made,
        tiling-accepted (chain modules source) (chain-IsOrdered modules source) partitions tiling
            (All-IsSealed partitions),
        count,
      )
