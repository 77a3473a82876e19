-- ===== src/Strategy/Examples.antt =====
-- strategies/: the theorems at a graph with a skip connection and at a chain.
use torch_slicer.Common.{
  ◌+◌, ◌-◌, max, raise, ℕ, ◌<◌, ◌≡◌, ◌↔◌, refl, arith, List, [], ◌∷◌, String, none, some, All,
  length, ok, raise,
}
use torch_slicer.Common.Sorting.{sorted, distinct}
use torch_slicer.Strategy.Balance.{balanced_cuts}
use torch_slicer.Common.{Option, Result, ◌⊎◌}
use torch_slicer.Strategy.Recovery.{recovery_partitions, PlannerError, value_error}
use torch_slicer.Strategy.Recovery.Survivors.{recovery_partitions-chain}
use torch_slicer.Graph.{valid_cuts, index_of, chain, named}
use torch_slicer.Graph.Samples.{residual, residual-IsOrdered, residual-IsLinked}
use torch_slicer.Strategy.Base.{Partition, partition_of, partitions_from_cuts, validate}
use torch_slicer.Strategy.Tiles.{IsTiling, IsSealed}
use torch_slicer.Strategy.Boundaries.{validate_iff}
use torch_slicer.Strategy.FromCuts.{partitions_from_cuts-accepted}
use torch_slicer.Strategy.Uniform.{split_uniform}
use torch_slicer.Strategy.Uniform.Tiled.{split_uniform_lem}
use torch_slicer.Strategy.Uniform.Chains.{split_uniform-chain}
use torch_slicer.Strategy.Named.{split_named, not_valid}
use torch_slicer.Strategy.Named.Accepted.{split_named-accepted}
use torch_slicer.Strategy.Balance.Samples.{whole, plain, whole-IsOrder}
use torch_slicer.Strategy.Costed.{split_by_cost, split_by_memory}
use torch_slicer.Strategy.Costed.Accepted.{Fewest, split_by_cost-accepted, split_by_memory_lem}

abbrev two : List Partition
two = partition_of residual 0 (0 ∷ []) ∷ partition_of residual 1 (1 ∷ 2 ∷ 3 ∷ []) ∷ []

validate_iff_example :
    (validate residual two ≡ ok tt) ↔ (IsTiling 0 4 two × All (IsSealed residual.nodes) two)
validate_iff_example = validate_iff residual two residual-IsOrdered (omega arith)

partitions_from_cuts-accepted_example :
    validate residual (partitions_from_cuts residual (2 ∷ 0 ∷ [])) ≡ ok tt
unfolding sorted valid_cuts
partitions_from_cuts-accepted_example =
    partitions_from_cuts-accepted residual residual-IsOrdered residual-IsLinked (2 ∷ 0 ∷ [])
      (omega arith) (omega arith, (omega arith, tt)) (refl, (refl, tt))

-- The skip connection spans a cut after node 1.
cut_inside : split_named residual (named "relu" ∷ []) none ≡ raise not_valid
unfolding split_named index_of sorted distinct valid_cuts
cut_inside = refl

at_head :
    split_named residual (named "fc" ∷ named "add" ∷ []) (some 3)
    ≡ ok (partitions_from_cuts residual (0 ∷ 2 ∷ []))
unfolding split_named index_of sorted distinct valid_cuts
at_head = refl

split_named-accepted_example :
    (validate residual (partitions_from_cuts residual (0 ∷ 2 ∷ [])) ≡ ok tt)
    × (length (partitions_from_cuts residual (0 ∷ 2 ∷ [])) ≡ 3)
split_named-accepted_example =
    split_named-accepted residual residual-IsOrdered residual-IsLinked
      (named "fc" ∷ named "add" ∷ []) (some 3) (partitions_from_cuts residual (0 ∷ 2 ∷ []))
      (omega arith) at_head

split_uniform_lem_example :
    (partitions : List Partition) × (split_uniform residual 3 ≡ ok partitions)
    × IsTiling 0 4 partitions
    × (length partitions ≡ 3)
split_uniform_lem_example = split_uniform_lem residual 3 (omega arith) (omega arith)

abbrev plain_chain : List (String × ℕ)
plain_chain = ("a", 1) ∷ ("b", 2) ∷ ("c", 3) ∷ ("d", 4) ∷ ("e", 5) ∷ []

split_uniform-chain_example :
    (partitions : List Partition) × (split_uniform (chain plain_chain "sequential") 3
      ≡ ok partitions)
    × (validate (chain plain_chain "sequential") partitions ≡ ok tt)
    × (length partitions ≡ 3)
split_uniform-chain_example =
    split_uniform-chain plain_chain "sequential" 3 (omega arith) (omega arith)

some_node : 0 < length residual.nodes
some_node = omega arith

abbrev weights : List ℕ
weights = 4 ∷ 1 ∷ 1 ∷ 5 ∷ []

by_cost : split_by_cost whole residual weights 2 plain ≡ ok (partitions_from_cuts residual (2 ∷ []))
unfolding split_by_cost balanced_cuts valid_cuts
by_cost = refl

split_by_cost-accepted_example :
    (validate residual (partitions_from_cuts residual (2 ∷ [])) ≡ ok tt)
    × (length (partitions_from_cuts residual (2 ∷ [])) ≡ 2)
split_by_cost-accepted_example =
    split_by_cost-accepted whole whole-IsOrder residual residual-IsOrdered residual-IsLinked
      (omega arith) weights 2 plain (partitions_from_cuts residual (2 ∷ [])) (omega arith) by_cost

split_by_memory_lem_example :
    Fewest whole whole-IsOrder residual residual-IsOrdered residual-IsLinked some_node weights
      weights 6
      (length (valid_cuts residual) + 2 - max 1 1)
      (max 1 1)
      (split_by_memory whole residual weights weights 6 1)
split_by_memory_lem_example =
    split_by_memory_lem whole whole-IsOrder residual residual-IsOrdered residual-IsLinked some_node
      weights weights 6 1

-- The planner raises a ValueError.
abbrev failed : Option (Result (PlannerError String) (List Partition))
failed = some (raise (value_error "the cuts are fixed"))

recovery_partitions-chain_example :
    (partitions : List Partition) × (recovery_partitions
        (some (chain plain_chain "sequential"))
        failed
        3
      ≡ ok partitions)
    × (length partitions ≡ 3)
    × ((failed ≡ some (ok partitions))
        ⊎ (validate (chain plain_chain "sequential") partitions ≡ ok tt))
recovery_partitions-chain_example =
    recovery_partitions-chain plain_chain "sequential" 3 (omega arith) (omega arith) failed
