-- ===== src/Strategy/Costed.antt =====
-- strategies/cost.py: CostSplitter.split and MemorySplitter.split. The costs of the nodes, their
-- memory and the terms that device_terms makes are arguments.
pub mod Accepted
use torch_slicer.Common.{
  ℕ, zero, suc, ◌+◌, ◌-◌, ◌≤◌, ◌<◌, max, List, [], ◌∷◌, ◌≡◌, refl, arith, length, ok, raise, Result,
  ◌>>=◌, none, some, Bool, false, true, ap, ◌∙◌, >>=-eq-ok, ok_injective, sym, Result-cases, inl,
  subst, inr, dec_lt,
}
use torch_slicer.Common.Sorting.{sorted, length-sorted}
use torch_slicer.Graph.{ModelGraph, IsOrdered, IsLinked, valid_cuts}
use torch_slicer.Graph.Increasing.{valid_cuts-IsIncreasing}
use torch_slicer.Strategy.Base.{Partition, partitions_from_cuts, partitions_between, validate}
use torch_slicer.Strategy.FromCuts.{partitions_from_cuts-accepted}
use torch_slicer.Strategy.Balance.{Floats, Terms, Refusal, no_fit, balanced_cuts}
use torch_slicer.Strategy.Balance.Order.{IsOrder}
use torch_slicer.Strategy.Balance.Optimal.{FullPlan}
use torch_slicer.Strategy.Balance.Choice.{balanced_cuts-returns_iff}
use torch_slicer.Strategy.Balance.Valid.{balanced_cuts-valid}

-- The arguments with which MemorySplitter calls balanced_cuts.
abbrev pub capped : {F : Type 0} → Floats F → List F → F → Terms F
capped floats mem limit = record {
  speeds = none;
  mem = some mem;
  caps = some (λ p. some limit);
  cut_cost = none;
  link_cost = λ p. floats.nought;
}

module _ {F M : Type 0} (floats : Floats F) where
  -- CostSplitter.split
  unfoldable pub split_by_cost :
      ModelGraph M → List F → ℕ → Terms F → Result Refusal (List Partition)
  split_by_cost g costs n_partitions terms = do
    cuts ← balanced_cuts floats costs (valid_cuts g) n_partitions terms
    ok (partitions_from_cuts g cuts)

  -- The loop over the number of partitions, `count` rounds from `n` on.
  unfoldable pub fewest :
      ModelGraph M → List F → List F → F → ℕ → ℕ → Result Refusal (List Partition)
  unfolding split_by_cost
  fewest g costs mem limit zero n = raise no_fit
  fewest g costs mem limit (suc count) n =
      let rest = fewest g costs mem limit count (suc n) in
      elim (split_by_cost g costs n (capped floats mem limit)) [
        | ok partitions ↦ ok partitions
        | raise _ ↦ rest
      ]

  -- MemorySplitter.split, when `slot_mb` is given; `limit` is `slot_mb * 2**20`.
  unfoldable pub split_by_memory :
      ModelGraph M → List F → List F → F → ℕ → Result Refusal (List Partition)
  unfolding fewest
  split_by_memory g costs mem limit n_partitions =
      let first = max 1 n_partitions in
      fewest g costs mem limit (length (valid_cuts g) + 2 - first) first
