-- ===== src/Strategy/Recovery.antt =====
-- executors/distributed.py: the partitions for the workers that survive a failure. `planned` is what the
-- run's planner gives for them, or the exception that it raises, if there is one and it is given the
-- nodes.
pub mod Survivors
use torch_slicer.Common.{
  ℕ, zero, suc, ◌+◌, Option, none, some, List, [], ◌∷◌, ◌==◌, if◌then◌else◌, length, take, drop,
  range, Result, ok, raise,
}
use torch_slicer.Graph.{ModelGraph}
use torch_slicer.Strategy.Base.{Partition, Rejection, partition_of, validate}
use torch_slicer.Strategy.Uniform.{spread}

-- What a planner raises: a ValueError, or an exception of another class.
pub data PlannerError (E : Type 0) : Type 0 where
  value_error other_error : E → PlannerError E

-- `planner_failed` is the planner's exception, which goes on.
pub data RecoveryError (E : Type 0) : Type 0 where
  missing_graph no_workers : RecoveryError E
  planner_failed : E → RecoveryError E
  rejected : Rejection → RecoveryError E

-- The loop of _uniform_split over the groups, `count` rounds from group `i` on.
unfoldable pub groups_from : {A : Type 0} → List A → (ℕ → ℕ) → ℕ → ℕ → ℕ → List (List A)
groups_from layers size_of zero i start = []
groups_from layers size_of (suc count) i start =
    take (size_of i) (drop start layers)
    ∷ groups_from layers size_of count (suc i) (start + size_of i)

-- _uniform_split, for a positive number of groups
unfoldable pub groups_of : {A : Type 0} → List A → ℕ → List (List A)
unfolding groups_from
groups_of layers n = groups_from layers (spread (length layers) n) n 0 0

module _ {M : Type 0} where
  -- for i, layer_indices in enumerate(layer_groups)
  unfoldable pub number_groups : ModelGraph M → ℕ → List (List ℕ) → List Partition
  number_groups g i [] = []
  number_groups g i (layer_indices ∷ groups) =
      partition_of g i layer_indices ∷ number_groups g (suc i) groups

module _ {M E : Type 0} where
  -- The uniform fallback.
  unfoldable pub fall_back : ModelGraph M → ℕ → Result (RecoveryError E) (List Partition)
  unfolding groups_of number_groups
  fall_back g n_alive =
      let partitions = number_groups g 0 (groups_of (range 0 (length g.nodes)) n_alive) in
      if n_alive == 0
      then raise no_workers
      else elim (validate g partitions) [ ok done ↦ ok partitions | raise e ↦ raise (rejected e) ]

  -- _build_recovery_partitions
  unfoldable pub recovery_partitions :
      Option (ModelGraph M)
      → Option (Result (PlannerError E) (List Partition))
      → ℕ
      → Result (RecoveryError E) (List Partition)
  unfolding fall_back
  recovery_partitions none planned n_alive = raise missing_graph
  recovery_partitions (some g) none n_alive = fall_back g n_alive
  recovery_partitions (some g) (some (raise (value_error e))) n_alive = fall_back g n_alive
  recovery_partitions (some g) (some (raise (other_error e))) n_alive = raise (planner_failed e)
  recovery_partitions (some g) (some (ok partitions)) n_alive =
      if length partitions == n_alive then ok partitions else fall_back g n_alive
