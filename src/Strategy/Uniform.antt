-- ===== src/Strategy/Uniform.antt =====
-- strategies/uniform.py: UniformSplitter.split. `math.ceil(n_layers / n_partitions)` is written
-- with whole numbers, with which it agrees as long as the quotient is exact enough for a float.
pub mod Sizes
pub mod Tiled
pub mod Chains
use torch_slicer.Common.{
  ℕ, zero, suc, ◌+◌, ◌-◌, ◌/◌, ◌%◌, min, List, [], ◌∷◌, ltb, leb, ◌==◌, if◌then◌else◌, length,
  range, Result, ok, raise,
}
use torch_slicer.Graph.{ModelGraph}
use torch_slicer.Strategy.Base.{Partition, partition_of}

-- ValueError and ZeroDivisionError
pub data UniformError : Type 0 where
  too_many no_partitions : UniformError

-- math.ceil(a / b)
abbrev pub ceil_div : ℕ → ℕ → ℕ
ceil_div a b = (a + b - 1) / b

-- k + (1 if i < r else 0) for i in range(n_partitions)
abbrev pub spread : ℕ → ℕ → ℕ → ℕ
spread n_layers n_partitions i =
    n_layers / n_partitions + (if ltb i (n_layers % n_partitions) then 1 else 0)

-- `sizes`, as a function of the partition
unfoldable pub sizes : ℕ → ℕ → ℕ → ℕ
sizes n_layers n_partitions =
    let size = ceil_div n_layers n_partitions in
    if ltb ((n_layers - 1) / size + 1) n_partitions then spread n_layers n_partitions else λ i. size

module _ {M : Type 0} where
  -- The loop over the partitions, `count` rounds from partition `i` on.
  unfoldable pub uniform_from : ModelGraph M → (ℕ → ℕ) → ℕ → ℕ → ℕ → List Partition
  uniform_from g size_of zero i start = []
  uniform_from g size_of (suc count) i start =
      let end = min (start + size_of i) (length g.nodes) in
      let rest = uniform_from g size_of count (suc i) end in
      if leb (length g.nodes) start then [] else partition_of g i (range start end) ∷ rest

  unfoldable pub split_uniform : ModelGraph M → ℕ → Result UniformError (List Partition)
  unfolding uniform_from sizes
  split_uniform g n_partitions =
      let n_layers = length g.nodes in
      if ltb n_layers n_partitions
      then raise too_many
      else if n_partitions == 0
      then raise no_partitions
      else ok (uniform_from g (sizes n_layers n_partitions) n_partitions 0 0)
