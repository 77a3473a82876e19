-- ===== src/Strategy/Uniform/Tiled.antt =====
-- strategies/uniform.py: UniformSplitter makes as many partitions as it is asked for.
use torch_slicer.Common.{
  ℕ, zero, suc, ◌+◌, ◌-◌, ◌≤◌, ◌<◌, min, List, ◌≡◌, refl, arith, ap, false, leb, ltb, ◌==◌, length,
  count_up, ok, subst,
}
use torch_slicer.Graph.{ModelGraph}
use torch_slicer.Strategy.Base.{Partition}
use torch_slicer.Strategy.Tiles.{IsTiling}
use torch_slicer.Strategy.Uniform.{sizes, uniform_from, split_uniform}
use torch_slicer.Strategy.Uniform.Sizes.{Exhausts, total, total-zero, sizes-Exhausts}

module _ {M : Type 0} (g : ModelGraph M) (size_of : ℕ → ℕ) (n : ℕ)
    (exhausts : Exhausts size_of n (length g.nodes)) where
  -- From partition `i` on, `count` of them.
  uniform_from-IsTiling :
      (count i start : ℕ)
      → i + count ≡ n
      → start ≡ min (total size_of i) (length g.nodes)
      → IsTiling start (length g.nodes) (uniform_from g size_of count i start)
        × (length (uniform_from g size_of count i start) ≡ count)
  unfolding uniform_from total
  uniform_from-IsTiling zero i start all at =
      let same : total size_of i ≡ total size_of n = ap (total size_of) (omega arith) in
      let last = exhausts.ends in (omega arith, refl)
  uniform_from-IsTiling (suc count) i start all at =
      let layers = length g.nodes in
      let first = exhausts.starts i (omega arith) in
      let size = exhausts.grows i (omega arith) in
      let going : leb layers start ≡ false = ground arith in
      let end = min (start + size_of i) layers in
      let (tiling, count_eq) =
        uniform_from-IsTiling count (suc i) end (omega arith) (omega arith) in
      let whole : end - start ≡ suc (end - start - 1) = omega arith in
      let next : end ≡ suc (start + (end - start - 1)) = omega arith in
      rw going (
        (
          end - start - 1,
          ap (count_up start) whole,
          subst (λ a. IsTiling a layers (uniform_from g size_of count (suc i) end)) next tiling,
        ),
        ap suc count_eq,
      )

-- For every number of partitions from 1 to the number of layers, UniformSplitter makes exactly
-- that many, non-empty, and they are the layers in order.
pub split_uniform_lem :
    {M : Type 0} (g : ModelGraph M) (n : ℕ)
    → 0 < n
    → n ≤ length g.nodes
    → (partitions : List Partition) × (split_uniform g n ≡ ok partitions)
      × IsTiling 0 (length g.nodes) partitions
      × (length partitions ≡ n)
unfolding split_uniform
split_uniform_lem g n pos fits =
    let layers = length g.nodes in
    let few : ltb layers n ≡ false = ground arith in
    let some_part : n == 0 ≡ false = ground arith in
    let (tiling, size) =
      uniform_from-IsTiling g (sizes layers n) n (sizes-Exhausts layers n pos fits) n 0 0
        (omega arith) (let z = total-zero (sizes layers n) in omega arith) in
    (uniform_from g (sizes layers n) n 0 0, rw (few, some_part) refl, tiling, size)
