-- ===== src/Strategy/Costed/Accepted.antt =====
-- strategies/cost.py: what the splitters return, validate accepts.
use torch_slicer.Common.{
  ℕ, zero, suc, ◌+◌, ◌-◌, ◌≤◌, ◌<◌, max, List, [], ◌∷◌, ◌≡◌, refl, arith, length, ok, raise, Result,
  ap, ◌∙◌, >>=-eq-ok, ok_injective, sym, Result-cases, inl, subst, inr, dec_lt,
}
use torch_slicer.Common.Sorting.{sorted, length-sorted, IsIncreasing, sorted-IsIncreasing}
use torch_slicer.Graph.{ModelGraph, IsOrdered, IsLinked, valid_cuts}
use torch_slicer.Graph.Increasing.{valid_cuts-IsIncreasing}
use torch_slicer.Strategy.Base.{Partition, partitions_from_cuts, partitions_between, validate}
use torch_slicer.Strategy.FromCuts.{partitions_from_cuts-accepted}
use torch_slicer.Strategy.Balance.{Floats, Terms, Refusal, balanced_cuts}
use torch_slicer.Strategy.Balance.Order.{IsOrder}
use torch_slicer.Strategy.Balance.Optimal.{FullPlan}
use torch_slicer.Strategy.Balance.Choice.{balanced_cuts-returns_iff}
use torch_slicer.Strategy.Balance.Valid.{balanced_cuts-valid}
use torch_slicer.Strategy.Costed.{split_by_cost, capped, fewest, split_by_memory}

length-between :
    {M : Type 0} (g : ModelGraph M) (i start : ℕ) (cuts : List ℕ)
    → length (partitions_between g i start cuts) ≡ suc (length cuts)
unfolding partitions_between
length-between g i start [] = refl
length-between g i start (cut ∷ cuts) = ap suc (length-between g (suc i) (suc cut) cuts)

pub length-partitions_from_cuts :
    {M : Type 0} (g : ModelGraph M) (cuts : List ℕ)
    → length (partitions_from_cuts g cuts) ≡ suc (length cuts)
unfolding partitions_from_cuts
length-partitions_from_cuts g cuts =
    length-between g 0 0 (sorted cuts) ∙ ap suc (length-sorted cuts)

module _ {F M : Type 0} (floats : Floats F) (order : IsOrder floats) (g : ModelGraph M)
    (ordered : IsOrdered g.nodes) (linked : IsLinked g.nodes) (some_node : 0 < length g.nodes)
    (costs : List F) where
  -- When CostSplitter.split returns, there are `n` partitions and validate accepts them; the graph
  -- is not empty, reads earlier nodes only and has its successors filled in, and n is positive.
  pub split_by_cost-accepted :
      (n : ℕ) (terms : Terms F) (partitions : List Partition)
      → 0 < n
      → split_by_cost floats g costs n terms ≡ ok partitions
      → (validate g partitions ≡ ok tt) × (length partitions ≡ n)
  unfolding split_by_cost
  split_by_cost-accepted n terms partitions pos h =
      let (cuts, chosen, made) =
        >>=-eq-ok (balanced_cuts floats costs (valid_cuts g) n terms)
          (λ cuts. ok (partitions_from_cuts g cuts)) h in
      let (up, valid, size) =
        balanced_cuts-valid floats costs (valid_cuts g) terms n order cuts
          (valid_cuts-IsIncreasing g) pos chosen in
      let same = ok_injective made in
      (
        ap (validate g) (sym same)
            ∙ partitions_from_cuts-accepted g ordered linked cuts some_node
                (subst (IsIncreasing 0) (sym (sorted-IsIncreasing 0 cuts up)) up) valid,
        ap length (sym same) ∙ length-partitions_from_cuts g cuts ∙ size,
      )

  abbrev pub FitsIn : List F → F → ℕ → Type 0
  FitsIn mem limit k = FullPlan floats costs (valid_cuts g) k (capped floats mem limit)

  -- What the loop returns from `n` on.
  abbrev pub Fewest : List F → F → ℕ → ℕ → Result Refusal (List Partition) → Type 0
  Fewest mem limit count n (ok partitions) =
      (k : ℕ) × (n ≤ k)
      × (k < n + count)
      × FitsIn mem limit k
      × ((fewer : ℕ) → n ≤ fewer → fewer < k → ¬ FitsIn mem limit fewer)
      × (validate g partitions ≡ ok tt)
      × (length partitions ≡ k)
  Fewest mem limit count n (raise e) = (k : ℕ) → n ≤ k → k < n + count → ¬ FitsIn mem limit k

  split-fits :
      (k : ℕ) (terms : Terms F) (partitions : List Partition)
      → split_by_cost floats g costs k terms ≡ ok partitions
      → FullPlan floats costs (valid_cuts g) k terms
  unfolding split_by_cost
  split-fits k terms partitions h =
      let (cuts, chosen, made) =
        >>=-eq-ok (balanced_cuts floats costs (valid_cuts g) k terms)
          (λ cuts. ok (partitions_from_cuts g cuts)) h in
      (balanced_cuts-returns_iff floats order costs (valid_cuts g) k terms).0 (cuts, chosen)

  split-misfit :
      (k : ℕ) (terms : Terms F) (e : Refusal)
      → split_by_cost floats g costs k terms ≡ raise e
      → ¬ FullPlan floats costs (valid_cuts g) k terms
  unfolding split_by_cost
  split-misfit k terms e h plan =
      let (cuts, chosen) =
        (balanced_cuts-returns_iff floats order costs (valid_cuts g) k terms).1 plan in
      let h' = rw (split_by_cost, chosen) at h in cc

  next_round :
      (mem : List F) (limit : F) (count n : ℕ) (r : Result Refusal (List Partition))
      → ¬ FitsIn mem limit n
      → Fewest mem limit count (suc n) r
      → Fewest mem limit (suc count) n r
  next_round mem limit count n (ok partitions) misfit (k, low, high, fits, smallest, valid, size) =
      (
        k,
        omega arith,
        omega arith,
        fits,
        (λ fewer from below. elim (dec_lt n fewer) [
          | yes later ↦ smallest fewer later below
          | no same ↦
              let here : fewer ≡ n = omega arith in
              λ plan. misfit (subst (FitsIn mem limit) here plan)
        ]),
        valid,
        size,
      )
  next_round mem limit count n (raise e) misfit none_fits = λ k low high. elim (dec_lt n k) [
    | yes later ↦ none_fits k later (omega arith)
    | no same ↦
        let here : k ≡ n = omega arith in λ plan. misfit (subst (FitsIn mem limit) here plan)
  ]

  fewest_lem :
      (mem : List F) (limit : F) (count n : ℕ)
      → 0 < n
      → Fewest mem limit count n (fewest floats g costs mem limit count n)
  unfolding fewest
  fewest_lem mem limit zero n pos = λ k low high fits. omega arith
  fewest_lem mem limit (suc count) n pos =
      let terms = capped floats mem limit in
      let rest = fewest floats g costs mem limit count (suc n) in
      let go : Result Refusal (List Partition) → Result Refusal (List Partition) =
        λ r. elim r [ ok partitions ↦ ok partitions | raise _ ↦ rest ] in
      elim (Result-cases (split_by_cost floats g costs n terms)) [
        | inl (partitions, at) ↦
            let (valid, size) = split_by_cost-accepted n terms partitions pos at in
            let holds : Fewest mem limit (suc count) n (ok partitions) = (
              n,
              omega arith,
              omega arith,
              split-fits n terms partitions at,
              (λ fewer low high. absurd (omega arith)),
              valid,
              size,
            ) in
            subst (Fewest mem limit (suc count) n) (sym (ap go at)) holds
        | inr (e, at) ↦ subst (Fewest mem limit (suc count) n) (sym (ap go at)) (
            next_round mem limit count n rest (split-misfit n terms e at)
              (fewest_lem mem limit count (suc n) (omega arith)))
      ]

  -- MemorySplitter.split with a memory limit: it returns the smallest number of partitions, from
  -- the number asked for on, for which some plan fits the limit, and validate accepts these
  -- partitions; and it raises only if no number of partitions that the cuts allow fits. The graph
  -- is not empty, reads earlier nodes only and has its successors filled in.
  pub split_by_memory_lem :
      (mem : List F) (limit : F) (n : ℕ)
      → Fewest mem limit
          (length (valid_cuts g) + 2 - max 1 n)
          (max 1 n)
          (split_by_memory floats g costs mem limit n)
  unfolding split_by_memory
  split_by_memory_lem mem limit n =
      fewest_lem mem limit (length (valid_cuts g) + 2 - max 1 n) (max 1 n) (omega arith)
