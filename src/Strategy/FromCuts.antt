-- ===== src/Strategy/FromCuts.antt =====
-- strategies/base.py, BaseSplitter.partitions_from_cuts: valid cuts give partitions that validate
-- accepts.
use mathlib.Core.List.{head?}
use torch_slicer.Common.{
  ℕ, refl, zero, suc, List, [], ◌∷◌, ◌≡◌, All-elem, ◌<◌, All, ◌≤◌, count_up, elem-All, arith, ◌-◌,
  elem, some, get_elem?-some, ap, true, subst, lt_of_get_elem?, ok, dec_le, sym, ◌∙◌, range, length,
}
use torch_slicer.Common.Sorting.{sorted, IsIncreasing, elem-sorted}
use torch_slicer.Graph.{LayerNode, ModelGraph, IsOrdered, IsLinked, valid_cuts}
use torch_slicer.Graph.Cuts.{IsCut, valid_cuts_iff}
use torch_slicer.Strategy.Base.{
  Partition, partition_of, partitions_between, partitions_from_cuts, validate,
}
use torch_slicer.Strategy.Tiles.{IsTiling, IsSealed, IsBoundary}
use torch_slicer.Strategy.Accepts.{tiling-accepted}

IsSealed-range :
    {M : Type 0} (nodes : List (LayerNode M)) (a b : ℕ) (p : Partition)
    → p.layer_indices ≡ range a b
    → IsBoundary nodes a
    → IsSealed nodes p
IsSealed-range nodes a b p e boundary c head =
    subst (IsBoundary nodes) (starts (b - a) (rw e at head)) boundary
  where
    starts : (len : ℕ) → head? (count_up a len) ≡ some c → a ≡ c
    starts zero h = absurd (cc)
    starts (suc len) h = cc

module _ {M : Type 0} (g : ModelGraph M) (ordered : IsOrdered g.nodes)
    (linked : IsLinked g.nodes) where
  cut-IsBoundary : (k : ℕ) → IsCut g k → IsBoundary g.nodes (suc k)
  cut-IsBoundary k cut = record {
    reads = λ j node low at.
        All-elem (λ q. suc k ≤ suc q) node.predecessors
          λ q mem.
            let early =
              elem-All (λ q'. q' < j) node.predecessors q (ordered.earlier j node at) mem in
            let (source, source_at) =
              get_elem?-some g.nodes q (let fits = lt_of_get_elem? g.nodes j at in omega arith) in
            let used = linked j q node source at source_at mem in
            elim (dec_le k q) [
              | yes late ↦ omega arith
              | no soon ↦ absurd (
                  let stop =
                    elem-All (λ s. s ≤ k) source.successors j
                      (cut.closed q source (omega arith) source_at) used in
                  omega arith)
            ];
    no_input = λ j node low pos at. cut.no_input j node low at;
  }

  first-IsBoundary : IsBoundary g.nodes 0
  first-IsBoundary = record {
    reads = λ j node low at. All-elem (λ q. 0 ≤ suc q) node.predecessors (λ q mem. omega arith);
    no_input = λ j node low pos at. absurd (omega arith);
  }

  -- The partitions between cuts tile the layers from `a` on, if `a` is a boundary.
  between-IsTiling :
      (i a : ℕ) (cuts : List ℕ)
      → a < length g.nodes
      → IsIncreasing a cuts
      → All (IsCut g) cuts
      → IsTiling a (length g.nodes) (partitions_between g i a cuts)
  unfolding partitions_between
  between-IsTiling i a [] lt up ok_cuts =
      let size : length g.nodes - a ≡ suc (length g.nodes - suc a) = omega arith in
      (length g.nodes - suc a, ap (count_up a) size, omega arith)
  between-IsTiling i a (cut ∷ cuts) lt up ok_cuts =
      let size : suc cut - a ≡ suc (cut - a) = omega arith in
      (
        cut - a,
        ap (count_up a) size,
        subst (λ b. IsTiling b (length g.nodes) (partitions_between g (suc i) (suc cut) cuts))
            (omega arith)
            (between-IsTiling (suc i) (suc cut) cuts (ok_cuts.0).within up.1 ok_cuts.1),
      )

  between-IsSealed :
      (i a : ℕ) (cuts : List ℕ)
      → IsBoundary g.nodes a
      → IsIncreasing a cuts
      → All (IsCut g) cuts
      → All (IsSealed g.nodes) (partitions_between g i a cuts)
  unfolding partitions_between
  between-IsSealed i a [] boundary up ok_cuts = (
    IsSealed-range g.nodes a (length g.nodes) (partition_of g i (range a (length g.nodes))) refl
        boundary,
    tt,
  )
  between-IsSealed i a (cut ∷ cuts) boundary up ok_cuts = (
    IsSealed-range g.nodes a (suc cut) (partition_of g i (range a (suc cut))) refl boundary,
    between-IsSealed (suc i) (suc cut) cuts (cut-IsBoundary cut ok_cuts.0) up.1 ok_cuts.1,
  )

  -- Partitions made from distinct valid cuts, in whatever order they are given, are accepted.
  pub partitions_from_cuts-accepted :
      (cuts : List ℕ)
      → 0 < length g.nodes
      → IsIncreasing 0 (sorted cuts)
      → All (λ k. elem k (valid_cuts g) ≡ true) cuts
      → validate g (partitions_from_cuts g cuts) ≡ ok tt
  unfolding partitions_from_cuts
  partitions_from_cuts-accepted cuts some_node up valid =
      tiling-accepted g ordered _ (between-IsTiling 0 0 (sorted cuts) some_node up are_cuts)
        (between-IsSealed 0 0 (sorted cuts) first-IsBoundary up are_cuts)
    where
      are_cuts : All (IsCut g) (sorted cuts)
      are_cuts = All-elem (IsCut g) (sorted cuts) λ k mem. (valid_cuts_iff g k).0 (
          elem-All (λ k'. elem k' (valid_cuts g) ≡ true) cuts k valid
            (sym (elem-sorted k cuts) ∙ mem))
