-- ===== src/Strategy/Named/Accepted.antt =====
-- strategies/named.py: what NamedCutSplitter returns, validate accepts.
use torch_slicer.Common.{
  ◌==◌, inl, inr, ℕ, suc, Option, List, [], ◌∷◌, ◌≡◌, refl, ap, sym, ◌∙◌, true, length, elem, All,
  all, ok, subst, ◌<◌, and-eq-true, Bool, ok_injective, >>-eq-ok, >>=-eq-ok, require-eq-ok, ap₂,
  Result-cases, ==_iff,
}
use torch_slicer.Common.Sorting.{
  sorted, distinct, sorted-distinct, sorted-IsIncreasing, IsIncreasing,
}
use torch_slicer.Graph.{ModelGraph, CutName, IsOrdered, IsLinked, valid_cuts, index_of}
use torch_slicer.Strategy.Base.{Partition, list_eq, validate}
use torch_slicer.Strategy.FromCuts.{partitions_from_cuts-accepted}
use torch_slicer.Strategy.Costed.Accepted.{length-partitions_from_cuts}
use torch_slicer.Strategy.Named.{indices_of, split_named}

list_eq-eq : (xs ys : List ℕ) → list_eq xs ys ≡ true → xs ≡ ys
unfolding list_eq
list_eq-eq [] [] h = refl
list_eq-eq [] (y ∷ ys) h = absurd (cc)
list_eq-eq (x ∷ xs) [] h = absurd (cc)
list_eq-eq (x ∷ xs) (y ∷ ys) h =
    let (head, tail) = and-eq-true (x == y) (list_eq xs ys) h in
    ap₂ (λ z zs. z ∷ zs) ((==_iff x y).0 head) (list_eq-eq xs ys tail)

all-All : (p : ℕ → Bool) (xs : List ℕ) → all p xs ≡ true → All (λ x. p x ≡ true) xs
all-All p [] h = tt
all-All p (x ∷ xs) h =
    let (head, tail) = and-eq-true (p x) (all p xs) h in (head, all-All p xs tail)

module _ {M : Type 0} (g : ModelGraph M) where
  length-indices_of :
      (cuts : List CutName) (indices : List ℕ)
      → indices_of g cuts ≡ ok indices
      → length indices ≡ length cuts
  unfolding indices_of
  length-indices_of [] indices h = ap length (sym (ok_injective h))
  length-indices_of (c ∷ cs) indices h = elim (Result-cases (index_of g c)) [
    | inl (k, at) ↦
        let h' = rw (indices_of, at) at h in
        let (ks, found, made) = >>=-eq-ok (indices_of g cs) (λ ks. ok (k ∷ ks)) h' in
        ap length (sym (ok_injective made)) ∙ ap suc (length-indices_of cs ks found)
    | inr (e, at) ↦ absurd (let h' = rw (indices_of, at) at h in cc)
  ]

  -- When NamedCutSplitter returns, there is one partition more than the named cuts, and validate
  -- accepts the partitions; the graph is not empty, reads earlier nodes only and has its successors
  -- filled in.
  pub split_named-accepted :
      (ordered : IsOrdered g.nodes) (linked : IsLinked g.nodes) (cuts : List CutName) (n : Option ℕ)
      (partitions : List Partition)
      → 0 < length g.nodes
      → split_named g cuts n ≡ ok partitions
      → (validate g partitions ≡ ok tt) × (length partitions ≡ suc (length cuts))
  unfolding split_named
  split_named-accepted ordered linked cuts n partitions some_node h =
      let (_, h1) = >>-eq-ok _ _ h in
      let (indices, found, h2) = >>=-eq-ok (indices_of g cuts) _ h1 in
      let (in_order, h3) = >>-eq-ok _ _ h2 in
      let (valid, h4) = >>-eq-ok _ _ h3 in
      let made = ok_injective h4 in
      let same = list_eq-eq indices (sorted (distinct indices)) (require-eq-ok _ _ in_order) in
      let up : IsIncreasing 0 indices =
        subst (IsIncreasing 0) (sym same) (sorted-distinct indices) in
      (
        ap (validate g) (sym made)
            ∙ partitions_from_cuts-accepted g ordered linked indices some_node
                (subst (IsIncreasing 0) (sym (sorted-IsIncreasing 0 indices up)) up)
                (all-All (λ k. elem k (valid_cuts g)) indices (require-eq-ok _ _ valid)),
        ap length (sym made)
            ∙ length-partitions_from_cuts g indices
            ∙ ap suc (length-indices_of cuts indices found),
      )
