-- ===== src/Strategy/Named.antt =====
-- strategies/named.py: NamedCutSplitter.
pub mod Accepted
use torch_slicer.Common.{
  ℕ, suc, Bool, true, false, not, Option, none, some, List, [], ◌∷◌, ◌==◌, if◌then◌else◌, length,
  is_nil, all, elem, Result, ok, raise, ◌>>=◌, ◌>>◌, require,
}
use torch_slicer.Common.Sorting.{sorted, distinct}
use torch_slicer.Graph.{ModelGraph, CutName, Error, index_of, valid_cuts}
use torch_slicer.Strategy.Base.{Partition, partitions_from_cuts, list_eq}

-- The errors of the constructor and of `split`; `unknown` is the error of index_of.
pub data NamedError : Type 0 where
  no_cuts wrong_count not_ordered not_valid : NamedError
  unknown : Error → NamedError

-- NamedCutSplitter(cuts)
unfoldable pub named_cuts : List CutName → Result NamedError (List CutName)
named_cuts cuts = if is_nil cuts then raise no_cuts else ok cuts

-- `n_partitions is not None and n_partitions != len(self.cuts) + 1`
unfoldable pub counts : Option ℕ → List CutName → Bool
counts none cuts = true
counts (some n) cuts = n == suc (length cuts)

module _ {M : Type 0} where
  -- [model_graph.index_of(c) for c in self.cuts]
  unfoldable pub indices_of : ModelGraph M → List CutName → Result NamedError (List ℕ)
  indices_of g [] = ok []
  indices_of g (c ∷ cs) =
      let rest = indices_of g cs in
      elim (index_of g c) [ raise e ↦ raise (unknown e) | ok k ↦ rest >>= λ ks. ok (k ∷ ks) ]

  unfoldable pub split_named :
      ModelGraph M → List CutName → Option ℕ → Result NamedError (List Partition)
  unfolding indices_of counts list_eq
  split_named g cuts n_partitions = do
    require (counts n_partitions cuts) wrong_count
    indices ← indices_of g cuts
    require (list_eq indices (sorted (distinct indices))) not_ordered
    require (all (λ k. elem k (valid_cuts g)) indices) not_valid
    ok (partitions_from_cuts g indices)
