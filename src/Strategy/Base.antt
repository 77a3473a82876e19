-- ===== src/Strategy/Base.antt =====
-- strategies/base.py: Partition, and the helpers and the validation of BaseSplitter.
use torch_slicer.Common.{
  ℕ, suc, Bool, true, false, not, ◌&&◌, ◌||◌, Option, none, some, List, [], ◌∷◌, ◌++◌, map, ltb,
  ◌==◌, if◌then◌else◌, length, get_elem?, is_nil, any, all, last?, elem, range, Result, ok, raise,
  ◌>>=◌, ◌>>◌, require,
}
use torch_slicer.Common.Sorting.{sorted}
use torch_slicer.Graph.{LayerNode, ModelGraph}

-- A predecessor within the partition is a local index; `none` is -1, the partition's external
-- input.
pub record Partition : Type 0 where
  pub index : ℕ
  pub layer_indices : List ℕ
  pub predecessors : List (List (Option ℕ))

-- The errors of `validate`, in the order of its tests; `key_error` is a node or predecessor index
-- that is in no partition.
pub data Rejection : Type 0 where
  uncovered not_contiguous reads_input multi_input wrong_boundary key_error : Rejection

-- global_to_local.get(g): the last position of `g`, counted from `l`
unfoldable pub position_from : ℕ → List ℕ → ℕ → Option ℕ
position_from l [] g = none
position_from l (x ∷ xs) g = elim (position_from (suc l) xs g) [
  | some r ↦ some r
  | none ↦ if x == g then some l else none
]

abbrev pub local_of : List ℕ → ℕ → Option ℕ
local_of = position_from 0

-- [global_to_local[p] for p in preds if p in index_set]
unfoldable pub locals : List ℕ → List ℕ → List (Option ℕ)
locals layer_indices [] = []
locals layer_indices (p ∷ ps) = elim (local_of layer_indices p) [
  | some l ↦ some l ∷ locals layer_indices ps
  | none ↦ locals layer_indices ps
]

module _ {M : Type 0} where
  -- The local predecessors of the node at `global_idx`.
  unfoldable pub local_preds : List (LayerNode M) → List ℕ → ℕ → List (Option ℕ)
  local_preds nodes layer_indices global_idx = elim (get_elem? nodes global_idx) [
    | none ↦ []
    | some node ↦
        if ltb 1 (length node.predecessors)
        then map (local_of layer_indices) node.predecessors
        else locals layer_indices node.predecessors
  ]

  unfoldable pub intra_predecessors : ModelGraph M → List ℕ → List (List (Option ℕ))
  unfolding local_preds
  intra_predecessors g layer_indices =
      if is_nil g.nodes
      then map (λ _. []) layer_indices
      else map (local_preds g.nodes layer_indices) layer_indices

  -- One partition of the given layers.
  abbrev pub partition_of : ModelGraph M → ℕ → List ℕ → Partition
  partition_of g index layer_indices = record {
    index = index;
    layer_indices = layer_indices;
    predecessors = intra_predecessors g layer_indices;
  }

  -- The loop of partitions_from_cuts. `start` is `bounds[i] + 1`, and the list is the bounds that
  -- follow, less the last one, which is `len(model_graph) - 1`.
  unfoldable pub partitions_between : ModelGraph M → ℕ → ℕ → List ℕ → List Partition
  partitions_between g i start [] = partition_of g i (range start (length g.nodes)) ∷ []
  partitions_between g i start (cut ∷ cuts) =
      partition_of g i (range start (suc cut)) ∷ partitions_between g (suc i) (suc cut) cuts

  unfoldable pub partitions_from_cuts : ModelGraph M → List ℕ → List Partition
  unfolding partitions_between sorted
  partitions_from_cuts g cuts = partitions_between g 0 0 (sorted cuts)

-- [idx for p in partitions for idx in p.layer_indices]
unfoldable pub flat_indices : List Partition → List ℕ
flat_indices [] = []
flat_indices (p ∷ ps) = p.layer_indices ++ flat_indices ps

-- `==` on two lists of numbers
unfoldable pub list_eq : List ℕ → List ℕ → Bool
list_eq [] [] = true
list_eq (x ∷ xs) (y ∷ ys) = x == y && list_eq xs ys
list_eq _ _ = false

-- node_to_partition.get(idx): the last partition, counted from `pos`, that holds `idx`
unfoldable pub owner_from : ℕ → List Partition → ℕ → Option ℕ
owner_from pos [] idx = none
owner_from pos (p ∷ ps) idx = elim (owner_from (suc pos) ps idx) [
  | some r ↦ some r
  | none ↦ if elem idx p.layer_indices then some pos else none
]

-- `node_to_partition[idx]`
unfoldable pub owner : List Partition → ℕ → Result Rejection ℕ
unfolding owner_from
owner partitions idx = elim (owner_from 0 partitions idx) [
  | some pos ↦ ok pos
  | none ↦ raise key_error
]

-- `q == last_of[q_pos]`
unfoldable pub is_last_of : List Partition → ℕ → ℕ → Bool
is_last_of partitions q_pos q = elim (get_elem? partitions q_pos) [
  | none ↦ false
  | some p ↦ elim (last? p.layer_indices) [ none ↦ false | some k ↦ q == k ]
]

-- The inner loop of `validate`, over the predecessors of a node of partition `pos`; `multi` tells
-- which of the two errors it raises.
unfoldable pub check_preds : List Partition → ℕ → Bool → List ℕ → Result Rejection (Unit {0})
unfolding owner is_last_of
check_preds partitions pos multi [] = ok tt
check_preds partitions pos multi (q ∷ qs) = do
  q_pos ← owner partitions q
  require (q_pos == pos || (suc q_pos == pos && is_last_of partitions q_pos q))
      (if multi then multi_input else wrong_boundary)
  check_preds partitions pos multi qs

module _ {M : Type 0} where
  -- The outer loop of `validate`.
  unfoldable pub check_nodes : List Partition → List (LayerNode M) → Result Rejection (Unit {0})
  unfolding check_preds
  check_nodes partitions [] = ok tt
  check_nodes partitions (node ∷ rest) = do
    pos ← owner partitions node.index
    require (not (node.takes_input && not (pos == 0))) reads_input
    check_preds partitions pos (ltb 1 (length node.predecessors)) node.predecessors
    check_nodes partitions rest

  unfoldable pub validate : ModelGraph M → List Partition → Result Rejection (Unit {0})
  unfolding check_nodes flat_indices list_eq
  validate g partitions = do
    let n = length g.nodes
    let flat = flat_indices partitions
    require (all (λ i. elem i flat) (range 0 n) && all (λ i. ltb i n) flat) uncovered
    if is_nil g.nodes then ok tt else do
      require (not (any (λ p. is_nil p.layer_indices) partitions) && list_eq flat (range 0 n))
          not_contiguous
      check_nodes partitions g.nodes
