-- ===== src/Split.antt =====
-- core/split_layer.py: SplitLayer, which runs one partition's layers, and the executors' pass
-- through the slices.
use mathlib.Core.Option
pub mod Entries
pub mod Layers
pub mod Slices
pub mod Paths
pub mod Refinement
mod Examples
use torch_slicer.Common.{
  ℕ, zero, suc, Bool, true, false, Option, none, some, List, [], ◌∷◌, ◌++◌, map, get_elem?, is_nil,
  all, if◌then◌else◌, last?, ◌-◌,
}
use torch_slicer.Graph.{LayerNode, ModelGraph, Torch}
use torch_slicer.Strategy.Base.{Partition}

-- `predecessors` is None for a purely sequential slice. The gradient of the cut-point input, the
-- copy that in-place layers get and autocast do not change what is computed, and are left out.
pub record SplitLayer (M : Type 0) : Type 0 where
  pub layers : List M
  pub predecessors : Option (List (List (Option ℕ)))

-- preds is None or all(len(p) == 0 for p in preds)
unfoldable pub is_sequential : Option (List (List (Option ℕ))) → Bool
is_sequential none = true
is_sequential (some preds) = all is_nil preds

-- [outputs[p] if p >= 0 else x_in for p in local_preds]; `none` is a KeyError.
unfoldable pub fetch : {T : Type 0} → T → List T → List (Option ℕ) → Option (List T)
fetch x_in outputs [] = some []
fetch x_in outputs (none ∷ ps) = Option.map (λ vs. x_in ∷ vs) (fetch x_in outputs ps)
fetch x_in outputs (some p ∷ ps) = elim (get_elem? outputs p) [
  | none ↦ none
  | some v ↦ Option.map (λ vs. v ∷ vs) (fetch x_in outputs ps)
]

-- What a user's hook of a cut does to an activation: what it sends, a payload, and what the next slice
-- makes of it. Both get the cut and the batch, from the context; the hook keeps no state.
pub record CutHook (T P : Type 0) : Type 0 where
  pub encode : ℕ → ℕ → T → P
  pub decode : ℕ → ℕ → P → T

-- _cut_forward, which also counts the bytes and shows the tensor to the attacks
unfoldable pub cut_forward : {T P : Type 0} → (ℕ → Option (CutHook T P)) → ℕ → T → ℕ → T
cut_forward hooks cut x batch_id = elim (hooks cut) [
  | none ↦ x
  | some hook ↦ hook.decode cut batch_id (hook.encode cut batch_id x)
]

module _ {M T A : Type 0} (torch : Torch M T A) where
  -- The layer's call with the extra tensors, if it takes them.
  unfoldable pub call_aux : M → T → Option A → T
  call_aux layer x aux =
      if torch.accepts_aux layer
      then torch.call layer (x ∷ []) aux
      else torch.call layer (x ∷ []) none

  -- The sequential fast path after the first layer.
  unfoldable pub run_plain : T → List M → T
  run_plain current [] = current
  run_plain current (layer ∷ rest) = run_plain (torch.call layer (current ∷ []) none) rest

  -- The fast path: the extra tensors go to the first layer only.
  unfoldable pub run_sequential : T → Option A → List M → T
  unfolding call_aux run_plain
  run_sequential x_in aux [] = x_in
  run_sequential x_in aux (layer ∷ rest) = run_plain (call_aux layer x_in aux) rest

  -- One round of the loop over the layers of a DAG, given the outputs of the layers before.
  unfoldable pub run_layer : T → Option A → List T → M → List (Option ℕ) → Option T
  unfolding call_aux fetch
  run_layer x_in aux outputs layer [] = some (call_aux layer x_in aux)
  run_layer x_in aux outputs layer (p ∷ []) = elim p [
    | none ↦ none
    | some l ↦ Option.map (λ v. torch.call layer (v ∷ []) none) (get_elem? outputs l)
  ]
  run_layer x_in aux outputs layer (p ∷ q ∷ ps) =
      Option.map (λ vs. torch.call layer vs none) (fetch x_in outputs (p ∷ q ∷ ps))

  unfoldable pub run_dag : T → Option A → List T → List M → List (List (Option ℕ)) → Option (List T)
  unfolding run_layer
  run_dag x_in aux outputs [] preds = some outputs
  run_dag x_in aux outputs (layer ∷ rest) [] = none
  run_dag x_in aux outputs (layer ∷ rest) (p ∷ preds) = elim (run_layer x_in aux outputs layer p) [
    | none ↦ none
    | some out ↦ run_dag x_in aux (outputs ++ out ∷ []) rest preds
  ]

  -- `run`; `none` stands for its exceptions.
  unfoldable pub run : SplitLayer M → T → Option A → Option T
  unfolding is_sequential run_sequential run_dag
  run sl x_in aux =
      if is_sequential sl.predecessors
      then some (run_sequential x_in aux sl.layers)
      else elim sl.predecessors [
        | none ↦ none
        | some preds ↦ elim (run_dag x_in aux [] sl.layers preds) [
          | none ↦ none
          | some outputs ↦ last? outputs
        ]
      ]

  -- The executors' forward pass of a batch from slice i on, with i ≥ 1: `x` crosses the cut i - 1 first.
  unfoldable pub run_rest :
      {P : Type 0} → (ℕ → Option (CutHook T P)) → ℕ → ℕ → T → List (SplitLayer M) → Option T
  unfolding run cut_forward
  run_rest hooks batch_id i x [] = some x
  run_rest hooks batch_id i x (sl ∷ rest) =
      elim (run sl (cut_forward hooks (i - 1) x batch_id) none) [
        | none ↦ none
        | some out ↦ run_rest hooks batch_id (suc i) out rest
      ]

  -- for i, sl in enumerate(split_layers), with the extra tensors for slice 0
  unfoldable pub run_slices :
      {P : Type 0} → (ℕ → Option (CutHook T P)) → ℕ → T → Option A → List (SplitLayer M) → Option T
  unfolding run_rest
  run_slices hooks batch_id x aux [] = some x
  run_slices hooks batch_id x aux (sl ∷ rest) = elim (run sl x aux) [
    | none ↦ none
    | some out ↦ run_rest hooks batch_id 1 out rest
  ]

module _ {M : Type 0} where
  -- [layers[i] for i in partition.layer_indices]; `none` is an IndexError.
  unfoldable pub pick_layers : List (LayerNode M) → List ℕ → Option (List M)
  pick_layers nodes [] = some []
  pick_layers nodes (i ∷ is) = elim (get_elem? nodes i) [
    | none ↦ none
    | some node ↦ Option.map (λ ls. node.layer ∷ ls) (pick_layers nodes is)
  ]

  -- The slice of one partition, and of all.
  unfoldable pub build_slice : List (LayerNode M) → Partition → Option (SplitLayer M)
  unfolding pick_layers
  build_slice nodes p =
      Option.map
        (λ layers. record {
          layers = layers;
          predecessors = if is_nil p.predecessors then none else some p.predecessors;
        })
        (pick_layers nodes p.layer_indices)

  unfoldable pub build_slices : List (LayerNode M) → List Partition → Option (List (SplitLayer M))
  unfolding build_slice
  build_slices nodes [] = some []
  build_slices nodes (p ∷ ps) = elim (build_slice nodes p) [
    | none ↦ none
    | some sl ↦ Option.map (λ rest. sl ∷ rest) (build_slices nodes ps)
  ]

-- One forward pass of the model cut into the given partitions, on one batch.
unfoldable pub forward :
    {M T A P : Type 0}
    → Torch M T A
    → (ℕ → Option (CutHook T P))
    → ModelGraph M
    → List Partition
    → ℕ
    → T
    → Option A
    → Option T
unfolding run_slices build_slices
forward torch hooks g ps batch_id x aux = elim (build_slices g.nodes ps) [
  | none ↦ none
  | some slices ↦ run_slices torch hooks batch_id x aux slices
]
