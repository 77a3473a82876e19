-- ===== src/Split/Slices.antt =====
-- core/split_layer.py: a slice computes what its nodes compute in the whole graph.
use mathlib.Core.Option.{Option, some, some-injective}
use mathlib.Core.List.{append_assoc}
use mathlib.Core.Option
use torch_slicer.Common.{
  ℕ, some, none, map, ◌++◌, inl, inr, zero, suc, List, [], ◌∷◌, refl, ◌<◌, length, ◌≡◌, get_elem?,
  elem, ◌+◌, true, Option-cases, ◌∙◌, sym, All, ◌≤◌, get_elem?-some, ap, count_up, arith, ap₂,
  length-append, map-All,
}
use torch_slicer.Graph.{LayerNode, Torch, InputLaws, IsOrdered, gather, run_node, run_from}
use torch_slicer.Strategy.Base.{local_preds}
use torch_slicer.Strategy.Tiles.{IsBoundary}
use torch_slicer.Split.{run_layer, run_dag, pick_layers}
use torch_slicer.Split.Entries.{IsEntry, gather_at}
use torch_slicer.Split.Layers.{run_node-nil, run_node-cons, run_layer_lem}

-- The nodes that the rest of the graph does not make superfluous: each node but the last is read by
-- another one.
abbrev pub IsLive : {M : Type 0} → List (LayerNode M) → Type 0
IsLive {M} nodes =
    (i : ℕ)
    → suc i < length nodes
    → (j : ℕ) × (node : LayerNode M) × (get_elem? nodes j ≡ some node)
      × (elem i node.predecessors ≡ true)

gather_total :
    {T : Type 0} (outputs : List T) (qs : List ℕ)
    → All (λ q. q < length outputs) qs
    → (vs : List T) × (gather outputs qs ≡ some vs)
unfolding gather
gather_total outputs [] h = ([], refl)
gather_total outputs (q ∷ qs) h =
    let (v, at) = get_elem?-some outputs q h.0 in
    let (vs, rest) = gather_total outputs qs h.1 in
    (v ∷ vs, gather_at outputs q at qs ∙ ap (Option.map (λ us. v ∷ us)) rest)

module _ {M T A : Type 0} (torch : Torch M T A) (x : T) (aux : Option A) where
  -- The nodes `i`, `i + 1`, ..., `m` of them, run in the whole graph after `outputs`.
  unfoldable pub run_range : List (LayerNode M) → List T → ℕ → ℕ → Option (List T)
  run_range nodes outputs i zero = some outputs
  run_range nodes outputs i (suc m) = elim (get_elem? nodes i) [
    | none ↦ none
    | some node ↦ elim (run_node torch x aux outputs node) [
      | none ↦ none
      | some out ↦ run_range nodes (outputs ++ out ∷ []) (suc i) m
    ]
  ]

  pub run_range-step :
      (nodes : List (LayerNode M)) (outputs : List T) (i m : ℕ) {node : LayerNode M} {out : T}
      → get_elem? nodes i ≡ some node
      → run_node torch x aux outputs node ≡ some out
      → run_range nodes outputs i (suc m) ≡ run_range nodes (outputs ++ out ∷ []) (suc i) m
  unfolding run_range
  run_range-step nodes outputs i m at run = rw (at, run_range) (rw (run, run_range) refl)

  run_range-missing :
      (nodes : List (LayerNode M)) (outputs : List T) (i m : ℕ)
      → get_elem? nodes i ≡ none
      → run_range nodes outputs i (suc m) ≡ none
  unfolding run_range
  run_range-missing nodes outputs i m at = rw (at, run_range) refl

  run_range-failed :
      (nodes : List (LayerNode M)) (outputs : List T) (i m : ℕ) {node : LayerNode M}
      → get_elem? nodes i ≡ some node
      → run_node torch x aux outputs node ≡ none
      → run_range nodes outputs i (suc m) ≡ none
  unfolding run_range
  run_range-failed nodes outputs i m at run = rw (at, run_range) (rw (run, run_range) refl)

  run_range-shift :
      (node : LayerNode M) (nodes : List (LayerNode M)) (outputs : List T) (i m : ℕ)
      → run_range (node ∷ nodes) outputs (suc i) m ≡ run_range nodes outputs i m
  run_range-shift node nodes outputs i zero = unfold run_range in refl
  run_range-shift node nodes outputs i (suc m) = elim (Option-cases (get_elem? nodes i)) [
    | inl at ↦
        run_range-missing (node ∷ nodes) outputs (suc i) m at
        ∙ sym (run_range-missing nodes outputs i m at)
    | inr (found, at) ↦ elim (Option-cases (run_node torch x aux outputs found)) [
      | inl run ↦
          run_range-failed (node ∷ nodes) outputs (suc i) m at run
          ∙ sym (run_range-failed nodes outputs i m at run)
      | inr (out, run) ↦
          run_range-step (node ∷ nodes) outputs (suc i) m at run
          ∙ run_range-shift node nodes (outputs ++ out ∷ []) (suc i) m
          ∙ sym (run_range-step nodes outputs i m at run)
    ]
  ]

  run_from-step :
      (node : LayerNode M) (nodes : List (LayerNode M)) (outputs : List T) {out : T}
      → run_node torch x aux outputs node ≡ some out
      → run_from torch x aux outputs (node ∷ nodes)
        ≡ run_from torch x aux (outputs ++ out ∷ []) nodes
  unfolding run_from
  run_from-step node nodes outputs run = rw (run, run_from) refl

  run_from-failed :
      (node : LayerNode M) (nodes : List (LayerNode M)) (outputs : List T)
      → run_node torch x aux outputs node ≡ none
      → run_from torch x aux outputs (node ∷ nodes) ≡ none
  unfolding run_from
  run_from-failed node nodes outputs run = rw (run, run_from) refl

  pub run_from_lem :
      (nodes : List (LayerNode M)) (outputs : List T)
      → run_from torch x aux outputs nodes ≡ run_range nodes outputs 0 (length nodes)
  run_from_lem [] outputs = unfold run_from run_range in refl
  run_from_lem (node ∷ nodes) outputs = elim (Option-cases (run_node torch x aux outputs node)) [
    | inl run ↦
        run_from-failed node nodes outputs run
        ∙ sym (run_range-failed (node ∷ nodes) outputs 0 (length nodes) refl run)
    | inr (out, run) ↦
        run_from-step node nodes outputs run
        ∙ run_from_lem nodes (outputs ++ out ∷ [])
        ∙ sym (run_range-shift node nodes (outputs ++ out ∷ []) 0 (length nodes))
        ∙ sym (run_range-step (node ∷ nodes) outputs 0 (length nodes) refl run)
  ]

  pub run_node_total :
      (outputs : List T) (node : LayerNode M)
      → All (λ q. q < length outputs) node.predecessors
      → (out : T) × (run_node torch x aux outputs node ≡ some out)
  run_node_total outputs node h = go node.predecessors refl h
    where
      go :
          (qs : List ℕ)
          → node.predecessors ≡ qs
          → All (λ q. q < length outputs) qs
          → (out : T) × (run_node torch x aux outputs node ≡ some out)
      go [] e k = (_, run_node-nil torch x aux outputs node e)
      go (q ∷ qs) e k =
          let (vs, found) = gather_total outputs (q ∷ qs) k in
          (
            torch.call node.layer vs none,
            run_node-cons torch x aux outputs node q qs e
                ∙ ap (Option.map (λ us. torch.call node.layer us none)) found,
          )

  module _ {x_in : T} {slice_aux : Option A} {a : ℕ} {outs : List T}
      (entry : IsEntry x x_in aux slice_aux a outs) (n : ℕ) (nodes : List (LayerNode M))
      (fits : a + n ≤ length nodes) (ordered : IsOrdered nodes) (boundary : IsBoundary nodes a)
      (laws : InputLaws torch nodes) where
    -- The layers of the slice from node `i` on, with the outputs `locs` of those before.
    pub record IsRun (i m : ℕ) (locs : List T) : Type 0 where
      pub new : List T
      pub layers : List M
      pub count : length layers ≡ m
      pub picked : pick_layers nodes (count_up i m) ≡ some layers
      pub ran :
          run_dag torch x_in slice_aux locs layers
            (map (local_preds nodes (count_up a n)) (count_up i m))
          ≡ some new
      pub size : length new ≡ n
      pub same :
          (k : ℕ)
          → run_range nodes (outs ++ locs) i (m + k) ≡ run_range nodes (outs ++ new) (a + n) k

    -- One more layer in front.
    run_layer_then :
        (m i : ℕ) (locs : List T) (node : LayerNode M) (out : T)
        → get_elem? nodes i ≡ some node
        → run_layer torch x_in slice_aux locs node.layer (local_preds nodes (count_up a n) i)
          ≡ some out
        → run_node torch x aux (outs ++ locs) node ≡ some out
        → IsRun (suc i) m (locs ++ out ∷ [])
        → IsRun i (suc m) locs
    unfolding run_dag pick_layers
    run_layer_then m i locs node out at layer_out node_out rest = record {
      new = rest.new;
      layers = node.layer ∷ rest.layers;
      count = ap suc rest.count;
      picked = rw (at, pick_layers) (rw rest.picked refl);
      ran = rw (layer_out, run_dag) rest.ran;
      size = rest.size;
      same = λ k.
          let regroup : suc m + k ≡ suc (m + k) = omega arith in
          ap (run_range nodes (outs ++ locs) i) regroup
          ∙ run_range-step nodes (outs ++ locs) i (m + k) at node_out
          ∙ ap (λ os. run_range nodes os (suc i) (m + k)) (append_assoc outs locs (out ∷ []))
          ∙ rest.same k;
    }

    pub IsRun-slice :
        (m i : ℕ) (locs : List T) → i ≡ a + length locs → length locs + m ≡ n → IsRun i m locs
    unfolding run_dag pick_layers
    IsRun-slice zero i locs at size = record {
      new = locs;
      layers = [];
      count = refl;
      picked = refl;
      ran = refl;
      size = omega arith;
      same = λ k. ap₂ (run_range nodes (outs ++ locs)) (omega arith) (omega arith);
    }
    IsRun-slice (suc m) i locs at size =
        let (node, here) = get_elem?-some nodes i (omega arith) in
        let earlier = ordered.earlier i node here in
        let known = map-All (λ q (lt : q < i). in_outputs q lt) node.predecessors earlier in
        let (out, ran) = run_node_total (outs ++ locs) node known in
        run_layer_then m i locs node out here
          (run_layer_lem torch entry locs n nodes boundary laws i node here (omega arith)
              (map-All (λ q (lt : q < i). in_slice q lt) node.predecessors earlier) (omega arith)
            ∙ ran)
          ran
          (IsRun-slice m (suc i) (locs ++ out ∷ []) (omega (arith, length-append locs (out ∷ [])))
            (omega (arith, length-append locs (out ∷ []))))
      where
        in_outputs : (q : ℕ) → q < i → q < length (outs ++ locs)
        in_outputs q lt = let s = entry.size in omega (arith, length-append outs locs)

        in_slice : (q : ℕ) → q < i → q < a + length locs
        in_slice q lt = omega arith
