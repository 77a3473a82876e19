-- ===== src/Split/Layers.antt =====
-- core/split_layer.py: one layer of a slice computes what its node computes in the whole graph.
use mathlib.Core.Option.{none, some, Option}
use mathlib.Core.Bool.{false≢true}
use mathlib.Core.Option
use torch_slicer.Common.{
  ℕ, if◌then◌else◌, map, ◌++◌, suc, List, [], ◌∷◌, refl, ◌<◌, ◌≤◌, count_up, ◌+◌, length, All, ◌≡◌,
  get_elem?, arith, ◌-◌, dec_le, ◌∙◌, ap, get_elem?-some, sym, false, Bool-cases, inl, inr, true,
  zip-All, dec_lt, ap₂, ltb,
}
use torch_slicer.Graph.{LayerNode, Torch, InputLaws, gather, run_node}
use torch_slicer.Strategy.Base.{local_of, locals, local_preds}
use torch_slicer.Strategy.Tiles.{IsBoundary}
use torch_slicer.Split.Entries.{
  IsEntry, locals_inside, locals_outside, right_of, left_of, fetch_lem, local_of_inside,
  local_of_outside,
}
use torch_slicer.Split.{call_aux, run_layer}

module _ {M T A : Type 0} (torch : Torch M T A) where
  run_layer-one :
      (x_in : T) (aux : Option A) (locs : List T) (layer : M) (l : ℕ) {v : T}
      → get_elem? locs l ≡ some v
      → run_layer torch x_in aux locs layer (some l ∷ []) ≡ some (torch.call layer (v ∷ []) none)
  unfolding run_layer
  run_layer-one x_in aux locs layer l h = rw (h, run_layer) refl

  run_node-one :
      (x : T) (aux : Option A) (outputs : List T) (node : LayerNode M) (q : ℕ) {v : T}
      → node.predecessors ≡ q ∷ []
      → get_elem? outputs q ≡ some v
      → run_node torch x aux outputs node ≡ some (torch.call node.layer (v ∷ []) none)
  unfolding run_node gather
  run_node-one x aux outputs node q e h = rw (e, run_node) (rw (h, gather) refl)

  call_aux-none : (layer : M) (x : T) → call_aux torch layer x none ≡ torch.call layer (x ∷ []) none
  unfolding call_aux
  call_aux-none layer x = ground arith

  call_aux-plain :
      (layer : M) (x : T) (aux : Option A)
      → torch.accepts_aux layer ≡ false
      → call_aux torch layer x aux ≡ torch.call layer (x ∷ []) none
  unfolding call_aux
  call_aux-plain layer x aux h = rw h refl

  pub run_node-nil :
      (x : T) (aux : Option A) (outputs : List T) (node : LayerNode M)
      → node.predecessors ≡ []
      → run_node torch x aux outputs node ≡ some (call_aux torch node.layer x aux)
  unfolding run_node call_aux
  run_node-nil x aux outputs node h = rw h refl

  pub run_node-cons :
      (x : T) (aux : Option A) (outputs : List T) (node : LayerNode M) (q : ℕ) (qs : List ℕ)
      → node.predecessors ≡ q ∷ qs
      → run_node torch x aux outputs node
        ≡ Option.map (λ vs. torch.call node.layer vs none) (gather outputs (q ∷ qs))
  unfolding run_node
  run_node-cons x aux outputs node q qs h = rw h (ground arith)

  module _ {x x_in : T} {aux slice_aux : Option A} {a : ℕ} {outs : List T}
      (entry : IsEntry x x_in aux slice_aux a outs) (locs : List T) (n : ℕ)
      (nodes : List (LayerNode M)) (boundary : IsBoundary nodes a) (laws : InputLaws torch nodes)
      (j : ℕ) (node : LayerNode M) (at : get_elem? nodes j ≡ some node) (low : a ≤ j) where
    step_nil :
        node.predecessors ≡ []
        → run_layer torch x_in slice_aux locs node.layer []
          ≡ run_node torch x aux (outs ++ locs) node
    unfolding run_layer
    step_nil e = elim (Bool-cases node.takes_input) [
      | inl reads ↦
          let (same_x, same_aux) = entry.first (at_start reads) in
          ap₂ (λ u v. some (call_aux torch node.layer u v)) same_x same_aux
          ∙ sym (run_node-nil x aux (outs ++ locs) node e)
      | inr silent ↦
          let plain = laws.plain j node at silent e in
          ap some (
            call_aux-plain node.layer x_in slice_aux plain
            ∙ laws.constant j node x_in x at silent e
            ∙ sym (call_aux-plain node.layer x aux plain))
          ∙ sym (run_node-nil x aux (outs ++ locs) node e)
    ]
      where
        at_start : node.takes_input ≡ true → a ≡ 0
        at_start reads = elim (dec_lt 0 a) [
          | yes pos ↦ absurd (false≢true (sym (boundary.no_input j node low pos at) ∙ reads))
          | no zero_a ↦ omega arith
        ]

    step_one :
        (q : ℕ)
        → node.predecessors ≡ q ∷ []
        → (a ≤ suc q) × (q < a + length locs)
        → length locs ≤ n
        → run_layer torch x_in slice_aux locs node.layer (locals (count_up a n) (q ∷ []))
          ≡ run_node torch x aux (outs ++ locs) node
    unfolding run_layer
    step_one q e h fits = elim (dec_le a q) [
      | yes inside ↦
          let (v, found) = get_elem?-some locs (q - a) (omega arith) in
          rw (locals_inside (count_up a n) q (q - a) (local_of_inside a n q inside (omega arith))) (
            run_layer-one x_in slice_aux locs node.layer (q - a) found
            ∙ sym (
                run_node-one x aux (outs ++ locs) node q e
                  (right_of entry locs n q inside ∙ found)))
      | no cut ↦ rw (locals_outside (count_up a n) q (local_of_outside a n q (omega arith))) (
          ap (λ u. some (call_aux torch node.layer x_in u)) (entry.later (omega arith))
          ∙ ap some (call_aux-none node.layer x_in)
          ∙ sym (
              run_node-one x aux (outs ++ locs) node q e
                (left_of entry locs n q (omega arith) ∙ entry.cut q (omega arith))))
    ]

    step_many :
        (q r : ℕ) (qs : List ℕ)
        → node.predecessors ≡ q ∷ r ∷ qs
        → All (λ k. (a ≤ suc k) × (k < a + length locs)) (q ∷ r ∷ qs)
        → length locs ≤ n
        → run_layer torch x_in slice_aux locs node.layer
            (map (local_of (count_up a n)) (q ∷ r ∷ qs))
          ≡ run_node torch x aux (outs ++ locs) node
    unfolding run_layer
    step_many q r qs e h fits =
        ap (Option.map (λ vs. torch.call node.layer vs none))
          (fetch_lem entry locs n (q ∷ r ∷ qs) h fits)
        ∙ sym (run_node-cons x aux (outs ++ locs) node q (r ∷ qs) e)

    step_for :
        (qs : List ℕ)
        → node.predecessors ≡ qs
        → All (λ k. (a ≤ suc k) × (k < a + length locs)) qs
        → length locs ≤ n
        → run_layer torch x_in slice_aux locs node.layer (
            if ltb 1 (length qs)
            then map (local_of (count_up a n)) qs
            else locals (count_up a n) qs)
          ≡ run_node torch x aux (outs ++ locs) node
    unfolding locals
    step_for [] e h fits = step_nil e
    step_for (q ∷ []) e h fits = step_one q e h.0 fits
    step_for (q ∷ r ∷ qs) e h fits = rw (two qs) (step_many q r qs e h fits)
      where
        two : (ks : List ℕ) → ltb 1 (suc (suc (length ks))) ≡ true
        two ks = ground arith

    -- Layer `j` of the slice computes what node `j` computes in the graph.
    pub run_layer_lem :
        All (λ k. k < a + length locs) node.predecessors
        → length locs ≤ n
        → run_layer torch x_in slice_aux locs node.layer (local_preds nodes (count_up a n) j)
          ≡ run_node torch x aux (outs ++ locs) node
    unfolding local_preds
    run_layer_lem earlier fits =
        rw (at, local_preds)
          (step_for node.predecessors refl
            (zip-All (λ k. a ≤ suc k) (λ k. k < a + length locs) node.predecessors
              (boundary.reads j node low at) earlier)
            fits)
