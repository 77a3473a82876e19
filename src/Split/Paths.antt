-- ===== src/Split/Paths.antt =====
-- core/split_layer.py: the fast path and the DAG loop of SplitLayer.run both compute what the
-- slice's nodes compute in the whole graph.
use mathlib.Core.Bool.{false≢true}
use mathlib.Core.Option.{Option}
use torch_slicer.Common.{
  ℕ, if◌then◌else◌, suc, some, inl, inr, map, List, [], ◌∷◌, refl, ◌≡◌, length, get_elem?, ◌<◌,
  is_nil, elem, true, count_up, last?, false, ltb, ap, ◌+◌, ==_iff, sym, ◌≤◌, arith, all, ◌-◌,
  dec_lt, lt_of_get_elem?, elem-All, dec_le, ◌∙◌, all-elem, all-map, elem-count_up, Bool-cases,
  and-eq-true,
}
use torch_slicer.Graph.{LayerNode, ModelGraph, Torch, InputLaws, IsOrdered}
use torch_slicer.Strategy.Base.{Partition, local_of, locals, local_preds, intra_predecessors}
use torch_slicer.Strategy.Tiles.{IsBoundary}
use torch_slicer.Split.{
  SplitLayer, call_aux, run_sequential, run_layer, run_dag, run, pick_layers, build_slice,
}
use torch_slicer.Split.Entries.{IsEntry, local_of_inside, locals_inside}
use torch_slicer.Split.Slices.{IsLive, IsRun}

-- A layer that reads node `a`, which is in the slice, has a local predecessor.
reads_first :
    {M : Type 0} (nodes : List (LayerNode M)) (a n j : ℕ) (node : LayerNode M)
    → get_elem? nodes j ≡ some node
    → 0 < n
    → elem a node.predecessors ≡ true
    → is_nil (local_preds nodes (count_up a n) j) ≡ false
unfolding local_preds
reads_first nodes a n j node at some_n mem = rw (at, local_preds) (go node.predecessors mem)
  where
    go :
        (qs : List ℕ)
        → elem a qs ≡ true
        → is_nil (
            if ltb 1 (length qs)
            then map (local_of (count_up a n)) qs
            else locals (count_up a n) qs)
          ≡ false
    go [] e = absurd (cc)
    go (q ∷ []) e =
        let same : a ≡ q = (==_iff a q).0 (ground arith) in
        rw
          (locals_inside (count_up a n) q (q - a)
            (local_of_inside a n q (omega arith) (omega arith)))
          refl
    go (q ∷ r ∷ qs) e = ground arith

some_eq' {ℓ} : {A : Type ℓ} {u v : A} → some u ≡ some v → u ≡ v
some_eq' h = cc

module _ {M T A : Type 0} (torch : Torch M T A) (x_in : T) (aux : Option A) where
  -- On one layer the fast path and the DAG loop agree.
  one_layer :
      (layers : List M) (p : List (Option ℕ)) (ps : List (List (Option ℕ))) (new : List T)
      → length layers ≡ 1
      → is_nil p ≡ true
      → run_dag torch x_in aux [] layers (p ∷ ps) ≡ some new
      → some (run_sequential torch x_in aux layers) ≡ last? new
  unfolding run_dag run_layer run_sequential
  one_layer (layer ∷ []) [] ps new one e ran =
      let only : call_aux torch layer x_in aux ∷ [] ≡ new = some_eq' ran in ap last? only
  one_layer (layer ∷ []) (q ∷ p) ps new one e ran = absurd (cc)
  one_layer [] p ps new one e ran = absurd (omega arith)
  one_layer (layer ∷ other ∷ layers) p ps new one e ran = absurd (omega arith)

  run-dag :
      (layers : List M) (preds : List (List (Option ℕ))) (new : List T)
      → all is_nil preds ≡ false
      → run_dag torch x_in aux [] layers preds ≡ some new
      → run torch (record { layers = layers; predecessors = some preds }) x_in aux ≡ last? new
  unfolding run
  run-dag layers preds new not_seq ran = rw (not_seq, ran) refl

  run-sequential :
      (layers : List M) (preds : List (List (Option ℕ)))
      → all is_nil preds ≡ true
      → run torch (record { layers = layers; predecessors = some preds }) x_in aux
        ≡ some (run_sequential torch x_in aux layers)
  unfolding run
  run-sequential layers preds seq = rw seq refl

build_slice-some :
    {M : Type 0} (nodes : List (LayerNode M)) (p : Partition) (layers : List M)
    → is_nil p.predecessors ≡ false
    → pick_layers nodes p.layer_indices ≡ some layers
    → build_slice nodes p ≡ some (record { layers = layers; predecessors = some p.predecessors })
unfolding build_slice
build_slice-some nodes p layers filled picked = rw (picked, filled) refl

module _ {M T A : Type 0} (torch : Torch M T A) (x : T) (aux : Option A) (g : ModelGraph M)
    (ordered : IsOrdered g.nodes) (live : IsLive g.nodes) (laws : InputLaws torch g.nodes) where
  module _ {x_in : T} {slice_aux : Option A} {a : ℕ} {outs : List T} (len : ℕ)
      (entry : IsEntry x x_in aux slice_aux a outs) (fits : a + suc len ≤ length g.nodes)
      (boundary : IsBoundary g.nodes a)
      (next : suc (a + len) < length g.nodes → IsBoundary g.nodes (suc (a + len))) where
    -- The fast path is taken by slices of one layer only.
    sequential-single :
        all is_nil (map (local_preds g.nodes (count_up a (suc len))) (count_up a (suc len))) ≡ true
        → len ≡ 0
    sequential-single seq = elim (dec_lt 0 len) [
      | no none_left ↦ omega arith
      | yes more ↦
          let (j, node, at, mem) = live a (omega arith) in
          let high = lt_of_get_elem? g.nodes j at in
          let after = elem-All (λ q. q < j) node.predecessors a (ordered.earlier j node at) mem in
          elim (dec_le j (a + len)) [
            | yes inside ↦ absurd (
                false≢true (
                  sym (reads_first g.nodes a (suc len) j node at (omega arith) mem)
                  ∙ all-elem (λ i. is_nil (local_preds g.nodes run i)) run j
                      (sym (all-map is_nil (local_preds g.nodes run) run) ∙ seq)
                      ((elem-count_up j a (suc len)).1 (omega arith))))
            | no beyond ↦ absurd (
                let stop =
                  elem-All (λ q. suc (a + len) ≤ suc q) node.predecessors a
                    ((next (omega arith)).reads j node (omega arith) at) mem in
                omega arith)
          ]
    ]
      where
        run : List ℕ
        run = count_up a (suc len)

    module _ (p : Partition) (at_run : p.layer_indices ≡ count_up a (suc len))
        (built : p.predecessors ≡ intra_predecessors g p.layer_indices) where
      preds_lem :
          p.predecessors ≡ map (local_preds g.nodes (count_up a (suc len))) (count_up a (suc len))
      unfolding intra_predecessors
      preds_lem = built ∙ ap (intra_predecessors g) at_run ∙ go g.nodes (omega arith)
        where
          go :
              (nodes : List (LayerNode M))
              → 0 < length nodes
              → (if is_nil nodes
                  then map (λ _. []) (count_up a (suc len))
                  else map (local_preds g.nodes (count_up a (suc len))) (count_up a (suc len)))
                ≡ map (local_preds g.nodes (count_up a (suc len))) (count_up a (suc len))
          go [] h = absurd (omega arith)
          go (node ∷ nodes) h = refl

      module _
          (ran : IsRun torch x aux entry
            (suc len)
            g.nodes
            fits
            ordered
            boundary
            laws
            a
            (suc len)
            []) where
        abbrev pub slice : SplitLayer M
        slice = record { layers = ran.layers; predecessors = some p.predecessors }

        pub build_slice_lem : build_slice g.nodes p ≡ some slice
        build_slice_lem =
            build_slice-some g.nodes p ran.layers (rw preds_lem refl)
              (ap (pick_layers g.nodes) at_run ∙ ran.picked)

        ran_preds : run_dag torch x_in slice_aux [] ran.layers p.predecessors ≡ some ran.new
        ran_preds = ap (run_dag torch x_in slice_aux [] ran.layers) preds_lem ∙ ran.ran

        -- The slice computes the outputs of its nodes; the last of them leaves it.
        pub run_lem : run torch slice x_in slice_aux ≡ last? ran.new
        run_lem = elim (Bool-cases (all is_nil p.predecessors)) [
          | inr dag ↦ run-dag torch x_in slice_aux ran.layers p.predecessors ran.new dag ran_preds
          | inl seq ↦
              let seq' = sym (ap (all is_nil) preds_lem) ∙ seq in
              let single = sequential-single seq' in
              run-sequential torch x_in slice_aux ran.layers p.predecessors seq
              ∙ one_layer torch x_in slice_aux ran.layers _ _ ran.new (ran.count ∙ ap suc single)
                  (and-eq-true _ _ seq').0 ran.ran
        ]
