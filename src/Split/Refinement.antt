-- ===== src/Split/Refinement.antt =====
-- core/split_layer.py and executors/local.py: a model cut into accepted partitions computes what
-- the model computes.
use mathlib.Core.Option.{Option}
use mathlib.Core.List.{append-nil}
use torch_slicer.Common.{
  ℕ, suc, ◌++◌, some, none, List, [], ◌∷◌, refl, ◌≡◌, length, ◌-◌, ◌+◌, last?, ◌≤◌, arith,
  get_elem?-some, ap₂, length-append, last?-get_elem?, sym, get_elem?-append_right, ◌∙◌, ap, All,
  ◌<◌, ok, Option-cases, inl, inr,
}
use torch_slicer.Graph.{LayerNode, ModelGraph, Torch, InputLaws, IsOrdered, run_nodes}
use torch_slicer.Strategy.Base.{Partition, intra_predecessors, validate}
use torch_slicer.Strategy.Tiles.{IsTiling, IsSealed, IsBoundary, IsBoundary-at}
use torch_slicer.Strategy.Boundaries.{validate_iff}
use torch_slicer.Split.{
  CutHook, cut_forward, SplitLayer, run, run_rest, run_slices, build_slice, build_slices, forward,
}
use torch_slicer.Split.Entries.{IsEntry}
use torch_slicer.Split.Slices.{IsLive, IsRun, run_range, run_from_lem, IsRun-slice}
use torch_slicer.Split.Paths.{slice, build_slice_lem, run_lem}

-- The partitions carry the predecessors that the graph gives.
abbrev pub IsBuilt : {M : Type 0} → ModelGraph M → Partition → Type 0
IsBuilt g p = p.predecessors ≡ intra_predecessors g p.layer_indices

tiling-le : (a n : ℕ) (ps : List Partition) → IsTiling a n ps → a ≤ n
tiling-le a n [] t = omega arith
tiling-le a n (p ∷ ps) (len, e, t) = let low = tiling-le (suc (a + len)) n ps t in omega arith

module _ {M : Type 0} (nodes : List (LayerNode M)) where
  build_slices-cons :
      (p : Partition) (ps : List Partition) {sl : SplitLayer M} {slices : List (SplitLayer M)}
      → build_slice nodes p ≡ some sl
      → build_slices nodes ps ≡ some slices
      → build_slices nodes (p ∷ ps) ≡ some (sl ∷ slices)
  unfolding build_slices
  build_slices-cons p ps e h = rw (e, build_slices) (rw h refl)

-- The pass through the slices returns a value, and so does the run of the whole graph, of which
-- that is the last output.
pub record IsSame {M T A P : Type 0} (torch : Torch M T A) (hooks : ℕ → Option (CutHook T P))
    (batch_id : ℕ) (x : T) (aux : Option A) (g : ModelGraph M) (ps : List Partition) : Type 0 where
  pub outputs : List T
  pub out : T
  pub whole : run_nodes torch x aux g ≡ some outputs
  pub last : last? outputs ≡ some out
  pub sliced : forward torch hooks g ps batch_id x aux ≡ some out

-- Hooks after which every tensor arrives as it was sent; no hooks at all are such.
abbrev pub IsLossless : {T P : Type 0} → (ℕ → Option (CutHook T P)) → Type 0
IsLossless {T} {P} hooks =
    (cut : ℕ) (hook : CutHook T P)
    → hooks cut ≡ some hook
    → (batch_id : ℕ) (x : T) → hook.decode cut batch_id (hook.encode cut batch_id x) ≡ x

cut_forward_lem :
    {T P : Type 0} (hooks : ℕ → Option (CutHook T P))
    → IsLossless hooks
    → (cut : ℕ) (x : T) (batch_id : ℕ) → cut_forward hooks cut x batch_id ≡ x
unfolding cut_forward
cut_forward_lem hooks lossless cut x batch_id = elim (Option-cases (hooks cut)) [
  | inl e ↦ rw (e, cut_forward) refl
  | inr (hook, e) ↦ rw (e, cut_forward) (lossless cut hook e batch_id x)
]

module _ {M T A P : Type 0} (torch : Torch M T A) (hooks : ℕ → Option (CutHook T P)) (batch_id : ℕ)
    (x : T) (aux : Option A) (g : ModelGraph M) (ordered : IsOrdered g.nodes)
    (live : IsLive g.nodes) (laws : InputLaws torch g.nodes) (lossless : IsLossless hooks) where
  abbrev n : ℕ
  n = length g.nodes

  run_rest-cons :
      (i : ℕ) (sl : SplitLayer M) (slices : List (SplitLayer M)) (x_in : T) {out : T}
      → run torch sl x_in none ≡ some out
      → run_rest torch hooks batch_id i x_in (sl ∷ slices)
        ≡ run_rest torch hooks batch_id (suc i) out slices
  unfolding run_rest
  run_rest-cons i sl slices x_in {out} h =
      ap (λ o. elim o [ none ↦ none | some v ↦ run_rest torch hooks batch_id (suc i) v slices ])
        (ap (λ v. run torch sl v none) (cut_forward_lem hooks lossless (i - 1) x_in batch_id) ∙ h)

  -- The outputs of the nodes from `a` on, and the slices' way to the last of them.
  record IsDone (i a : ℕ) (outs : List T) (x_in : T) (ps : List Partition) : Type 0 where
    slices : List (SplitLayer M)
    built : build_slices g.nodes ps ≡ some slices
    outputs : List T
    ran : run_range torch x aux g.nodes outs a (n - a) ≡ some outputs
    out : T
    found : last? outputs ≡ some out
    same : run_rest torch hooks batch_id i x_in slices ≡ some out

  module _ {x_in : T} {slice_aux : Option A} {a : ℕ} {outs : List T} (len : ℕ)
      (entry : IsEntry x x_in aux slice_aux a outs) (fits : a + suc len ≤ length g.nodes)
      (boundary : IsBoundary g.nodes a)
      (ran : IsRun torch x aux entry
        (suc len)
        g.nodes
        fits
        ordered
        boundary
        laws
        a
        (suc len)
        []) where
    -- What the last node of a slice computes enters the next one.
    next_entry :
        {out : T}
        → last? ran.new ≡ some out
        → IsEntry x out aux none (suc (a + len)) (outs ++ ran.new)
    next_entry is_last = record {
      size = let s = entry.size in let t = ran.size in omega (arith, length-append outs ran.new);
      cut = λ q e.
          let s = entry.size in
          let t = ran.size in
          get_elem?-append_right outs ran.new q len (omega arith)
          ∙ sym (last?-get_elem? ran.new len t)
          ∙ is_last;
      first = λ e. absurd (omega arith);
      later = λ lt. refl;
    }

    last_out : (out : T) × (last? ran.new ≡ some out)
    last_out =
        let (out, at) = get_elem?-some ran.new len (let t = ran.size in omega arith) in
        (out, last?-get_elem? ran.new len ran.size ∙ at)

    rest_range :
        run_range torch x aux g.nodes outs a (n - a)
        ≡ run_range torch x aux g.nodes (outs ++ ran.new) (suc (a + len)) (n - suc (a + len))
    rest_range =
        ap₂ (λ os m. run_range torch x aux g.nodes os a m) (sym (append-nil outs)) (omega arith)
        ∙ ran.same (n - suc (a + len))
        ∙ ap (λ i. run_range torch x aux g.nodes (outs ++ ran.new) i (n - suc (a + len)))
            (omega arith)

  rest_lem :
      (i a : ℕ) (outs : List T) (x_in : T) (ps : List Partition)
      → IsTiling a n ps
      → All (IsSealed g.nodes) ps
      → All (IsBuilt g) ps
      → 0 < a
      → IsEntry x x_in aux none a outs
      → IsDone i a outs x_in ps
  unfolding build_slices run_rest run_range
  rest_lem i a outs x_in [] t sealed built pos entry = record {
    slices = [];
    built = refl;
    outputs = outs;
    ran =
        let none_left : n - a ≡ 0 = omega arith in
        ap (run_range torch x aux g.nodes outs a) none_left;
    out = x_in;
    found =
        last?-get_elem? outs (a - 1) (let s = entry.size in omega arith)
        ∙ entry.cut (a - 1) (omega arith);
    same = refl;
  }
  rest_lem i a outs x_in (p ∷ ps) (len, e, t) sealed built pos entry =
      let fits : a + suc len ≤ n = (let low = tiling-le (suc (a + len)) n ps t in omega arith) in
      let boundary = sealed.0 a (rw e refl) in
      let next =
        λ (lt : suc (a + len) < n). IsBoundary-at g.nodes (suc (a + len)) n ps t sealed.1 lt in
      let r =
        IsRun-slice torch x aux entry (suc len) g.nodes fits ordered boundary laws (suc len) a []
          (omega arith) (omega arith) in
      let (out, is_last) = last_out len entry fits boundary r in
      let sl = slice torch x aux g ordered live laws len entry fits boundary next p e built.0 r in
      let rest =
        rest_lem (suc i) (suc (a + len)) (outs ++ r.new) out ps t sealed.1 built.1 (omega arith)
          (next_entry len entry fits boundary r is_last) in
      record {
        slices = sl ∷ rest.slices;
        built =
            build_slices-cons g.nodes p ps
              (build_slice_lem torch x aux g ordered live laws len entry fits boundary next p e
                built.0 r)
              rest.built;
        outputs = rest.outputs;
        out = rest.out;
        found = rest.found;
        ran = rest_range len entry fits boundary r ∙ rest.ran;
        same =
            run_rest-cons i sl rest.slices x_in (
              run_lem torch x aux g ordered live laws len entry fits boundary next p e built.0 r
              ∙ is_last)
            ∙ rest.same;
      }

  start : IsEntry x x aux aux 0 []
  start = record {
    size = refl;
    cut = λ q e. absurd (omega arith);
    first = λ e. (refl, refl);
    later = λ lt. absurd (omega arith);
  }

  run_slices-cons :
      (sl : SplitLayer M) (slices : List (SplitLayer M)) {out : T}
      → run torch sl x aux ≡ some out
      → run_slices torch hooks batch_id x aux (sl ∷ slices)
        ≡ run_rest torch hooks batch_id 1 out slices
  unfolding run_slices
  run_slices-cons sl slices h = rw (h, run_slices) refl

  forward_built :
      (ps : List Partition) {slices : List (SplitLayer M)}
      → build_slices g.nodes ps ≡ some slices
      → forward torch hooks g ps batch_id x aux ≡ run_slices torch hooks batch_id x aux slices
  unfolding forward
  forward_built ps h = rw (h, forward) refl

  tiled_forward :
      (ps : List Partition)
      → 0 < n
      → IsTiling 0 n ps
      → All (IsSealed g.nodes) ps
      → All (IsBuilt g) ps
      → IsSame torch hooks batch_id x aux g ps
  unfolding run_nodes
  tiled_forward [] some_node t sealed built = absurd (omega arith)
  tiled_forward (p ∷ ps) some_node (len, e, t) sealed built =
      let fits : 0 + suc len ≤ n = (let low = tiling-le (suc (0 + len)) n ps t in omega arith) in
      let boundary = sealed.0 0 (rw e refl) in
      let next =
        λ (lt : suc (0 + len) < n). IsBoundary-at g.nodes (suc (0 + len)) n ps t sealed.1 lt in
      let every : n ≡ n - 0 = omega arith in
      let r =
        IsRun-slice torch x aux start (suc len) g.nodes fits ordered boundary laws (suc len) 0 []
          (omega arith) (omega arith) in
      let (out, is_last) = last_out len start fits boundary r in
      let sl = slice torch x aux g ordered live laws len start fits boundary next p e built.0 r in
      let rest =
        rest_lem 1 (suc (0 + len)) r.new out ps t sealed.1 built.1 (omega arith)
          (next_entry len start fits boundary r is_last) in
      record {
        outputs = rest.outputs;
        out = rest.out;
        whole =
            run_from_lem torch x aux g.nodes []
            ∙ ap (run_range torch x aux g.nodes [] 0) every
            ∙ rest_range len start fits boundary r
            ∙ rest.ran;
        last = rest.found;
        sliced =
            forward_built (p ∷ ps) (
              build_slices-cons g.nodes p ps
                (build_slice_lem torch x aux g ordered live laws len start fits boundary next p e
                  built.0 r)
                rest.built)
            ∙ run_slices-cons sl rest.slices (
                run_lem torch x aux g ordered live laws len start fits boundary next p e built.0 r
                ∙ is_last)
            ∙ rest.same;
      }

-- Splitting does not change the model, if the hooks of the cuts keep no state and give every tensor back
-- as it was sent, as no hooks do. Let the graph have a node, its nodes read earlier nodes only, each node but the last
-- be read by another, and only nodes that read the model input depend on it. If validate accepts
-- partitions whose predecessors are those of the graph, then the pass through the slices returns a
-- value, and it is the output of the last node of the whole graph.
pub forward_lem :
    {M T A P : Type 0} (torch : Torch M T A) (hooks : ℕ → Option (CutHook T P)) (g : ModelGraph M)
    (ps : List Partition) (batch_id : ℕ) (x : T) (aux : Option A)
    → IsLossless hooks
    → IsOrdered g.nodes
    → IsLive g.nodes
    → InputLaws torch g.nodes
    → 0 < length g.nodes
    → All (IsBuilt g) ps
    → validate g ps ≡ ok tt
    → IsSame torch hooks batch_id x aux g ps
forward_lem torch hooks g ps batch_id x aux lossless ordered live laws some_node built accepted =
    let (tiling, sealed) = (validate_iff g ps ordered some_node).0 accepted in
    tiled_forward torch hooks batch_id x aux g ordered live laws lossless ps some_node tiling sealed
      built
