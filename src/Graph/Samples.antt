-- ===== src/Graph/Samples.antt =====
-- core/model_graph.py on a small graph with a skip connection, and tests for what the theorems ask
-- of a graph.
use torch_slicer.Common.{
  ℕ, zero, suc, ◌+◌, ◌<◌, Bool, true, false, not, ◌&&◌, ◌||◌, none, some, List, [], ◌∷◌, ◌≡◌, refl,
  arith, ap, sym, ◌∙◌, ltb, ◌==◌, if◌then◌else◌, get_elem?, is_nil, all, elem, All, some_injective,
  and-eq-true, ==_iff, ltb_iff, ok,
}
use torch_slicer.Graph.{
  LayerNode, ModelGraph, IsOrdered, IsLinked, Torch, InputLaws, valid_cuts, index_of, negative,
}

-- The test holds of every member and its position, counted from `k`.
abbrev each {ℓ} : {A : Type ℓ} → (ℕ → A → Bool) → ℕ → List A → Bool
each test k [] = true
each test k (x ∷ xs) = test k x && each test (suc k) xs

each-from {ℓ} :
    {A : Type ℓ} (test : ℕ → A → Bool) (k : ℕ) (xs : List A) (i : ℕ) (x : A)
    → each test k xs ≡ true
    → get_elem? xs i ≡ some x
    → test (k + i) x ≡ true
each-from test k [] i x h at = absurd (cc)
each-from test k (y ∷ ys) zero x h at =
    ap (λ j. test j x) (omega arith)
    ∙ ap (test k) (sym (some_injective at))
    ∙ (and-eq-true (test k y) (each test (suc k) ys) h).0
each-from test k (y ∷ ys) (suc i) x h at =
    ap (λ j. test j x) (omega arith)
    ∙ each-from test (suc k) ys i x (and-eq-true (test k y) (each test (suc k) ys) h).1 at

each-at {ℓ} :
    {A : Type ℓ} (test : ℕ → A → Bool) (xs : List A) (i : ℕ) (x : A)
    → each test 0 xs ≡ true
    → get_elem? xs i ≡ some x
    → test i x ≡ true
each-at test xs i x h at = ap (λ j. test j x) (omega arith) ∙ each-from test 0 xs i x h at

all-below : (i : ℕ) (qs : List ℕ) → all (λ q. ltb q i) qs ≡ true → All (λ q. q < i) qs
all-below i [] h = tt
all-below i (q ∷ qs) h =
    let (first, rest) = and-eq-true (ltb q i) (all (λ q'. ltb q' i) qs) h in
    ((ltb_iff q i).0 first, all-below i qs rest)

module _ {M : Type 0} where
  abbrev pub is_ordered : List (LayerNode M) → Bool
  is_ordered nodes =
      each (λ i node. node.index == i && all (λ q. ltb q i) node.predecessors) 0 nodes

  pub is_ordered-IsOrdered :
      (nodes : List (LayerNode M)) → is_ordered nodes ≡ true → IsOrdered nodes
  is_ordered-IsOrdered nodes h = record {
    indexed = λ i node at. (==_iff node.index i).0 (both i node at).0;
    earlier = λ i node at. all-below i node.predecessors (both i node at).1;
  }
    where
      both :
          (i : ℕ) (node : LayerNode M)
          → get_elem? nodes i ≡ some node
          → ((node.index == i) ≡ true) × (all (λ q. ltb q i) node.predecessors ≡ true)
      both i node at = and-eq-true (node.index == i) (all (λ q. ltb q i) node.predecessors) (
          each-at (λ i node. node.index == i && all (λ q. ltb q i) node.predecessors) nodes i node h
            at)

  abbrev pub is_linked : List (LayerNode M) → Bool
  is_linked nodes =
      each
        (λ i node.
          each (λ q source. not (elem q node.predecessors) || elem i source.successors) 0 nodes)
        0 nodes

  pub is_linked-IsLinked : (nodes : List (LayerNode M)) → is_linked nodes ≡ true → IsLinked nodes
  is_linked-IsLinked nodes h i q node source at_i at_q mem =
      let row =
        each-at
          (λ i node.
            each (λ q source. not (elem q node.predecessors) || elem i source.successors) 0 nodes)
          nodes i node h at_i in
      let cell =
        each-at (λ q source. not (elem q node.predecessors) || elem i source.successors) nodes q
          source row at_q in
      ground arith

  -- Only the nodes that read the model input read nothing else, and they read nothing.
  abbrev pub is_plain : List (LayerNode M) → Bool
  is_plain nodes =
      each
        (λ i node.
          if node.takes_input then is_nil node.predecessors else not (is_nil node.predecessors))
        0 nodes

  pub is_plain-InputLaws :
      {T A : Type 0} (torch : Torch M T A) (nodes : List (LayerNode M))
      → is_plain nodes ≡ true
      → InputLaws torch nodes
  is_plain-InputLaws torch nodes h = record {
    alone = λ i node at takes. let h' = rw takes at (test i node at) in nil-of node.predecessors h';
    plain = λ i node at takes reads. absurd (let h' = rw (takes, reads) at (test i node at) in cc);
    constant =
        λ i node u v at takes reads. absurd (let h' = rw (takes, reads) at (test i node at) in cc);
  }
    where
      test :
          (i : ℕ) (node : LayerNode M)
          → get_elem? nodes i ≡ some node
          → (if node.takes_input then is_nil node.predecessors else not (is_nil node.predecessors))
            ≡ true
      test i node at =
          each-at
            (λ i (node : LayerNode M).
              if node.takes_input then is_nil node.predecessors else not (is_nil node.predecessors))
            nodes i node h at

      nil-of : (qs : List ℕ) → is_nil qs ≡ true → qs ≡ []
      nil-of [] e = refl
      nil-of (q ∷ qs) e = absurd (cc)

-- A layer is a number, and adds it to the sum of its inputs.
abbrev pub adder : Torch ℕ ℕ ℕ
adder = record {
  call = λ layer xs aux. layer + sum xs + elim aux [ none ↦ 0 | some a ↦ a ];
  accepts_aux = λ layer. layer == 7;
}
  where
    sum : List ℕ → ℕ
    sum [] = 0
    sum (x ∷ xs) = x + sum xs

-- fc -> relu, then the sum of both, then a head.
abbrev pub residual : ModelGraph ℕ
residual = record {
  source = "traced";
  nodes =
      record {
        index = 0;
        layer = 7;
        successors = 1 ∷ 2 ∷ [];
        predecessors = [];
        name = "fc";
        takes_input = true;
        scope = [];
      }
      ∷ record {
        index = 1;
        layer = 2;
        successors = 2 ∷ [];
        predecessors = 0 ∷ [];
        name = "relu";
        takes_input = false;
        scope = [];
      }
      ∷ record {
        index = 2;
        layer = 0;
        successors = 3 ∷ [];
        predecessors = 1 ∷ 0 ∷ [];
        name = "add";
        takes_input = false;
        scope = [];
      }
      ∷ record {
        index = 3;
        layer = 5;
        successors = [];
        predecessors = 2 ∷ [];
        name = "head";
        takes_input = false;
        scope = [];
      }
      ∷ [];
}

pub residual-IsOrdered : IsOrdered residual.nodes
residual-IsOrdered = is_ordered-IsOrdered residual.nodes refl

pub residual-IsLinked : IsLinked residual.nodes
residual-IsLinked = is_linked-IsLinked residual.nodes refl

residual_cuts : valid_cuts residual ≡ 0 ∷ 2 ∷ []
unfolding valid_cuts
residual_cuts = refl

residual_last : index_of residual (negative 0) ≡ ok 3
unfolding index_of
residual_last = refl
