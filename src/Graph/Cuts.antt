-- ===== src/Graph/Cuts.antt =====
-- core/model_graph.py, ModelGraph.valid_cuts: the running maximum finds the cuts that the
-- definition of a cut gives.
use torch_slicer.Common.{
  ℕ, zero, suc, ◌+◌, max, ◌≤◌, ◌<◌, ◌≡◌, refl, ◌↔◌, true, false, not, some, List, [], ◌∷◌, arith,
  length, get_elem?, is_nil, elem, All, All-at, at-All, subst,
}
use torch_slicer.Graph.{LayerNode, ModelGraph, past, input_after, cuts_from, valid_cuts}

-- What a cut after the node at position `d` of `nodes`, which has index `k`, needs.
pub record IsCutIn {M : Type 0} (nodes : List (LayerNode M)) (d k : ℕ) : Type 0 where
  -- a node follows
  pub within : suc d < length nodes
  -- some node uses the output of the node before the cut
  pub used : (node : LayerNode M) → get_elem? nodes d ≡ some node → is_nil node.successors ≡ false
  -- no node after the cut uses an output of a node before that one
  pub closed :
      (i : ℕ) (node : LayerNode M)
      → i < d
      → get_elem? nodes i ≡ some node
      → All (λ s. s ≤ k) node.successors
  -- no node after the cut reads the model input
  pub no_input :
      (i : ℕ) (node : LayerNode M)
      → d < i
      → get_elem? nodes i ≡ some node
      → node.takes_input ≡ false

abbrev pub IsCut : {M : Type 0} → ModelGraph M → ℕ → Type 0
IsCut g k = IsCutIn g.nodes k k

past-le : (j : ℕ) (xs : List ℕ) → past xs ≤ suc j ↔ All (λ s. s ≤ j) xs
unfolding past
past-le j [] = (λ h. tt, λ h. omega arith)
past-le j (x ∷ xs) =
    (λ h. (omega arith, (past-le j xs).0 (omega arith)), λ h. omega (arith, (past-le j xs).1 h.1))

module _ {M : Type 0} where
  -- `IsCut` at a suffix of the nodes, in which the cut is at distance `d`; `reach` is one more than
  -- the highest node that uses an output from before the suffix.
  abbrev CutAt : ℕ → ℕ → List (LayerNode M) → ℕ → Type 0
  CutAt j reach (node ∷ next ∷ rest) zero =
      (reach ≤ suc j)
      × All (λ (n : LayerNode M). n.takes_input ≡ false) (next ∷ rest)
      × (is_nil node.successors ≡ false)
  CutAt j reach (node ∷ next ∷ rest) (suc d) =
      All (λ s. s ≤ j) node.successors × CutAt j reach (next ∷ rest) d
  CutAt j reach _ _ = ⊥

  CutAt-max :
      (j a b : ℕ) (nodes : List (LayerNode M)) (d : ℕ)
      → CutAt j (max a b) nodes d ↔ ((b ≤ suc j) × CutAt j a nodes d)
  CutAt-max j a b [] d = (λ h. absurd h, λ h. h.1)
  CutAt-max j a b (node ∷ []) zero = (λ h. absurd h, λ h. h.1)
  CutAt-max j a b (node ∷ []) (suc d) = (λ h. absurd h, λ h. h.1)
  CutAt-max j a b (node ∷ next ∷ rest) zero =
      (λ h. (omega arith, (omega arith, h.1, h.2)), λ h. (omega arith, h.1.1, h.1.2))
  CutAt-max j a b (node ∷ next ∷ rest) (suc d) = (
    λ h. let ih = (CutAt-max j a b (next ∷ rest) d).0 h.1 in (ih.0, (h.0, ih.1)),
    λ h. (h.1.0, (CutAt-max j a b (next ∷ rest) d).1 (h.0, h.1.1)),
  )

  input_after-eq-false :
      (nodes : List (LayerNode M))
      → (not (input_after nodes) ≡ true) ↔ All (λ (n : LayerNode M). n.takes_input ≡ false) nodes
  unfolding input_after
  input_after-eq-false [] = (λ h. tt, λ h. refl)
  input_after-eq-false (node ∷ rest) = ground (arith, input_after-eq-false rest)

  cuts_from-above :
      (j k reach : ℕ) (nodes : List (LayerNode M))
      → j < k
      → elem j (cuts_from k reach nodes) ≡ false
  unfolding cuts_from
  cuts_from-above j k reach [] h = refl
  cuts_from-above j k reach (node ∷ []) h = refl
  cuts_from-above j k reach (node ∷ next ∷ rest) h =
      ground (arith, cuts_from-above j (suc k) (max reach (past node.successors)) (next ∷ rest))

  cuts_from_lem :
      (j k reach : ℕ) (nodes : List (LayerNode M)) (d : ℕ)
      → j ≡ k + d
      → (elem j (cuts_from k reach nodes) ≡ true) ↔ CutAt j reach nodes d
  unfolding cuts_from
  cuts_from_lem j k reach [] d e = (λ h. absurd (cc), λ h. absurd h)
  cuts_from_lem j k reach (node ∷ []) zero e = (λ h. absurd (cc), λ h. absurd h)
  cuts_from_lem j k reach (node ∷ []) (suc d) e = (λ h. absurd (cc), λ h. absurd h)
  cuts_from_lem j k reach (node ∷ next ∷ rest) zero e = ground (
    arith,
    cuts_from-above j (suc k) (max reach (past node.successors)) (next ∷ rest),
    input_after-eq-false (next ∷ rest),
  )
  cuts_from_lem j k reach (node ∷ next ∷ rest) (suc d) e =
      let reach' = max reach (past node.successors) in
      let ih = cuts_from_lem j (suc k) reach' (next ∷ rest) d (omega arith) in
      let split = CutAt-max j reach (past node.successors) (next ∷ rest) d in
      let bound = past-le j node.successors in
      (
        λ h. let both = split.0 (ih.0 (skip h)) in (bound.0 both.0, both.1),
        λ h. keep (ih.1 (split.1 (bound.1 h.0, h.1))),
      )
    where
      later : List ℕ
      later = cuts_from (suc k) (max reach (past node.successors)) (next ∷ rest)

      skip : elem j (cuts_from k reach (node ∷ next ∷ rest)) ≡ true → elem j later ≡ true
      skip h = ground arith

      keep : elem j later ≡ true → elem j (cuts_from k reach (node ∷ next ∷ rest)) ≡ true
      keep h = ground arith

  IsCutIn-cons :
      (node : LayerNode M) (nodes : List (LayerNode M)) (j d : ℕ)
      → All (λ s. s ≤ j) node.successors
      → IsCutIn nodes d j
      → IsCutIn (node ∷ nodes) (suc d) j
  IsCutIn-cons node nodes j d below c = record {
    within = let w = c.within in omega arith;
    used = λ n e. c.used n e;
    closed = closed;
    no_input = no_input;
  }
    where
      closed :
          (i : ℕ) (n : LayerNode M)
          → i < suc d
          → get_elem? (node ∷ nodes) i ≡ some n
          → All (λ s. s ≤ j) n.successors
      closed zero n lt e =
          let same : node ≡ n = cc in subst (λ m. All (λ s. s ≤ j) m.successors) same below
      closed (suc i) n lt e = c.closed i n (omega arith) e

      no_input :
          (i : ℕ) (n : LayerNode M)
          → suc d < i
          → get_elem? (node ∷ nodes) i ≡ some n
          → n.takes_input ≡ false
      no_input zero n lt e = absurd (omega arith)
      no_input (suc i) n lt e = c.no_input i n (omega arith) e

  CutAt-IsCutIn :
      (nodes : List (LayerNode M)) (j reach d : ℕ) → CutAt j reach nodes d → IsCutIn nodes d j
  CutAt-IsCutIn (node ∷ next ∷ rest) j reach zero h = record {
    within = omega arith;
    used = λ n e. let same : node ≡ n = cc in subst (λ m. is_nil m.successors ≡ false) same h.2;
    closed = λ i n lt e. absurd (omega arith);
    no_input = after_zero;
  }
    where
      after_zero :
          (i : ℕ) (n : LayerNode M)
          → 0 < i
          → get_elem? (node ∷ next ∷ rest) i ≡ some n
          → n.takes_input ≡ false
      after_zero zero n lt e = absurd (omega arith)
      after_zero (suc i) n lt e = All-at (λ m. m.takes_input ≡ false) (next ∷ rest) i h.1 e
  CutAt-IsCutIn (node ∷ next ∷ rest) j reach (suc d) h =
      IsCutIn-cons node (next ∷ rest) j d h.0 (CutAt-IsCutIn (next ∷ rest) j reach d h.1)
  CutAt-IsCutIn [] j reach d h = absurd h
  CutAt-IsCutIn (node ∷ []) j reach d h = absurd h

  IsCutIn-CutAt : (nodes : List (LayerNode M)) (j d : ℕ) → IsCutIn nodes d j → CutAt j 0 nodes d
  IsCutIn-CutAt [] j d c = absurd (let w = c.within in omega arith)
  IsCutIn-CutAt (node ∷ []) j d c = absurd (let w = c.within in omega arith)
  IsCutIn-CutAt (node ∷ next ∷ rest) j zero c = (
    omega arith,
    at-All (λ n. n.takes_input ≡ false) (next ∷ rest)
        (λ i n e. c.no_input (suc i) n (omega arith) e),
    c.used node refl,
  )
  IsCutIn-CutAt (node ∷ next ∷ rest) j (suc d) c = (
    c.closed 0 node (omega arith) refl,
    IsCutIn-CutAt (next ∷ rest) j d (record {
      within = let w = c.within in omega arith;
      used = λ n e. c.used n e;
      closed = λ i n lt e. c.closed (suc i) n (omega arith) e;
      no_input = λ i n lt e. c.no_input (suc i) n (omega arith) e;
    }),
  )

-- valid_cuts finds exactly the nodes after which a cut is allowed: a node follows, the node's
-- output is used, no later node uses an earlier output, and none reads the model input.
pub valid_cuts_iff :
    {M : Type 0} (g : ModelGraph M) (k : ℕ) → (elem k (valid_cuts g) ≡ true) ↔ IsCut g k
unfolding valid_cuts
valid_cuts_iff g k =
    let scan = cuts_from_lem k 0 0 g.nodes k (omega arith) in
    (λ h. CutAt-IsCutIn g.nodes k 0 k (scan.0 h), λ c. scan.1 (IsCutIn-CutAt g.nodes k k c))
