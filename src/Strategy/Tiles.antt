-- ===== src/Strategy/Tiles.antt =====
-- What `validate` (strategies/base.py) asks of partitions: they tile the graph, and each starts
-- where one tensor carries everything across.
use torch_slicer.Common.{
  ℕ, suc, ◌+◌, ◌≤◌, ◌<◌, ◌≡◌, refl, sym, ap, ◌∙◌, ◌⊎◌, inl, inr, true, false, none, some, List, [],
  ◌∷◌, arith, ==_iff, get_elem?, elem, All, count_up, elem-count_up, last?-count_up,
}
use mathlib.Core.List.{head?}
use native.Mathlib.Decide.{dec_le}
use torch_slicer.Graph.{LayerNode}
use torch_slicer.Strategy.Base.{Partition, owner_from, is_last_of}

-- From node `a` on, no node reads the output of a node before `a - 1`, and unless `a` is 0 none
-- reads the model input.
pub record IsBoundary {M : Type 0} (nodes : List (LayerNode M)) (a : ℕ) : Type 0 where
  pub reads :
      (j : ℕ) (node : LayerNode M)
      → a ≤ j
      → get_elem? nodes j ≡ some node
      → All (λ q. a ≤ suc q) node.predecessors
  pub no_input :
      (j : ℕ) (node : LayerNode M)
      → a ≤ j
      → 0 < a
      → get_elem? nodes j ≡ some node
      → node.takes_input ≡ false

-- The partitions are non-empty runs of the layers from `a` to `n - 1`, in order.
abbrev pub IsTiling : ℕ → ℕ → List Partition → Type 0
IsTiling a n [] = a ≡ n
IsTiling a n (p ∷ ps) =
    (len : ℕ) × (p.layer_indices ≡ count_up a (suc len)) × IsTiling (suc (a + len)) n ps

-- A partition starts at a boundary.
abbrev pub IsSealed : {M : Type 0} → List (LayerNode M) → Partition → Type 0
IsSealed nodes p = (b : ℕ) → head? p.layer_indices ≡ some b → IsBoundary nodes b

pub some_eq : {x y : ℕ} → some x ≡ some y → x ≡ y
some_eq h = cc

-- An index before the first partition has no owner.
pub owner_from-below :
    (pos a n : ℕ) (ps : List Partition) (idx : ℕ)
    → IsTiling a n ps
    → idx < a
    → owner_from pos ps idx ≡ none
unfolding owner_from
owner_from-below pos a n [] idx t lt = refl
owner_from-below pos a n (p ∷ ps) idx (len, e, t) lt =
    rw (owner_from-below (suc pos) (suc (a + len)) n ps idx t (omega arith), e, outside) refl
  where
    outside : elem idx (count_up a (suc len)) ≡ false
    outside = ground (arith, elem-count_up idx a (suc len))

module _ (pos a n : ℕ) (p : Partition) (ps : List Partition) (idx len : ℕ)
    (e : p.layer_indices ≡ count_up a (suc len)) (t : IsTiling (suc (a + len)) n ps) where
  pub owner_from-here : a ≤ idx → idx ≤ a + len → owner_from pos (p ∷ ps) idx ≡ some pos
  unfolding owner_from
  owner_from-here low high =
      rw
        (
          owner_from-below (suc pos) (suc (a + len)) n ps idx t (omega arith),
          e,
          (elem-count_up idx a (suc len)).1 (low, omega arith),
        )
        refl

  pub owner_from-later : a + len < idx → owner_from pos (p ∷ ps) idx ≡ owner_from (suc pos) ps idx
  unfolding owner_from
  owner_from-later above = ground (arith, elem-count_up idx a (suc len), outside)
    where
      outside : elem idx p.layer_indices ≡ false
      outside = rw e (ground (arith, elem-count_up idx a (suc len)))

-- The owner of `q` as seen from partition `r`: `r` itself, or the one before it, whose last layer
-- is `q`; or `q` lies just before the first partition of the list, which is `r`.
pub data IsNear (pos a r q : ℕ) (ps : List Partition) : Type 0 where
  same : owner_from pos ps q ≡ some r → IsNear pos a r q ps
  prev :
      (d : ℕ)
      → r ≡ suc (pos + d)
      → owner_from pos ps q ≡ some (pos + d)
      → is_last_of ps d q ≡ true
      → IsNear pos a r q ps
  edge : suc q ≡ a → r ≡ pos → IsNear pos a r q ps

module _ {M : Type 0} (nodes : List (LayerNode M)) where
  pub IsBoundary-at :
      (a n : ℕ) (ps : List Partition)
      → IsTiling a n ps
      → All (IsSealed nodes) ps
      → a < n
      → IsBoundary nodes a
  IsBoundary-at a n [] t sealed lt = absurd (omega arith)
  IsBoundary-at a n (p ∷ ps) (len, e, t) sealed lt = sealed.0 a (rw e refl)

  -- Every layer has an owner, and a node that reads the model input is owned by the first partition.
  pub owner_of :
      (pos a n : ℕ) (ps : List Partition) (j : ℕ) (node : LayerNode M)
      → IsTiling a n ps
      → All (IsSealed nodes) ps
      → a ≤ j
      → j < n
      → get_elem? nodes j ≡ some node
      → (r : ℕ) × (owner_from pos ps j ≡ some r) × ((node.takes_input ≡ false) ⊎ (r ≡ pos))
  owner_of pos a n [] j node t sealed low high at = absurd (omega arith)
  owner_of pos a n (p ∷ ps) j node (len, e, t) sealed low high at = elim (dec_le j (a + len)) [
    | yes h ↦ (pos, owner_from-here pos a n p ps j len e t low h, inr refl)
    | no h ↦
        let (r, found, _) =
          owner_of (suc pos) (suc (a + len)) n ps j node t sealed.1 (omega arith) high at in
        (
          r,
          owner_from-later pos a n p ps j len e t (omega arith) ∙ found,
          inl (
              (IsBoundary-at _ n ps t sealed.1 (omega arith)).no_input j node (omega arith)
                (omega arith) at),
        )
  ]

-- From the rest of the list to the whole list.
IsNear-cons :
    (pos a n : ℕ) (p : Partition) (ps : List Partition) (q r len : ℕ)
    → p.layer_indices ≡ count_up a (suc len)
    → IsTiling (suc (a + len)) n ps
    → a ≤ suc q
    → IsNear (suc pos) (suc (a + len)) r q ps
    → IsNear pos a r q (p ∷ ps)
unfolding owner_from is_last_of
IsNear-cons pos a n p ps q r len e t low (same own) = same (rw own refl)
IsNear-cons pos a n p ps q r len e t low (prev d at own is_last) =
    prev (suc d) (omega arith) (rw own (ap some (omega arith))) is_last
IsNear-cons pos a n p ps q r len e t low (edge here first) =
    prev 0 (omega arith)
      (owner_from-here pos a n p ps q len e t (omega arith) (omega arith) ∙ ap some (omega arith))
      (rw (e, last?-count_up a len) ((==_iff q (a + len)).1 (omega arith)))

module _ {M : Type 0} (nodes : List (LayerNode M)) (n j q : ℕ)
    (reads : (b : ℕ) → IsBoundary nodes b → b ≤ j → b ≤ suc q) (before : q < j) (high : j < n) where
  -- The predecessor `q` of node `j` is where the partition of `j` can read it.
  pub near :
      (pos a : ℕ) (ps : List Partition) (r : ℕ)
      → IsTiling a n ps
      → All (IsSealed nodes) ps
      → a ≤ j
      → owner_from pos ps j ≡ some r
      → IsNear pos a r q ps
  near pos a [] r t sealed low own = absurd (omega arith)
  near pos a (p ∷ ps) r (len, e, t) sealed low own = elim (dec_le j (a + len)) [
    | yes h ↦
        let here : pos ≡ r = some_eq (sym (owner_from-here pos a n p ps j len e t low h) ∙ own) in
        elim (dec_le a q) [
          | yes inside ↦
              same (owner_from-here pos a n p ps q len e t inside (omega arith) ∙ ap some here)
          | no outside ↦ edge (omega (arith, from_a)) (sym here)
        ]
    | no h ↦ IsNear-cons pos a n p ps q r len e t from_a (
        near (suc pos) (suc (a + len)) ps r t sealed.1 (omega arith)
          (sym (owner_from-later pos a n p ps j len e t (omega arith)) ∙ own))
  ]
    where
      from_a : a ≤ suc q
      from_a = reads a (sealed.0 a (rw e refl)) low
