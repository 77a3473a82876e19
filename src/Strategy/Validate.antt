-- ===== src/Strategy/Validate.antt =====
-- strategies/base.py, BaseSplitter.validate: the partitions that it accepts.
use torch_slicer.Common.{
  ℕ, zero, suc, ◌+◌, ◌≡◌, refl, sym, ap, ◌∙◌, subst, inl, inr, ◌↔◌, Bool, true, false, List, [],
  ◌∷◌, arith, ltb, ◌==◌, ==_iff, ==_refl, not, ◌&&◌, ◌||◌, add-zero, ap₂, length, All, count_up,
  Bool-cases, ok, >>=-eq-ok, >>-eq-ok, require-eq-ok, is_nil, any, and-eq-true, count_up-append,
  count_up-split, ◌-◌,
}
use torch_slicer.Graph.{LayerNode}
use torch_slicer.Strategy.Base.{
  Partition, owner, is_last_of, check_preds, check_nodes, flat_indices, list_eq,
}
use torch_slicer.Strategy.Tiles.{IsTiling}

-- `check_preds` passes the predecessor `q` of a node of partition `pos`.
abbrev pub PredOk : List Partition → ℕ → ℕ → Type 0
PredOk ps pos q =
    (q_pos : ℕ) × (owner ps q ≡ ok q_pos)
    × ((q_pos == pos || (suc q_pos == pos && is_last_of ps q_pos q)) ≡ true)

check_preds_iff :
    (ps : List Partition) (pos : ℕ) (multi : Bool) (qs : List ℕ)
    → (check_preds ps pos multi qs ≡ ok tt) ↔ All (PredOk ps pos) qs
unfolding check_preds
check_preds_iff ps pos multi [] = (λ h. tt, λ h. refl)
check_preds_iff ps pos multi (q ∷ qs) =
    let ih = check_preds_iff ps pos multi qs in
    (
      λ h.
          let (q_pos, found, more) = >>=-eq-ok (owner ps q) _ h in
          let (test, rest) = >>-eq-ok _ (check_preds ps pos multi qs) more in
          ((q_pos, found, require-eq-ok _ _ test), ih.0 rest),
      λ ((q_pos, found, test), rest). rw (found, test) (ih.1 rest),
    )

module _ {M : Type 0} where
  -- `check_nodes` passes the node.
  abbrev pub NodeOk : List Partition → LayerNode M → Type 0
  NodeOk ps node =
      (pos : ℕ) × (owner ps node.index ≡ ok pos)
      × (not (node.takes_input && not (pos == 0)) ≡ true)
      × All (PredOk ps pos) node.predecessors

  pub check_nodes_iff :
      (ps : List Partition) (nodes : List (LayerNode M))
      → (check_nodes ps nodes ≡ ok tt) ↔ All (NodeOk ps) nodes
  unfolding check_nodes
  check_nodes_iff ps [] = (λ h. tt, λ h. refl)
  check_nodes_iff ps (node ∷ rest) =
      let ih = check_nodes_iff ps rest in
      let preds =
        λ (pos : ℕ). check_preds_iff ps pos (ltb 1 (length node.predecessors)) node.predecessors in
      (
        λ h.
            let (pos, found, more) = >>=-eq-ok (owner ps node.index) _ h in
            let (reads, more') = >>-eq-ok _ _ more in
            let (passed, tail) = >>-eq-ok _ (check_nodes ps rest) more' in
            ((pos, found, require-eq-ok _ _ reads, (preds pos).0 passed), ih.0 tail),
        λ ((pos, found, reads, passed), tail). rw (found, reads, (preds pos).1 passed) (ih.1 tail),
      )

pub list_eq_refl : (xs : List ℕ) → list_eq xs xs ≡ true
unfolding list_eq
list_eq_refl [] = refl
list_eq_refl (x ∷ xs) = rw (==_refl x) (list_eq_refl xs)

pub list_eq_sound : (xs ys : List ℕ) → list_eq xs ys ≡ true → xs ≡ ys
unfolding list_eq
list_eq_sound [] [] h = refl
list_eq_sound [] (y ∷ ys) h = absurd (cc)
list_eq_sound (x ∷ xs) [] h = absurd (cc)
list_eq_sound (x ∷ xs) (y ∷ ys) h =
    let (head, rest) = and-eq-true (x == y) (list_eq xs ys) h in
    ap₂ (λ u v. u ∷ v) ((==_iff x y).0 head) (list_eq_sound xs ys rest)

-- A tiling covers exactly the run, in order.
pub flat_indices_lem :
    (a n : ℕ) (ps : List Partition)
    → IsTiling a n ps
    → (k : ℕ) × (flat_indices ps ≡ count_up a k) × (a + k ≡ n)
unfolding flat_indices
flat_indices_lem a n [] t = (0, refl, omega arith)
flat_indices_lem a n (p ∷ ps) (len, e, t) =
    let (k, rest, ends) = flat_indices_lem (suc (a + len)) n ps t in
    let next : suc (a + len) ≡ a + suc len = omega arith in
    (suc len + k, rw (e, rest, next) (count_up-append a (suc len) k), omega arith)

pub tiling-nonempty :
    (a n : ℕ) (ps : List Partition) → IsTiling a n ps → any (λ p. is_nil p.layer_indices) ps ≡ false
tiling-nonempty a n [] t = refl
tiling-nonempty a n (p ∷ ps) (len, e, t) = rw e (tiling-nonempty (suc (a + len)) n ps t)

-- Non-empty partitions whose layers, put together, are a run tile it.
pub IsTiling-of_flat :
    (a k : ℕ) (ps : List Partition)
    → any (λ p. is_nil p.layer_indices) ps ≡ false
    → flat_indices ps ≡ count_up a k
    → IsTiling a (a + k) ps
unfolding flat_indices
IsTiling-of_flat a zero [] full e = sym (add-zero a)
IsTiling-of_flat a (suc k) [] full e = absurd (cc)
IsTiling-of_flat a k (p ∷ ps) full e =
    let (front, back, fits) = count_up-split a k p.layer_indices (flat_indices ps) e in
    elim (Bool-cases (is_nil p.layer_indices)) [
      | inl empty ↦ absurd (ground arith)
      | inr filled ↦
          let (len, size) = length_pos p.layer_indices filled in
          (
            len,
            front ∙ ap (count_up a) size,
            subst (λ m. IsTiling (suc (a + len)) m ps) (omega arith)
                (IsTiling-of_flat (suc (a + len)) (k - suc len) ps (ground arith)
                  (back ∙ ap₂ count_up (omega arith) (omega arith))),
          )
    ]
  where
    length_pos : (xs : List ℕ) → is_nil xs ≡ false → (m : ℕ) × (length xs ≡ suc m)
    length_pos [] h = absurd (cc)
    length_pos (x ∷ xs) h = (length xs, refl)
