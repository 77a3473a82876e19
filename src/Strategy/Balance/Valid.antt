-- ===== src/Strategy/Balance/Valid.antt =====
-- strategies/cost.py: the cuts of balanced_cuts are valid cuts, distinct, and one fewer than the
-- partitions.
use torch_slicer.Common.{
  ℕ, zero, suc, ◌-◌, ◌≤◌, ◌<◌, true, some, List, [], ◌∷◌, ◌++◌, ◌≡◌, refl, arith, length, get_elem?,
  elem, All, ok, sym, ap, ◌∙◌, subst, Option, map-All, All-elem, elem-All,
}
use torch_slicer.Common.Sorting.{
  sorted, IsIncreasing, sorted-top, IsIncreasing-at, elem-at, elem-sorted, length-sorted,
}
use torch_slicer.Strategy.Balance.{
  Floats, Terms, Block, balanced_cuts, blocks_of, blocks_from, last_node,
}
use torch_slicer.Strategy.Balance.Order.{IsOrder}
use torch_slicer.Strategy.Balance.Plans.{Plan, nil, part, cuts_of, Plan-low}
use torch_slicer.Strategy.Balance.Optimal.{balanced_cuts-Optimal, length-blocks_of}

-- The last node of block `i`, below the last block, is the valid cut `i`.
last_node-valid :
    {F : Type 0} (floats : Floats F) (costs : List F) (valid_cuts : List ℕ) (mem : Option (List F))
    (terms : Terms F) (n i : ℕ)
    → i < length valid_cuts
    → get_elem? valid_cuts i
      ≡ some (last_node floats (blocks_of floats costs valid_cuts mem) terms n i)
unfolding blocks_of blocks_from last_node
last_node-valid {F} floats costs valid_cuts mem terms n i lt = go 0 valid_cuts i lt
  where
    go :
        (start : ℕ) (cuts : List ℕ) (i : ℕ)
        → i < length cuts
        → get_elem? cuts i
          ≡ some (
              last_node floats
                (blocks_from floats costs mem start (cuts ++ (length costs - 1) ∷ []))
                terms
                n
                i)
    go start [] i lt = absurd (omega arith)
    go start (k ∷ cuts) zero lt = refl
    go start (k ∷ cuts) (suc i) lt = go (suc k) cuts i (omega arith)

module _ {F : Type 0} (floats : Floats F) (costs : List F) (valid_cuts : List ℕ) (terms : Terms F)
    (n : ℕ) where
  abbrev bs : List (Block F)
  bs = blocks_of floats costs valid_cuts terms.mem

  -- A valid cut before the last of the first `j` blocks.
  abbrev IsDrawn : ℕ → ℕ → Type 0
  IsDrawn j k = (i : ℕ) × (suc i < j) × (get_elem? valid_cuts i ≡ some k)

  drawn :
      {p j : ℕ} (plan : Plan floats bs terms n p j)
      → j ≤ suc (length valid_cuts)
      → All (IsDrawn j) (cuts_of floats bs terms n plan)
  drawn nil le = tt
  drawn (part {p = zero} j plan lt fit) le = tt
  drawn (part {p = suc p} {i} j plan lt fit) le =
      let low = Plan-low floats bs terms n plan in
      (
        (
          i - 1,
          omega arith,
          last_node-valid floats costs valid_cuts terms.mem terms n (i - 1) (omega arith),
        ),
        map-All (λ k h. (h.0, omega (arith, h.1), h.2)) _ (drawn plan (omega arith)),
      )

  increasing :
      {p j : ℕ} (plan : Plan floats bs terms n p j)
      → IsIncreasing 0 valid_cuts
      → j ≤ suc (length valid_cuts)
      → IsIncreasing 0 (sorted (cuts_of floats bs terms n plan))
  unfolding sorted
  increasing nil up le = tt
  increasing (part {p = zero} j plan lt fit) up le = tt
  increasing (part {p = suc p} {i} j plan lt fit) up le =
      let low = Plan-low floats bs terms n plan in
      let first = last_node-valid floats costs valid_cuts terms.mem terms n (i - 1) (omega arith) in
      sorted-top (last_node floats bs terms n (i - 1)) (cuts_of floats bs terms n plan)
        (increasing plan up (omega arith))
        (map-All
          (λ k h. IsIncreasing-at 0 valid_cuts h.0 (i - 1) k _ up (omega (arith, h.1)) h.2 first)
          (cuts_of floats bs terms n plan) (drawn plan (omega arith)))

  length-cuts :
      {p j : ℕ} (plan : Plan floats bs terms n (suc p) j)
      → length (cuts_of floats bs terms n plan) ≡ p
  length-cuts (part {p = zero} j plan lt fit) = refl
  length-cuts (part {p = suc p} j plan lt fit) = ap suc (length-cuts plan)

  parts-length :
      {q j : ℕ} (plan : Plan floats bs terms n q j)
      → 0 < q
      → suc (length (cuts_of floats bs terms n plan)) ≡ q
  parts-length nil pos = absurd (omega arith)
  parts-length (part j plan lt fit) pos = ap suc (length-cuts (part j plan lt fit))

  -- The cuts that a call returns are valid cuts, in increasing order, one fewer than the
  -- partitions; the valid cuts are in increasing order, and there is a partition.
  pub balanced_cuts-valid :
      (order : IsOrder floats) (cuts : List ℕ)
      → IsIncreasing 0 valid_cuts
      → 0 < n
      → balanced_cuts floats costs valid_cuts n terms ≡ ok cuts
      → IsIncreasing 0 cuts × All (λ k. elem k valid_cuts ≡ true) cuts × (suc (length cuts) ≡ n)
  balanced_cuts-valid order cuts up pos h =
      let (plan, e, _) = balanced_cuts-Optimal floats order costs valid_cuts n terms cuts h in
      let chosen = cuts_of floats bs terms n plan in
      let fits = length-blocks_of floats costs valid_cuts terms.mem in
      let sorted_up = increasing plan up (omega arith) in
      let all_valid =
        map-All (λ k h. elem-at valid_cuts h.0 k h.2) chosen (drawn plan (omega arith)) in
      (
        subst (IsIncreasing 0) (sym e) sorted_up,
        All-elem (λ k. elem k valid_cuts ≡ true) cuts
            (λ k mem.
              elem-All (λ k'. elem k' valid_cuts ≡ true) chosen k all_valid
                (sym (elem-sorted k chosen) ∙ ap (elem k) (sym e) ∙ mem)),
        ap suc (ap length e ∙ length-sorted chosen) ∙ parts-length plan pos,
      )
