-- ===== src/Strategy/Balance/Optimal.antt =====
-- strategies/cost.py: balanced_cuts finds the best plan, and every failure is for want of one.
use torch_slicer.Common.{
  ℕ, zero, suc, ◌+◌, ◌-◌, ◌≤◌, ◌<◌, true, false, none, some, List, [], ◌∷◌, ◌++◌, ◌≡◌, inl, inr,
  refl, arith, Bool-cases, Option, Option-cases, length, ◌&&◌, ◌==◌, ok, not, sym, ap, ◌∙◌, subst,
  ltb, and-eq-true, ==_iff, not-eq-true, ok_injective, length-append,
}
use torch_slicer.Common.Sorting.{sorted}
use torch_slicer.Strategy.Balance.{
  Floats, Terms, Block, blocks_from, blocks_of, balanced_cuts, has_caps, trace, best_at, fits,
  part_cost, larger, candidate, row, last_node, back_at, unset,
}
use torch_slicer.Strategy.Balance.Order.{IsOrder, Le, le_trans, larger_mono}
use torch_slicer.Strategy.Balance.Plans.{Plan, nil, part, worst, cuts_of, Plan-low, no_caps-Plan}
use torch_slicer.Strategy.Balance.Scan.{offer, scan_takes}
use torch_slicer.Strategy.Balance.Rows.{table, made, best_at-some, cell_lem, came_from, first-cell}

module _ {F : Type 0} (floats : Floats F) (blocks : List (Block F)) (terms : Terms F) (n : ℕ) where
  cuts-part :
      (p j k : ℕ) (plan : Plan floats blocks terms n p k) (lt : k < j)
      (fit : fits floats blocks terms n (suc p) k j ≡ true)
      → back_at floats blocks terms n (suc p) j ≡ k
      → cuts_of floats blocks terms n plan ≡ trace floats blocks terms n p k
      → cuts_of floats blocks terms n (part j plan lt fit) ≡ trace floats blocks terms n (suc p) j
  unfolding trace
  cuts-part zero j k plan lt fit back same = refl
  cuts-part (suc p) j k plan lt fit back same =
      ap (λ rest. last_node floats blocks terms n (k - 1) ∷ rest) same
      ∙ ap (λ i. last_node floats blocks terms n (i - 1) ∷ trace floats blocks terms n (suc p) i)
          (sym back)

  -- What a cell of the table holds is the worst partition of a plan, and going back from it
  -- gives that plan's cuts.
  pub cell-Plan :
      (p j : ℕ) (b : F × F)
      → best_at floats (table floats blocks terms n p) j ≡ some b
      → (plan : Plan floats blocks terms n p j) × (worst floats blocks terms n plan ≡ b.0)
        × (cuts_of floats blocks terms n plan ≡ trace floats blocks terms n p j)
  unfolding trace
  cell-Plan zero zero b at = (nil, sym (first-cell floats blocks terms n zero b at).1, refl)
  cell-Plan zero (suc j) b at =
      absurd (let e = (first-cell floats blocks terms n (suc j) b at).0 in omega arith)
  cell-Plan (suc p) j b at =
      let (k, prev, lt, prev_at, fit, cost, back) = came_from floats blocks terms n p j b at in
      let (plan, plan_worst, plan_cuts) = cell-Plan p k prev prev_at in
      (
        part j plan lt fit,
        ap (λ w. larger floats w (part_cost floats blocks terms n (suc p) k j)) plan_worst
            ∙ sym cost,
        cuts-part p j k plan lt fit back plan_cuts,
      )

  module _ (order : IsOrder floats) where
    -- No plan is better than what the table holds.
    pub Plan-cell :
        (p j : ℕ) (plan : Plan floats blocks terms n p j)
        → p ≤ n
        → j + (n - p) ≤ length blocks
        → (b : F × F) × (best_at floats (table floats blocks terms n p) j ≡ some b)
          × Le floats b.0 (worst floats blocks terms n plan)
    unfolding row best_at candidate
    Plan-cell zero zero nil le high =
        ((floats.nought, floats.nought), refl, order.irrefl floats.nought)
    Plan-cell zero (suc _) plan le high = elim plan [ ]
    Plan-cell (suc p) j (part {i = i} _ plan lt fit) le high =
        let (prev, prev_at, prev_le) = Plan-cell p i plan (omega arith) (omega arith) in
        let cost = part_cost floats blocks terms n (suc p) i j in
        let v : F × F = (larger floats prev.0 cost, floats.add prev.1 (floats.mul cost cost)) in
        let offered : offer floats blocks terms n (suc p) j (table floats blocks terms n p) i
            ≡ some v =
          rw (offer, candidate, prev_at, fit) refl in
        let (b, b_at, b_le) =
          scan_takes floats blocks terms n (suc p) j (table floats blocks terms n p) order p (j - p)
            (unset floats) i v (Plan-low floats blocks terms n plan) (omega arith) offered in
        (
          b,
          best_at-some floats blocks terms n (table floats blocks terms n (suc p)) j
                (made floats blocks terms n p j)
                (cell_lem floats blocks terms n p j
                  (let low = Plan-low floats blocks terms n plan in omega arith) high)
              ∙ b_at,
          le_trans floats order b.0 v.0 _ b_le
              (larger_mono floats order prev.0 (worst floats blocks terms n plan) cost prev_le),
        )

    -- Going back from a filled cell of the last row gives the cuts of a plan that no plan beats.
    best-Plan :
        (j : ℕ) (b : F × F)
        → best_at floats (table floats blocks terms n n) j ≡ some b
        → j ≤ length blocks
        → (plan : Plan floats blocks terms n n j) × (trace floats blocks terms n n j
            ≡ cuts_of floats blocks terms n plan)
          × ((other : Plan floats blocks terms n n j)
              → Le floats (worst floats blocks terms n plan) (worst floats blocks terms n other))
    best-Plan j b at low =
        let (plan, cost, cuts) = cell-Plan n j b at in
        (
          plan,
          sym cuts,
          λ other.
              let (b', at', le) = Plan-cell n j other (omega arith) (omega arith) in
              let same : b'.0 ≡ worst floats blocks terms n plan =
                ap (λ o. elim o [ none ↦ b'.0 | some x ↦ x.0 ]) (sym at' ∙ at) ∙ sym cost in
              subst (λ w. Le floats w (worst floats blocks terms n other)) same le,
        )

length-blocks_from :
    {F : Type 0} (floats : Floats F) (costs : List F) (mem : Option (List F)) (start : ℕ)
    (ends : List ℕ)
    → length (blocks_from floats costs mem start ends) ≡ length ends
unfolding blocks_from
length-blocks_from floats costs mem start [] = refl
length-blocks_from floats costs mem start (k ∷ ks) =
    ap suc (length-blocks_from floats costs mem (suc k) ks)

pub length-blocks_of :
    {F : Type 0} (floats : Floats F) (costs : List F) (valid_cuts : List ℕ) (mem : Option (List F))
    → length (blocks_of floats costs valid_cuts mem) ≡ suc (length valid_cuts)
unfolding blocks_of
length-blocks_of floats costs valid_cuts mem =
    length-blocks_from floats costs mem 0 (valid_cuts ++ (length costs - 1) ∷ [])
    ∙ length-append valid_cuts ((length costs - 1) ∷ [])
    ∙ omega arith

-- The plans for all the blocks that `balanced_cuts` makes of its arguments.
abbrev pub FullPlan : {F : Type 0} → Floats F → List F → List ℕ → ℕ → Terms F → Type 0
FullPlan floats costs valid_cuts n terms =
    let blocks = blocks_of floats costs valid_cuts terms.mem in
    Plan floats blocks terms n n (length blocks)

abbrev pub full_worst :
    {F : Type 0} (floats : Floats F) (costs : List F) (valid_cuts : List ℕ) (n : ℕ)
    (terms : Terms F)
    → FullPlan floats costs valid_cuts n terms
    → F
full_worst floats costs valid_cuts n terms plan =
    worst floats (blocks_of floats costs valid_cuts terms.mem) terms n plan

abbrev pub full_cuts :
    {F : Type 0} (floats : Floats F) (costs : List F) (valid_cuts : List ℕ) (n : ℕ)
    (terms : Terms F)
    → FullPlan floats costs valid_cuts n terms
    → List ℕ
full_cuts floats costs valid_cuts n terms plan =
    cuts_of floats (blocks_of floats costs valid_cuts terms.mem) terms n plan

module _ {F : Type 0} (floats : Floats F) (order : IsOrder floats) (costs : List F)
    (valid_cuts : List ℕ) (n : ℕ) (terms : Terms F) where
  abbrev pub Optimal : List ℕ → Type 0
  Optimal cuts =
      (plan : FullPlan floats costs valid_cuts n terms) × (cuts
        ≡ sorted (full_cuts floats costs valid_cuts n terms plan))
      × ((other : FullPlan floats costs valid_cuts n terms)
          → Le floats (full_worst floats costs valid_cuts n terms plan)
              (full_worst floats costs valid_cuts n terms other))

  abbrev pub blocks : List (Block F)
  blocks = blocks_of floats costs valid_cuts terms.mem

  early : n ≡ 1 → has_caps floats terms ≡ false → 0 < length blocks → Optimal []
  unfolding trace sorted
  early one off low =
      let m = length blocks in
      let some_plan =
        subst (λ q. Plan floats blocks terms n q m) (sym one)
          (no_caps-Plan floats blocks terms n off 0 m low) in
      let (b, at, _) =
        Plan-cell floats blocks terms n order n m some_plan (omega arith) (omega arith) in
      let (plan, cuts, best) = best-Plan floats blocks terms n order m b at (omega arith) in
      (plan, ap sorted (sym (ap (λ q. trace floats blocks terms n q m) one) ∙ cuts), best)

  -- A call that returns gives the cuts of a plan within the memory caps whose largest partition
  -- cost no other such plan is below; the comparison of costs is a total order.
  pub balanced_cuts-Optimal :
      (cuts : List ℕ) → balanced_cuts floats costs valid_cuts n terms ≡ ok cuts → Optimal cuts
  unfolding balanced_cuts
  balanced_cuts-Optimal cuts h = elim (Bool-cases (ltb (length blocks) n)) [
    | inl few ↦ absurd (let h' = rw few at h in cc)
    | inr enough ↦ elim (Bool-cases (n == 1 && not (has_caps floats terms))) [
      | inl whole ↦
          let h' = rw (enough, whole) at h in
          let (one, off) = and-eq-true (n == 1) (not (has_caps floats terms)) whole in
          let none_cut : [] ≡ cuts = ok_injective h' in
          subst Optimal none_cut (
            early ((==_iff n 1).0 one) (not-eq-true _ off)
              (omega (arith, length-blocks_of floats costs valid_cuts terms.mem)))
      | inr split ↦
          elim (Option-cases (best_at floats (table floats blocks terms n n) (length blocks))) [
            | inl none_fits ↦ absurd (let h' = rw (enough, split, none_fits) at h in cc)
            | inr (b, at) ↦
                let h' = rw (enough, split, at) at h in
                let (plan, cuts, best) =
                  best-Plan floats blocks terms n order (length blocks) b at (omega arith) in
                (plan, sym (ok_injective h') ∙ ap sorted cuts, best)
          ]
    ]
  ]
