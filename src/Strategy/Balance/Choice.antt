-- ===== src/Strategy/Balance/Choice.antt =====
-- strategies/cost.py: when balanced_cuts returns, and which cuts it chooses from.
use torch_slicer.Common.{
  ℕ, suc, ◌-◌, ◌≤◌, ◌<◌, false, List, [], ◌≡◌, ◌↔◌, inl, inr, refl, arith, Bool-cases, length, ok,
  not, subst, ltb, ◌==◌, ◌&&◌,
}
use torch_slicer.Common.Sorting.{sorted}
use torch_slicer.Strategy.Balance.{Floats, Terms, balanced_cuts, has_caps, blocks_of, trace}
use torch_slicer.Strategy.Balance.Order.{IsOrder}
use torch_slicer.Strategy.Balance.Plans.{Plan, Plan-low, no_caps-Plan}
use torch_slicer.Strategy.Balance.Optimal.{
  FullPlan, Plan-cell, balanced_cuts-Optimal, length-blocks_of,
}

module _ {F : Type 0} (floats : Floats F) (order : IsOrder floats) (costs : List F)
    (valid_cuts : List ℕ) (n : ℕ) (terms : Terms F) where
  -- A call returns exactly if some plan has `n` partitions within their caps.
  pub balanced_cuts-returns_iff :
      ((cuts : List ℕ) × (balanced_cuts floats costs valid_cuts n terms ≡ ok cuts))
      ↔ FullPlan floats costs valid_cuts n terms
  unfolding balanced_cuts
  balanced_cuts-returns_iff = (
    λ (cuts, h). (balanced_cuts-Optimal floats order costs valid_cuts n terms cuts h).0,
    λ plan.
        let all_blocks = blocks_of floats costs valid_cuts terms.mem in
        let m = length all_blocks in
        let enough : ltb m n ≡ false =
          let low = Plan-low floats all_blocks terms n plan in ground arith in
        elim (Bool-cases (n == 1 && not (has_caps floats terms))) [
          | inl whole ↦ ([], rw (enough, whole) refl)
          | inr split ↦
              let (b, at, _) =
                Plan-cell floats all_blocks terms n order n m plan (omega arith) (omega arith) in
              (sorted (trace floats all_blocks terms n n m), rw (enough, split, at) refl)
        ],
  )

  -- Without memory caps a call returns for every number of partitions from 1 to one more than the
  -- valid cuts.
  pub balanced_cuts-uncapped :
      has_caps floats terms ≡ false
      → 0 < n
      → n ≤ suc (length valid_cuts)
      → (cuts : List ℕ) × (balanced_cuts floats costs valid_cuts n terms ≡ ok cuts)
  balanced_cuts-uncapped off pos low =
      let all_blocks = blocks_of floats costs valid_cuts terms.mem in
      let size = length-blocks_of floats costs valid_cuts terms.mem in
      let one_less : suc (n - 1) ≡ n = omega arith in
      balanced_cuts-returns_iff.1 (
        subst (λ q. Plan floats all_blocks terms n q (length all_blocks)) one_less
          (no_caps-Plan floats all_blocks terms n off (n - 1) (length all_blocks) (omega arith)))
