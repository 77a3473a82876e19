-- ===== src/Strategy/Balance/Examples.antt =====
-- strategies/cost.py: the theorems at seven nodes in five blocks.
use torch_slicer.Common.{ℕ, ◌≡◌, ◌↔◌, arith, List, [], ◌∷◌, true, elem, All, length, suc, ok}
use torch_slicer.Common.Sorting.{IsIncreasing}
use torch_slicer.Strategy.Balance.{balanced_cuts}
use torch_slicer.Strategy.Balance.Samples.{whole, plain, costs, whole-IsOrder, three, no_caps}
use torch_slicer.Strategy.Balance.Optimal.{FullPlan, Optimal, balanced_cuts-Optimal}
use torch_slicer.Strategy.Balance.Choice.{balanced_cuts-returns_iff, balanced_cuts-uncapped}
use torch_slicer.Strategy.Balance.Valid.{balanced_cuts-valid}

abbrev ends : List ℕ
ends = 0 ∷ 2 ∷ 3 ∷ 4 ∷ []

balanced_cuts-Optimal_example : Optimal whole whole-IsOrder costs ends 3 plain (2 ∷ 4 ∷ [])
balanced_cuts-Optimal_example =
    balanced_cuts-Optimal whole whole-IsOrder costs ends 3 plain (2 ∷ 4 ∷ []) three

balanced_cuts-returns_iff_example :
    ((cuts : List ℕ) × (balanced_cuts whole costs ends 3 plain ≡ ok cuts))
    ↔ FullPlan whole costs ends 3 plain
balanced_cuts-returns_iff_example = balanced_cuts-returns_iff whole whole-IsOrder costs ends 3 plain

balanced_cuts-uncapped_example :
    (cuts : List ℕ) × (balanced_cuts whole costs ends 4 plain ≡ ok cuts)
balanced_cuts-uncapped_example =
    balanced_cuts-uncapped whole whole-IsOrder costs ends 4 plain no_caps (omega arith)
      (omega arith)

balanced_cuts-valid_example :
    IsIncreasing 0 (2 ∷ 4 ∷ [])
    × All (λ k. elem k ends ≡ true) (2 ∷ 4 ∷ [])
    × (suc (length {A = ℕ} (2 ∷ 4 ∷ [])) ≡ 3)
balanced_cuts-valid_example =
    balanced_cuts-valid whole costs ends plain 3 whole-IsOrder (2 ∷ 4 ∷ []) up (omega arith) three
  where
    up : IsIncreasing 0 ends
    up = (omega arith, (omega arith, (omega arith, (omega arith, tt))))
