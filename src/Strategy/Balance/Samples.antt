-- ===== src/Strategy/Balance/Samples.antt =====
-- strategies/cost.py on small inputs, with whole numbers for floats.
use torch_slicer.Common.{
  ℕ, ◌+◌, ◌-◌, ◌*◌, ◌/◌, ltb, ◌≡◌, refl, List, [], ◌∷◌, none, ok, arith, false,
}
use torch_slicer.Strategy.Balance.Order.{IsOrder}
use torch_slicer.Strategy.Balance.{Floats, Terms, has_caps, balanced_cuts}

abbrev pub whole : Floats ℕ
whole = record {
  nought = 0;
  add = λ a b. a + b;
  sub = λ a b. a - b;
  mul = λ a b. a * b;
  div = λ a b. a / b;
  lt = ltb;
}

abbrev pub plain : Terms ℕ
plain = record { speeds = none; mem = none; caps = none; cut_cost = none; link_cost = λ p. 0 }

abbrev pub costs : List ℕ
costs = 3 ∷ 1 ∷ 4 ∷ 1 ∷ 5 ∷ 9 ∷ 2 ∷ []

pub three : balanced_cuts whole costs (0 ∷ 2 ∷ 3 ∷ 4 ∷ []) 3 plain ≡ ok (2 ∷ 4 ∷ [])
unfolding balanced_cuts
three = refl

pub whole-IsOrder : IsOrder whole
whole-IsOrder = record {
  irrefl = λ a. ground arith;
  trans = λ a b c h k. ground arith;
  total = λ a b c h k. ground arith;
}

pub no_caps : has_caps whole plain ≡ false
unfolding has_caps
no_caps = refl

-- The cuts after nodes 0, 2 and 4 have the same largest cost, 9, and a smaller sum of squares.
tie :
    balanced_cuts whole (4 ∷ 2 ∷ 1 ∷ 8 ∷ 1 ∷ 9 ∷ []) (0 ∷ 1 ∷ 2 ∷ 3 ∷ 4 ∷ []) 4 plain
    ≡ ok (2 ∷ 3 ∷ 4 ∷ [])
unfolding balanced_cuts
tie = refl
