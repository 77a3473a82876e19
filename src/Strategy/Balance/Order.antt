-- ===== src/Strategy/Balance/Order.antt =====
-- strategies/cost.py: what balanced_cuts relies on of the comparison of floats, and what
-- follows for `max` and for the comparison of pairs. There is no NaN among the costs.
use mathlib.Core.Bool.{false≢true}
use torch_slicer.Common.{true, false, ◌≡◌, arith, Bool-cases, inl, sym, ◌∙◌, inr}
use torch_slicer.Strategy.Balance.{Floats, larger, pair_lt}

pub record IsOrder {F : Type 0} (floats : Floats F) : Type 0 where
  pub irrefl : (a : F) → floats.lt a a ≡ false
  pub trans : (a b c : F) → floats.lt a b ≡ true → floats.lt b c ≡ true → floats.lt a c ≡ true
  pub total : (a b c : F) → floats.lt a b ≡ false → floats.lt b c ≡ false → floats.lt a c ≡ false

-- a <= b
abbrev pub Le : {F : Type 0} → Floats F → F → F → Type 0
Le floats a b = floats.lt b a ≡ false

module _ {F : Type 0} (floats : Floats F) (order : IsOrder floats) where
  open floats use {lt}

  pub le_trans : (a b c : F) → Le floats a b → Le floats b c → Le floats a c
  le_trans a b c h k = order.total c b a k h

  le_of_lt : (a b : F) → lt a b ≡ true → Le floats a b
  le_of_lt a b h = elim (Bool-cases (lt b a)) [
    | inl back ↦ absurd (false≢true (sym (order.irrefl a) ∙ order.trans a b a h back))
    | inr up ↦ up
  ]

  pub le-larger_left : (a b : F) → Le floats a (larger floats a b)
  le-larger_left a b = ground (arith, le_of_lt a b, order.irrefl a)

  pub le-larger_right : (a b : F) → Le floats b (larger floats a b)
  le-larger_right a b = ground (arith, order.irrefl b)

  pub larger-le : (a b c : F) → Le floats a c → Le floats b c → Le floats (larger floats a b) c
  larger-le a b c h k = ground arith

  pub larger_mono : (a b c : F) → Le floats a b → Le floats (larger floats a c) (larger floats b c)
  larger_mono a b c h =
      larger-le a c (larger floats b c) (le_trans a b _ h (le-larger_left b c))
        (le-larger_right b c)

  pub le_of_pair : (x y : F × F) → pair_lt floats x y ≡ true → Le floats x.0 y.0
  le_of_pair (a, b) (c, d) h = ground (arith, le_of_lt a c)

  pub ge_of_pair : (x y : F × F) → pair_lt floats x y ≡ false → Le floats y.0 x.0
  ge_of_pair (a, b) (c, d) h = ground arith
