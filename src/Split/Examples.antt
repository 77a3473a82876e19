-- ===== src/Split/Examples.antt =====
-- core/split_layer.py: the refinement theorem at a graph with a skip connection in two slices.
use torch_slicer.Common.{
  ◌-◌, some_injective, zero, suc, ◌≡◌, refl, arith, List, [], ◌∷◌, some, ok, ℕ, subst, Option,
  some_injective, ◌+◌, none,
}
use torch_slicer.Graph.{run_nodes}
use torch_slicer.Graph.Samples.{residual, residual-IsOrdered, adder, is_plain-InputLaws}
use torch_slicer.Strategy.Base.{
  intra_predecessors, locals, position_from, Partition, partition_of, validate,
}
use torch_slicer.Split.{CutHook, forward}
use torch_slicer.Split.Slices.{IsLive}
use torch_slicer.Split.Refinement.{IsSame, IsLossless, forward_lem}

abbrev two : List Partition
two = partition_of residual 0 (0 ∷ []) ∷ partition_of residual 1 (1 ∷ 2 ∷ 3 ∷ []) ∷ []

-- The hook of cut 0 sends a tensor with a number that it takes off again.
abbrev padded : ℕ → Option (CutHook ℕ ℕ)
padded zero = some record { encode = λ cut batch_id x. x + 100; decode = λ cut batch_id x. x - 100 }
padded (suc cut) = none

padded-IsLossless : IsLossless padded
padded-IsLossless zero hook e batch_id x =
    subst (λ (h : CutHook ℕ ℕ). h.decode 0 batch_id (h.encode 0 batch_id x) ≡ x) (some_injective e)
      (omega arith)
padded-IsLossless (suc cut) hook e batch_id x = absurd (cc)

-- The pass through the two slices on 3, with 10 as the extra tensor of the first layer.
sliced : forward adder padded residual two 6 3 (some 10) ≡ some 47
unfolding forward intra_predecessors locals position_from
sliced = refl

whole : run_nodes adder 3 (some 10) residual ≡ some (20 ∷ 22 ∷ 42 ∷ 47 ∷ [])
unfolding run_nodes
whole = refl

live : IsLive residual.nodes
live zero lt = (1, _, refl, refl)
live (suc zero) lt = (2, _, refl, refl)
live (suc (suc zero)) lt = (3, _, refl, refl)
live (suc (suc (suc i))) lt = absurd (omega arith)

accepted : validate residual two ≡ ok tt
unfolding validate
accepted = refl

forward_lem_example : IsSame adder padded 6 3 (some 10) residual two
forward_lem_example =
    forward_lem adder padded residual two 6 3 (some 10) padded-IsLossless residual-IsOrdered live
      (is_plain-InputLaws adder residual.nodes refl) (omega arith) (refl, (refl, tt)) accepted
