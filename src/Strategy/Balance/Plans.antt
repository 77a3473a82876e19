-- ===== src/Strategy/Balance/Plans.antt =====
-- strategies/cost.py: the ways to cut the blocks that the memory caps allow, and their largest
-- partition cost, of which balanced_cuts looks for the smallest.
use torch_slicer.Common.{
  refl, ℕ, zero, suc, ◌-◌, ◌≤◌, ◌<◌, List, [], ◌∷◌, ◌≡◌, true, arith, false, Option-cases, inl, inr,
}
use torch_slicer.Strategy.Balance.{
  Floats, Terms, Block, larger, fits, part_cost, last_node, has_caps,
}

module _ {F : Type 0} (floats : Floats F) (blocks : List (Block F)) (terms : Terms F) (n : ℕ) where
  -- The first `j` blocks in `p` non-empty partitions, each within its cap.
  pub data Plan : ℕ → ℕ → Type 0 where
    nil : Plan 0 0
    part :
        {p i : ℕ} (j : ℕ)
        → Plan p i
        → i < j
        → fits floats blocks terms n (suc p) i j ≡ true
        → Plan (suc p) j

  -- The largest partition cost.
  abbrev pub worst : {p j : ℕ} → Plan p j → F
  worst nil = floats.nought
  worst (part {p} {i} j plan lt fit) =
      larger floats (worst plan) (part_cost floats blocks terms n (suc p) i j)

  -- The nodes after which the plan cuts, from the last to the first.
  abbrev pub cuts_of : {p j : ℕ} → Plan p j → List ℕ
  cuts_of nil = []
  cuts_of (part {p = zero} j plan lt fit) = []
  cuts_of (part {p = suc p} {i} j plan lt fit) =
      last_node floats blocks terms n (i - 1) ∷ cuts_of plan

  pub Plan-low : {p j : ℕ} → Plan p j → p ≤ j
  Plan-low nil = omega arith
  Plan-low (part j plan lt fit) = omega (arith, Plan-low plan)

  no_caps-fits :
      has_caps floats terms ≡ false → (p i j : ℕ) → fits floats blocks terms n p i j ≡ true
  unfolding fits has_caps
  no_caps-fits h p i j = elim (Option-cases terms.caps) [
    | inl empty ↦ rw empty refl
    | inr (caps, at) ↦ absurd (let h' = rw (has_caps, at) at h in cc)
  ]

  -- Without caps there is a plan whenever there are enough blocks.
  pub no_caps-Plan : has_caps floats terms ≡ false → (p j : ℕ) → p < j → Plan (suc p) j
  no_caps-Plan h zero j lt = part j nil lt (no_caps-fits h 1 0 j)
  no_caps-Plan h (suc p) j lt =
      part j (no_caps-Plan h p (j - 1) (omega arith)) (omega arith)
        (no_caps-fits h (suc (suc p)) (j - 1) j)
