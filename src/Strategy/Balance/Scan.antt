-- ===== src/Strategy/Balance/Scan.antt =====
-- strategies/cost.py: the loop of balanced_cuts over where the partition before ends.
use torch_slicer.Common.{
  ℕ, zero, suc, ◌+◌, ◌≤◌, ◌<◌, none, some, List, ◌≡◌, ◌⊎◌, inl, inr, refl, arith, Bool-cases,
  Option, Option-cases, dec_lt, subst, sym, ◌∙◌, ap,
}
use torch_slicer.Strategy.Balance.{
  Floats, Terms, Block, Cell, improve, pair_lt, scan, candidate, best_at,
}
use torch_slicer.Strategy.Balance.Order.{IsOrder, Le, le_trans, le_of_pair, ge_of_pair}

module _ {F : Type 0} (floats : Floats F) where
  -- The cell holds a value of which the first part is at most `bound`.
  abbrev pub Reaches : Cell F → F → Type 0
  Reaches cell bound = (b : F × F) × (cell.best ≡ some b) × Le floats b.0 bound

  improve_cases :
      (i : ℕ) (cand : Option (F × F)) (cell : Cell F)
      → (improve floats i cand cell ≡ cell)
        ⊎ ((v : F × F) × (cand ≡ some v)
            × (improve floats i cand cell ≡ record { best = some v; back = i }))
  unfolding improve
  improve_cases i none cell = inl refl
  improve_cases i (some v) cell = elim (Option-cases cell.best) [
    | inl empty ↦ inr (v, refl, (rw empty))
    | inr (old, at) ↦ elim (Bool-cases (pair_lt floats v old)) [
      | inl lt ↦ inr (v, refl, (rw (at, lt)))
      | inr ge ↦ inl (rw (at, ge))
    ]
  ]

  module _ (order : IsOrder floats) where
    improve_keeps :
        (i : ℕ) (cand : Option (F × F)) (cell : Cell F) (bound : F)
        → Reaches cell bound
        → Reaches (improve floats i cand cell) bound
    unfolding improve
    improve_keeps i none cell bound h = h
    improve_keeps i (some v) cell bound (b, at, le) = elim (Bool-cases (pair_lt floats v b)) [
      | inl lt ↦ (
        v,
        (rw (at, lt)),
        le_trans floats order v.0 b.0 bound (le_of_pair floats order v b lt) le,
      )
      | inr ge ↦ (b, (rw (at, ge)), le)
    ]

    improve_takes :
        (i : ℕ) (v : F × F) (cell : Cell F) → Reaches (improve floats i (some v) cell) v.0
    unfolding improve
    improve_takes i v cell = elim (Option-cases cell.best) [
      | inl empty ↦ (v, (rw empty), order.irrefl v.0)
      | inr (old, at) ↦ elim (Bool-cases (pair_lt floats v old)) [
        | inl lt ↦ (v, (rw (at, lt)), order.irrefl v.0)
        | inr ge ↦ (old, (rw (at, ge)), ge_of_pair floats order v old ge)
      ]
    ]

  module _ (blocks : List (Block F)) (terms : Terms F) (n p j : ℕ) (above : List (Cell F)) where
    -- The candidate of round `k`.
    abbrev pub offer : ℕ → Option (F × F)
    offer k = candidate floats blocks terms n p k j (best_at floats above k)

    -- What the loop leaves is the cell before it or the candidate of one of its rounds.
    pub scan_cases :
        (i count : ℕ) (cell : Cell F)
        → (scan floats blocks terms n p j above i count cell ≡ cell)
          ⊎ ((k : ℕ) × (v : F × F) × (i ≤ k)
              × (k < i + count)
              × (offer k ≡ some v)
              × (scan floats blocks terms n p j above i count cell
                  ≡ record { best = some v; back = k }))
    unfolding scan
    scan_cases i zero cell = inl refl
    scan_cases i (suc count) cell =
        elim (scan_cases (suc i) count (improve floats i (offer i) cell)) [
          | inr (k, v, low, high, at, e) ↦ inr (k, v, omega arith, omega arith, at, e)
          | inl same ↦ elim (improve_cases i (offer i) cell) [
            | inl kept ↦ inl (cc)
            | inr (v, at, e) ↦ inr (i, v, omega arith, omega arith, at, (cc))
          ]
        ]

    module _ (order : IsOrder floats) where
      scan_keeps :
          (i count : ℕ) (cell : Cell F) (bound : F)
          → Reaches cell bound
          → Reaches (scan floats blocks terms n p j above i count cell) bound
      unfolding scan
      scan_keeps i zero cell bound h = h
      scan_keeps i (suc count) cell bound h =
          scan_keeps (suc i) count (improve floats i (offer i) cell) bound
            (improve_keeps order i (offer i) cell bound h)

      -- The loop leaves nothing worse than any of its candidates.
      pub scan_takes :
          (i count : ℕ) (cell : Cell F) (k : ℕ) (v : F × F)
          → i ≤ k
          → k < i + count
          → offer k ≡ some v
          → Reaches (scan floats blocks terms n p j above i count cell) v.0
      unfolding scan
      scan_takes i zero cell k v low high at = absurd (omega arith)
      scan_takes i (suc count) cell k v low high at = elim (dec_lt i k) [
        | yes lt ↦ scan_takes (suc i) count _ k v lt (omega arith) at
        | no ge ↦
            let here : k ≡ i = omega arith in
            scan_keeps (suc i) count _ v.0 (
              subst (λ o. Reaches (improve floats i o cell) v.0) (sym at ∙ ap offer here)
                (improve_takes order i v cell))
      ]
