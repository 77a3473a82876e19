-- ===== src/Strategy/Balance/Rows.antt =====
-- strategies/cost.py: the rows of balanced_cuts' table, and where their cells come from.
use torch_slicer.Common.{
  ℕ, zero, suc, ◌+◌, ◌-◌, ◌≤◌, ◌<◌, Bool, true, false, none, some, List, map, ◌≡◌, inl, inr, refl,
  arith, Bool-cases, Option-cases, length, count_up, get_elem?, leb, ◌&&◌, if◌then◌else◌, ap,
  leb_iff, dec_le, ◌∙◌, sym, and-eq-true, dec_lt,
}
use torch_slicer.Strategy.Balance.{
  Floats, Terms, Block, Cell, scan, candidate, best_at, row, next_row, back_at, unset, larger,
  part_cost, fits,
}
use torch_slicer.Strategy.Balance.Scan.{offer, scan_cases}

get_elem?-map-count_up {ℓ} :
    {A : Type ℓ} (f : ℕ → A) (start len k : ℕ)
    → k < len
    → get_elem? (map f (count_up start len)) k ≡ some (f (start + k))
get_elem?-map-count_up f start zero k lt = absurd (omega arith)
get_elem?-map-count_up f start (suc len) zero lt = ap (λ i. some (f i)) (omega arith)
get_elem?-map-count_up f start (suc len) (suc k) lt =
    get_elem?-map-count_up f (suc start) len k (omega arith) ∙ ap (λ i. some (f i)) (omega arith)

get_elem?-none-count_up {ℓ} :
    {A : Type ℓ} (f : ℕ → A) (start len k : ℕ)
    → len ≤ k
    → get_elem? (map f (count_up start len)) k ≡ none
get_elem?-none-count_up f start zero k le = refl
get_elem?-none-count_up f start (suc len) zero le = absurd (omega arith)
get_elem?-none-count_up f start (suc len) (suc k) le =
    get_elem?-none-count_up f (suc start) len k (omega arith)

module _ {F : Type 0} (floats : Floats F) (blocks : List (Block F)) (terms : Terms F) (n : ℕ) where
  abbrev pub table : ℕ → List (Cell F)
  table p = row floats blocks terms n p

  -- The cell that the loop makes at `j` of row `suc p`.
  abbrev pub made : ℕ → ℕ → Cell F
  made p j = scan floats blocks terms n (suc p) j (table p) p (j - p) (unset floats)

  abbrev entry : ℕ → ℕ → Cell F
  entry p j =
      if leb (suc p) j && leb (j + (n - suc p)) (length blocks)
      then scan floats blocks terms n (suc p) j (table p) (suc p - 1) (j - (suc p - 1))
          (unset floats)
      else unset floats

  row_lem : (p : ℕ) → table (suc p) ≡ map (entry p) (count_up 0 (suc (length blocks)))
  unfolding row next_row
  row_lem p = refl

  -- Whether the loop of row `suc p` reaches `j`.
  abbrev in_row : ℕ → ℕ → Bool
  in_row p j = leb (suc p) j && leb (j + (n - suc p)) (length blocks)

  entry_at : (p j : ℕ) → j ≤ length blocks → get_elem? (table (suc p)) j ≡ some (entry p j)
  entry_at p j le =
      ap (λ cells. get_elem? cells j) (row_lem p)
      ∙ get_elem?-map-count_up (entry p) 0 (suc (length blocks)) j (omega arith)
      ∙ ap (λ k. some (entry p k)) (omega arith)

  entry-made : (p j : ℕ) → in_row p j ≡ true → entry p j ≡ made p j
  entry-made p j h =
      let back_one : suc p - 1 ≡ p = omega arith in
      rw h
        (ap (λ q. scan floats blocks terms n (suc p) j (table p) q (j - q) (unset floats)) back_one)

  entry-unset : (p j : ℕ) → in_row p j ≡ false → entry p j ≡ unset floats
  entry-unset p j h = rw h refl

  pub cell_lem :
      (p j : ℕ)
      → suc p ≤ j
      → j + (n - suc p) ≤ length blocks
      → get_elem? (table (suc p)) j ≡ some (made p j)
  cell_lem p j low high = entry_at p j (omega arith) ∙ ap some (entry-made p j (ground arith))

  pub best_at-some :
      (cells : List (Cell F)) (j : ℕ) (cell : Cell F)
      → get_elem? cells j ≡ some cell
      → best_at floats cells j ≡ cell.best
  unfolding best_at
  best_at-some cells j cell at = ap (λ found. elim found [ none ↦ none | some c ↦ c.best ]) at

  best_at-none :
      (cells : List (Cell F)) (j : ℕ) → get_elem? cells j ≡ none → best_at floats cells j ≡ none
  unfolding best_at
  best_at-none cells j at = rw (best_at, at) refl

  in_row-best :
      (p j : ℕ) (b : F × F) → best_at floats (table (suc p)) j ≡ some b → in_row p j ≡ true
  in_row-best p j b at = elim (dec_le j (length blocks)) [
    | no out ↦ absurd (
        let e = best_at-none (table (suc p)) j (
          ap (λ cells. get_elem? cells j) (row_lem p)
          ∙ get_elem?-none-count_up (entry p) 0 (suc (length blocks)) j (omega arith)) in
        cc)
    | yes within ↦ elim (Bool-cases (in_row p j)) [
      | inl h ↦ h
      | inr h ↦ absurd (
          let e = best_at-some (table (suc p)) j (entry p j) (entry_at p j within) in
          let f = entry-unset p j h in let g : (unset floats).best ≡ none = refl in cc)
    ]
  ]

  -- The candidate `k` of a cell, read back.
  candidate-some :
      (p j k : ℕ) (v : F × F)
      → offer floats blocks terms n (suc p) j (table p) k ≡ some v
      → (prev : F × F) × (best_at floats (table p) k ≡ some prev)
        × (fits floats blocks terms n (suc p) k j ≡ true)
        × (v.0 ≡ larger floats prev.0 (part_cost floats blocks terms n (suc p) k j))
  unfolding candidate
  candidate-some p j k v h = elim (Option-cases (best_at floats (table p) k)) [
    | inl empty ↦ absurd (let h' = rw (offer, candidate, empty) at h in cc)
    | inr (prev, at) ↦ elim (Bool-cases (fits floats blocks terms n (suc p) k j)) [
      | inl fit ↦ (
        prev,
        at,
        fit,
        let h' = rw (offer, candidate, at, fit) at h in
            sym (ap (λ o. elim o [ none ↦ prev.0 | some x ↦ x.0 ]) h'),
      )
      | inr fit ↦ absurd (let h' = rw (offer, candidate, at, fit) at h in cc)
    ]
  ]

  back_at-some :
      (p j : ℕ) (cell : Cell F)
      → get_elem? (table p) j ≡ some cell
      → back_at floats blocks terms n p j ≡ cell.back
  unfolding back_at
  back_at-some p j cell at = ap (λ found. elim found [ none ↦ 0 | some c ↦ c.back ]) at

  -- A filled cell was filled from a cell of the row above, where `back` points.
  pub came_from :
      (p j : ℕ) (b : F × F)
      → best_at floats (table (suc p)) j ≡ some b
      → (k : ℕ) × (prev : F × F) × (k < j)
        × (best_at floats (table p) k ≡ some prev)
        × (fits floats blocks terms n (suc p) k j ≡ true)
        × (b.0 ≡ larger floats prev.0 (part_cost floats blocks terms n (suc p) k j))
        × (back_at floats blocks terms n (suc p) j ≡ k)
  came_from p j b at =
      let row_test = and-eq-true _ _ (in_row-best p j b at) in
      let low = (leb_iff (suc p) j).0 row_test.0 in
      let high = (leb_iff (j + (n - suc p)) (length blocks)).0 row_test.1 in
      let cell = cell_lem p j low high in
      let filled = best_at-some (table (suc p)) j (made p j) cell in
      elim (scan_cases floats blocks terms n (suc p) j (table p) p (j - p) (unset floats)) [
        | inl same ↦ absurd (let e = ap (λ (c : Cell F). c.best) same in cc)
        | inr (k, v, from, below, offered, made_eq) ↦
            let (prev, prev_at, fit, cost) = candidate-some p j k v offered in
            let e : some b ≡ some v = sym at ∙ filled ∙ ap (λ (c : Cell F). c.best) made_eq in
            (
              k,
              prev,
              omega arith,
              prev_at,
              fit,
              ap (λ o. elim o [ none ↦ prev.0 | some x ↦ x.0 ]) e ∙ cost,
              back_at-some (suc p) j (made p j) cell ∙ ap (λ (c : Cell F). c.back) made_eq,
            )
      ]

  pub first-cell :
      (j : ℕ) (b : F × F) → best_at floats (table 0) j ≡ some b → (j ≡ 0) × (b.0 ≡ floats.nought)
  unfolding row best_at
  first-cell zero b at = (refl, sym (ap (λ o. elim o [ none ↦ floats.nought | some x ↦ x.0 ]) at))
  first-cell (suc j) b at =
      let blank = map (λ j. unset floats) (count_up 1 (length blocks)) in
      elim (dec_lt j (length blocks)) [
        | yes lt ↦ absurd (
            let e =
              best_at-some blank j (unset floats)
                (get_elem?-map-count_up (λ j. unset floats) 1 (length blocks) j lt) in
            let at' : best_at floats blank j ≡ some b = at in
            let e2 : (unset floats).best ≡ none = refl in cc)
        | no ge ↦ absurd (
            let e =
              best_at-none blank j
                (get_elem?-none-count_up (λ j. unset floats) 1 (length blocks) j (omega arith)) in
            let at' : best_at floats blank j ≡ some b = at in cc)
      ]
