-- ===== src/Strategy/Recovery/Survivors.antt =====
-- executors/distributed.py: every number of survivors gets as many partitions on a plain sequence of
-- modules, unless the planner fails with another exception than ValueError.
use torch_slicer.Common.{
  ℕ, zero, suc, ◌+◌, ◌-◌, ◌≤◌, ◌<◌, String, ◌≡◌, ◌⊎◌, inl, inr, refl, sym, ap, ◌∙◌, subst, false,
  Option, none, some, List, ◌∷◌, ◌==◌, ==_iff, length, take, drop, range, count_up, length-count_up,
  Result, ok, raise, Bool-cases, arith, ap₂, dec_lt,
}
use torch_slicer.Graph.{ModelGraph, chain}
use torch_slicer.Graph.Chains.{chain-IsOrdered, length-chain}
use torch_slicer.Strategy.Base.{Partition, validate}
use torch_slicer.Strategy.Tiles.{IsTiling}
use torch_slicer.Strategy.Accepts.{tiling-accepted}
use torch_slicer.Strategy.Uniform.{spread}
use torch_slicer.Strategy.Uniform.Sizes.{
  Exhausts, total, total-zero, spread-Exhausts, total-spread_all,
}
use torch_slicer.Strategy.Uniform.Chains.{All-IsSealed}
use torch_slicer.Strategy.Recovery.{
  PlannerError, value_error, other_error, planner_failed, groups_from, groups_of, number_groups,
  fall_back, recovery_partitions, PlannerError,
}

take-count_up : (k a len : ℕ) → k ≤ len → take k (count_up a len) ≡ count_up a k
take-count_up zero a len le = refl
take-count_up (suc k) a zero le = absurd (omega arith)
take-count_up (suc k) a (suc len) le = ap (λ xs. a ∷ xs) (take-count_up k (suc a) len (omega arith))

drop-count_up : (k a len : ℕ) → k ≤ len → drop k (count_up a len) ≡ count_up (a + k) (len - k)
drop-count_up zero a len le = ap₂ count_up (omega arith) (omega arith)
drop-count_up (suc k) a zero le = absurd (omega arith)
drop-count_up (suc k) a (suc len) le =
    drop-count_up k (suc a) len (omega arith) ∙ ap₂ count_up (omega arith) (omega arith)

module _ {M : Type 0} (g : ModelGraph M) (size_of : ℕ → ℕ) (n layers : ℕ)
    (exhausts : Exhausts size_of n layers) (whole : total size_of n ≡ layers) where
  groups-IsTiling :
      (count i start : ℕ)
      → i + count ≡ n
      → start ≡ total size_of i
      → IsTiling start layers
          (number_groups g i (groups_from (count_up 0 layers) size_of count i start))
        × (length (number_groups g i (groups_from (count_up 0 layers) size_of count i start))
            ≡ count)
  unfolding groups_from number_groups total
  groups-IsTiling zero i start all at =
      let same : total size_of i ≡ total size_of n = ap (total size_of) (omega arith) in
      (omega arith, refl)
  groups-IsTiling (suc count) i start all at =
      let size = exhausts.grows i (omega arith) in
      let inside : start + size_of i ≤ layers = elim (dec_lt (suc i) n) [
        | yes lt ↦
            let low : total size_of i + size_of i < layers = exhausts.starts (suc i) lt in
            omega arith
        | no ge ↦
            let last : total size_of (suc i) ≡ layers =
              (let e : suc i ≡ n = omega arith in ap (total size_of) e ∙ whole) in
            let last' : total size_of i + size_of i ≡ layers = last in omega arith
      ] in
      let (tiling, size_eq) =
        groups-IsTiling count (suc i) (start + size_of i) (omega arith) (omega arith) in
      let run : take (size_of i) (drop start (count_up 0 layers))
          ≡ count_up start (suc (size_of i - 1)) =
        ap (take (size_of i)) (drop-count_up start 0 layers (omega arith))
        ∙ take-count_up (size_of i) (0 + start) (layers - start) (omega arith)
        ∙ (let from : 0 + start ≡ start = omega arith in
            let long : size_of i ≡ suc (size_of i - 1) = omega arith in ap₂ count_up from long) in
      let next : start + size_of i ≡ suc (start + (size_of i - 1)) = omega arith in
      (
        (
          size_of i - 1,
          run,
          subst
              (λ a. IsTiling a layers (
                number_groups g (suc i)
                  (groups_from (count_up 0 layers) size_of count (suc i) (start + size_of i))))
              next tiling,
        ),
        ap suc size_eq,
      )

module _ {M : Type 0} (modules : List (String × M)) (source : String) (n : ℕ) (pos : 0 < n)
    (fits : n ≤ length modules) where
  abbrev g : ModelGraph M
  g = chain modules source

  fall_back-chain :
      {E : Type 0}
      → (partitions : List Partition) × (fall_back {E = E} g n ≡ ok partitions)
        × (validate g partitions ≡ ok tt)
        × (length partitions ≡ n)
  unfolding fall_back groups_of
  fall_back-chain {E} =
      let layers = length g.nodes in
      let size = length-chain modules source in
      let every : length (range 0 layers) ≡ layers = length-count_up 0 (layers - 0) ∙ omega arith in
      let (tiling, count) =
        groups-IsTiling g (spread layers n) n layers (spread-Exhausts layers n pos (omega arith))
          (total-spread_all layers n pos (omega arith)) n 0 0 (omega arith)
          (let z = total-zero (spread layers n) in omega arith) in
      let made = number_groups g 0 (groups_of (range 0 layers) n) in
      let from_zero : range 0 layers ≡ count_up 0 layers =
        (let e : layers - 0 ≡ layers = omega arith in ap (count_up 0) e) in
      let same : number_groups g 0 (groups_from (count_up 0 layers) (spread layers n) n 0 0)
          ≡ made =
        sym (ap₂ (λ xs m. number_groups g 0 (groups_from xs (spread m n) n 0 0)) from_zero every) in
      let accepted : validate g made ≡ ok tt =
        tiling-accepted g (chain-IsOrdered modules source) made
          (subst (IsTiling 0 layers) same tiling) (All-IsSealed modules source made) in
      let some_worker : n == 0 ≡ false = ground arith in
      (made, rw (some_worker, accepted) refl, accepted, ap length (sym same) ∙ count)

  -- What the caller gets on a plain sequence of modules.
  abbrev pub Recovered : {E : Type 0} → Option (Result (PlannerError E) (List Partition)) → Type 0
  Recovered (some (raise (other_error e))) =
      recovery_partitions (some g) (some (raise (other_error e))) n ≡ raise (planner_failed e)
  Recovered planned =
      (partitions : List Partition) × (recovery_partitions (some g) planned n ≡ ok partitions)
      × (length partitions ≡ n)
      × ((planned ≡ some (ok partitions)) ⊎ (validate g partitions ≡ ok tt))

  -- On a plain sequence of modules, any number of survivors from 1 to the number of modules gets
  -- exactly that many partitions, if there is no planner, whatever the planner gives, and if it raises a
  -- ValueError; and unless they are the planner's, validate accepts them. Another exception of the
  -- planner is raised to the caller.
  pub recovery_partitions-chain :
      {E : Type 0} (planned : Option (Result (PlannerError E) (List Partition))) → Recovered planned
  unfolding recovery_partitions
  recovery_partitions-chain none =
      let (ps, made, accepted, count) = fall_back-chain in (ps, made, count, inr accepted)
  recovery_partitions-chain (some (raise (value_error e))) =
      let (ps, made, accepted, count) = fall_back-chain in (ps, made, count, inr accepted)
  recovery_partitions-chain (some (raise (other_error e))) = refl
  recovery_partitions-chain {E} (some (ok plan)) = elim (Bool-cases (length plan == n)) [
    | inl right ↦ (plan, rw right refl, (==_iff (length plan) n).0 right, inl refl)
    | inr wrong ↦
        let (ps, made, accepted, count) = fall_back-chain {E = E} in
        (ps, rw wrong made, count, inr accepted)
  ]
