-- ===== src/Strategy/Balance.antt =====
-- strategies/cost.py, balanced_cuts: the dynamic program that chooses the cuts.
pub mod Samples
pub mod Order
pub mod Plans
mod Scan
mod Rows
pub mod Optimal
pub mod Choice
pub mod Valid
mod Examples
use torch_slicer.Common.{
  ℕ, zero, suc, ◌+◌, ◌-◌, Bool, true, false, not, ◌&&◌, ◌||◌, Option, none, some, List, [], ◌∷◌,
  ◌++◌, map, arith, ltb, leb, ◌==◌, if◌then◌else◌, length, get_elem?, get_or, take, drop, count_up,
  Result, ok, raise,
}
use torch_slicer.Common.Sorting.{sorted}

-- Python's float, of which the algorithm uses these operations.
pub record Floats (F : Type 0) : Type 0 where
  pub nought : F
  pub add : F → F → F
  pub sub : F → F → F
  pub mul : F → F → F
  pub div : F → F → F
  pub lt : F → F → Bool

-- The optional terms. A list that the code indexes by partition or by node is a function of the
-- index; `none` is None.
pub record Terms (F : Type 0) : Type 0 where
  pub speeds : Option (ℕ → F)
  pub mem : Option (List F)
  pub caps : Option (ℕ → Option F)
  pub cut_cost : Option (ℕ → F)
  pub link_cost : ℕ → F

-- A run of nodes between two valid cuts: its last node, its cost and its memory.
pub record Block (F : Type 0) : Type 0 where
  pub last : ℕ
  pub cost : F
  pub mem : F

-- `best[p][j]`, where `none` is INF, and `back[p][j]`.
pub record Cell (F : Type 0) : Type 0 where
  pub best : Option (F × F)
  pub back : ℕ

pub data Refusal : Type 0 where
  too_few_cuts no_fit : Refusal

module _ {F : Type 0} (floats : Floats F) where
  open floats use {nought, add, sub, mul, div, lt}

  -- sum(xs), from 0 and from the left
  unfoldable pub sum_from : F → List F → F
  sum_from acc [] = acc
  sum_from acc (x ∷ xs) = sum_from (add acc x) xs

  -- xs[start:stop]
  abbrev pub slice : List F → ℕ → ℕ → List F
  slice xs start stop = take (stop - start) (drop start xs)

  -- The loop that makes the atomic blocks; the list of ends is `[*valid_cuts, len(costs) - 1]`.
  unfoldable pub blocks_from : List F → Option (List F) → ℕ → List ℕ → List (Block F)
  unfolding sum_from
  blocks_from costs mem start [] = []
  blocks_from costs mem start (k ∷ ks) =
      record {
        last = k;
        cost = sum_from nought (slice costs start (suc k));
        mem = elim mem [ none ↦ nought | some ms ↦ sum_from nought (slice ms start (suc k)) ];
      }
      ∷ blocks_from costs mem (suc k) ks

  unfoldable pub blocks_of : List F → List ℕ → Option (List F) → List (Block F)
  unfolding blocks_from
  blocks_of costs valid_cuts mem = blocks_from costs mem 0 (valid_cuts ++ (length costs - 1) ∷ [])

  -- prefix (and mprefix): the running sums, of which the first is 0.
  unfoldable pub prefix_from : F → List F → List F
  prefix_from acc [] = acc ∷ []
  prefix_from acc (c ∷ cs) = acc ∷ prefix_from (add acc c) cs

  -- max(a, b)
  abbrev pub larger : F → F → F
  larger a b = if lt a b then b else a

  -- `<` on two pairs
  abbrev pub pair_lt : F × F → F × F → Bool
  pair_lt (a, b) (c, d) = lt a c || (not (lt c a) && lt b d)

  -- `if cand < best[p][j]`
  unfoldable pub improve : ℕ → Option (F × F) → Cell F → Cell F
  improve i none cell = cell
  improve i (some cand) cell = elim cell.best [
    | none ↦ record { best = some cand; back = i }
    | some old ↦ if pair_lt cand old then record { best = some cand; back = i } else cell
  ]

  -- `best[p - 1][i]`
  unfoldable pub best_at : List (Cell F) → ℕ → Option (F × F)
  best_at row i = elim (get_elem? row i) [ none ↦ none | some cell ↦ cell.best ]

  abbrev pub unset : Cell F
  unset = record { best = none; back = 0 }

  module _ (blocks : List (Block F)) (terms : Terms F) (n_partitions : ℕ) where
    -- seg(i, j) and the memory of blocks i..j-1
    unfoldable pub seg : ℕ → ℕ → F
    unfolding prefix_from
    seg i j =
        let prefix = prefix_from nought (map (λ b. b.cost) blocks) in
        sub (get_or prefix j nought) (get_or prefix i nought)

    unfoldable pub seg_mem : ℕ → ℕ → F
    unfolding prefix_from
    seg_mem i j =
        let mprefix = prefix_from nought (map (λ b. b.mem) blocks) in
        sub (get_or mprefix j nought) (get_or mprefix i nought)

    -- `blocks[j][0]`
    unfoldable pub last_node : ℕ → ℕ
    last_node j = elim (get_elem? blocks j) [ none ↦ 0 | some b ↦ b.last ]

    -- Whether partition `p` (from 1) can hold the blocks i..j-1.
    unfoldable pub fits : ℕ → ℕ → ℕ → Bool
    unfolding seg_mem
    fits p i j = elim terms.caps [
      | none ↦ true
      | some caps ↦ elim (caps (p - 1)) [ none ↦ true | some cap ↦ not (lt cap (seg_mem i j)) ]
    ]

    -- The cost of the blocks i..j-1 on partition `p`.
    unfoldable pub part_cost : ℕ → ℕ → ℕ → F
    unfolding seg last_node
    part_cost p i j =
        let c = seg i j in
        let scaled : F = elim terms.speeds [ none ↦ c | some speeds ↦ div c (speeds (p - 1)) ] in
        elim terms.cut_cost [
          | none ↦ scaled
          | some cut_cost ↦
              if ltb p n_partitions
              then add scaled (mul (cut_cost (last_node (j - 1))) (terms.link_cost (p - 1)))
              else scaled
        ]

    -- The candidate for `best[p][j]` that ends the partition before at `i`.
    unfoldable pub candidate : ℕ → ℕ → ℕ → Option (F × F) → Option (F × F)
    unfolding fits part_cost
    candidate p i j none = none
    candidate p i j (some prev) =
        if fits p i j
        then some
            (larger prev.0 (part_cost p i j), add prev.1 (mul (part_cost p i j) (part_cost p i j)))
        else none

    -- The loop over `i`, `count` rounds from `i` on.
    unfoldable pub scan : ℕ → ℕ → List (Cell F) → ℕ → ℕ → Cell F → Cell F
    unfolding candidate improve best_at
    scan p j above i zero cell = cell
    scan p j above i (suc count) cell =
        scan p j above (suc i) count (improve i (candidate p i j (best_at above i)) cell)

    -- Row `p` of the tables from the row above it.
    unfoldable pub next_row : ℕ → List (Cell F) → List (Cell F)
    unfolding scan
    next_row p above =
        map
          (λ j.
            if leb p j && leb (j + (n_partitions - p)) (length blocks)
            then scan p j above (p - 1) (j - (p - 1)) unset
            else unset)
          (count_up 0 (suc (length blocks)))

    unfoldable pub row : ℕ → List (Cell F)
    unfolding next_row
    row zero =
        record { best = some (nought, nought); back = 0 }
        ∷ map (λ j. unset) (count_up 1 (length blocks))
    row (suc p) = next_row (suc p) (row p)

    -- `back[p][j]`
    unfoldable pub back_at : ℕ → ℕ → ℕ
    unfolding row
    back_at p j = elim (get_elem? (row p) j) [ none ↦ 0 | some cell ↦ cell.back ]

    -- The last loop, from partition `p` down to 1.
    unfoldable pub trace : ℕ → ℕ → List ℕ
    unfolding back_at last_node
    trace zero j = []
    trace (suc zero) j = []
    trace (suc (suc p)) j = let i = back_at (suc (suc p)) j in last_node (i - 1) ∷ trace (suc p) i

  unfoldable pub has_caps : Terms F → Bool
  has_caps terms = elim terms.caps [ none ↦ false | some caps ↦ true ]

  unfoldable pub balanced_cuts : List F → List ℕ → ℕ → Terms F → Result Refusal (List ℕ)
  unfolding blocks_of row trace sorted best_at has_caps
  balanced_cuts costs valid_cuts n_partitions terms =
      let blocks = blocks_of costs valid_cuts terms.mem in
      let m = length blocks in
      if ltb m n_partitions
      then raise too_few_cuts
      else if n_partitions == 1 && not (has_caps terms)
      then ok []
      else elim (best_at (row blocks terms n_partitions n_partitions) m) [
        | none ↦ raise no_fit
        | some _ ↦ ok (sorted (trace blocks terms n_partitions n_partitions m))
      ]
