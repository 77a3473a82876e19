-- ===== src/DataSplit/Examples.antt =====
-- data/partition.py: two clients share six samples of two classes.
use torch_slicer.Common.{
  ℕ, zero, suc, ◌+◌, ◌-◌, ◌*◌, ◌/◌, ◌<◌, ◌≤◌, ◌==◌, ◌≡◌, refl, sym, ap, ap₂, ◌∙◌, List, [], ◌∷◌,
  ◌++◌, length, take-append-drop, get_or, count_up, count_up-append, take, drop, elem, all, arith,
  true, leb, if◌then◌else◌, ok, add-zero,
}
use torch_slicer.DataSplit.{
  Numpy, concat, largest_first, insert_by, by_class, first_large, dirichlet, by_dirichlet,
  partition, share_bounds,
}
use torch_slicer.DataSplit.Sums.{
  sum_by, IsShuffle, sum_by-same, largest_first-IsShuffle, sum_by-count_up,
}
use torch_slicer.DataSplit.Covers.{at, IsNumpy}
use torch_slicer.DataSplit.Shares.{partition-IsShuffle}

abbrev split_from : ℕ → List ℕ → List ℕ → List (List ℕ)
split_from low xs [] = xs ∷ []
split_from low xs (b ∷ bs) = take (b - low) xs ∷ split_from b (drop (b - low) xs) bs

abbrev sections : List ℕ → ℕ → List (List ℕ)
sections xs zero = []
sections xs (suc zero) = xs ∷ []
sections xs (suc (suc k)) =
    let size = (length xs + suc k) / suc (suc k) in take size xs ∷ sections (drop size xs) (suc k)

abbrev distinct : List ℕ → List ℕ
distinct [] = []
distinct (x ∷ xs) = let rest = distinct xs in if elem x xs then rest else x ∷ rest

abbrev positions : ℕ → List ℕ → ℕ → List ℕ
positions a [] v = []
positions a (x ∷ xs) v = let rest = positions (suc a) xs v in if x == v then a ∷ rest else rest

abbrev smallest : List ℕ → ℕ
smallest [] = 0
smallest (x ∷ xs) = let rest = smallest xs in if all (leb x) xs then 0 else suc rest

abbrev rows_from : ℕ → ℕ → ℕ → List (List ℕ)
rows_from a zero c = []
rows_from a (suc r) c = count_up a c ∷ rows_from (a + c) r c

-- Draws that change no order, and shares, which are counted in halves, of a half each.
abbrev halves : Numpy ℕ
halves = record {
  permutation = λ (d n : ℕ). count_up 0 n;
  shuffle = λ d e xs. xs;
  dirichlet = λ d e. 1 ∷ 1 ∷ [];
  add = λ s t. s + t;
  times_int = λ s n. s * n / 2;
  split = λ xs bounds. split_from 0 xs bounds;
  array_split = λ xs k. sections xs k;
  argsort = λ xs. count_up 0 (length xs);
  unique = λ xs. distinct xs;
  flatnonzero = λ values v. positions 0 values v;
  argmin = λ xs. smallest xs;
  sort = λ xs. largest_first (λ x. 100 - x) xs;
  rows = λ r c. rows_from 0 r c;
}

concat-split_from : (low : ℕ) (xs bs : List ℕ) → concat (split_from low xs bs) ≡ xs
concat-split_from low [] [] = refl
concat-split_from low (x ∷ xs) [] = ap (λ r. x ∷ r) (concat-split_from low xs [])
concat-split_from low xs (b ∷ bs) =
    ap (λ r. take (b - low) xs ++ r) (concat-split_from b (drop (b - low) xs) bs)
    ∙ take-append-drop (b - low) xs

length-split_from : (low : ℕ) (xs bs : List ℕ) → length (split_from low xs bs) ≡ length bs + 1
length-split_from low xs [] = refl
length-split_from low xs (b ∷ bs) = omega (arith, length-split_from b (drop (b - low) xs) bs)

concat-sections : (xs : List ℕ) (k : ℕ) → 0 < k → concat (sections xs k) ≡ xs
concat-sections xs zero lt = absurd (omega arith)
concat-sections xs (suc zero) lt = concat-split_from 0 xs []
concat-sections xs (suc (suc k)) lt =
    let size = (length xs + suc k) / suc (suc k) in
    ap (λ r. take size xs ++ r) (concat-sections (drop size xs) (suc k) (omega arith))
    ∙ take-append-drop size xs

length-sections : (xs : List ℕ) (k : ℕ) → 0 < k → length (sections xs k) ≡ k
length-sections xs zero lt = absurd (omega arith)
length-sections xs (suc zero) lt = refl
length-sections xs (suc (suc k)) lt =
    ap suc (length-sections (drop ((length xs + suc k) / suc (suc k)) xs) (suc k) (omega arith))

distinct_lem : (x : ℕ) (xs : List ℕ) → sum_by (at x) (distinct xs) ≡ (if elem x xs then 1 else 0)
distinct_lem x [] = refl
distinct_lem x (y ∷ ys) = let ih = distinct_lem x ys in ground arith

sum_if :
    (f : ℕ → ℕ) (a x v : ℕ) (rest : List ℕ)
    → sum_by f (if x == v then a ∷ rest else rest) ≡ f a * at x v + sum_by f rest
sum_if f a x v rest = ground arith

sum_by-positions :
    (f : ℕ → ℕ) (a : ℕ) (values : List ℕ) (v : ℕ)
    → sum_by f (positions a values v)
      ≡ sum_by (λ i. f (a + i) * at (get_or values i 0) v) (count_up 0 (length values))
sum_by-positions f a [] v = refl
sum_by-positions f a (x ∷ xs) v =
    let later =
      sum_by-count_up (λ i. f (a + i) * at (get_or (x ∷ xs) i 0) v) 0 (length xs)
      ∙ sum_by-same (λ i. f (a + suc i) * at (get_or xs i 0) v)
          (λ i. f (suc a + i) * at (get_or xs i 0) v) (count_up 0 (length xs))
          (λ i. ap (λ k. f k * at (get_or xs i 0) v) (shift i))
      ∙ sym (sum_by-positions f (suc a) xs v) in
    sum_if f a x v (positions (suc a) xs v)
    ∙ ap₂ (λ k rest. f k * at x v + rest) (sym (add-zero a)) (sym later)
  where
    shift : (i : ℕ) → a + suc i ≡ suc a + i
    shift i = omega arith

smallest_lem : (xs : List ℕ) → 0 < length xs → smallest xs < length xs
smallest_lem [] lt = absurd (omega arith)
smallest_lem (x ∷ []) lt = omega arith
smallest_lem (x ∷ y ∷ ys) lt = let ih = smallest_lem (y ∷ ys) (omega arith) in ground arith

concat-rows_from : (a r c : ℕ) → concat (rows_from a r c) ≡ count_up a (r * c)
concat-rows_from a zero c = ap (count_up a) (let e : 0 ≡ 0 * c = omega arith in e)
concat-rows_from a (suc r) c =
    ap (λ xs. count_up a c ++ xs) (concat-rows_from (a + c) r c)
    ∙ count_up-append a c (r * c)
    ∙ ap (count_up a) (let e : c + r * c ≡ suc r * c = grind arith in e)

nothing_before : (i : ℕ) → 0 + i ≡ i
nothing_before i = omega arith

more_halves : (s t n : ℕ) → s * n / 2 ≤ (s + t) * n / 2
more_halves s t n = let more : (s + t) * n ≡ s * n + t * n = grind arith in omega arith

halves-IsNumpy : IsNumpy halves 2
halves-IsNumpy = record {
  permutation = λ d n f. refl;
  shuffle = λ d e xs f. refl;
  dirichlet_length = λ d e. refl;
  add_grows = λ s t n. more_halves s t n;
  split_concat = λ xs bs rise. concat-split_from 0 xs bs;
  split_length = λ xs bs. length-split_from 0 xs bs;
  array_split_concat = concat-sections;
  array_split_length = length-sections;
  argsort = λ xs f. refl;
  unique = distinct_lem;
  flatnonzero = λ f values v.
      sum_by-positions f 0 values v
      ∙ sum_by-same (λ i. f (0 + i) * at (get_or values i 0) v)
          (λ i. f i * at (get_or values i 0) v) (count_up 0 (length values))
          (λ i. ap (λ k. f k * at (get_or values i 0) v) (nothing_before i));
  argmin = smallest_lem;
  sort = λ xs. largest_first-IsShuffle (λ x. 100 - x) xs;
  rows = λ r c f. ap (sum_by f) (concat-rows_from 0 r c);
}

abbrev six_labels : List ℕ
six_labels = 0 ∷ 1 ∷ 0 ∷ 0 ∷ 1 ∷ 0 ∷ []

abbrev two_parts : List (List ℕ)
two_parts = (0 ∷ 1 ∷ 2 ∷ []) ∷ (3 ∷ 4 ∷ 5 ∷ []) ∷ []

shared : partition halves (by_dirichlet true 3 4) 2 six_labels ≡ ok two_parts
unfolding partition dirichlet first_large by_class largest_first insert_by share_bounds
shared = refl

partition_example : IsShuffle (concat two_parts) (count_up 0 6) × (length two_parts ≡ 2)
partition_example =
    partition-IsShuffle halves 2 halves-IsNumpy (by_dirichlet true 3 4) six_labels shared
