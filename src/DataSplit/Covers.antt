-- ===== src/DataSplit/Covers.antt =====
-- data/partition.py: every sample goes to exactly one client, by each of the methods.
use torch_slicer.Common.{
  ◌||◌, ==_refl, ℕ, zero, suc, ◌+◌, ◌*◌, ◌≤◌, ◌<◌, ◌==◌, ◌≡◌, refl, sym, ap, ap₂, ◌∙◌, List, [],
  ◌∷◌, length, get_or, count_up, arith, Bool, true, false, if◌then◌else◌, elem, map,
}
use torch_slicer.DataSplit.{Numpy, concat, but_last, cumsum_after, cumsum, share_bounds, cut_shares}
use torch_slicer.DataSplit.Sums.{sum_by, IsShuffle, total, sum_by-concat, sum_by-same}

-- Bounds that do not fall.
abbrev pub IsMonotone : ℕ → List ℕ → Type 0
IsMonotone low [] = Unit
IsMonotone low (b ∷ bs) = (low ≤ b) × IsMonotone b bs

-- 1 where an item is, 0 elsewhere
abbrev pub at : ℕ → ℕ → ℕ
at x y = if y == x then 1 else 0

-- What numpy's documentation says of these functions: n_clients shares are drawn, and adding a share,
-- which is not negative, does not make a sum's multiple smaller.
pub record IsNumpy {S : Type 0} (np : Numpy S) (n_clients : ℕ) : Type 0 where
  pub permutation : (d n : ℕ) → IsShuffle (np.permutation d n) (count_up 0 n)
  pub shuffle : (d e : ℕ) (xs : List ℕ) → IsShuffle (np.shuffle d e xs) xs
  pub dirichlet_length : (d e : ℕ) → length (np.dirichlet d e) ≡ n_clients
  pub add_grows : (s t : S) (n : ℕ) → np.times_int s n ≤ np.times_int (np.add s t) n
  pub split_concat : (xs bs : List ℕ) → IsMonotone 0 bs → concat (np.split xs bs) ≡ xs
  pub split_length : (xs bs : List ℕ) → length (np.split xs bs) ≡ length bs + 1
  pub array_split_concat : (xs : List ℕ) (k : ℕ) → 0 < k → concat (np.array_split xs k) ≡ xs
  pub array_split_length : (xs : List ℕ) (k : ℕ) → 0 < k → length (np.array_split xs k) ≡ k
  pub argsort : (xs : List ℕ) → IsShuffle (np.argsort xs) (count_up 0 (length xs))
  pub unique : (x : ℕ) (xs : List ℕ) → sum_by (at x) (np.unique xs) ≡ (if elem x xs then 1 else 0)
  -- Position i is found for the value that is there, once.
  pub flatnonzero :
      (f : ℕ → ℕ) (values : List ℕ) (v : ℕ)
      → sum_by f (np.flatnonzero values v)
        ≡ sum_by (λ i. f i * at (get_or values i 0) v) (count_up 0 (length values))
  pub argmin : (xs : List ℕ) → 0 < length xs → np.argmin xs < length xs
  pub sort : (xs : List ℕ) → IsShuffle (np.sort xs) xs
  pub rows : (r c : ℕ) → IsShuffle (concat (np.rows r c)) (count_up 0 (r * c))

zero_weight : (g : ℕ → ℕ) → ((x : ℕ) → g x ≡ 0) → (xs : List ℕ) → sum_by g xs ≡ 0
zero_weight g zero_ [] = refl
zero_weight g zero_ (x ∷ xs) = omega (arith, zero_ x, zero_weight g zero_ xs)

sum_by-add : (f g : ℕ → ℕ) (xs : List ℕ) → sum_by (λ x. f x + g x) xs ≡ sum_by f xs + sum_by g xs
sum_by-add f g [] = omega arith
sum_by-add f g (x ∷ xs) = omega (arith, sum_by-add f g xs)

times_sum : (a b c : ℕ) → a * b + a * c ≡ a * (b + c)
times_sum a b c = grind arith

times_one : (a : ℕ) → a * 1 ≡ a
times_one a = omega arith

sum_range-same :
    (f g : ℕ → ℕ) (a n : ℕ)
    → ((i : ℕ) → a ≤ i → i < a + n → f i ≡ g i)
    → sum_by f (count_up a n) ≡ sum_by g (count_up a n)
sum_range-same f g a zero e = refl
sum_range-same f g a (suc n) e =
    ap₂ (λ x y. x + y) (e a (omega arith) (omega arith))
      (sum_range-same f g (suc a) n (λ i low high. e i (omega arith) (omega arith)))

elem-get_or : (xs : List ℕ) (i : ℕ) → i < length xs → elem (get_or xs i 0) xs ≡ true
elem-get_or [] i lt = absurd (omega arith)
elem-get_or (x ∷ xs) zero lt = rw (==_refl x) refl
elem-get_or (x ∷ xs) (suc i) lt = or_true (get_or xs i 0 == x) (elem-get_or xs i (omega arith))
  where
    or_true : (b : Bool) {c : Bool} → c ≡ true → (b || c) ≡ true
    or_true true e = refl
    or_true false e = e

module _ {S : Type 0} (np : Numpy S) (n : ℕ) (law : IsNumpy np n) where
  -- The bounds do not fall, and are one fewer than the shares.
  after-IsMonotone :
      (sum : S) (shares : List S) (k low : ℕ)
      → low ≤ np.times_int sum k
      → IsMonotone low (map (λ s. np.times_int s k) (but_last (sum ∷ cumsum_after np sum shares)))
  unfolding but_last cumsum_after
  after-IsMonotone sum [] k low le = tt
  after-IsMonotone sum (share ∷ shares) k low le = (
    le,
    after-IsMonotone (np.add sum share) shares k (np.times_int sum k) (law.add_grows sum share k),
  )

  share_bounds-IsMonotone : (shares : List S) (k : ℕ) → IsMonotone 0 (share_bounds np shares k)
  unfolding share_bounds cumsum but_last
  share_bounds-IsMonotone [] k = tt
  share_bounds-IsMonotone (share ∷ shares) k = after-IsMonotone share shares k 0 (omega arith)

  length-after :
      (sum : S) (shares : List S) (k : ℕ)
      → length (map (λ s. np.times_int s k) (but_last (sum ∷ cumsum_after np sum shares)))
        ≡ length shares
  unfolding but_last cumsum_after
  length-after sum [] k = refl
  length-after sum (share ∷ shares) k = ap suc (length-after (np.add sum share) shares k)

  length-share_bounds :
      (shares : List S) (k : ℕ)
      → 0 < length shares
      → length (share_bounds np shares k) + 1 ≡ length shares
  unfolding share_bounds cumsum
  length-share_bounds [] k positive = absurd (omega arith)
  length-share_bounds (share ∷ shares) k positive = omega (arith, length-after share shares k)

  pub cut-total :
      (f : ℕ → ℕ) (idx : List ℕ) (shares : List S)
      → total f (cut_shares np idx shares) ≡ sum_by f idx
  cut-total f idx shares =
      sym (sum_by-concat f (cut_shares np idx shares))
      ∙ ap (sum_by f) (
          law.split_concat idx (share_bounds np shares (length idx))
            (share_bounds-IsMonotone shares (length idx)))

  pub length-cut :
      (idx : List ℕ) (d e : ℕ) → 0 < n → length (cut_shares np idx (np.dirichlet d e)) ≡ n
  length-cut idx d e positive =
      let drawn = law.dirichlet_length d e in
      law.split_length idx (share_bounds np (np.dirichlet d e) (length idx))
      ∙ length-share_bounds (np.dirichlet d e) (length idx) (omega arith)
      ∙ drawn

  class_total :
      (f : ℕ → ℕ) (values classes : List ℕ)
      → sum_by (λ c. sum_by f (np.flatnonzero values c)) classes
        ≡ sum_by (λ i. f i * sum_by (at (get_or values i 0)) classes) (count_up 0 (length values))
  class_total f values [] =
      sym (zero_weight (λ i. f i * 0) (λ i. grind arith) (count_up 0 (length values)))
  class_total f values (c ∷ classes) =
      ap₂ (λ a b. a + b) (law.flatnonzero f values c) (class_total f values classes)
      ∙ sym (
          sum_by-add (λ i. f i * at (get_or values i 0) c)
            (λ i. f i * sum_by (at (get_or values i 0)) classes) (count_up 0 (length values)))
      ∙ sum_by-same
          (λ i. f i * at (get_or values i 0) c + f i * sum_by (at (get_or values i 0)) classes)
          (λ i. f i * (at (get_or values i 0) c + sum_by (at (get_or values i 0)) classes))
          (count_up 0 (length values))
          (λ i.
            times_sum (f i) (at (get_or values i 0) c) (sum_by (at (get_or values i 0)) classes))

  -- With each value once among the classes, every position counts once.
  pub each_once :
      (f : ℕ → ℕ) (values classes : List ℕ)
      → IsShuffle classes (np.unique values)
      → sum_by (λ c. sum_by f (np.flatnonzero values c)) classes
        ≡ sum_by f (count_up 0 (length values))
  each_once f values classes same =
      class_total f values classes
      ∙ sum_range-same (λ i. f i * sum_by (at (get_or values i 0)) classes) f 0 (length values)
          (λ i low high.
            ap (λ k. f i * k)
              (same (at (get_or values i 0))
                ∙ law.unique (get_or values i 0) values
                ∙ ap (λ b. if b then 1 else 0) (elem-get_or values i (omega arith)))
            ∙ times_one (f i))
