-- ===== src/DataSplit/Sums.antt =====
-- data/partition.py: lists that hold the same samples, as often.
use torch_slicer.Common.{
  ℕ, zero, suc, ◌+◌, ◌≤◌, ◌<◌, ◌≡◌, refl, ap, ap₂, ◌∙◌, List, [], ◌∷◌, ◌++◌, map, length, get_or,
  count_up, replicate, arith, leb, Bool-cases, inl, inr,
}
use torch_slicer.DataSplit.{concat, append_chunks, append_at_index, insert_by, largest_first}

-- The sum of a weight over a list.
abbrev pub sum_by : {A : Type 0} → (A → ℕ) → List A → ℕ
sum_by f [] = 0
sum_by f (x ∷ xs) = f x + sum_by f xs

-- Each item is in both lists equally often: every weight sums up to the same.
abbrev pub IsShuffle : List ℕ → List ℕ → Type 0
IsShuffle xs ys = (f : ℕ → ℕ) → sum_by f xs ≡ sum_by f ys

-- The sum of a weight over all parts.
abbrev pub total : (ℕ → ℕ) → List (List ℕ) → ℕ
total f = sum_by (sum_by f)

pub sum_by-append : (f : ℕ → ℕ) (xs ys : List ℕ) → sum_by f (xs ++ ys) ≡ sum_by f xs + sum_by f ys
sum_by-append f [] ys = omega arith
sum_by-append f (x ∷ xs) ys = omega (arith, sum_by-append f xs ys)

pub sum_by-concat : (f : ℕ → ℕ) (ps : List (List ℕ)) → sum_by f (concat ps) ≡ total f ps
sum_by-concat f [] = refl
sum_by-concat f (p ∷ ps) =
    sum_by-append f p (concat ps) ∙ ap (λ n. sum_by f p + n) (sum_by-concat f ps)

pub sum_by-map :
    {A B : Type 0}
    → (f : B → ℕ) (g : A → B) (xs : List A) → sum_by f (map g xs) ≡ sum_by (λ x. f (g x)) xs
sum_by-map f g [] = refl
sum_by-map f g (x ∷ xs) = ap (λ n. f (g x) + n) (sum_by-map f g xs)

pub sum_by-count_up :
    (f : ℕ → ℕ) (a n : ℕ) → sum_by f (count_up (suc a) n) ≡ sum_by (λ i. f (suc i)) (count_up a n)
sum_by-count_up f a zero = refl
sum_by-count_up f a (suc n) = ap (λ k. f (suc a) + k) (sum_by-count_up f (suc a) n)

-- A sum over the indices of a list is a sum over the list.
pub sum_by-indices :
    {A : Type 0}
    → (f : A → ℕ) (d : A) (xs : List A)
    → sum_by (λ i. f (get_or xs i d)) (count_up 0 (length xs)) ≡ sum_by f xs
sum_by-indices f d [] = refl
sum_by-indices f d (x ∷ xs) =
    ap (λ n. f x + n)
      (sum_by-count_up (λ i. f (get_or (x ∷ xs) i d)) 0 (length xs) ∙ sum_by-indices f d xs)

pub sum_by-same :
    {A : Type 0} → (f g : A → ℕ) (xs : List A) → ((x : A) → f x ≡ g x) → sum_by f xs ≡ sum_by g xs
sum_by-same f g [] e = refl
sum_by-same f g (x ∷ xs) e = ap₂ (λ m n. m + n) (e x) (sum_by-same f g xs e)

pub total-replicate : (f : ℕ → ℕ) (n : ℕ) → total f (replicate n []) ≡ 0
total-replicate f zero = refl
total-replicate f (suc n) = omega (arith, total-replicate f n)

pub total-append_chunks :
    (f : ℕ → ℕ) (ps cs : List (List ℕ))
    → length cs ≤ length ps
    → total f (append_chunks ps cs) ≡ total f ps + total f cs
total-append_chunks f [] [] le = refl
total-append_chunks f [] (c ∷ cs) le = absurd (omega arith)
total-append_chunks f (p ∷ ps) [] le = omega arith
total-append_chunks f (p ∷ ps) (c ∷ cs) le =
    omega (arith, sum_by-append f p c, total-append_chunks f ps cs)

pub total-append_at_index :
    (f : ℕ → ℕ) (ps : List (List ℕ)) (k : ℕ) (chunk : List ℕ)
    → k < length ps
    → total f (append_at_index ps k chunk) ≡ total f ps + sum_by f chunk
total-append_at_index f [] k chunk lt = absurd (omega arith)
total-append_at_index f (p ∷ ps) zero chunk lt = omega (arith, sum_by-append f p chunk)
total-append_at_index f (p ∷ ps) (suc k) chunk lt =
    omega (arith, total-append_at_index f ps k chunk)

insert_by-IsShuffle :
    (size : ℕ → ℕ) (g : ℕ) (hs : List ℕ) → IsShuffle (insert_by size g hs) (g ∷ hs)
unfolding insert_by
insert_by-IsShuffle size g [] f = refl
insert_by-IsShuffle size g (h ∷ hs) f = elim (Bool-cases (leb (size h) (size g))) [
  | inl e ↦ rw e refl
  | inr e ↦ rw e (let ih = insert_by-IsShuffle size g hs f in omega arith)
]

pub largest_first-IsShuffle : (size : ℕ → ℕ) (gs : List ℕ) → IsShuffle (largest_first size gs) gs
unfolding largest_first
largest_first-IsShuffle size [] f = refl
largest_first-IsShuffle size (g ∷ gs) f =
    insert_by-IsShuffle size g (largest_first size gs) f
    ∙ ap (λ n. f g + n) (largest_first-IsShuffle size gs f)
