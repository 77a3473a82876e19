-- ===== src/DataSplit/Methods.antt =====
-- data/partition.py: each method hands out every sample once.
use torch_slicer.Common.{
  ℕ, zero, suc, ◌+◌, ◌<◌, ◌≡◌, refl, sym, ap, ◌∙◌, List, [], ◌∷◌, map, length, length-replicate,
  get_or, count_up, replicate, arith, true, Bool-cases, inl, inr, ok, ok_injective, length-map,
}
use torch_slicer.DataSplit.{
  Numpy, concat, values_at, append_chunks, append_at_index, add_size, cut_shares, by_class,
  large_enough, first_large, deal,
}
use torch_slicer.DataSplit.Sums.{
  sum_by, IsShuffle, total, sum_by-concat, sum_by-map, sum_by-indices, total-replicate,
  total-append_chunks, total-append_at_index, sum_by-append,
}
use torch_slicer.DataSplit.Covers.{IsNumpy, cut-total, length-cut, each_once}

-- The parts hold the samples 0 .. n - 1, each once.
abbrev pub AreOnce : List (List ℕ) → ℕ → Type 0
AreOnce parts n = (f : ℕ → ℕ) → total f parts ≡ sum_by f (count_up 0 n)

pub first_large_lem :
    (min_size : ℕ) (draw : ℕ → List (List ℕ)) (tries t : ℕ) {parts : List (List ℕ)}
    → first_large min_size draw tries t ≡ ok parts
    → (d : ℕ) × (parts ≡ draw d) × (large_enough min_size (draw d) ≡ true)
unfolding first_large
first_large_lem min_size draw zero t e = absurd (cc)
first_large_lem min_size draw (suc tries) t {parts} e =
    elim (Bool-cases (large_enough min_size (draw t))) [
      | inl large ↦ let e2 = rw large at e in (t, sym (ok_injective e2), large)
      | inr small ↦ first_large_lem min_size draw tries (suc t) (rw small at e)
    ]

length-append_chunks : (ps cs : List (List ℕ)) → length (append_chunks ps cs) ≡ length ps
length-append_chunks [] cs = refl
length-append_chunks (p ∷ ps) [] = refl
length-append_chunks (p ∷ ps) (c ∷ cs) = ap suc (length-append_chunks ps cs)

length-append_at_index :
    (ps : List (List ℕ)) (k : ℕ) (chunk : List ℕ) → length (append_at_index ps k chunk) ≡ length ps
length-append_at_index [] k chunk = refl
length-append_at_index (p ∷ ps) zero chunk = refl
length-append_at_index (p ∷ ps) (suc k) chunk = ap suc (length-append_at_index ps k chunk)

length-add_size : (ss : List ℕ) (k n : ℕ) → length (add_size ss k n) ≡ length ss
length-add_size [] k n = refl
length-add_size (s ∷ ss) zero n = refl
length-add_size (s ∷ ss) (suc k) n = ap suc (length-add_size ss k n)

module _ {S : Type 0} (np : Numpy S) (n : ℕ) (law : IsNumpy np n) where
  pub iid-AreOnce : (size k : ℕ) → 0 < k → AreOnce (np.array_split (np.permutation 0 size) k) size
  iid-AreOnce size k positive f =
      sym (sum_by-concat f (np.array_split (np.permutation 0 size) k))
      ∙ ap (sum_by f) (law.array_split_concat (np.permutation 0 size) k positive)
      ∙ law.permutation 0 size f

  by_class-total :
      (f : ℕ → ℕ) (t c : ℕ) (labels classes : List ℕ) (parts : List (List ℕ))
      → length parts ≡ n
      → 0 < n
      → total f (by_class np t c labels classes parts)
        ≡ total f parts + sum_by (λ cls. sum_by f (np.flatnonzero labels cls)) classes
  unfolding by_class
  by_class-total f t c labels [] parts same positive = omega arith
  by_class-total f t c labels (cls ∷ classes) parts same positive =
      let idx = np.shuffle t c (np.flatnonzero labels cls) in
      let chunks = cut_shares np idx (np.dirichlet t c) in
      let fits : length chunks ≡ n = length-cut np n law idx t c positive in
      let here : total f chunks ≡ sum_by f idx = cut-total np n law f idx (np.dirichlet t c) in
      let same2 : sum_by f idx ≡ sum_by f (np.flatnonzero labels cls) =
        law.shuffle t c (np.flatnonzero labels cls) f in
      omega (
        arith,
        by_class-total f t (suc c) labels classes (append_chunks parts chunks)
            (length-append_chunks parts chunks ∙ same) positive,
        total-append_chunks f parts chunks (omega arith),
        here,
        same2,
      )

  pub by_class-AreOnce :
      (t : ℕ) (labels : List ℕ)
      → 0 < n
      → AreOnce (by_class np t 0 labels (np.unique labels) (replicate n [])) (length labels)
  by_class-AreOnce t labels positive f = omega (
    arith,
    by_class-total f t 0 labels (np.unique labels) (replicate n []) (length-replicate n [])
        positive,
    total-replicate f n,
    each_once np n law f labels (np.unique labels) (λ g. refl),
  )

  pub quantity-AreOnce :
      (t size : ℕ) → AreOnce (cut_shares np (np.permutation 0 size) (np.dirichlet t 0)) size
  quantity-AreOnce t size f =
      cut-total np n law f (np.permutation 0 size) (np.dirichlet t 0) ∙ law.permutation 0 size f

  pub values_at-argsort :
      (order labels : List ℕ)
      → IsShuffle (values_at order (np.argsort (values_at labels order))) order
  values_at-argsort order labels f =
      sum_by-map f (λ i. get_or order i 0) (np.argsort (values_at labels order))
      ∙ law.argsort (values_at labels order) (λ i. f (get_or order i 0))
      ∙ ap (λ k. sum_by (λ i. f (get_or order i 0)) (count_up 0 k))
          (length-map (λ i. get_or labels i 0) order)
      ∙ sum_by-indices f 0 order

  pub pieces-total :
      (f : ℕ → ℕ) (pieces rows : List (List ℕ))
      → total f (map (λ row. concat (map (λ s. get_or pieces s []) row)) rows)
        ≡ sum_by (λ s. sum_by f (get_or pieces s [])) (concat rows)
  pieces-total f pieces [] = refl
  pieces-total f pieces (row ∷ rows) = omega (
    arith,
    pieces-total f pieces rows,
    sum_by-concat f (map (λ s. get_or pieces s []) row),
    sum_by-map (sum_by f) (λ s. get_or pieces s []) row,
    sum_by-append (λ s. sum_by f (get_or pieces s [])) row (concat rows),
  )

  pub deal-total :
      (f : ℕ → ℕ) (groups gs : List ℕ) (parts : List (List ℕ)) (sizes : List ℕ)
      → 0 < length parts
      → length sizes ≡ length parts
      → total f (deal np groups gs parts sizes)
        ≡ total f parts + sum_by (λ g. sum_by f (np.flatnonzero groups g)) gs
  unfolding deal
  deal-total f groups [] parts sizes some_ same = omega arith
  deal-total f groups (g ∷ gs) parts sizes some_ same =
      let k = np.argmin sizes in
      let members = np.flatnonzero groups g in
      let smaller : k < length sizes = law.argmin sizes (omega arith) in
      let kept = length-append_at_index parts k members in
      omega (
        arith,
        deal-total f groups gs (append_at_index parts k members) (add_size sizes k (length members))
            (omega arith) (length-add_size sizes k (length members) ∙ same ∙ sym kept),
        total-append_at_index f parts k members (omega arith),
      )
