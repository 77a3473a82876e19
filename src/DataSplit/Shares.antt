-- ===== src/DataSplit/Shares.antt =====
-- data/partition.py: what partition returns is a split of the samples over the clients.
use torch_slicer.Common.{
  ℕ, ◌+◌, ◌*◌, ◌<◌, ◌==◌, ◌≡◌, refl, sym, ap, ◌∙◌, subst, List, [], ◌∷◌, map, length,
  length-replicate, get_or, count_up, replicate, arith, Bool, leb, leb_iff, Option, none, some, ok,
  require, require-eq-ok, >>-eq-ok, >>=-eq-ok, ok_injective, ==_iff, length-map,
}
use torch_slicer.DataSplit.{
  Numpy, bad_concentration, too_many_shards, no_sections, wrong_groups, too_few_groups, no_clients,
  too_many_clients, wrong_parts, concat, values_at, largest_first, cut_shares, iid, by_class,
  first_large, dirichlet, shards, quantity, natural, Method, by_iid, by_dirichlet, by_shards,
  by_quantity, by_natural, run_method, partition,
}
use torch_slicer.DataSplit.Sums.{
  sum_by, IsShuffle, total, sum_by-concat, sum_by-indices, total-replicate, largest_first-IsShuffle,
}
use torch_slicer.DataSplit.Covers.{IsNumpy, each_once}
use torch_slicer.DataSplit.Methods.{
  AreOnce, first_large_lem, iid-AreOnce, by_class-AreOnce, quantity-AreOnce, values_at-argsort,
  pieces-total, deal-total,
}

nothing_before : (a b : ℕ) → a ≡ 0 → a + b ≡ b
nothing_before a b e = omega arith

module _ {S : Type 0} (np : Numpy S) (n : ℕ) (law : IsNumpy np n) where
  dirichlet-AreOnce :
      (positive : Bool) (min_size tries : ℕ) (labels : List ℕ) {parts : List (List ℕ)}
      → 0 < n
      → dirichlet np positive min_size tries n labels ≡ ok parts
      → AreOnce parts (length labels)
  unfolding dirichlet
  dirichlet-AreOnce positive min_size tries labels some_ e =
      let draw = λ (t : ℕ). by_class np t 0 labels (np.unique labels) (replicate n []) in
      let ran =
        >>-eq-ok (require positive bad_concentration) (first_large min_size draw tries 0) e in
      let found = first_large_lem min_size draw tries 0 ran.1 in
      λ f. ap (total f) found.1 ∙ by_class-AreOnce np n law found.0 labels some_ f

  quantity-ok-AreOnce :
      (positive : Bool) (min_size tries : ℕ) (labels : List ℕ) {parts : List (List ℕ)}
      → quantity np positive min_size tries labels ≡ ok parts
      → AreOnce parts (length labels)
  unfolding quantity
  quantity-ok-AreOnce positive min_size tries labels e =
      let draw = λ (t : ℕ). cut_shares np (np.permutation 0 (length labels)) (np.dirichlet t 0) in
      let ran =
        >>-eq-ok (require positive bad_concentration) (first_large min_size draw tries 0) e in
      let found = first_large_lem min_size draw tries 0 ran.1 in
      λ f. ap (total f) found.1 ∙ quantity-AreOnce np n law found.0 (length labels) f

  -- The rows of the picked shards hold what was sorted, each shard once.
  rows-AreOnce :
      (per_client : ℕ) (xs : List ℕ)
      → 0 < n * per_client
      → (f : ℕ → ℕ)
      → total f (
          map
            (λ row. concat (map (λ s. get_or (np.array_split xs (n * per_client)) s []) row))
            (np.rows n per_client))
        ≡ sum_by f xs
  rows-AreOnce per_client xs positive f =
      let pieces = np.array_split xs (n * per_client) in
      pieces-total np n law f pieces (np.rows n per_client)
      ∙ law.rows n per_client (λ s. sum_by f (get_or pieces s []))
      ∙ ap (λ k. sum_by (λ s. sum_by f (get_or pieces s [])) (count_up 0 k))
          (sym (law.array_split_length xs (n * per_client) positive))
      ∙ sum_by-indices (sum_by f) [] pieces
      ∙ sym (sum_by-concat f pieces)
      ∙ ap (sum_by f) (law.array_split_concat xs (n * per_client) positive)

  shards-AreOnce :
      (per_client : ℕ) (labels : List ℕ) {parts : List (List ℕ)}
      → shards np per_client n labels ≡ ok parts
      → AreOnce parts (length labels)
  unfolding shards
  shards-AreOnce per_client labels {parts} e f =
      let order = np.permutation 0 (length labels) in
      let by_label = values_at order (np.argsort (values_at labels order)) in
      let fits = >>-eq-ok (require (leb (n * per_client) (length labels)) too_many_shards) _ e in
      let cut_ = >>-eq-ok (require (leb 1 (n * per_client)) no_sections) _ fits.1 in
      let positive = (leb_iff 1 (n * per_client)).0 (require-eq-ok _ no_sections cut_.0) in
      ap (total f) (sym (ok_injective cut_.1))
      ∙ rows-AreOnce per_client by_label (omega arith) f
      ∙ values_at-argsort np n law order labels f
      ∙ law.permutation 0 (length labels) f

  natural-AreOnce :
      (groups : Option (List ℕ)) (labels : List ℕ) {parts : List (List ℕ)}
      → 0 < n
      → natural np groups n labels ≡ ok parts
      → AreOnce parts (length labels)
  unfolding natural
  natural-AreOnce none labels positive e f = absurd (cc)
  natural-AreOnce (some groups) labels {parts} positive e f =
      let size = λ (g : ℕ). length (np.flatnonzero groups g) in
      let ids = np.shuffle 0 0 (np.unique groups) in
      let sized = >>-eq-ok (require (length groups == length labels) wrong_groups) _ e in
      let dealt = >>-eq-ok (require (leb n (length ids)) too_few_groups) _ sized.1 in
      let same =
        (==_iff (length groups) (length labels)).0 (require-eq-ok _ wrong_groups sized.0) in
      let ordered = largest_first size ids in
      ap (total f) (sym (ok_injective dealt.1))
      ∙ deal-total np n law f groups ordered (replicate n []) (replicate n 0)
          (subst (λ k. 0 < k) (sym (length-replicate n [])) positive)
          (length-replicate n 0 ∙ sym (length-replicate n []))
      ∙ nothing_before (total f (replicate n []))
          (sum_by (λ g. sum_by f (np.flatnonzero groups g)) ordered) (total-replicate f n)
      ∙ each_once np n law f groups ordered
          (λ w. largest_first-IsShuffle size ids w ∙ law.shuffle 0 0 (np.unique groups) w)
      ∙ ap (λ k. sum_by f (count_up 0 k)) same

  run_method-AreOnce :
      (method : Method) (labels : List ℕ) {parts : List (List ℕ)}
      → 0 < n
      → run_method np method n labels ≡ ok parts
      → AreOnce parts (length labels)
  unfolding iid
  run_method-AreOnce by_iid labels positive e f =
      ap (total f) (sym (ok_injective e)) ∙ iid-AreOnce np n law (length labels) n positive f
  run_method-AreOnce (by_dirichlet positive m tries) labels some_ e f =
      dirichlet-AreOnce positive m tries labels some_ e f
  run_method-AreOnce (by_shards per_client) labels some_ e f = shards-AreOnce per_client labels e f
  run_method-AreOnce (by_quantity positive m tries) labels some_ e f =
      quantity-ok-AreOnce positive m tries labels e f
  run_method-AreOnce (by_natural groups) labels some_ e f = natural-AreOnce groups labels some_ e f

  sorted-total : (f : ℕ → ℕ) (parts : List (List ℕ)) → total f (map np.sort parts) ≡ total f parts
  sorted-total f [] = refl
  sorted-total f (p ∷ ps) = omega (arith, law.sort p f, sorted-total f ps)

  -- If numpy does what its documentation says, which is that it draws n_clients shares, none of them
  -- negative, then what partition returns with any of the five methods is one part for each client, and the parts
  -- together hold each sample exactly once.
  pub partition-IsShuffle :
      (method : Method) (labels : List ℕ) {parts : List (List ℕ)}
      → partition np method n labels ≡ ok parts
      → IsShuffle (concat parts) (count_up 0 (length labels)) × (length parts ≡ n)
  unfolding partition
  partition-IsShuffle method labels {parts} e =
      let some_ = >>-eq-ok (require (leb 1 n) no_clients) _ e in
      let fits = >>-eq-ok (require (leb n (length labels)) too_many_clients) _ some_.1 in
      let ran = >>=-eq-ok (run_method np method n labels) _ fits.1 in
      let checked = >>-eq-ok (require (length ran.0 == n) wrong_parts) _ ran.2 in
      let positive = (leb_iff 1 n).0 (require-eq-ok _ no_clients some_.0) in
      let same = (==_iff (length ran.0) n).0 (require-eq-ok _ wrong_parts checked.0) in
      let sorted = ok_injective checked.1 in
      (
        λ f.
            sum_by-concat f parts
            ∙ ap (total f) (sym sorted)
            ∙ sorted-total f ran.0
            ∙ run_method-AreOnce method labels (omega arith) ran.1 f,
        ap length (sym sorted) ∙ length-map np.sort ran.0 ∙ same,
      )
