-- ===== src/DataSplit.antt =====
-- data/partition.py: the samples of a dataset are split across clients.
pub mod Sums
pub mod Covers
pub mod Methods
pub mod Shares
mod Examples
use torch_slicer.Common.{
  ℕ, zero, suc, ◌+◌, ◌*◌, ◌≤◌, ◌<◌, ltb, leb, ◌==◌, Bool, true, false, not, ◌&&◌, Option, none,
  some, List, [], ◌∷◌, ◌++◌, if◌then◌else◌, map, length, get_elem?, get_or, take, drop, replicate,
  Result, ok, raise, require, ◌>>=◌, ◌>>◌, ◌≡◌,
}

abbrev pub concat : List (List ℕ) → List ℕ
concat [] = []
concat (xs ∷ xss) = xs ++ concat xss

-- What the code calls of numpy, and of its generator of random numbers: the number of a draw stands for
-- the generator's state. `S` is the type of a share, which is a float and not negative.
pub record Numpy (S : Type 0) : Type 0 where
  -- rng.permutation of a number and of an array
  pub permutation : ℕ → ℕ → List ℕ
  pub shuffle : ℕ → ℕ → List ℕ → List ℕ
  pub dirichlet : ℕ → ℕ → List S
  -- the sum of two floats, and a float times a number, cut to an int as astype(int) does
  pub add : S → S → S
  pub times_int : S → ℕ → ℕ
  pub split : List ℕ → List ℕ → List (List ℕ)
  pub array_split : List ℕ → ℕ → List (List ℕ)
  pub argsort : List ℕ → List ℕ
  pub unique : List ℕ → List ℕ
  -- np.flatnonzero(values == value)
  pub flatnonzero : List ℕ → ℕ → List ℕ
  pub argmin : List ℕ → ℕ
  pub sort : List ℕ → List ℕ
  -- rng.permutation(k).reshape(rows, columns), with k = rows * columns
  pub rows : ℕ → ℕ → List (List ℕ)

pub data SplitError : Type 0 where
  no_split no_sections too_many_shards no_groups wrong_groups too_few_groups no_clients
        too_many_clients wrong_parts bad_concentration :
      SplitError

-- values[indices]
abbrev pub values_at : List ℕ → List ℕ → List ℕ
values_at values indices = map (λ i. get_or values i 0) indices

-- parts[k].append(chunk) for each of the chunks, and the parts concatenated
abbrev pub append_chunks : List (List ℕ) → List (List ℕ) → List (List ℕ)
append_chunks [] chunks = []
append_chunks (p ∷ ps) [] = p ∷ ps
append_chunks (p ∷ ps) (c ∷ cs) = (p ++ c) ∷ append_chunks ps cs

-- parts[k].append(chunk)
abbrev pub append_at_index : List (List ℕ) → ℕ → List ℕ → List (List ℕ)
append_at_index [] k chunk = []
append_at_index (p ∷ ps) zero chunk = (p ++ chunk) ∷ ps
append_at_index (p ∷ ps) (suc k) chunk = p ∷ append_at_index ps k chunk

-- sizes[k] += n
abbrev pub add_size : List ℕ → ℕ → ℕ → List ℕ
add_size [] k n = []
add_size (s ∷ ss) zero n = (s + n) ∷ ss
add_size (s ∷ ss) (suc k) n = s ∷ add_size ss k n

-- sorted(ids, key=lambda g: -len(members[g])), which keeps the order of equal keys
unfoldable pub insert_by : (ℕ → ℕ) → ℕ → List ℕ → List ℕ
insert_by size g [] = g ∷ []
insert_by size g (h ∷ hs) =
    let later = insert_by size g hs in if leb (size h) (size g) then g ∷ h ∷ hs else h ∷ later

unfoldable pub largest_first : (ℕ → ℕ) → List ℕ → List ℕ
largest_first size [] = []
largest_first size (g ∷ gs) = insert_by size g (largest_first size gs)

-- min(len(p) for p in parts) >= min_size
abbrev pub large_enough : ℕ → List (List ℕ) → Bool
large_enough min_size [] = true
large_enough min_size (p ∷ ps) = leb min_size (length p) && large_enough min_size ps

unfoldable pub first_large : ℕ → (ℕ → List (List ℕ)) → ℕ → ℕ → Result SplitError (List (List ℕ))
first_large min_size draw zero t = raise no_split
first_large min_size draw (suc tries) t =
    let later = first_large min_size draw tries (suc t) in
    if large_enough min_size (draw t) then ok (draw t) else later

-- xs[:-1]
unfoldable pub but_last : {A : Type 0} → List A → List A
but_last [] = []
but_last (x ∷ []) = []
but_last (x ∷ y ∷ ys) = x ∷ but_last (y ∷ ys)

module _ {S : Type 0} (np : Numpy S) where
  -- np.cumsum, after a sum, and from the start
  unfoldable pub cumsum_after : S → List S → List S
  cumsum_after sum [] = []
  cumsum_after sum (share ∷ shares) = np.add sum share ∷ cumsum_after (np.add sum share) shares

  unfoldable pub cumsum : List S → List S
  unfolding cumsum_after
  cumsum [] = []
  cumsum (share ∷ shares) = share ∷ cumsum_after share shares

  -- (np.cumsum(shares)[:-1] * n).astype(int)
  unfoldable pub share_bounds : List S → ℕ → List ℕ
  unfolding but_last cumsum
  share_bounds shares n = map (λ s. np.times_int s n) (but_last (cumsum shares))

  -- _cut
  abbrev pub cut_shares : List ℕ → List S → List (List ℕ)
  cut_shares idx shares = np.split idx (share_bounds shares (length idx))

  unfoldable pub iid : ℕ → ℕ → Result SplitError (List (List ℕ))
  iid n n_clients = ok (np.array_split (np.permutation 0 n) n_clients)

  -- The loop over the classes, in attempt `t`; `c` counts the classes.
  unfoldable pub by_class : ℕ → ℕ → List ℕ → List ℕ → List (List ℕ) → List (List ℕ)
  by_class t c labels [] parts = parts
  by_class t c labels (cls ∷ classes) parts = by_class t (suc c) labels classes (
      append_chunks parts
        (cut_shares (np.shuffle t c (np.flatnonzero labels cls)) (np.dirichlet t c)))

  -- _dirichlet; `positive` says whether alpha is
  unfoldable pub dirichlet :
      Bool → (min_size max_tries n_clients : ℕ) → List ℕ → Result SplitError (List (List ℕ))
  dirichlet positive min_size max_tries n_clients labels =
      require positive bad_concentration
      >> first_large min_size (λ t. by_class t 0 labels (np.unique labels) (replicate n_clients []))
          max_tries 0

  -- _shards; array_split raises without sections
  unfoldable pub shards : (per_client n_clients : ℕ) → List ℕ → Result SplitError (List (List ℕ))
  shards per_client n_clients labels =
      let n_shards = n_clients * per_client in
      require (leb n_shards (length labels)) too_many_shards
      >> (let order = np.permutation 0 (length labels) in
          let by_label = values_at order (np.argsort (values_at labels order)) in
          let pieces = np.array_split by_label n_shards in
          require (leb 1 n_shards) no_sections
          >> ok (
              map (λ row. concat (map (λ s. get_or pieces s []) row))
                (np.rows n_clients per_client)))

  unfoldable pub quantity :
      Bool → (min_size max_tries : ℕ) → List ℕ → Result SplitError (List (List ℕ))
  quantity positive min_size max_tries labels =
      require positive bad_concentration
      >> first_large min_size
          (λ t. cut_shares (np.permutation 0 (length labels)) (np.dirichlet t 0)) max_tries 0

  -- the loop over the groups: each goes to the client with the fewest samples
  unfoldable pub deal : List ℕ → List ℕ → List (List ℕ) → List ℕ → List (List ℕ)
  deal groups [] parts sizes = parts
  deal groups (g ∷ gs) parts sizes =
      let k = np.argmin sizes in
      let members = np.flatnonzero groups g in
      deal groups gs (append_at_index parts k members) (add_size sizes k (length members))

  unfoldable pub natural : Option (List ℕ) → ℕ → List ℕ → Result SplitError (List (List ℕ))
  natural none n_clients labels = raise no_groups
  natural (some groups) n_clients labels =
      require (length groups == length labels) wrong_groups
      >> (let ids = np.shuffle 0 0 (np.unique groups) in
          require (leb n_clients (length ids)) too_few_groups
          >> ok (
              deal groups (largest_first (λ g. length (np.flatnonzero groups g)) ids)
                (replicate n_clients []) (replicate n_clients 0)))

-- The partitioners that ship, with their parameters.
pub data Method : Type 0 where
  by_iid : Method
  by_dirichlet : Bool → (min_size max_tries : ℕ) → Method
  by_shards : ℕ → Method
  by_quantity : Bool → (min_size max_tries : ℕ) → Method
  by_natural : Option (List ℕ) → Method

module _ {S : Type 0} (np : Numpy S) where
  abbrev pub run_method : Method → ℕ → List ℕ → Result SplitError (List (List ℕ))
  run_method by_iid n labels = iid np (length labels) n
  run_method (by_dirichlet positive min_size tries) n labels =
      dirichlet np positive min_size tries n labels
  run_method (by_shards per_client) n labels = shards np per_client n labels
  run_method (by_quantity positive min_size tries) n labels =
      quantity np positive min_size tries labels
  run_method (by_natural groups) n labels = natural np groups n labels

  -- partition, of a known method; the recipe that is kept with the split is left out
  unfoldable pub partition : Method → ℕ → List ℕ → Result SplitError (List (List ℕ))
  partition method n_clients labels =
      require (leb 1 n_clients) no_clients
      >> (require (leb n_clients (length labels)) too_many_clients
          >> (run_method method n_clients labels >>= λ parts.
              require (length parts == n_clients) wrong_parts >> ok (map np.sort parts)))
