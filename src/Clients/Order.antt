-- ===== src/Clients/Order.antt =====
-- sl/clients.py, ClientSession._order: in which order the clients' batches come. `rounds` is fuel, one
-- more than the longest loader is enough.
use torch_slicer.Common.{ℕ, zero, suc, List, [], ◌∷◌, ◌++◌, ◌==◌, if◌then◌else◌, is_nil}
use torch_slicer.Clients.{Mode, sequential, parallel}

-- live.remove(k)
unfoldable pub remove : ℕ → List ℕ → List ℕ
remove k [] = []
remove k (x ∷ xs) = if x == k then xs else x ∷ remove k xs

-- The inner loop of a parallel round: the turns, the clients that are left and what is left of their
-- loaders.
pub record Pass (B : Type 0) : Type 0 where
  pub yielded : List (ℕ × B)
  pub live : List ℕ
  pub its : ℕ → List B

module _ {B : Type 0} where
  -- Every batch of one client's loader.
  unfoldable pub all_of : ℕ → List B → List (ℕ × B)
  all_of k [] = []
  all_of k (b ∷ bs) = (k, b) ∷ all_of k bs

  -- The sequential order.
  unfoldable pub one_by_one : (ℕ → List B) → List ℕ → List (ℕ × B)
  unfolding all_of
  one_by_one loaders [] = []
  one_by_one loaders (k ∷ ks) = all_of k (loaders k) ++ one_by_one loaders ks

  -- its[k], once `rest` is left
  abbrev pub left : ℕ → List B → (ℕ → List B) → ℕ → List B
  left k rest its j = if j == k then rest else its j

  unfoldable pub pass : List ℕ → List ℕ → (ℕ → List B) → Pass B
  unfolding remove
  pass [] live its = record { yielded = []; live = live; its = its }
  pass (k ∷ ks) live its = elim (its k) [
    | [] ↦ pass ks (remove k live) its
    | batch ∷ rest ↦
        let next = pass ks live (left k rest its) in
        record next { yielded = (k, batch) ∷ next.yielded }
  ]

  -- The outer loop.
  unfoldable pub in_turn : ℕ → List ℕ → (ℕ → List B) → List (ℕ × B)
  unfolding pass
  in_turn zero live its = []
  in_turn (suc rounds) live its =
      let p = pass live live its in
      let later = in_turn rounds p.live p.its in if is_nil live then [] else p.yielded ++ later

  unfoldable pub order : Mode → ℕ → (ℕ → List B) → List ℕ → List (ℕ × B)
  unfolding one_by_one in_turn
  order sequential rounds loaders clients = one_by_one loaders clients
  order parallel rounds loaders clients = in_turn rounds clients loaders
