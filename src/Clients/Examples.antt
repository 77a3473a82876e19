-- ===== src/Clients/Examples.antt =====
-- sl/clients.py: three clients with loaders of different lengths.
use torch_slicer.Common.{ℕ, zero, suc, ◌+◌, ◌*◌, ◌≡◌, refl, arith, none, List, [], ◌∷◌, ok, raise}
use torch_slicer.Clients.{
  Session, sequential, parallel, handoff_keep, handoff_copy, turns, select_clients, not_distinct,
}
use torch_slicer.Clients.Order.{order}
use torch_slicer.Clients.Views.{view, kept, train_each, batches_of}
use torch_slicer.Clients.Passes.{IsDistinct}
use torch_slicer.Clients.Fair.{order_lem}
use torch_slicer.Clients.Travel.{travel, turns-travel}
use torch_slicer.Clients.Rounds.{batches, batches-view}

abbrev loaders : ℕ → List ℕ
loaders zero = 1 ∷ 2 ∷ 3 ∷ []
loaders (suc zero) = 10 ∷ []
loaders (suc (suc k)) = 20 ∷ 21 ∷ []

abbrev all_clients : List ℕ
all_clients = 0 ∷ 1 ∷ 2 ∷ []

-- The server counts, and what it has counted enters a client's state.
abbrev train : ℕ → ℕ → ℕ × ℕ → ℕ × ℕ
train k batch (s, server) = (2 * s + batch + server, server + s + 1)

abbrev first : Session ℕ
first = record { states = λ k. none; current = none; initial = 5; live = 5 }

in_parallel :
    order parallel 4 loaders all_clients
    ≡ (0, 1) ∷ (1, 10) ∷ (2, 20) ∷ (0, 2) ∷ (2, 21) ∷ (0, 3) ∷ []
unfolding order
in_parallel = refl

in_sequence :
    order sequential 4 loaders all_clients
    ≡ (0, 1) ∷ (0, 2) ∷ (0, 3) ∷ (1, 10) ∷ (2, 20) ∷ (2, 21) ∷ []
unfolding order
in_sequence = refl

three-IsDistinct : IsDistinct all_clients
three-IsDistinct = (refl, (refl, (refl, tt)))

order_lem_example : batches_of 2 (order parallel 4 loaders all_clients) ≡ 20 ∷ 21 ∷ []
order_lem_example = order_lem parallel 4 loaders all_clients 2 three-IsDistinct refl (omega arith)

batches-view_example :
    let after = batches sequential handoff_keep 0 train 4 loaders 3 none all_clients (first, 7) in
    ◌≡◌ {A = (ℕ → ℕ) × ℕ}
      (view after.0, after.1)
      (train_each train (order sequential 4 loaders all_clients) (view first, 7))
batches-view_example =
    batches-view sequential handoff_keep kept 0 train 4 loaders 3 all_clients first 7 (λ h. refl)

turns-travel_example :
    (let after = turns sequential handoff_copy 0 train ((0, 1) ∷ (1, 10) ∷ []) (first, 7) in
      ◌≡◌ {A = ℕ × ℕ} (after.0.live, after.1) (travel train ((0, 1) ∷ (1, 10) ∷ []) (5, 7)))
turns-travel_example = turns-travel 0 train ((0, 1) ∷ (1, 10) ∷ []) first 7 (λ h k. refl)

abbrev choice : List ℕ
choice = 2 ∷ 0 ∷ []

chosen : select_clients choice 3 ≡ ok choice
unfolding select_clients
chosen = refl

twice : select_clients (2 ∷ 2 ∷ []) 3 ≡ raise not_distinct
unfolding select_clients
twice = refl
