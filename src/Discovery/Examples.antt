-- ===== src/Discovery/Examples.antt =====
-- discovery/coordinator.py: two workers, of which one registers again.
use text.Mathlib.TextEquality.{eq_iff}
use torch_slicer.Common.{
  ◌∙◌, sym, ap, ℕ, zero, suc, ◌≡◌, refl, String, some, true, false, List, [], ◌∷◌, length, All, any,
  str_eq, some_injective,
}
use torch_slicer.Discovery.{
  NodeInfo, Registration, handle_register, discover_now, idle_nodes, has_tags, new_node,
}
use torch_slicer.Discovery.Registry.{IsRegistry, IsRegistered, handle_register_lem}
use torch_slicer.Discovery.Selection.{discover_now-some}

abbrev unknown : String → ℕ
unknown name = 0

abbrev gpu : Registration ℕ
gpu = record {
  node_id = "a";
  address = "h1:1";
  device = "cuda";
  memory_mb = 8000;
  tags = "gpu" ∷ [];
  capabilities = ("compute_gflops", 90) ∷ [];
}

abbrev cpu : Registration ℕ
cpu = record {
  node_id = "b";
  address = "h2:1";
  device = "cpu";
  memory_mb = 4000;
  tags = [];
  capabilities = [];
}

abbrev moved : Registration ℕ
moved = record gpu { address = "h1:2" }

abbrev pool : List (NodeInfo ℕ)
pool = new_node unknown gpu ∷ new_node unknown cpu ∷ []

differ : ¬ (◌≡◌ {A = String} "a" "b")
differ e = let e' : false ≡ true = (eq_iff "a" "b").1 e in cc

id_of : {a b : NodeInfo ℕ} → some a ≡ some b → a.node_id ≡ b.node_id
id_of e = ap (λ (n : NodeInfo ℕ). n.node_id) (some_injective e)

pool-IsRegistry : IsRegistry pool
pool-IsRegistry zero zero a b at_i at_j same = refl
pool-IsRegistry zero (suc zero) a b at_i at_j same =
    absurd (differ (id_of at_i ∙ same ∙ sym (id_of at_j)))
pool-IsRegistry (suc zero) zero a b at_i at_j same =
    absurd (differ (id_of at_j ∙ sym same ∙ sym (id_of at_i)))
pool-IsRegistry (suc zero) (suc zero) a b at_i at_j same = refl
pool-IsRegistry (suc (suc i)) j a b at_i at_j same = absurd (cc)
pool-IsRegistry zero (suc (suc j)) a b at_i at_j same = absurd (cc)
pool-IsRegistry (suc zero) (suc (suc j)) a b at_i at_j same = absurd (cc)

again : (handle_register unknown moved pool).1 ≡ 0
unfolding handle_register
again = refl

handle_register_lem_example :
    IsRegistered 0 moved pool
      (handle_register unknown moved pool).0
      (handle_register unknown moved pool).1
    × IsRegistry (handle_register unknown moved pool).0
handle_register_lem_example = handle_register_lem unknown moved pool pool-IsRegistry

one_gpu : discover_now 1 ("gpu" ∷ []) pool ≡ some (new_node unknown gpu ∷ [])
unfolding discover_now
one_gpu = refl

discover_now-some_example :
    (length (new_node unknown gpu ∷ []) ≡ 1)
    × All (λ n. has_tags ("gpu" ∷ []) n ≡ true) (new_node unknown gpu ∷ [])
    × All
        (λ n. any (λ s. str_eq n.node_id s.node_id) (new_node unknown gpu ∷ []) ≡ false)
        (idle_nodes 1 ("gpu" ∷ []) pool)
discover_now-some_example =
    discover_now-some 1 ("gpu" ∷ []) pool (new_node unknown gpu ∷ []) one_gpu
