-- ===== src/Discovery.antt =====
-- discovery/coordinator.py: CoordinatorDiscovery, the workers that have registered. Each call holds the
-- lock, so calls are one function after the other; the callbacks and the log are left out.
pub mod Registry
pub mod Selection
mod Examples
use torch_slicer.Common.{
  ℕ, zero, suc, Bool, true, false, not, ◌&&◌, String, str_eq, Option, none, some, List, [], ◌∷◌,
  map, leb, if◌then◌else◌, length, take, is_nil, any, all,
}

-- The fields that have a default are `capabilities`, by name.
pub record NodeInfo (V : Type 0) : Type 0 where
  pub node_id : String
  pub address : String
  pub device : String
  pub memory_mb : ℕ
  pub tags : List String
  pub capabilities : String → V

-- The arguments of handle_register.
pub record Registration (V : Type 0) : Type 0 where
  pub node_id : String
  pub address : String
  pub device : String
  pub memory_mb : ℕ
  pub tags : List String
  pub capabilities : List (String × V)

-- for k, v in capabilities.items(): setattr(existing, k, v)
unfoldable pub set_all : {V : Type 0} → List (String × V) → (String → V) → String → V
set_all [] fields = fields
set_all ((k, v) ∷ rest) fields = set_all rest (λ name. if str_eq name k then v else fields name)

module _ {V : Type 0} (defaults : String → V) where
  abbrev pub new_node : Registration V → NodeInfo V
  new_node r = record {
    node_id = r.node_id;
    address = r.address;
    device = r.device;
    memory_mb = r.memory_mb;
    tags = r.tags;
    capabilities = set_all r.capabilities defaults;
  }

  -- What a registration changes of a node that is known.
  abbrev pub refresh : Registration V → NodeInfo V → NodeInfo V
  refresh r existing = record existing {
    address = r.address;
    device = r.device;
    memory_mb = r.memory_mb;
    tags = r.tags;
    capabilities = set_all r.capabilities existing.capabilities;
  }

  -- handle_register on the nodes from index `i` on: the nodes after it, and the worker's index.
  unfoldable pub register_from : ℕ → Registration V → List (NodeInfo V) → List (NodeInfo V) × ℕ
  register_from i r [] = (new_node r ∷ [], i)
  register_from i r (existing ∷ nodes) =
      let later = register_from (suc i) r nodes in
      if str_eq existing.node_id r.node_id
      then (refresh r existing ∷ nodes, i)
      else (existing ∷ later.0, later.1)

  unfoldable pub handle_register : Registration V → List (NodeInfo V) → List (NodeInfo V) × ℕ
  unfolding register_from
  handle_register r nodes = register_from 0 r nodes

module _ {V : Type 0} where
  -- all(t in n.tags for t in tag_filter)
  unfoldable pub has_tags : List String → NodeInfo V → Bool
  has_tags tag_filter n = all (λ t. any (str_eq t) n.tags) tag_filter

  unfoldable pub keep_if : (NodeInfo V → Bool) → List (NodeInfo V) → List (NodeInfo V)
  keep_if test [] = []
  keep_if test (n ∷ nodes) = if test n then n ∷ keep_if test nodes else keep_if test nodes

  unfoldable pub matching : List String → List (NodeInfo V) → List (NodeInfo V)
  unfolding has_tags keep_if
  matching tag_filter nodes =
      if is_nil tag_filter then nodes else keep_if (has_tags tag_filter) nodes

  -- One look of `discover` at the nodes; `none` is to wait for more, until the timeout.
  unfoldable pub discover_now : ℕ → List String → List (NodeInfo V) → Option (List (NodeInfo V))
  unfolding matching
  discover_now expected tag_filter nodes =
      let found = matching tag_filter nodes in
      if leb expected (length found) then some (take expected found) else none

  -- idle_nodes, after a call of `discover` with these arguments
  unfoldable pub idle_nodes : ℕ → List String → List (NodeInfo V) → List (NodeInfo V)
  unfolding matching keep_if
  idle_nodes expected tag_filter nodes =
      let selected = take expected (matching tag_filter nodes) in
      keep_if (λ n. not (any (λ s. str_eq n.node_id s.node_id) selected)) nodes
