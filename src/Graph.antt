-- ===== src/Graph.antt =====
-- core/model_graph.py: the graph of layers, where it may be cut, and its run node by node.
pub mod Cuts
pub mod Increasing
pub mod Chains
pub mod Links
pub mod Samples
mod Examples
use mathlib.Core.Option
use torch_slicer.Common.{
  ℕ, zero, suc, ◌-◌, max, String, Bool, false, not, ◌&&◌, ◌||◌, Option, none, some, List, [], ◌∷◌,
  ◌++◌, ltb, leb, ◌==◌, if◌then◌else◌, length, get_elem?, is_nil, any, str_eq, Result, ok, raise,
  ◌≡◌, All, ◌<◌, elem, true,
}

-- `layer` is the node's nn.Module, of which the graph's code only passes the object on.
pub record LayerNode (M : Type 0) : Type 0 where
  pub index : ℕ
  pub layer : M
  pub successors : List ℕ
  pub predecessors : List ℕ
  pub name : String
  pub takes_input : Bool
  pub scope : List String

pub record ModelGraph (M : Type 0) : Type 0 where
  pub source : String
  pub nodes : List (LayerNode M)

pub data Error : Type 0 where
  index_error key_error : Error

-- A name for a cut: a node or module name, or an int, which may count from the end (`negative k`
-- is -(k + 1)).
pub data CutName : Type 0 where
  named : String → CutName
  position negative : ℕ → CutName

-- predecessors=[i - 1] if i > 0 else []
unfoldable pub before : ℕ → List ℕ
before zero = []
before (suc k) = k ∷ []

-- One more than the highest number in the list, 0 for the empty list: the code's
-- `max(max_consumer, max(succ))` starts from -1.
unfoldable pub past : List ℕ → ℕ
past [] = 0
past (x ∷ xs) = max (suc x) (past xs)

-- `index` once for each `p` in the list.
unfoldable pub repeats : ℕ → ℕ → List ℕ → List ℕ
repeats p index [] = []
repeats p index (q ∷ qs) = let more = repeats p index qs in if q == p then index ∷ more else more

in_scope : String → List String → Bool
in_scope name [] = false
in_scope name (s ∷ scope) = str_eq name s || in_scope name scope

module _ {M : Type 0} where
  -- The loop of _chain: node `i` reads node `i - 1`, and only node 0 reads the model input.
  unfoldable pub chain_from : ℕ → List (String × M) → List (LayerNode M)
  chain_from i [] = []
  chain_from i ((name, layer) ∷ rest) =
      record {
        index = i;
        layer = layer;
        successors = if is_nil rest then [] else suc i ∷ [];
        predecessors = before i;
        name = name;
        takes_input = i == 0;
        scope = [];
      }
      ∷ chain_from (suc i) rest

  unfoldable pub chain : List (String × M) → String → ModelGraph M
  unfolding chain_from before
  chain named_modules source = record { source = source; nodes = chain_from 0 named_modules }

  -- The last loop of _trace: the index of each node of `nodes` joins the successors of its
  -- predecessors, once for each time that it reads them.
  unfoldable pub links_to : ℕ → List (LayerNode M) → List ℕ
  links_to p [] = []
  links_to p (node ∷ rest) = repeats p node.index node.predecessors ++ links_to p rest

  unfoldable pub link_from : List (LayerNode M) → ℕ → List (LayerNode M) → List (LayerNode M)
  link_from nodes i [] = []
  link_from nodes i (node ∷ rest) =
      record node { successors = node.successors ++ links_to i nodes }
      ∷ link_from nodes (suc i) rest

  unfoldable pub link : ModelGraph M → ModelGraph M
  unfolding link_from links_to repeats
  link g = record g { nodes = link_from g.nodes 0 g.nodes }

  pub is_dag : ModelGraph M → Bool
  is_dag g = any (λ n. ltb 1 (length n.predecessors)) g.nodes

  pub is_packed : ModelGraph M → Bool
  is_packed g = str_eq g.source "packed"

  first_named : String → List (LayerNode M) → Option ℕ
  first_named name [] = none
  first_named name (node ∷ rest) =
      if str_eq node.name name then some node.index else first_named name rest

  last_inside : String → List (LayerNode M) → Option ℕ
  last_inside name [] = none
  last_inside name (node ∷ rest) = elim (last_inside name rest) [
    | some k ↦ some k
    | none ↦ if in_scope name node.scope then some node.index else none
  ]

  unfoldable pub index_of : ModelGraph M → CutName → Result Error ℕ
  unfolding first_named in_scope last_inside
  index_of g (position k) = if ltb k (length g.nodes) then ok k else raise index_error
  index_of g (negative k) =
      if ltb k (length g.nodes) then ok (length g.nodes - suc k) else raise index_error
  index_of g (named name) = elim (first_named name g.nodes) [
    | some k ↦ ok k
    | none ↦ elim (last_inside name g.nodes) [ some k ↦ ok k | none ↦ raise key_error ]
  ]

  -- `input_after[i]`: whether node `i` or a later one reads the model input.
  unfoldable pub input_after : List (LayerNode M) → Bool
  input_after [] = false
  input_after (node ∷ rest) = input_after rest || node.takes_input

  -- The second loop of valid_cuts, from node `k` on. `reach` is `max_consumer + 1`.
  unfoldable pub cuts_from : ℕ → ℕ → List (LayerNode M) → List ℕ
  cuts_from k reach [] = []
  cuts_from k reach (node ∷ []) = []
  cuts_from k reach (node ∷ next ∷ rest) =
      let later = cuts_from (suc k) (max reach (past node.successors)) (next ∷ rest) in
      if leb reach (suc k) && not (input_after (next ∷ rest)) && not (is_nil node.successors)
      then k ∷ later
      else later

  unfoldable pub valid_cuts : ModelGraph M → List ℕ
  unfolding cuts_from input_after past
  valid_cuts g = cuts_from 0 0 g.nodes

-- Node `i` has index `i`, and reads earlier nodes only.
pub record IsOrdered {M : Type 0} (nodes : List (LayerNode M)) : Type 0 where
  pub indexed : (i : ℕ) (node : LayerNode M) → get_elem? nodes i ≡ some node → node.index ≡ i
  pub earlier :
      (i : ℕ) (node : LayerNode M)
      → get_elem? nodes i ≡ some node
      → All (λ q. q < i) node.predecessors

-- A node is among the successors of each node that it reads.
abbrev pub IsLinked : {M : Type 0} → List (LayerNode M) → Type 0
IsLinked nodes =
    (i q : ℕ) (node source : _)
    → get_elem? nodes i ≡ some node
    → get_elem? nodes q ≡ some source
    → elem q node.predecessors ≡ true
    → elem i source.successors ≡ true

-- torch: what a layer computes from its inputs, and whether it takes the extra named tensors.
-- `none` is a call without them.
pub record Torch (M T A : Type 0) : Type 0 where
  pub call : M → List T → Option A → T
  pub accepts_aux : M → Bool

-- A node that reads the model input reads nothing else, and one that reads nothing (a parameter or
-- constant of the model) ignores its input and takes no extra tensors.
pub record InputLaws {M T A : Type 0} (torch : Torch M T A) (nodes : List (LayerNode M))
    : Type 0 where
  pub alone :
      (i : ℕ) (node : LayerNode M)
      → get_elem? nodes i ≡ some node
      → node.takes_input ≡ true
      → node.predecessors ≡ []
  pub plain :
      (i : ℕ) (node : LayerNode M)
      → get_elem? nodes i ≡ some node
      → node.takes_input ≡ false
      → node.predecessors ≡ []
      → torch.accepts_aux node.layer ≡ false
  pub constant :
      (i : ℕ) (node : LayerNode M) (u v : T)
      → get_elem? nodes i ≡ some node
      → node.takes_input ≡ false
      → node.predecessors ≡ []
      → torch.call node.layer (u ∷ []) none ≡ torch.call node.layer (v ∷ []) none

-- `[outputs[p] for p in ps]`; `none` is an IndexError.
unfoldable pub gather {ℓ} : {T : Type ℓ} → List T → List ℕ → Option (List T)
gather outputs [] = some []
gather outputs (p ∷ ps) = elim (get_elem? outputs p) [
  | none ↦ none
  | some v ↦ Option.map (λ vs. v ∷ vs) (gather outputs ps)
]

module _ {M T A : Type 0} (torch : Torch M T A) (example_input : T) (aux : Option A) where
  -- One node of run_nodes, given the outputs of the nodes before it.
  unfoldable pub run_node : List T → LayerNode M → Option T
  run_node outputs node =
      if is_nil node.predecessors
      then some (
          if torch.accepts_aux node.layer
          then torch.call node.layer (example_input ∷ []) aux
          else torch.call node.layer (example_input ∷ []) none)
      else elim (gather outputs node.predecessors) [
        | none ↦ none
        | some inputs ↦ some (torch.call node.layer inputs none)
      ]

  unfoldable pub run_from : List T → List (LayerNode M) → Option (List T)
  run_from outputs [] = some outputs
  run_from outputs (node ∷ rest) = elim (run_node outputs node) [
    | none ↦ none
    | some out ↦ run_from (outputs ++ out ∷ []) rest
  ]

  unfoldable pub run_nodes : ModelGraph M → Option (List T)
  unfolding run_from run_node gather
  run_nodes g = run_from [] g.nodes
