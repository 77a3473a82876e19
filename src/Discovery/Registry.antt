-- ===== src/Discovery/Registry.antt =====
-- discovery/coordinator.py, handle_register: a worker keeps its index, and registering again changes
-- that worker only.
use text.Mathlib.TextEquality.{eq_iff}
use torch_slicer.Common.{
  ℕ, zero, suc, ◌+◌, ◌≤◌, ◌≡◌, ◌≢◌, refl, sym, ap, ◌∙◌, Bool, true, false, String, str_eq, none,
  some, List, [], ◌∷◌, if◌then◌else◌, get_elem?, arith, Bool-cases, inl, inr, some_injective, subst,
  ◌==◌, ==_iff, get_elem?-some, lt_of_get_elem?,
}
use torch_slicer.Discovery.{
  NodeInfo, Registration, new_node, refresh, register_from, handle_register,
}

module _ {V : Type 0} where
  -- No two nodes have the same id.
  abbrev pub IsRegistry : List (NodeInfo V) → Type 0
  IsRegistry nodes =
      (i j : ℕ) (a b : NodeInfo V)
      → get_elem? nodes i ≡ some a
      → get_elem? nodes j ≡ some b
      → a.node_id ≡ b.node_id
      → i ≡ j

  -- What registering does to the nodes of which the first has index `start`.
  pub record IsRegistered (start : ℕ) (r : Registration V) (nodes nodes' : List (NodeInfo V))
      (index : ℕ) : Type 0 where
    pub place : ℕ
    pub at_index : index ≡ start + place
    pub node : NodeInfo V
    pub there : get_elem? nodes' place ≡ some node
    pub its_id : node.node_id ≡ r.node_id
    pub its_address : node.address ≡ r.address
    -- the other places are as before
    pub others : (j : ℕ) → j ≢ place → get_elem? nodes' j ≡ get_elem? nodes j
    -- a node that was there had the id already
    pub before : (old : NodeInfo V) → get_elem? nodes place ≡ some old → old.node_id ≡ r.node_id
    -- a node with the id was there already, unless it is new at the end
    pub known :
        (j : ℕ) (n : NodeInfo V) → get_elem? nodes j ≡ some n → n.node_id ≡ r.node_id → place ≤ j

  module _ (defaults : String → V) (i : ℕ) (r : Registration V) (existing : NodeInfo V)
      (nodes : List (NodeInfo V)) where
    abbrev go : Bool → List (NodeInfo V) × ℕ
    go test =
        let later = register_from defaults (suc i) r nodes in
        if test then (refresh defaults r existing ∷ nodes, i) else (existing ∷ later.0, later.1)

    register_same :
        str_eq existing.node_id r.node_id ≡ true
        → register_from defaults i r (existing ∷ nodes) ≡ (refresh defaults r existing ∷ nodes, i)
    unfolding register_from
    register_same same = ap go same

    register_other :
        str_eq existing.node_id r.node_id ≡ false
        → register_from defaults i r (existing ∷ nodes)
          ≡ (let later = register_from defaults (suc i) r nodes in (existing ∷ later.0, later.1))
    unfolding register_from
    register_other other = ap go other

  others_cons :
      (xs ys : List (NodeInfo V)) (x y : NodeInfo V) (place : ℕ)
      → ((j : ℕ) → j ≢ place → get_elem? xs j ≡ get_elem? ys j)
      → x ≡ y
      → (j : ℕ) → j ≢ suc place
      → get_elem? (x ∷ xs) j ≡ get_elem? (y ∷ ys) j
  others_cons xs ys x y place same e zero away = ap some e
  others_cons xs ys x y place same e (suc j) away = same j (λ e. away (ap suc e))

  others_first :
      (nodes : List (NodeInfo V)) (x y : NodeInfo V) (j : ℕ)
      → j ≢ 0
      → get_elem? (x ∷ nodes) j ≡ get_elem? (y ∷ nodes) j
  others_first nodes x y zero away = absurd (away refl)
  others_first nodes x y (suc j) away = refl

  others_new : (x : NodeInfo V) (j : ℕ) → j ≢ 0 → get_elem? (x ∷ []) j ≡ none
  others_new x zero away = absurd (away refl)
  others_new x (suc j) away = refl

  module _ (defaults : String → V) (r : Registration V) where
    abbrev Done : ℕ → List (NodeInfo V) → List (NodeInfo V) × ℕ → Type 0
    Done i nodes result = IsRegistered i r nodes result.0 result.1

    here_first :
        (i : ℕ) (existing : NodeInfo V) (nodes : List (NodeInfo V))
        → existing.node_id ≡ r.node_id
        → Done i (existing ∷ nodes) (refresh defaults r existing ∷ nodes, i)
    here_first i existing nodes e = record {
      place = 0;
      at_index = omega arith;
      node = refresh defaults r existing;
      there = refl;
      its_id = e;
      its_address = refl;
      others = others_first nodes (refresh defaults r existing) existing;
      before = λ old at. ap (λ (n : NodeInfo V). n.node_id) (sym (some_injective at)) ∙ e;
      known = λ j n at same. omega arith;
    }

    further :
        (i : ℕ) (existing : NodeInfo V) (nodes : List (NodeInfo V)) (later : List (NodeInfo V) × ℕ)
        → existing.node_id ≢ r.node_id
        → Done (suc i) nodes later
        → Done i (existing ∷ nodes) (existing ∷ later.0, later.1)
    further i existing nodes later ne d = record {
      place = suc d.place;
      at_index = let e = d.at_index in omega arith;
      node = d.node;
      there = d.there;
      its_id = d.its_id;
      its_address = d.its_address;
      others = others_cons later.0 nodes existing existing d.place d.others refl;
      before = d.before;
      known = known_from;
    }
      where
        known_from :
            (j : ℕ) (n : NodeInfo V)
            → get_elem? (existing ∷ nodes) j ≡ some n
            → n.node_id ≡ r.node_id
            → suc d.place ≤ j
        known_from zero n at same =
            absurd (ne (ap (λ (m : NodeInfo V). m.node_id) (some_injective at) ∙ same))
        known_from (suc j) n at same = let low = d.known j n at same in omega arith

    register_from_lem :
        (i : ℕ) (nodes : List (NodeInfo V)) → Done i nodes (register_from defaults i r nodes)
    unfolding register_from
    register_from_lem i [] = record {
      place = 0;
      at_index = omega arith;
      node = new_node defaults r;
      there = refl;
      its_id = refl;
      its_address = refl;
      others = others_new (new_node defaults r);
      before = λ old at. absurd (cc);
      known = λ j n at same. absurd (cc);
    }
    register_from_lem i (existing ∷ nodes) = elim (Bool-cases (str_eq existing.node_id r.node_id)) [
      | inl same ↦
          subst (Done i (existing ∷ nodes)) (sym (register_same defaults i r existing nodes same))
            (here_first i existing nodes ((eq_iff existing.node_id r.node_id).0 same))
      | inr other ↦
          subst (Done i (existing ∷ nodes)) (sym (register_other defaults i r existing nodes other))
            (further i existing nodes (register_from defaults (suc i) r nodes)
              (λ e. absurd (let e' = (eq_iff existing.node_id r.node_id).1 e in cc))
              (register_from_lem (suc i) nodes))
    ]

    -- handle_register returns the index of a node with the worker's id and new address, and leaves every
    -- other index as it was; if no two nodes had the same id, none have after it.
    pub handle_register_lem :
        (nodes : List (NodeInfo V))
        → IsRegistry nodes
        → let result = handle_register defaults r nodes in
          IsRegistered 0 r nodes result.0 result.1 × IsRegistry result.0
    unfolding handle_register
    handle_register_lem nodes registry = (register_from_lem 0 nodes, still)
      where
        d : Done 0 nodes (register_from defaults 0 r nodes)
        d = register_from_lem 0 nodes

        nodes' : List (NodeInfo V)
        nodes' = (register_from defaults 0 r nodes).0

        -- Only the registered node has its id.
        alone :
            (j : ℕ) (b : NodeInfo V)
            → get_elem? nodes' j ≡ some b
            → b.node_id ≡ r.node_id
            → j ≡ d.place
        alone j b at e = elim (Bool-cases (j == d.place)) [
          | inl here ↦ (==_iff j d.place).0 here
          | inr away ↦
              let was =
                sym (d.others j (λ h. absurd (let h' = (==_iff j d.place).1 h in cc))) ∙ at in
              let (old, old_at) = get_elem?-some nodes d.place (
                let low = d.known j b was e in
                let fits = lt_of_get_elem? nodes j was in omega arith) in
              sym (registry d.place j old b old_at was (d.before old old_at ∙ sym e))
        ]

        its :
            (j : ℕ) (b : NodeInfo V)
            → get_elem? nodes' j ≡ some b
            → j ≡ d.place
            → b.node_id ≡ r.node_id
        its j b at e =
            ap (λ (n : NodeInfo V). n.node_id)
              (some_injective (sym at ∙ ap (get_elem? nodes') e ∙ d.there))
            ∙ d.its_id

        still : IsRegistry nodes'
        still i j a b at_i at_j same = elim (Bool-cases (i == d.place)) [
          | inl here ↦
              let e = (==_iff i d.place).0 here in
              e ∙ sym (alone j b at_j (sym same ∙ its i a at_i e))
          | inr away ↦ elim (Bool-cases (j == d.place)) [
            | inl here ↦
                let e = (==_iff j d.place).0 here in alone i a at_i (same ∙ its j b at_j e) ∙ sym e
            | inr away' ↦
                registry i j a b
                  (sym (d.others i (λ h. absurd (let h' = (==_iff i d.place).1 h in cc))) ∙ at_i)
                  (sym (d.others j (λ h. absurd (let h' = (==_iff j d.place).1 h in cc))) ∙ at_j)
                  same
          ]
        ]
