-- ===== src/Discovery/Selection.antt =====
-- discovery/coordinator.py: what `discover` selects and what idle_nodes leaves.
use torch_slicer.Common.{
  ℕ, zero, suc, ◌≤◌, ◌≡◌, refl, sym, ap, ◌∙◌, Bool, true, false, not, String, str_eq, some, List,
  [], ◌∷◌, leb, length, take, any, All, arith, Bool-cases, inl, inr, some_injective, subst, map-All,
  not-eq-true,
}
use torch_slicer.Discovery.{NodeInfo, has_tags, keep_if, matching, discover_now, idle_nodes}

module _ {V : Type 0} where
  All-keep_if :
      (test : NodeInfo V → Bool) (nodes : List (NodeInfo V))
      → All (λ n. test n ≡ true) (keep_if test nodes)
  unfolding keep_if
  All-keep_if test [] = tt
  All-keep_if test (n ∷ nodes) = elim (Bool-cases (test n)) [
    | inl holds ↦ rw holds (holds, All-keep_if test nodes)
    | inr fails ↦ rw fails (All-keep_if test nodes)
  ]

  All-matching :
      (tag_filter : List String) (nodes : List (NodeInfo V))
      → All (λ n. has_tags tag_filter n ≡ true) (matching tag_filter nodes)
  unfolding matching
  All-matching [] nodes = every nodes
    where
      every : (ns : List (NodeInfo V)) → All (λ n. has_tags [] n ≡ true) ns
      every [] = tt
      every (n ∷ ns) = (refl, every ns)
  All-matching (t ∷ ts) nodes = All-keep_if (has_tags (t ∷ ts)) nodes

  All-take :
      (P : NodeInfo V → Type 0) (k : ℕ) (nodes : List (NodeInfo V))
      → All P nodes
      → All P (take k nodes)
  All-take P zero nodes h = tt
  All-take P (suc k) [] h = tt
  All-take P (suc k) (n ∷ nodes) h = (h.0, All-take P k nodes h.1)

  length-take : (k : ℕ) (nodes : List (NodeInfo V)) → k ≤ length nodes → length (take k nodes) ≡ k
  length-take zero nodes le = refl
  length-take (suc k) [] le = absurd (omega arith)
  length-take (suc k) (n ∷ nodes) le = ap suc (length-take k nodes (omega arith))

  -- When discover returns, it returns as many nodes as expected, and each has all the tags that were
  -- asked for; and the nodes that idle_nodes then names are none of them.
  pub discover_now-some :
      (expected : ℕ) (tag_filter : List String) (nodes selected : List (NodeInfo V))
      → discover_now expected tag_filter nodes ≡ some selected
      → (length selected ≡ expected)
        × All (λ n. has_tags tag_filter n ≡ true) selected
        × All
            (λ n. any (λ s. str_eq n.node_id s.node_id) selected ≡ false)
            (idle_nodes expected tag_filter nodes)
  unfolding discover_now idle_nodes
  discover_now-some expected tag_filter nodes selected h =
      let found = matching tag_filter nodes in
      elim (Bool-cases (leb expected (length found))) [
        | inr few ↦ absurd (let h' = rw (discover_now, few) at h in cc)
        | inl enough ↦
            let same : take expected found ≡ selected =
              some_injective (rw (discover_now, enough) at h) in
            (
              ap length (sym same) ∙ length-take expected found (ground arith),
              subst (All (λ n. has_tags tag_filter n ≡ true)) same
                  (All-take _ expected found (All-matching tag_filter nodes)),
              subst
                  (λ sel.
                    All (λ n. any (λ s. str_eq n.node_id s.node_id) sel ≡ false)
                      (idle_nodes expected tag_filter nodes))
                  same
                  (map-All (λ n e. not-eq-true _ e) (idle_nodes expected tag_filter nodes)
                    (All-keep_if
                      (λ n. not (any (λ s. str_eq n.node_id s.node_id) (take expected found)))
                      nodes)),
            )
      ]
