-- ===== src/Clients/Rounds.antt =====
-- sl/clients.py, ClientSession.batches: a whole round, its end included.
use torch_slicer.Common.{
  ℕ, ◌≤◌, ◌≡◌, refl, sym, ap, ◌∙◌, true, false, Option, none, some, List, [], ◌∷◌, ◌==◌, ==_refl,
  if◌then◌else◌, is_nil, length, elem, all, ltb, arith, Bool-cases, inl, inr, subst, ok, >>-eq-ok,
  ok_injective, and-eq-true, require-eq-ok, not-eq-true, ==_iff, fun_ext,
}
use torch_slicer.Common.Sorting.{distinct}
use torch_slicer.Clients.{
  Mode, sequential, parallel, Handoff, Session, put, turns, round_end, select_clients,
}
use torch_slicer.Clients.Views.{view, IsFresh, Keeps, train_each, session_of, put-view, view_at}
use torch_slicer.Clients.Turns.{turns-view}
use torch_slicer.Clients.Order.{order}
use torch_slicer.Clients.Passes.{IsDistinct}

module _ {S B V : Type 0} (mode : Mode) (handoff : Handoff S) (epoch : ℕ)
    (train : ℕ → B → S × V → S × V) where
  -- A round, in which the caller trains on each batch that it is given.
  unfoldable pub batches :
      ℕ → (ℕ → List B) → ℕ → Option (List S → List S) → List ℕ → Session S × V → Session S × V
  unfolding order turns round_end
  batches rounds loaders n_clients on_round_end clients both =
      let after = turns mode handoff epoch train (order mode rounds loaders clients) both in
      elim mode [
        | sequential ↦ after
        | parallel ↦ (round_end n_clients on_round_end after.0, after.1)
      ]

-- Without a hook the end of a parallel round changes no client's state.
round_end-view :
    {S : Type 0} (n_clients j : ℕ) (states : ℕ → Option S) (current : Option ℕ) (i l : S)
    → view (round_end n_clients none (session_of 0 states current i l)) j
      ≡ view (session_of 0 states current i l) j
unfolding round_end
round_end-view n_clients j states none i l = refl
round_end-view n_clients j states (some c) i l =
    view_at 0 (put c l states) c j i _ (view (session_of 0 states (some c) i l) j)
      (λ e. loaded ∙ mine ∙ ap (view (session_of 0 states (some c) i l)) e)
      (λ ne. put-view 0 states c j i l)
  where
    loaded : (round_end n_clients none (session_of 0 states (some c) i l)).live ≡ l
    loaded =
        ap (λ test. elim (if test then some l else states c) [ none ↦ l | some s ↦ s ]) (==_refl c)

    mine : l ≡ view (session_of 0 states (some c) i l) c
    mine = rw (==_refl c) refl

module _ {S B V : Type 0} (mode : Mode) (handoff : Handoff S) (keeps : Keeps mode handoff)
    (epoch : ℕ) (train : ℕ → B → S × V → S × V) where
  -- A round in which clients keep their own states, sequential with the hand-off "keep" or parallel
  -- without a hook at its end, leaves every client with the state, and the server with the state, that
  -- the same batches in the same order, which is that of _order, give if each client has slices of its own
  -- for good and all share the server. The condition is that the slices hold the initial state before the
  -- first turn.
  pub batches-view :
      (rounds : ℕ) (loaders : ℕ → List B) (n_clients : ℕ) (clients : List ℕ) (session : Session S)
      (server : V)
      → IsFresh session
      → (let after =
            batches mode handoff epoch train rounds loaders n_clients none clients
              (session, server) in
          ◌≡◌ {A = (ℕ → S) × V}
            (view after.0, after.1)
            (train_each train (order mode rounds loaders clients) (view session, server)))
  unfolding batches
  batches-view rounds loaders n_clients clients session server fresh =
      let after =
        turns mode handoff epoch train (order mode rounds loaders clients) (session, server) in
      end_of mode after
      ∙ turns-view epoch mode handoff keeps train (order mode rounds loaders clients) session server
          fresh
    where
      end_of :
          (m : Mode) (after : Session S × V)
          → (let done : Session S × V = elim m [
            | sequential ↦ after
            | parallel ↦ (round_end n_clients none after.0, after.1)
          ] in
              ◌≡◌ {A = (ℕ → S) × V} (view done.0, done.1) (view after.0, after.1))
      end_of sequential after = refl
      end_of parallel after =
          ap (λ own. (own, after.1))
            (fun_ext λ j.
              round_end-view n_clients j after.0.states after.0.current after.0.initial
                after.0.live)

distinct_short : (xs : List ℕ) → length (distinct xs) ≤ length xs
unfolding distinct
distinct_short [] = omega arith
distinct_short (x ∷ xs) =
    let rest = distinct_short xs in
    elim (Bool-cases (elem x xs)) [
      | inl again ↦ rw again (omega arith)
      | inr fresh ↦ rw fresh (omega arith)
    ]

distinct_full : (xs : List ℕ) → length (distinct xs) ≡ length xs → IsDistinct xs
unfolding distinct
distinct_full [] h = tt
distinct_full (x ∷ xs) h = elim (Bool-cases (elem x xs)) [
  | inl again ↦ absurd (let h' = rw again at h in let short = distinct_short xs in omega arith)
  | inr fresh ↦ (fresh, distinct_full xs (let h' = rw fresh at h in omega arith))
]

-- select_clients returns the algorithm's choice unchanged, and only if it is some clients, distinct and
-- in range.
select_clients-ok :
    (sel : List ℕ) (n_clients : ℕ) (clients : List ℕ)
    → select_clients sel n_clients ≡ ok clients
    → (clients ≡ sel)
      × (is_nil clients ≡ false)
      × IsDistinct clients
      × (all (λ k. ltb k n_clients) clients ≡ true)
unfolding select_clients
select_clients-ok sel n_clients clients h =
    let (some_client, h1) = >>-eq-ok _ _ h in
    let (checked, h2) = >>-eq-ok _ _ h1 in
    let same = sym (ok_injective h2) in
    let (full, inside) =
      and-eq-true (length (distinct sel) == length sel) (all (λ k. ltb k n_clients) sel)
        (require-eq-ok _ _ checked) in
    let mine = not-eq-true (is_nil sel) (require-eq-ok _ _ some_client) in
    (
      same,
      ap is_nil same ∙ mine,
      subst IsDistinct (sym same)
          (distinct_full sel ((==_iff (length (distinct sel)) (length sel)).0 full)),
      ap (all (λ k. ltb k n_clients)) same ∙ inside,
    )
