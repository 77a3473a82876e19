-- ===== src/Clients/Travel.antt =====
-- sl/clients.py: with the hand-off "copy" one state travels from client to client, and what the end
-- of a round stores.
use torch_slicer.Common.{
  ℕ, ◌≡◌, refl, sym, ap, ◌∙◌, Bool, true, false, Option, none, some, List, [], ◌∷◌, if◌then◌else◌,
  Bool-cases, inl, inr, subst,
}
use torch_slicer.Clients.{
  sequential, handoff_copy, Session, is_current, switch, incoming, turn, turns, finish,
}
use torch_slicer.Clients.Views.{view, session_of, stored_or, put-view, switch_first}

-- One state of the client's slices, and the server's, trained on all the batches in turn.
unfoldable pub travel : {S B V : Type 0} → (ℕ → B → S × V → S × V) → List (ℕ × B) → S × V → S × V
travel train [] both = both
travel train ((k, batch) ∷ ts) both = travel train ts (train k batch both)

module _ {S B V : Type 0} (epoch : ℕ) (train : ℕ → B → S × V → S × V) where
  -- Before the first turn no client has a stored state.
  abbrev pub IsUnstored : Session S → Type 0
  IsUnstored session = session.current ≡ none → (k : ℕ) → session.states k ≡ none

  switch-live :
      (k : ℕ) (states : ℕ → Option S) (current : Option ℕ) (i l : S)
      → (current ≡ none → (j : ℕ) → states j ≡ none)
      → (switch sequential handoff_copy epoch k (session_of epoch states current i l)).live ≡ l
  unfolding switch incoming
  switch-live k states none i l unstored =
      ap (λ (s : Session S). s.live)
        (switch_first epoch sequential handoff_copy k states i l (unstored refl k))
  switch-live k states (some c) i l unstored = refl

  switch-some :
      (k : ℕ) (states : ℕ → Option S) (current : Option ℕ) (i l : S)
      → (current ≡ none → (j : ℕ) → states j ≡ none)
      → (switch sequential handoff_copy epoch k (session_of epoch states current i l)).current
        ≡ some k
  unfolding switch
  switch-some k states none i l unstored =
      ap (λ (s : Session S). s.current)
        (switch_first epoch sequential handoff_copy k states i l (unstored refl k))
  switch-some k states (some c) i l unstored = refl

  turn-live :
      (k : ℕ) (batch : B) (session : Session S) (server : V)
      → IsUnstored session
      → (let after = turn sequential handoff_copy epoch train (k, batch) (session, server) in
          (◌≡◌ {A = S × V} (after.0.live, after.1) (train k batch (session.live, server)))
          × IsUnstored after.0)
  unfolding turn
  turn-live k batch session server unstored =
      let go : Bool → Session S =
        λ test. if test then session else switch sequential handoff_copy epoch k session in
      elim (Bool-cases (is_current session.current k)) [
        | inl here ↦ (
          ap (λ t. train k batch ((go t).live, server)) here,
          λ empty. absurd (
              let h = ap (λ t. (go t).current) here in
              let gone : session.current ≡ none = sym h ∙ empty in
              let e : false ≡ true = subst (λ c. is_current c k ≡ true) gone here in cc),
        )
        | inr away ↦ (
          ap (λ t. train k batch ((go t).live, server)) away
              ∙ ap (λ s. train k batch (s, server))
                  (switch-live k session.states session.current session.initial session.live
                    unstored),
          λ empty. absurd (
              let h =
                ap (λ t. (go t).current) away
                ∙ switch-some k session.states session.current session.initial session.live
                    unstored in
              cc),
        )
      ]

  -- With the hand-off "copy", the default of sequential sessions, the client's slices and the server end a
  -- sequence of turns with the states that one training run over all the batches, in the order of the
  -- turns, gives. The condition is that no client has a stored state before the first turn, as in a new
  -- session; replace_states may break it.
  pub turns-travel :
      (ts : List (ℕ × B)) (session : Session S) (server : V)
      → IsUnstored session
      → (let after = turns sequential handoff_copy epoch train ts (session, server) in
          ◌≡◌ {A = S × V} (after.0.live, after.1) (travel train ts (session.live, server)))
  unfolding turns travel
  turns-travel [] session server unstored = refl
  turns-travel ((k, batch) ∷ ts) session server unstored =
      let after = turn sequential handoff_copy epoch train (k, batch) (session, server) in
      let (live, unstored') = turn-live k batch session server unstored in
      turns-travel ts after.0 after.1 unstored' ∙ ap (travel train ts) live

-- After finish every client's state, the initial one before its first turn, is stored.
pub finish-view :
    {S : Type 0} (j : ℕ) (states : ℕ → Option S) (current : Option ℕ) (i l : S)
    → let session : Session S = record {
      states = states;
      current = current;
      initial = i;
      live = l;
    } in
      stored_or 0 i ((finish session).states j) ≡ view session j
unfolding finish
finish-view j states none i l = refl
finish-view j states (some c) i l = put-view 0 states c j i l
