-- ===== src/Clients/Turns.antt =====
-- sl/clients.py: a whole sequence of turns, client by client.
use torch_slicer.Common.{
  ℕ, ◌≡◌, refl, sym, ap, ◌∙◌, true, false, Option, none, some, List, [], ◌∷◌, ◌==◌, if◌then◌else◌,
  Option-cases, Bool-cases, inl, inr, ==_iff, ==_refl, ap₂, fun_ext,
}
use torch_slicer.Clients.{Mode, Handoff, Session, is_current, switch, turn, turns}
use torch_slicer.Clients.Views.{
  view, IsFresh, Keeps, with_own, train_each, session_of, stored_or, switch-view, switch_first,
  switch_back,
}

module _ {S : Type 0} (epoch : ℕ) (mode : Mode) (handoff : Handoff S) where
  switch-current :
      (k : ℕ) (states : ℕ → Option S) (current : Option ℕ) (i l : S)
      → (switch mode handoff epoch k (session_of epoch states current i l)).current ≡ some k
  unfolding switch
  switch-current k states (some c) i l = refl
  switch-current k states none i l = elim (Option-cases (states k)) [
    | inl empty ↦
        ap (λ (s : Session S). s.current) (switch_first epoch mode handoff k states i l empty)
    | inr (s, at) ↦
        ap (λ (s : Session S). s.current) (switch_back epoch mode handoff k states i l s at)
  ]

  -- The session in which client `k` trains.
  abbrev turned : ℕ → Session S → Session S
  turned k session =
      if is_current session.current k then session else switch mode handoff epoch k session

  turned_here :
      (k : ℕ) (session : Session S)
      → is_current session.current k ≡ true
      → turned k session ≡ session
  turned_here k session here =
      ap (λ test. if test then session else switch mode handoff epoch k session) here

  turned_away :
      (k : ℕ) (session : Session S)
      → is_current session.current k ≡ false
      → turned k session ≡ switch mode handoff epoch k session
  turned_away k session away =
      ap (λ test. if test then session else switch mode handoff epoch k session) away

  is_current-eq : (current : Option ℕ) (k : ℕ) → is_current current k ≡ true → current ≡ some k
  is_current-eq none k h = absurd (cc)
  is_current-eq (some c) k h = ap some ((==_iff c k).0 h)

  turned-current : (k : ℕ) (session : Session S) → (turned k session).current ≡ some k
  turned-current k session = elim (Bool-cases (is_current session.current k)) [
    | inl here ↦
        ap (λ (s : Session S). s.current) (turned_here k session here)
        ∙ is_current-eq session.current k here
    | inr away ↦
        ap (λ (s : Session S). s.current) (turned_away k session away)
        ∙ switch-current k session.states session.current session.initial session.live
  ]

  module _ (keeps : Keeps mode handoff) where
    turned-view :
        (k j : ℕ) (session : Session S)
        → IsFresh session
        → view (turned k session) j ≡ view session j
    turned-view k j session fresh = elim (Bool-cases (is_current session.current k)) [
      | inl here ↦ ap (λ s. view s j) (turned_here k session here)
      | inr away ↦
          ap (λ s. view s j) (turned_away k session away)
          ∙ switch-view epoch mode handoff keeps k j session.states session.current session.initial
              session.live fresh away
    ]

    -- The view of a session whose current client is `k`.
    view_current :
        (k j : ℕ) (session : Session S)
        → session.current ≡ some k
        → view session j
          ≡ (if k == j then session.live else stored_or epoch session.initial (session.states j))
    view_current k j session at =
        ap
          (λ c.
            if is_current c j
            then session.live
            else stored_or epoch session.initial (session.states j))
          at

    -- What the slices hold when client `k` trains is its state.
    turned-live :
        (k : ℕ) (session : Session S) → IsFresh session → (turned k session).live ≡ view session k
    turned-live k session fresh =
        sym (
          view_current k k (turned k session) (turned-current k session)
          ∙ ap
              (λ test.
                if test
                then (turned k session).live
                else stored_or epoch (turned k session).initial ((turned k session).states k))
              (==_refl k))
        ∙ turned-view k k session fresh

    module _ {B V : Type 0} (train : ℕ → B → S × V → S × V) where
      -- One turn trains one client, and the server, and leaves the other clients.
      turn-view :
          (k j : ℕ) (batch : B) (session : Session S) (server : V)
          → IsFresh session
          → view (turn mode handoff epoch train (k, batch) (session, server)).0 j
            ≡ with_own k (train k batch (view session k, server)).0 (view session) j
      unfolding turn
      turn-view k j batch session server fresh =
          let here = turned k session in
          let trained = (train k batch (here.live, server)).0 in
          let now_ = record here { live = trained } in
          let loaded = turned-live k session fresh in
          let before =
            sym (view_current k j here (turned-current k session))
            ∙ turned-view k j session fresh in
          let after = view_current k j now_ (turned-current k session) in
          elim (Bool-cases (k == j)) [
            | inl e ↦
                let after' : view now_ j ≡ trained = rw e at after in
                rw e (after' ∙ ap (λ s. (train k batch (s, server)).0) loaded)
            | inr ne ↦
                let before' : stored_or epoch here.initial (here.states j) ≡ view session j =
                  rw ne at before in
                let after' : view now_ j ≡ stored_or epoch here.initial (here.states j) =
                  rw ne at after in
                rw ne (after' ∙ before')
          ]

      turn-server :
          (k : ℕ) (batch : B) (session : Session S) (server : V)
          → IsFresh session
          → (turn mode handoff epoch train (k, batch) (session, server)).1
            ≡ (train k batch (view session k, server)).1
      unfolding turn
      turn-server k batch session server fresh =
          ap (λ s. (train k batch (s, server)).1) (turned-live k session fresh)

      turn-IsFresh :
          (k : ℕ) (batch : B) (session : Session S) (server : V)
          → IsFresh (turn mode handoff epoch train (k, batch) (session, server)).0
      unfolding turn
      turn-IsFresh k batch session server empty = absurd (let at = turned-current k session in cc)

      -- A sequence of turns, in a sequential session whose hand-off is "keep" and in a parallel one.
      pub turns-view :
          (ts : List (ℕ × B)) (session : Session S) (server : V)
          → IsFresh session
          → (let after = turns mode handoff epoch train ts (session, server) in
              ◌≡◌ {A = (ℕ → S) × V}
                (view after.0, after.1)
                (train_each train ts (view session, server)))
      unfolding turns train_each
      turns-view [] session server fresh = refl
      turns-view ((k, batch) ∷ ts) session server fresh =
          let after = turn mode handoff epoch train (k, batch) (session, server) in
          turns-view ts after.0 after.1 (turn-IsFresh k batch session server)
          ∙ ap (train_each train ts) (
              ap₂ (λ own v. (own, v)) (fun_ext λ j. turn-view k j batch session server fresh)
                (turn-server k batch session server fresh))
