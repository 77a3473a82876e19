-- ===== src/Clients/Views.antt =====
-- sl/clients.py: with the hand-off "keep", and in parallel sessions, every client trains on its own
-- state.
use torch_slicer.Common.{
  ℕ, ◌≡◌, refl, sym, ap, ◌∙◌, true, false, Option, none, some, List, [], ◌∷◌, ◌==◌, if◌then◌else◌,
  arith, Option-cases, Bool-cases, inl, inr, ==_iff, subst, ◌≢◌,
}
use torch_slicer.Clients.{
  Mode, sequential, parallel, Handoff, handoff_keep, Session, put, is_current, incoming, switch,
}

module _ {S : Type 0} where
  -- The state of client `k`: what the slices hold if it is the current one, else the stored state, and
  -- the initial state before its first turn.
  abbrev pub view : Session S → ℕ → S
  view session k =
      if is_current session.current k
      then session.live
      else elim (session.states k) [ some s ↦ s | none ↦ session.initial ]

  -- Before the first turn the slices hold the initial state.
  abbrev pub IsFresh : Session S → Type 0
  IsFresh session = session.current ≡ none → session.live ≡ session.initial

-- A session in which clients keep their own states.
pub data Keeps {S : Type 0} : Mode → Handoff S → Type 0 where
  kept : Keeps sequential handoff_keep
  apart : (handoff : Handoff S) → Keeps parallel handoff

-- The batches of one client among the turns.
unfoldable pub batches_of : {B : Type 0} → ℕ → List (ℕ × B) → List B
batches_of k [] = []
batches_of k ((c, batch) ∷ ts) = if c == k then batch ∷ batches_of k ts else batches_of k ts

-- A table of the clients' states with a new one for client `k`.
abbrev pub with_own : {S : Type 0} → ℕ → S → (ℕ → S) → ℕ → S
with_own k state own j = if k == j then state else own j

-- The training of clients that each have their slices and share the server.
unfoldable pub train_each :
    {S B V : Type 0} → (ℕ → B → S × V → S × V) → List (ℕ × B) → (ℕ → S) × V → (ℕ → S) × V
train_each train [] (own, server) = (own, server)
train_each train ((k, batch) ∷ ts) (own, server) =
    let after = train k batch (own k, server) in
    train_each train ts (with_own k after.0 own, after.1)

module _ {S : Type 0} (epoch : ℕ) where
  abbrev pub session_of : (ℕ → Option S) → Option ℕ → S → S → Session S
  session_of states current initial live = record {
    states = states;
    current = current;
    initial = initial;
    live = live;
  }

  abbrev pub stored_or : S → Option S → S
  stored_or i stored = elim stored [ some s ↦ s | none ↦ i ]

  -- `view` of a session with a current client.
  pub view_at :
      (states : ℕ → Option S) (k j : ℕ) (i l target : S)
      → (k ≡ j → l ≡ target)
      → (k ≢ j → stored_or i (states j) ≡ target)
      → view (session_of states (some k) i l) j ≡ target
  view_at states k j i l target same away = elim (Bool-cases (k == j)) [
    | inl e ↦ rw e (same ((==_iff k j).0 e))
    | inr ne ↦ rw ne (away (λ e. absurd (ground arith)))
  ]

  pub put-view :
      (states : ℕ → Option S) (c j : ℕ) (i l : S)
      → stored_or i (put c l states j) ≡ view (session_of states (some c) i l) j
  put-view states c j i l = elim (Bool-cases (c == j)) [
    | inl e ↦ let e' : j == c ≡ true = ground arith in rw (e, e') refl
    | inr ne ↦ let ne' : j == c ≡ false = ground arith in rw (ne, ne') refl
  ]

  module _ (mode : Mode) (handoff : Handoff S) (k : ℕ) (states : ℕ → Option S) (i l : S) where
    pub switch_first :
        states k ≡ none
        → switch mode handoff epoch k (session_of states none i l) ≡ session_of states (some k) i l
    unfolding switch
    switch_first empty =
        ap
          (λ o. elim o [
            | none ↦ session_of states (some k) i l
            | some s ↦ session_of states (some k) i s
          ])
          empty

    pub switch_back :
        (s : S)
        → states k ≡ some s
        → switch mode handoff epoch k (session_of states none i l) ≡ session_of states (some k) i s
    unfolding switch
    switch_back s at =
        ap
          (λ o. elim o [
            | none ↦ session_of states (some k) i l
            | some t ↦ session_of states (some k) i t
          ])
          at

  -- What a switch from client `c` loads is the state of client `k`.
  incoming-view :
      (mode : Mode) (handoff : Handoff S) (keeps : Keeps mode handoff) (c k : ℕ)
      (session : Session S)
      → incoming mode handoff epoch c k session ≡ stored_or session.initial (session.states k)
  unfolding incoming
  incoming-view mode handoff kept c k session = refl
  incoming-view mode handoff (apart h) c k session = refl

  pub switch-view :
      (mode : Mode) (handoff : Handoff S) (keeps : Keeps mode handoff) (k j : ℕ)
      (states : ℕ → Option S) (current : Option ℕ) (i l : S)
      → (current ≡ none → l ≡ i)
      → is_current current k ≡ false
      → view (switch mode handoff epoch k (session_of states current i l)) j
        ≡ view (session_of states current i l) j
  unfolding switch
  switch-view mode handoff keeps k j states none i l fresh other = elim (Option-cases (states k)) [
    | inl empty ↦
        ap (λ s. view s j) (switch_first mode handoff k states i l empty)
        ∙ view_at states k j i l (stored_or i (states j))
            (λ e. fresh refl ∙ sym (ap (stored_or i) (subst (λ n. states n ≡ none) e empty)))
            (λ ne. refl)
    | inr (s, at) ↦
        ap (λ s. view s j) (switch_back mode handoff k states i l s at)
        ∙ view_at states k j i s (stored_or i (states j))
            (λ e. sym (ap (stored_or i) (subst (λ n. states n ≡ some s) e at))) (λ ne. refl)
  ]
  switch-view mode handoff keeps k j states (some c) i l fresh other =
      view_at (put c l states) k j i _ (view (session_of states (some c) i l) j)
        (λ e.
          incoming-view mode handoff keeps c k (session_of (put c l states) (some c) i l)
          ∙ put-view states c k i l
          ∙ ap (view (session_of states (some c) i l)) e)
        (λ ne. put-view states c j i l)
