-- ===== src/Clients.antt =====
-- sl/clients.py: ClientSession, the training of several clients against one server. What a list
-- indexed by client holds is a function of the client; the clients are in range, which
-- select_clients checks.
pub mod Order
mod Passes
pub mod Fair
pub mod Rounds
pub mod Views
pub mod Travel
pub mod Turns
mod Examples
use torch_slicer.Common.{
  ℕ, zero, suc, Bool, true, false, Option, none, some, List, [], ◌∷◌, ◌++◌, map, ◌==◌, ◌&&◌, not,
  leb, ltb, all, is_nil, if◌then◌else◌, length, get_elem?, elem, range, Result, ok, raise, ◌>>◌,
  require,
}
use torch_slicer.Common.Sorting.{distinct}

pub data Mode : Type 0 where
  sequential parallel : Mode

-- The `info` of a hand-off.
pub record Info (S : Type 0) : Type 0 where
  pub from : ℕ
  pub to : ℕ
  pub epoch : ℕ
  pub initial : S

abbrev pub Handoff : Type 0 → Type 0
Handoff S = S → Option S → Info S → S

-- _handoff_copy and _handoff_keep
abbrev pub handoff_copy : {S : Type 0} → Handoff S
handoff_copy prev_state next_state info = prev_state

abbrev pub handoff_keep : {S : Type 0} → Handoff S
handoff_keep prev_state next_state info = elim next_state [ some s ↦ s | none ↦ info.initial ]

-- The session, and in `live` the state that the client's slices hold, which the adapter's get_state reads and
-- its set_state replaces. `initial` is a value from the first round on.
pub record Session (S : Type 0) : Type 0 where
  pub states : ℕ → Option S
  pub current : Option ℕ
  pub initial : S
  pub live : S

-- self.states[k] = state
abbrev pub put : {S : Type 0} → ℕ → S → (ℕ → Option S) → ℕ → Option S
put k state states j = if j == k then some state else states j

-- `k == self.current`
abbrev pub is_current : Option ℕ → ℕ → Bool
is_current none k = false
is_current (some c) k = c == k

module _ {S : Type 0} (mode : Mode) (handoff : Handoff S) (epoch : ℕ) where
  -- The state that client `k` starts its turn from, once client `c`'s is stored.
  unfoldable pub incoming : ℕ → ℕ → Session S → S
  incoming c k session = elim mode [
    | sequential ↦
        handoff session.live (session.states k)
          record { from = c; to = k; epoch = epoch; initial = session.initial }
    | parallel ↦ elim (session.states k) [ some s ↦ s | none ↦ session.initial ]
  ]

  -- _switch
  unfoldable pub switch : ℕ → Session S → Session S
  unfolding incoming
  switch k session = elim session.current [
    | none ↦ elim (session.states k) [
      | none ↦ record session { current = some k }
      | some s ↦ record session { live = s; current = some k }
    ]
    | some c ↦
        let stored = record session { states = put c session.live session.states } in
        record stored { live = incoming c k stored; current = some k }
  ]

  -- One round of the loop of `batches`: the switch, if there is one, and the training on the batch that
  -- the caller does before it asks for the next. It changes the client's slices and the server's, whose
  -- state, of type V, all clients share.
  unfoldable pub turn :
      {B V : Type 0} → (ℕ → B → S × V → S × V) → ℕ × B → Session S × V → Session S × V
  unfolding switch
  turn train (k, batch) (session, server) =
      let here = if is_current session.current k then session else switch k session in
      let after = train k batch (here.live, server) in (record here { live = after.0 }, after.1)

  unfoldable pub turns :
      {B V : Type 0} → (ℕ → B → S × V → S × V) → List (ℕ × B) → Session S × V → Session S × V
  unfolding turn
  turns train [] both = both
  turns train (t ∷ ts) both = turns train ts (turn train t both)

module _ {S : Type 0} where
  -- A new session, at its first round: no client has had a turn.
  unfoldable pub start_session : S → Session S
  start_session live = record { states = λ k. none; current = none; initial = live; live = live }

  -- finish
  unfoldable pub finish : Session S → Session S
  finish session = elim session.current [
    | none ↦ session
    | some c ↦ record session { states = put c session.live session.states }
  ]

  -- replace_states
  unfoldable pub replace_states : (ℕ → Option S) → Session S → Session S
  replace_states states session = elim session.current [
    | none ↦ record session { states = states }
    | some c ↦ elim (states c) [
      | none ↦ record session { states = states }
      | some s ↦ record session { states = states; live = s }
    ]
  ]

  -- What `batches` does after the last batch of a parallel round: `on_round_end` may combine the
  -- clients' states; one that returns None is the identity.
  unfoldable pub round_end : ℕ → Option (List S → List S) → Session S → Session S
  round_end n_clients on_round_end session = elim session.current [
    | none ↦ session
    | some c ↦
        let stored = put c session.live session.states in
        let states : ℕ → Option S = elim on_round_end [
          | none ↦ stored
          | some combine ↦ get_elem? (
              combine (
                map (λ k. elim (stored k) [ some s ↦ s | none ↦ session.initial ])
                  (range 0 n_clients)))
        ] in
        record session {
          states = states;
          live = elim (states c) [ some s ↦ s | none ↦ session.live ];
        }
  ]

pub data SelectError : Type 0 where
  no_client not_distinct : SelectError

-- select_clients, for the clients that the algorithm chose
unfoldable pub select_clients : List ℕ → ℕ → Result SelectError (List ℕ)
unfolding distinct
select_clients sel n_clients = do
  require (not (is_nil sel)) no_client
  require (length (distinct sel) == length sel && all (λ k. ltb k n_clients) sel) not_distinct
  ok sel
