-- ===== src/Transport/Behind.antt =====
-- transport/tunnel.py, Router: a node that was reached by a tunnel is not dialed directly.
use torch_slicer.Common.{
  ℕ, Bool, true, false, ◌||◌, Option, none, some, is_some, List, [], ◌∷◌, String, ok, ◌≡◌, ◌≢◌,
  refl, Bool-cases, inl, inr,
}
use torch_slicer.Transport.Routers.{
  get, among, Router, direct, to_relay, has_other_relay, open_route, other_route, route, serve,
  on_hello, on_close, close_tunnel, Change, serves, hears, closes, change, changes,
}
use torch_slicer.Transport.Routes.{among-joined}

-- An address that was ever reached by a tunnel.
change-behind :
    (r : Router) (c : Change) (a : String)
    → among a r.behind_tunnel ≡ true
    → among a (change r c).behind_tunnel ≡ true
unfolding change serve on_hello close_tunnel on_close
change-behind r (serves address handlers) a there = there
change-behind r (hears i addresses) a there = elim (Bool-cases (r.tunnels i).dialed) [
  | inl d ↦ rw d there
  | inr d ↦ rw (d, among-joined a r.behind_tunnel addresses, there) refl
]
change-behind r (closes i) a there = elim (Bool-cases (r.tunnels i).closed) [
  | inl e ↦ rw e there
  | inr e ↦ rw e there
]

changes-behind :
    (r : Router) (cs : List Change) (a : String)
    → among a r.behind_tunnel ≡ true
    → among a (changes r cs).behind_tunnel ≡ true
unfolding changes
changes-behind r [] a there = there
changes-behind r (c ∷ cs) a there = changes-behind (change r c) cs a (change-behind r c a there)

hears-behind :
    (r : Router) (i : ℕ) (addresses : List String) (a : String)
    → (r.tunnels i).dialed ≡ false
    → among a addresses ≡ true
    → among a (on_hello r i addresses).behind_tunnel ≡ true
unfolding on_hello
hears-behind r i addresses a d there =
    rw (d, among-joined a r.behind_tunnel addresses, there) (or_true (among a r.behind_tunnel))
  where
    or_true : (b : Bool) → (b || true) ≡ true
    or_true true = refl
    or_true false = refl

module _ (r : Router) (opened : Option ℕ) (a : String)
    (there : among a r.behind_tunnel ≡ true) where
  other_route-ne-direct : (o : Option ℕ) → other_route r opened a o ≢ ok direct
  other_route-ne-direct (some i) e = absurd (cc)
  other_route-ne-direct none e = elim (Bool-cases (has_other_relay r.relay a)) [
    | inl relayed ↦ relay-ne-direct opened (rw relayed at e)
    | inr none_ ↦ absurd (let wrong = rw (none_, there) at e in cc)
  ]
    where
      relay-ne-direct : (o : Option ℕ) → to_relay o ≢ ok direct
      relay-ne-direct none e = absurd (cc)
      relay-ne-direct (some i) e = absurd (cc)

  route-ne-direct : route r opened a ≢ ok direct
  unfolding route
  route-ne-direct e = elim (Bool-cases (is_some (get a r.services))) [
    | inl served ↦ absurd (let wrong = rw served at e in cc)
    | inr other ↦ other_route-ne-direct (open_route r (get a r.routes)) (rw other at e)
  ]

-- An address that a tunnel announced is never dialed directly after that, whatever is served, announced
-- and closed, also after every tunnel to it was closed, and with a relay or without.
pub announced-ne-direct :
    (r : Router) (i : ℕ) (addresses : List String) (cs : List Change) (opened : Option ℕ)
    (a : String)
    → (r.tunnels i).dialed ≡ false
    → among a addresses ≡ true
    → route (changes (on_hello r i addresses) cs) opened a ≢ ok direct
announced-ne-direct r i addresses cs opened a d there =
    route-ne-direct (changes (on_hello r i addresses) cs) opened a
      (changes-behind (on_hello r i addresses) cs a (hears-behind r i addresses a d there))
