-- ===== src/Transport/Announced.antt =====
-- transport/tunnel.py, Router: which tunnel a call takes, whatever tunnels were announced and closed.
use torch_slicer.Common.{
  ◌⊎◌, some_injective, ℕ, ◌==◌, ==_iff, ==_refl, Bool, true, false, ◌||◌, Option, none, some, List,
  [], ◌∷◌, if◌then◌else◌, String, ◌≡◌, refl, sym, ap, ◌∙◌, subst, Bool-cases, inl, inr,
}
use torch_slicer.Transport.Tunnels.{close}
use torch_slicer.Transport.Routers.{
  get, among, Router, set_tunnel, serve, on_hello, is_to, on_close, close_tunnel, Change, serves,
  hears, closes, change, changes, new_router,
}
use torch_slicer.Transport.Routes.{among-joined}
use torch_slicer.Transport.Changes.{
  IsRouter, next_route, close-addresses, close_tunnel-open, change-route, send-addresses,
}

-- Every route is to a tunnel that announced the address.
closed-among :
    (r : Router) (i : ℕ) (a : String) (j : ℕ)
    → among a (r.tunnels j).addresses ≡ true
    → among a ((on_close (set_tunnel r i (close (r.tunnels i))) i).tunnels j).addresses ≡ true
unfolding on_close
closed-among r i a j there = elim (Bool-cases (j == i)) [
  | inl same ↦
      ap (λ b. among a (if b then close (r.tunnels i) else r.tunnels j).addresses) same
      ∙ ap (among a) (close-addresses (r.tunnels i))
      ∙ ap (λ k. among a (r.tunnels k).addresses) (sym ((==_iff j i).0 same))
      ∙ there
  | inr other ↦
      ap (λ b. among a (if b then close (r.tunnels i) else r.tunnels j).addresses) other ∙ there
]

-- An address that a tunnel announced stays among its addresses.
change-among :
    (r : Router) (c : Change) (a : String) (j : ℕ)
    → among a (r.tunnels j).addresses ≡ true
    → among a ((change r c).tunnels j).addresses ≡ true
unfolding change serve on_hello close_tunnel on_close
change-among r (serves address handlers) a j there = there
change-among r (hears i addresses) a j there = elim (Bool-cases (r.tunnels i).dialed) [
  | inl d ↦ rw d (elim (Bool-cases (j == i)) [
    | inl same ↦
        rw same (subst (λ k. among a (r.tunnels k).addresses ≡ true) ((==_iff j i).0 same) there)
    | inr other ↦ rw other there
  ])
  | inr d ↦ rw d (elim (Bool-cases (j == i)) [
    | inl same ↦
        rw
          (
            same,
            send-addresses,
            among-joined a (r.tunnels i).addresses addresses,
            subst (λ k. among a (r.tunnels k).addresses ≡ true) ((==_iff j i).0 same) there,
          )
          refl
    | inr other ↦ rw other there
  ])
]
change-among r (closes i) a j there = elim (Bool-cases (r.tunnels i).closed) [
  | inl e ↦ rw e there
  | inr e ↦
      subst (λ (q : Router). among a (q.tunnels j).addresses ≡ true) (sym (close_tunnel-open r i e))
        (closed-among r i a j there)
]

hears-among :
    (r : Router) (i : ℕ) (addresses : List String) (a : String)
    → (r.tunnels i).dialed ≡ false
    → among a addresses ≡ true
    → among a ((on_hello r i addresses).tunnels i).addresses ≡ true
unfolding on_hello
hears-among r i addresses a d there =
    rw (d, ==_refl i, send-addresses, among-joined a (r.tunnels i).addresses addresses, there)
      (or_true (among a (r.tunnels i).addresses))
  where
    or_true : (b : Bool) → (b || true) ≡ true
    or_true true = refl
    or_true false = refl

hears_change-among :
    (r : Router) (i : ℕ) (addresses : List String) (a : String)
    → (r.tunnels i).dialed ≡ false
    → among a addresses ≡ true
    → among a ((change r (hears i addresses)).tunnels i).addresses ≡ true
unfolding change
hears_change-among r i addresses a d there = hears-among r i addresses a d there

routed-announced :
    (r : Router) (c : Change) (a : String) (i : ℕ)
    → IsRouter r
    → next_route r c a (get a r.routes) ≡ some i
    → among a ((change r c).tunnels i).addresses ≡ true
routed-announced r (serves address handlers) a i router at =
    change-among r (serves address handlers) a i (router.announced a i at)
routed-announced r (closes k) a i router at =
    change-among r (closes k) a i (router.announced a i (old (r.tunnels k).closed at))
  where
    old :
        (b : Bool)
        → (if b
            then get a r.routes
            else (if is_to k (get a r.routes) then none else get a r.routes))
          ≡ some i
        → get a r.routes ≡ some i
    old true e = e
    old false e = elim (Bool-cases (is_to k (get a r.routes))) [
      | inl there ↦ absurd (let wrong = rw there at e in cc)
      | inr other ↦ rw other at e
    ]
routed-announced r (hears k addresses) a i router at = elim (Bool-cases (r.tunnels k).dialed) [
  | inl d ↦ change-among r (hears k addresses) a i (
      router.announced a i (
        sym (
          ap
            (λ b.
              if b then get a r.routes else (if among a addresses then some k else get a r.routes))
            d)
        ∙ at))
  | inr d ↦ new d (Bool-cases (among a addresses)) (
      sym (
        ap
          (λ b.
            if b then get a r.routes else (if among a addresses then some k else get a r.routes))
          d)
      ∙ at)
]
  where
    new :
        (r.tunnels k).dialed ≡ false
        → (among a addresses ≡ true) ⊎ (among a addresses ≡ false)
        → (if among a addresses then some k else get a r.routes) ≡ some i
        → among a ((change r (hears k addresses)).tunnels i).addresses ≡ true
    new d (inl there) e =
        let same : k ≡ i = some_injective (rw there at e) in
        subst (λ x. among a ((change r (hears k addresses)).tunnels x).addresses ≡ true) same
          (hears_change-among r k addresses a d there)
    new d (inr other) e =
        change-among r (hears k addresses) a i (router.announced a i (rw other at e))

change-IsRouter : (r : Router) (c : Change) → IsRouter r → IsRouter (change r c)
change-IsRouter r c router = record {
  announced = λ a i at. routed-announced r c a i router (sym (change-route r c a router) ∙ at);
}

changes-IsRouter : (r : Router) (cs : List Change) → IsRouter r → IsRouter (changes r cs)
unfolding changes
changes-IsRouter r [] router = router
changes-IsRouter r (c ∷ cs) router = changes-IsRouter (change r c) cs (change-IsRouter r c router)

-- After any history of a new router, one more change does this to the route of an address, and no more:
-- a HELLO on a tunnel that the far end dialed routes its addresses to that tunnel; the close of an open
-- tunnel drops the addresses that are routed to it, also if another tunnel announced them before, and
-- leaves those that a later tunnel took over; serving an address changes none.
pub routes_lem :
    (relay : Option String) (forwarding : Bool) (is_dialed : ℕ → Bool) (cs : List Change)
    (c : Change) (a : String)
    → get a (change (changes (new_router relay forwarding is_dialed) cs) c).routes
      ≡ next_route
          (changes (new_router relay forwarding is_dialed) cs)
          c
          a
          (get a (changes (new_router relay forwarding is_dialed) cs).routes)
routes_lem relay forwarding is_dialed cs c a =
    change-route (changes (new_router relay forwarding is_dialed) cs) c a (
      changes-IsRouter (new_router relay forwarding is_dialed) cs
        (record { announced = λ a i at. absurd (cc) }))
