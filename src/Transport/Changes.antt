-- ===== src/Transport/Changes.antt =====
-- transport/tunnel.py, Router: what one change of a router does to its routes.
use torch_slicer.Common.{
  ℕ, ==_iff, ==_refl, Bool, true, false, Option, none, some, if◌then◌else◌, String, ◌≡◌, refl, sym,
  ap, ◌∙◌, arith, Bool-cases, inl, inr,
}
use torch_slicer.Transport.Tunnels.{Frame, Tunnel, close, send}
use torch_slicer.Transport.Routers.{
  get, among, Router, set_tunnel, serve, on_hello, is_to, drop_routes, on_close, close_tunnel,
  Change, serves, hears, closes, change,
}
use torch_slicer.Transport.Routes.{get-announce, get-drop_routes}

pub record IsRouter (r : Router) : Type 0 where
  pub announced :
      (a : String) (i : ℕ) → get a r.routes ≡ some i → among a (r.tunnels i).addresses ≡ true

-- What a change makes of the route of an address.
abbrev pub next_route : Router → Change → String → Option ℕ → Option ℕ
next_route r (serves address handlers) a old = old
next_route r (hears i addresses) a old =
    if (r.tunnels i).dialed then old else (if among a addresses then some i else old)
next_route r (closes i) a old =
    if (r.tunnels i).closed then old else (if is_to i old then none else old)

pub close-addresses : (t : Tunnel) → (close t).addresses ≡ t.addresses
unfolding close
close-addresses t = ground arith

closed_routes :
    (r : Router) (i : ℕ)
    → (on_close (set_tunnel r i (close (r.tunnels i))) i).routes
      ≡ drop_routes i (r.tunnels i).addresses r.routes
unfolding on_close
closed_routes r i =
    ap (λ b. drop_routes i (if b then close (r.tunnels i) else r.tunnels i).addresses r.routes)
      (==_refl i)
    ∙ ap (λ as_. drop_routes i as_ r.routes) (close-addresses (r.tunnels i))

is_to-some : (i : ℕ) (o : Option ℕ) → is_to i o ≡ true → o ≡ some i
is_to-some i none e = absurd (cc)
is_to-some i (some j) e = ap some ((==_iff j i).0 e)

closing_route :
    (r : Router) (i : ℕ) (a : String)
    → IsRouter r
    → get a (drop_routes i (r.tunnels i).addresses r.routes)
      ≡ (if is_to i (get a r.routes) then none else get a r.routes)
closing_route r i a router =
    get-drop_routes a i (r.tunnels i).addresses r.routes
    ∙ elim (Bool-cases (is_to i (get a r.routes))) [
      | inl e ↦ rw (router.announced a i (is_to-some i (get a r.routes) e)) refl
      | inr e ↦ rw e (same (among a (r.tunnels i).addresses))
    ]
  where
    same : (b : Bool) → (if b then get a r.routes else get a r.routes) ≡ get a r.routes
    same true = refl
    same false = refl

pub close_tunnel-open :
    (r : Router) (i : ℕ)
    → (r.tunnels i).closed ≡ false
    → close_tunnel r i ≡ on_close (set_tunnel r i (close (r.tunnels i))) i
unfolding close_tunnel
close_tunnel-open r i e =
    ap (λ b. if b then r else on_close (set_tunnel r i (close (r.tunnels i))) i) e

pub change-route :
    (r : Router) (c : Change) (a : String)
    → IsRouter r
    → get a (change r c).routes ≡ next_route r c a (get a r.routes)
unfolding change serve on_hello close_tunnel
change-route r (serves address handlers) a router = refl
change-route r (hears i addresses) a router = elim (Bool-cases (r.tunnels i).dialed) [
  | inl d ↦ rw d refl
  | inr d ↦ rw d (get-announce a i addresses r.routes)
]
change-route r (closes i) a router = elim (Bool-cases (r.tunnels i).closed) [
  | inl e ↦ rw e refl
  | inr e ↦
      ap (λ (q : Router). get a q.routes) (close_tunnel-open r i e)
      ∙ ap (get a) (closed_routes r i)
      ∙ closing_route r i a router
      ∙ sym (
          ap
            (λ b.
              if b
              then get a r.routes
              else (if is_to i (get a r.routes) then none else get a r.routes))
            e)
]

pub send-addresses : (t : Tunnel) (f : Frame) → (send t f).addresses ≡ t.addresses
unfolding send
send-addresses t f = ground arith
