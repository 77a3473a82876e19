-- ===== src/Transport/Routers.antt =====
-- transport/tunnel.py, Router: where a node's calls go, and what it answers to calls that arrive.
use torch_slicer.Common.{
  ℕ, ◌==◌, Bool, true, false, not, ◌||◌, Option, none, some, is_some, List, [], ◌∷◌, ◌++◌,
  if◌then◌else◌, map, String, str_eq, Result, ok, raise, ◌&&◌,
}
use torch_slicer.Transport.Tunnels.{
  hello, Frame, Tunnel, close, send, new_tunnel, RpcError, unavailable, unimplemented,
}

-- A dictionary with the addresses of nodes as keys.
abbrev pub get {ℓ} : {A : Type ℓ} → String → List (String × A) → Option A
get key [] = none
get key ((k, v) ∷ rest) = if str_eq k key then some v else get key rest

abbrev pub put_key {ℓ} : {A : Type ℓ} → String → A → List (String × A) → List (String × A)
put_key key value [] = (key, value) ∷ []
put_key key value ((k, v) ∷ rest) =
    if str_eq k key then (k, value) ∷ rest else (k, v) ∷ put_key key value rest

-- `address in addresses`
abbrev pub among : String → List String → Bool
among a [] = false
among a (x ∷ xs) = str_eq x a || among a xs

-- The handler of a method: what the service answers to a payload, or the code and details that it sets.
abbrev pub Handler : Type 0
Handler = String → Result RpcError String

-- `tunnels` are the tunnels by a number that each has, as new ones before they open; what keeps the
-- dialed ones open, the plain channels and the counters of calls are left out.
pub record Router : Type 0 where
  pub relay : Option String
  pub forwarding : Bool
  pub services : List (String × List (String × Handler))
  pub routes : List (String × ℕ)
  pub behind_tunnel : List String
  pub tunnels : ℕ → Tunnel

abbrev pub set_tunnel : Router → ℕ → Tunnel → Router
set_tunnel r i t = record r { tunnels = λ k. if k == i then t else r.tunnels k }

pub data Route : Type 0 where
  here direct : Route
  by_tunnel : ℕ → Route

-- the relay's tunnel, once it is open: `opened` says which it is, if it opens in time
abbrev pub to_relay : Option ℕ → Result RpcError Route
to_relay none = raise unavailable
to_relay (some i) = ok (by_tunnel i)

abbrev pub has_other_relay : Option String → String → Bool
has_other_relay none address = false
has_other_relay (some relay) address = not (str_eq address relay)

-- the tunnel that announced an address, while it is open
abbrev pub open_route : Router → Option ℕ → Option ℕ
open_route r none = none
open_route r (some i) = if (r.tunnels i).closed then none else some i

abbrev pub other_route : Router → Option ℕ → String → Option ℕ → Result RpcError Route
other_route r opened address (some i) = ok (by_tunnel i)
other_route r opened address none =
    if has_other_relay r.relay address
    then to_relay opened
    else (if among address r.behind_tunnel then raise unavailable else ok direct)

-- _route
unfoldable pub route : Router → Option ℕ → String → Result RpcError Route
route r opened address =
    if is_some (get address r.services)
    then ok here
    else other_route r opened address (open_route r (get address r.routes))

-- serve; the HELLO that tells the nodes it dialed is left out
unfoldable pub serve : Router → String → List (String × Handler) → Router
serve r address handlers = record r {
  services =
      put_key address
        (elim (get address r.services) [ none ↦ handlers | some old ↦ old ++ handlers ]) r.services;
}

unfoldable pub addresses_of : Router → List String
addresses_of r = map (λ (s : String × List (String × Handler)). s.0) r.services

abbrev pub hello_frame : List String → Frame
hello_frame addresses = record {
  kind = hello;
  call_id = 0;
  target = "";
  method = "";
  payload = "";
  code = 0;
  details = "";
  addresses = addresses;
}

-- for address in addresses: routes[address] = tunnel
unfoldable pub announce : ℕ → List String → List (String × ℕ) → List (String × ℕ)
announce i [] routes = routes
announce i (a ∷ as_) routes = announce i as_ (put_key a i routes)

-- list(dict.fromkeys([*known, *new]))
unfoldable pub joined : List String → List String → List String
joined known [] = known
joined known (a ∷ as_) = joined (if among a known then known else known ++ a ∷ []) as_

-- _on_frame, of a HELLO
unfoldable pub on_hello : Router → ℕ → List String → Router
on_hello r i addresses =
    if (r.tunnels i).dialed
    then set_tunnel r i (record (r.tunnels i) { acked = true })
    else set_tunnel
        (record r {
          routes = announce i addresses r.routes;
          behind_tunnel = joined r.behind_tunnel addresses;
        })
        i
        (send (record (r.tunnels i) { addresses = joined (r.tunnels i).addresses addresses })
          (hello_frame (addresses_of r)))

abbrev pub is_to : ℕ → Option ℕ → Bool
is_to i none = false
is_to i (some j) = j == i

-- del routes[a]
unfoldable pub remove_key : {A : Type 0} → String → List (String × A) → List (String × A)
remove_key a [] = []
remove_key a ((k, v) ∷ rest) =
    let later = remove_key a rest in if str_eq k a then later else (k, v) ∷ later

-- if routes.get(a) is tunnel: del routes[a]
unfoldable pub drop_route : ℕ → String → List (String × ℕ) → List (String × ℕ)
drop_route i a routes = if is_to i (get a routes) then remove_key a routes else routes

unfoldable pub drop_routes : ℕ → List String → List (String × ℕ) → List (String × ℕ)
drop_routes i [] routes = routes
drop_routes i (a ∷ as_) routes = drop_routes i as_ (drop_route i a routes)

-- _on_close
unfoldable pub on_close : Router → ℕ → Router
on_close r i = record r { routes = drop_routes i (r.tunnels i).addresses r.routes }

-- Tunnel.close, with what it does to the router
unfoldable pub close_tunnel : Router → ℕ → Router
close_tunnel r i =
    if (r.tunnels i).closed then r else on_close (set_tunnel r i (close (r.tunnels i))) i

-- What becomes of a call: an answer, a plain call, or a request in a tunnel, to which the reply comes
-- later.
pub data Handled : Type 0 where
  replied : Result RpcError String → Handled
  dialed : (address method payload : String) → Handled
  requested : ℕ → (address method payload : String) → Handled

abbrev pub served : List (String × Handler) → (method payload : String) → Result RpcError String
served handlers method payload = elim (get method handlers) [
  | none ↦ raise unimplemented
  | some handler ↦ handler payload
]

-- call_bytes by a route to an address that is not served here; no route to it is `here`
abbrev pub sent_by : (address method payload : String) → Result RpcError Route → Handled
sent_by address method payload (raise e) = replied (raise e)
sent_by address method payload (ok direct) = dialed address method payload
sent_by address method payload (ok (by_tunnel i)) = requested i address method payload
sent_by address method payload (ok here) = replied (raise unavailable)

-- _handle, of a method that is not _RESOLVE
unfoldable pub handle : Router → Option ℕ → (target method payload : String) → Handled
handle r opened target method payload = elim (get target r.services) [
  | some handlers ↦ replied (served handlers method payload)
  | none ↦
      if r.forwarding
      then sent_by target method payload (route r opened target)
      else replied (raise unavailable)
]

-- call_bytes
unfoldable pub call_bytes : Router → Option ℕ → (address method payload : String) → Handled
call_bytes r opened address method payload = elim (route r opened address) [
  | ok here ↦ handle r opened address method payload
  | ok direct ↦ dialed address method payload
  | ok (by_tunnel i) ↦ requested i address method payload
  | raise e ↦ replied (raise e)
]

-- is_direct
unfoldable pub is_direct : Router → Option ℕ → String → Bool
is_direct r opened address = elim (route r opened address) [
  | ok direct ↦ true
  | ok here ↦ false
  | ok (by_tunnel i) ↦ false
  | raise e ↦ false
]

-- _can_reach, with whether a plain channel gets ready in time; the answer to _RESOLVE
unfoldable pub can_reach : Router → Option ℕ → Bool → String → Bool
can_reach r opened ready address = elim (route r opened address) [
  | ok direct ↦ r.forwarding && ready
  | ok here ↦ true
  | ok (by_tunnel i) ↦ true
  | raise e ↦ false
]

-- What changes a router.
pub data Change : Type 0 where
  serves : String → List (String × Handler) → Change
  hears : ℕ → List String → Change
  closes : ℕ → Change

unfoldable pub change : Router → Change → Router
change r (serves address handlers) = serve r address handlers
change r (hears i addresses) = on_hello r i addresses
change r (closes i) = close_tunnel r i

unfoldable pub changes : Router → List Change → Router
changes r [] = r
changes r (c ∷ cs) = changes (change r c) cs

-- Router.__init__; `is_dialed` says of which tunnels this node is the dialing side
abbrev pub new_router : Option String → Bool → (ℕ → Bool) → Router
new_router relay forwarding is_dialed = record {
  relay = relay;
  forwarding = forwarding;
  services = [];
  routes = [];
  behind_tunnel = [];
  tunnels = λ i. new_tunnel (is_dialed i);
}
