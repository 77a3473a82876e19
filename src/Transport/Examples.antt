-- ===== src/Transport/Examples.antt =====
-- transport/tunnel.py: two calls over a tunnel, and a node that comes back behind another tunnel.
use torch_slicer.Common.{
  ℕ, List, [], ◌∷◌, ◌≡◌, ◌≢◌, refl, true, false, none, some, String, ok, arith,
}
use torch_slicer.Transport.Tunnels.{
  response, Frame, answered, Tunnel, new_tunnel, begin_call, Event, calls, replies, run_events,
  close, send,
}
use torch_slicer.Transport.Invariant.{IsTunnel}
use torch_slicer.Transport.Answers.{ending, run-ending}
use torch_slicer.Transport.Routers.{
  Router, new_router, direct, route, Change, hears, changes, change, get, on_hello, announce,
  joined, serve, close_tunnel, on_close, drop_routes, drop_route, remove_key, addresses_of,
}
use torch_slicer.Transport.Changes.{next_route}
use torch_slicer.Transport.Announced.{routes_lem}
use torch_slicer.Transport.Behind.{announced-ne-direct}

abbrev response_frame : ℕ → String → Frame
response_frame id payload = record {
  kind = response;
  call_id = id;
  target = "";
  method = "";
  payload = payload;
  code = 0;
  details = "";
  addresses = [];
}

-- A tunnel on which the first call is on its way.
abbrev calling : Tunnel
unfolding begin_call
calling = begin_call (new_tunnel true) "node:1" "forward" "x"

-- A second call; its reply, the reply to the first one, and the end of the tunnel.
abbrev story : List Event
story =
    calls "node:1" "ping" ""
    ∷ replies (response_frame 2 "pong")
    ∷ replies (response_frame 1 "y")
    ∷ Event.closes
    ∷ []

calling-IsTunnel : IsTunnel calling
unfolding calling begin_call
calling-IsTunnel = record {
  pending = λ id w. ground arith;
  ended = λ c. absurd (cc);
  fresh = λ id le. ground arith;
}

run-ending_example : (run_events calling story).slots 1 ≡ ending 1 story
unfolding calling begin_call
run-ending_example = run-ending calling story 1 calling-IsTunnel (tt, (tt, (tt, (tt, tt)))) refl

first_answer : ending 1 story ≡ answered (response_frame 1 "y")
unfolding ending
first_answer = refl

-- The node announced its address on tunnel 1, came back on tunnel 2, and then tunnel 1 ends.
abbrev history : List Change
history = hears 1 ("node:1" ∷ []) ∷ hears 2 ("node:1" ∷ []) ∷ []

abbrev fresh_router : Router
fresh_router = new_router none true (λ i. false)

routes_lem_example :
    get "node:1" (change (changes fresh_router history) (Change.closes 1)).routes
    ≡ next_route
        (changes fresh_router history)
        (Change.closes 1)
        "node:1"
        (get "node:1" (changes fresh_router history).routes)
routes_lem_example = routes_lem none true (λ i. false) history (Change.closes 1) "node:1"

taken_over : get "node:1" (change (changes fresh_router history) (Change.closes 1)).routes ≡ some 2
unfolding change changes on_hello announce joined serve close_tunnel on_close drop_routes drop_route
    remove_key addresses_of close send
taken_over = refl

announced-ne-direct_example :
    route (changes (on_hello fresh_router 1 ("node:1" ∷ [])) (Change.closes 1 ∷ [])) none "node:1"
    ≢ ok direct
announced-ne-direct_example =
    announced-ne-direct fresh_router 1 ("node:1" ∷ []) (Change.closes 1 ∷ []) none "node:1" refl
      refl
