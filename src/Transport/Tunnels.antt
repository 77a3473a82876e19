-- ===== src/Transport/Tunnels.antt =====
-- transport/tunnel.py, Tunnel: one end of a stream of frames, and the calls that wait for a reply.
use torch_slicer.Common.{
  ℕ, suc, ◌==◌, Bool, true, false, Option, none, some, List, [], ◌∷◌, ◌++◌, if◌then◌else◌, elem,
  String, Result, ok, raise,
}

pub data Kind : Type 0 where
  hello request response error ping : Kind

-- Frame; how long the caller waits is left out.
pub record Frame : Type 0 where
  pub kind : Kind
  pub call_id : ℕ
  pub target : String
  pub method : String
  pub payload : String
  pub code : ℕ
  pub details : String
  pub addresses : List String

-- What the caller of a call sees: nothing yet, a frame, an event set without one, or that it waited for
-- too long.
pub data Slot : Type 0 where
  unused waiting woken given_up : Slot
  answered : Frame → Slot

-- `slots` are the slots of all calls made, by their id; `none` in `out` ends the stream.
pub record Tunnel : Type 0 where
  pub dialed : Bool
  pub addresses : List String
  pub acked : Bool
  pub closed : Bool
  pub out : List (Option Frame)
  pub pending : List ℕ
  pub slots : ℕ → Slot
  pub next_id : ℕ

abbrev pub new_tunnel : Bool → Tunnel
new_tunnel dialed = record {
  dialed = dialed;
  addresses = [];
  acked = false;
  closed = false;
  out = [];
  pending = [];
  slots = λ id. unused;
  next_id = 1;
}

abbrev pub put_slot : Tunnel → ℕ → Slot → ℕ → Slot
put_slot t id s k = if k == id then s else t.slots k

unfoldable pub send : Tunnel → Frame → Tunnel
send t frame = if t.closed then t else record t { out = t.out ++ some frame ∷ [] }

abbrev pub request_frame : ℕ → (target method payload : String) → Frame
request_frame id target method payload = record {
  kind = request;
  call_id = id;
  target = target;
  method = method;
  payload = payload;
  code = 0;
  details = "";
  addresses = [];
}

-- call, up to where it waits for the reply; a closed tunnel raises instead
unfoldable pub begin_call : Tunnel → (target method payload : String) → Tunnel
begin_call t target method payload = if t.closed then t else record t {
  next_id = suc t.next_id;
  pending = t.next_id ∷ t.pending;
  slots = put_slot t t.next_id waiting;
  out = t.out ++ some (request_frame t.next_id target method payload) ∷ [];
}

unfoldable pub without : ℕ → List ℕ → List ℕ
without id [] = []
without id (k ∷ ks) = let later = without id ks in if k == id then later else k ∷ later

-- A slot that is set: its caller reads it, unless it gave up.
abbrev pub settled_by : Slot → Slot → Slot
settled_by new waiting = new
settled_by new unused = unused
settled_by new woken = woken
settled_by new given_up = given_up
settled_by new (answered f) = answered f

-- _reply
unfoldable pub reply : Tunnel → Frame → Tunnel
reply t frame =
    if elem frame.call_id t.pending
    then record t {
      pending = without frame.call_id t.pending;
      slots = put_slot t frame.call_id (settled_by (answered frame) (t.slots frame.call_id));
    }
    else t

-- call, when its wait is over without a reply
unfoldable pub give_up : Tunnel → ℕ → Tunnel
give_up t id = record t { slots = put_slot t id (settled_by given_up (t.slots id)) }

-- and when it then takes the lock and drops the slot
unfoldable pub forget : Tunnel → ℕ → Tunnel
forget t id = record t { pending = without id t.pending }

-- close; the routes that end with the tunnel are the router's
unfoldable pub close : Tunnel → Tunnel
close t = if t.closed then t else record t {
  closed = true;
  pending = [];
  out = t.out ++ none ∷ [];
  slots = λ id. if elem id t.pending then settled_by woken (t.slots id) else t.slots id;
}

pub data RpcError : Type 0 where
  unavailable deadline_exceeded unimplemented : RpcError
  remote : (code : ℕ) (details : String) → RpcError

-- What call returns or raises, once it does.
abbrev pub outcome : Slot → Option (Result RpcError String)
outcome unused = none
outcome waiting = none
outcome woken = some (raise unavailable)
outcome given_up = some (raise deadline_exceeded)
outcome (answered f) =
    some (elim f.kind [ error ↦ raise (remote f.code f.details) | _ ↦ ok f.payload ])

-- What happens at a tunnel, by its callers, its reader and whoever closes it, in the order of its lock.
pub data Event : Type 0 where
  sends : Frame → Event
  calls : (target method payload : String) → Event
  replies : Frame → Event
  gives_up forgets : ℕ → Event
  closes : Event

unfoldable pub step : Tunnel → Event → Tunnel
step t (sends frame) = send t frame
step t (calls target method payload) = begin_call t target method payload
step t (replies frame) = reply t frame
step t (gives_up id) = give_up t id
step t (forgets id) = forget t id
step t closes = close t

unfoldable pub run_events : Tunnel → List Event → Tunnel
run_events t [] = t
run_events t (e ∷ es) = run_events (step t e) es
