-- ===== src/Transport/Invariant.antt =====
-- transport/tunnel.py, Tunnel: what holds of a tunnel between any two events.
use torch_slicer.Common.{
  ℕ, ◌≤◌, ◌==◌, ◌≡◌, refl, sym, ◌∙◌, true, false, List, [], ◌∷◌, if◌then◌else◌, elem, arith,
  Bool-cases, inl, inr,
}
use torch_slicer.Transport.Tunnels.{
  Slot, unused, waiting, woken, given_up, answered, Tunnel, send, begin_call, without, reply,
  give_up, forget, close, Event, sends, calls, replies, gives_up, forgets, closes, step,
}

pub record IsTunnel (t : Tunnel) : Type 0 where
  pub pending : (id : ℕ) → t.slots id ≡ waiting → elem id t.pending ≡ true
  pub ended : t.closed ≡ true → (id : ℕ) → elem id t.pending ≡ false
  pub fresh : (id : ℕ) → t.next_id ≤ id → (t.slots id ≡ unused) × (elem id t.pending ≡ false)

elem-without :
    (x id : ℕ) (ks : List ℕ) → elem x (without id ks) ≡ (if x == id then false else elem x ks)
unfolding without
elem-without x id [] = ground arith
elem-without x id (k ∷ ks) = ground (arith, elem-without x id ks)

-- Who drops its slot has given up.
abbrev pub Proper : Tunnel → Event → Type 0
Proper t (forgets id) = t.slots id ≡ given_up
Proper t (sends f) = Unit
Proper t (calls target method payload) = Unit
Proper t (replies f) = Unit
Proper t (gives_up id) = Unit
Proper t closes = Unit

step-pending :
    (t : Tunnel) (e : Event)
    → IsTunnel t
    → Proper t e
    → (id : ℕ) → (step t e).slots id ≡ waiting
    → elem id (step t e).pending ≡ true
unfolding step send begin_call reply give_up forget close
step-pending t (sends f) ok proper id e = ground (arith, ok.pending id)
step-pending t (calls target method payload) ok proper id e = ground (arith, ok.pending id)
step-pending t (replies f) ok proper id e =
    ground (arith, ok.pending id, elem-without id f.call_id t.pending)
step-pending t (gives_up k) ok proper id e = ground (arith, ok.pending id)
step-pending t (forgets k) ok proper id e =
    ground (arith, ok.pending id, elem-without id k t.pending)
step-pending t closes ok proper id e = ground (arith, ok.pending id)

step-fresh :
    (t : Tunnel) (e : Event)
    → IsTunnel t
    → Proper t e
    → (id : ℕ) → (step t e).next_id ≤ id
    → ((step t e).slots id ≡ unused) × (elem id (step t e).pending ≡ false)
unfolding step send begin_call reply give_up forget close
step-fresh t (sends f) ok proper id le = ground (arith, ok.fresh id)
step-fresh t (calls target method payload) ok proper id le = ground (arith, ok.fresh id)
step-fresh t (replies f) ok proper id le =
    ground (arith, ok.fresh id, elem-without id f.call_id t.pending)
step-fresh t (gives_up k) ok proper id le = ground (arith, ok.fresh id)
step-fresh t (forgets k) ok proper id le = ground (arith, ok.fresh id, elem-without id k t.pending)
step-fresh t closes ok proper id le = ground (arith, ok.fresh id)

step-ended :
    (t : Tunnel) (e : Event)
    → IsTunnel t
    → (step t e).closed ≡ true
    → (id : ℕ) → elem id (step t e).pending ≡ false
unfolding step send begin_call reply give_up forget close
step-ended t (sends f) ok c id = elim (Bool-cases t.closed) [
  | inl e ↦ rw e (ok.ended e id)
  | inr e ↦ absurd (ground arith)
]
step-ended t (calls target method payload) ok c id = elim (Bool-cases t.closed) [
  | inl e ↦ rw e (ok.ended e id)
  | inr e ↦ absurd (ground arith)
]
step-ended t (replies f) ok c id = elim (Bool-cases (elem f.call_id t.pending)) [
  | inl e ↦ absurd (let wrong = sym e ∙ ok.ended (ground arith) f.call_id in cc)
  | inr e ↦ rw e (ok.ended (ground arith) id)
]
step-ended t (gives_up k) ok c id = ok.ended c id
step-ended t (forgets k) ok c id = rw (elem-without id k t.pending) (ground (arith, ok.ended c id))
step-ended t closes ok c id = elim (Bool-cases t.closed) [
  | inl e ↦ rw e (ok.ended e id)
  | inr e ↦ rw e refl
]

pub step-IsTunnel : (t : Tunnel) (e : Event) → IsTunnel t → Proper t e → IsTunnel (step t e)
step-IsTunnel t e ok proper = record {
  pending = step-pending t e ok proper;
  ended = step-ended t e ok;
  fresh = step-fresh t e ok proper;
}

-- A call that is over.
abbrev pub IsOver : Slot → Type 0
IsOver unused = ⊥
IsOver waiting = ⊥
IsOver woken = Unit
IsOver given_up = Unit
IsOver (answered f) = Unit
