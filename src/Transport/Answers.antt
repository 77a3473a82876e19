-- ===== src/Transport/Answers.antt =====
-- transport/tunnel.py, Tunnel: each call ends with the reply that bears its id, or without one.
use torch_slicer.Common.{
  ℕ, ◌==◌, ◌≡◌, refl, sym, ap, ◌∙◌, subst, false, List, [], ◌∷◌, if◌then◌else◌, arith, Bool-cases,
  inl, inr,
}
use torch_slicer.Transport.Tunnels.{
  Slot, unused, waiting, woken, given_up, answered, Tunnel, send, begin_call, settled_by, reply,
  give_up, forget, close, Event, sends, calls, replies, gives_up, forgets, closes, step, run_events,
}
use torch_slicer.Transport.Invariant.{IsTunnel, Proper, step-IsTunnel, IsOver}

-- The calls that wait are pending, and no id from next_id on was used. A call that drops its slot gave
-- up before.
over_slot : (s new : Slot) → IsOver s → settled_by new s ≡ s
over_slot unused new over = elim over [ ]
over_slot waiting new over = elim over [ ]
over_slot woken new over = refl
over_slot given_up new over = refl
over_slot (answered f) new over = refl

over-ne-unused : (s : Slot) → IsOver s → s ≡ unused → ⊥
over-ne-unused s over e = subst IsOver e over

step-over :
    (t : Tunnel) (e : Event) (id : ℕ)
    → IsTunnel t
    → IsOver (t.slots id)
    → (step t e).slots id ≡ t.slots id
unfolding step send begin_call reply give_up forget close
step-over t (sends f) id ok over = ground arith
step-over t (calls target method payload) id ok over = elim (Bool-cases (id == t.next_id)) [
  | inr other ↦ ground arith
  | inl same ↦ absurd (over-ne-unused (t.slots id) over (ok.fresh id (ground arith)).0)
]
step-over t (replies f) id ok over = ground (arith, over_slot (t.slots id) (answered f) over)
step-over t (gives_up k) id ok over = ground (arith, over_slot (t.slots id) given_up over)
step-over t (forgets k) id ok over = refl
step-over t closes id ok over = ground (arith, over_slot (t.slots id) woken over)

-- The calls that drop their slots have given up, all along a run.
abbrev pub AllProper : Tunnel → List Event → Type 0
AllProper t [] = Unit
AllProper t (e ∷ es) = Proper t e × AllProper (step t e) es

run-over :
    (t : Tunnel) (es : List Event) (id : ℕ)
    → IsTunnel t
    → AllProper t es
    → IsOver (t.slots id)
    → (run_events t es).slots id ≡ t.slots id
unfolding run_events
run-over t [] id ok proper over = refl
run-over t (e ∷ es) id ok proper over =
    let same = step-over t e id ok over in
    run-over (step t e) es id (step-IsTunnel t e ok proper.0) proper.1
      (subst IsOver (sym same) over)
    ∙ same

-- How a call ends: by the first of these that comes, a reply with its id, the end of its wait, or the
-- end of the tunnel.
unfoldable pub ending : ℕ → List Event → Slot
ending id [] = waiting
ending id (replies f ∷ es) =
    let later = ending id es in if f.call_id == id then answered f else later
ending id (gives_up k ∷ es) = let later = ending id es in if k == id then given_up else later
ending id (closes ∷ es) = woken
ending id (sends f ∷ es) = ending id es
ending id (calls target method payload ∷ es) = ending id es
ending id (forgets k ∷ es) = ending id es

-- The slot of a call that waits, after one event: settled by it, or still waiting.
abbrev next_slot : ℕ → Event → Slot
next_slot id (replies f) = if f.call_id == id then answered f else waiting
next_slot id (gives_up k) = if k == id then given_up else waiting
next_slot id closes = woken
next_slot id (sends f) = waiting
next_slot id (calls target method payload) = waiting
next_slot id (forgets k) = waiting

step-waiting :
    (t : Tunnel) (e : Event) (id : ℕ)
    → IsTunnel t
    → t.slots id ≡ waiting
    → (t.closed ≡ false)
    → (step t e).slots id ≡ next_slot id e
unfolding step send begin_call reply give_up forget close
step-waiting t (sends f) id ok w open_ = ground arith
step-waiting t (calls target method payload) id ok w open_ = ground arith
step-waiting t (replies f) id ok w open_ = ground (arith, ok.pending id)
step-waiting t (gives_up k) id ok w open_ = ground arith
step-waiting t (forgets k) id ok w open_ = w
step-waiting t closes id ok w open_ = ground (arith, ok.pending id)

waiting-open : (t : Tunnel) (id : ℕ) → IsTunnel t → t.slots id ≡ waiting → t.closed ≡ false
waiting-open t id ok w = elim (Bool-cases t.closed) [
  | inr e ↦ e
  | inl e ↦ absurd (let wrong = sym (ok.pending id w) ∙ ok.ended e id in cc)
]

-- Whatever a tunnel and its callers do, a call that waits ends as the first event that concerns it says:
-- with the reply that bears its id, with a wait that is over, or with the end of the tunnel; and it waits
-- exactly while none has come. The one condition is that a caller drops its slot after its wait.
pub run-ending :
    (t : Tunnel) (es : List Event) (id : ℕ)
    → IsTunnel t
    → AllProper t es
    → t.slots id ≡ waiting
    → (run_events t es).slots id ≡ ending id es
unfolding run_events ending
run-ending t [] id ok proper w = w
run-ending t (e ∷ es) id ok proper w =
    let next = step-waiting t e id ok w (waiting-open t id ok w) in
    ends e next (run-ending (step t e) es id (step-IsTunnel t e ok proper.0) proper.1)
      (run-over (step t e) es id (step-IsTunnel t e ok proper.0) proper.1)
  where
    ends :
        (e : Event)
        → (step t e).slots id ≡ next_slot id e
        → ((step t e).slots id ≡ waiting → (run_events (step t e) es).slots id ≡ ending id es)
        → (IsOver ((step t e).slots id) → (run_events (step t e) es).slots id ≡ (step t e).slots id)
        → (run_events (step t e) es).slots id ≡ ending id (e ∷ es)
    ends (replies f) next wait over = elim (Bool-cases (f.call_id == id)) [
      | inl same ↦
          let now = next ∙ ap (λ b. if b then answered f else waiting) same in
          over (subst IsOver (sym now) tt)
          ∙ now
          ∙ sym (ap (λ b. if b then answered f else ending id es) same)
      | inr other ↦
          let now = next ∙ ap (λ b. if b then answered f else waiting) other in
          wait now ∙ sym (ap (λ b. if b then answered f else ending id es) other)
    ]
    ends (gives_up k) next wait over = elim (Bool-cases (k == id)) [
      | inl same ↦
          let now = next ∙ ap (λ b. if b then given_up else waiting) same in
          over (subst IsOver (sym now) tt)
          ∙ now
          ∙ sym (ap (λ b. if b then given_up else ending id es) same)
      | inr other ↦
          let now = next ∙ ap (λ b. if b then given_up else waiting) other in
          wait now ∙ sym (ap (λ b. if b then given_up else ending id es) other)
    ]
    ends closes next wait over = over (subst IsOver (sym next) tt) ∙ next
    ends (sends f) next wait over = wait next
    ends (calls target method payload) next wait over = wait next
    ends (forgets k) next wait over = wait next
