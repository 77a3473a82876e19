-- ===== src/Worker/Synced.antt =====
-- executors/worker.py, _optimize: the owner's step, and the values of all copies.
use torch_slicer.Common.{
  ℕ, ltb, true, false, not, List, [], ◌∷◌, ◌++◌, map, length, length-map, is_nil, All, ◌≡◌, ◌≤◌,
  refl, sym, ap, ap₂, ◌∙◌, subst, arith, ok, require, ◌>>◌, ◌>>=◌,
}
use torch_slicer.Worker.TiedSync.{
  TiedRef, Copies, Optimizer, System, missing_gradient, put_value, on_worker, with_grad, with_inbox,
  synced, with_own, collect, stepped, push_to, publish, finish_optimize, hand_all,
}
use torch_slicer.Worker.Pushes.{IsCopy, push_to-keeps, push_to-value}
use torch_slicer.Worker.HandOver.{
  put_value-other, put_value-same, AreDistinct, IsReplica, HandedOver, grad_of, hand_all-HandedOver,
}

module _ {V G : Type 0} (opt : Optimizer V G) (o group key : ℕ) (rs : List ℕ) where
  -- The owner's part in the group: `rs` hold the other copies.
  abbrev owned : TiedRef
  owned = record { group = group; owner = true; stubs = rs; requires_grad = true }

  collected : Copies V G → List G → Copies V G
  collected c gs = with_grad (with_inbox c group key []) group (with_own opt (c.grads group) gs)

  collect-one :
      (c : Copies V G) (gs : List G)
      → c.tied ≡ owned ∷ []
      → is_nil rs ≡ false
      → c.inbox group key ≡ gs
      → length rs ≤ length gs
      → collect opt key (synced c.tied) c ≡ ok (collected c gs)
  unfolding collect collected
  collect-one c gs tied more same enough =
      let wait : not (ltb (length gs) (length rs)) ≡ true = ground arith in
      ap (λ ts. collect opt key (synced ts) c) tied
      ∙ rw more (
          ap
            (λ hs.
              require (not (ltb (length hs) (length rs))) missing_gradient >> ok (collected c hs))
            same
          ∙ rw wait refl)

  finish_optimize-one :
      (sys : System V G) (gs : List G)
      → (sys o).tied ≡ owned ∷ []
      → is_nil rs ≡ false
      → (sys o).inbox group key ≡ gs
      → length rs ≤ length gs
      → finish_optimize opt o key sys
        ≡ ok (
            push_to opt rs
              (sys o).token
              group
              ((stepped opt (collected (sys o) gs)).values group)
              (on_worker o (λ d. stepped opt (collected (sys o) gs)) sys))
  unfolding finish_optimize publish collected
  finish_optimize-one sys gs tied more same enough =
      let done = stepped opt (collected (sys o) gs) in
      let there = on_worker o (λ d. done) sys in
      ap (λ r. r >>= λ c. ok (publish opt o (synced c.tied) (on_worker o (λ d. stepped opt c) sys)))
        (collect-one (sys o) gs tied more same enough)
      ∙ ap (λ ts. ok (publish opt o (synced ts) there)) tied
      ∙ rw more (
          ap (λ (c : Copies V G). ok (push_to opt rs c.token group (c.values group) there))
            (put_value-same sys o done))

  -- The value that the owner's step gives, with the gradients added to its own.
  abbrev pub new_value : System V G → List G → V
  new_value sys gs =
      opt.step (sys o).values
        (put_value (sys o).grads group (with_own opt ((sys o).grads group) gs)) group

  module _ (sys mid : System V G) (gs : List G) (m : HandedOver opt o group key sys mid gs) where
    value-eq : (stepped opt (collected (mid o) gs)).values group ≡ new_value sys gs
    unfolding collected
    value-eq =
        ap₂ (λ vs grads. opt.step vs (put_value grads group (with_own opt (grads group) gs)) group)
          m.values m.grads

    IsCopy-IsCopy :
        (done : Copies V G) (r : ℕ)
        → IsReplica opt o group key sys r
        → IsCopy opt o group key (on_worker o (λ d. done) mid) (mid o).token r
    IsCopy-IsCopy done r h =
        let same : on_worker o (λ d. done) mid r ≡ mid r = put_value-other mid o r done h.apart in
        (
          (h.others, ap (λ (c : Copies V G). c.tied) same ∙ m.tied r ∙ h.tied),
          m.token o ∙ sym h.token ∙ sym (m.token r) ∙ sym (ap (λ (c : Copies V G). c.token) same),
          h.apart,
        )

    copies-IsCopy :
        (done : Copies V G) (ss : List ℕ)
        → All (IsReplica opt o group key sys) ss
        → All (IsCopy opt o group key (on_worker o (λ d. done) mid) (mid o).token) ss
    copies-IsCopy done [] hs = tt
    copies-IsCopy done (s ∷ ss) hs = (IsCopy-IsCopy done s hs.0, copies-IsCopy done ss hs.1)

  -- Workers share one parameter. If all its replicas hand their gradients over, each once and in any order,
  -- and take their own steps before the owner's wait is over, the owner's part of _optimize returns, and after it the owner and every
  -- replica hold the value that one optimizer step of the owner gives, from its gradient and the replicas'
  -- added to it in the order of their arrival.
  pub finish_optimize_lem :
      (sys : System V G) (order : List ℕ)
      → (sys o).tied ≡ owned ∷ []
      → is_nil rs ≡ false
      → (sys o).inbox group key ≡ []
      → All (IsReplica opt o group key sys) rs
      → All (IsReplica opt o group key sys) order
      → AreDistinct order
      → length order ≡ length rs
      → (after : System V G) × (finish_optimize opt o key (hand_all opt key order sys) ≡ ok after)
        × ((after o).values group ≡ new_value sys (map (grad_of opt o group key sys) order))
        × All
            (λ r. (after r).values group ≡ new_value sys (map (grad_of opt o group key sys) order))
            rs
  finish_optimize_lem sys order tied more empty copies replicas distinct size =
      let gs = map (grad_of opt o group key sys) order in
      let mid = hand_all opt key order sys in
      let m = hand_all-HandedOver opt o group key order sys replicas distinct in
      let done = stepped opt (collected (mid o) gs) in
      let v = done.values group in
      let there = on_worker o (λ d. done) mid in
      let reached = copies-IsCopy sys mid gs m done rs copies in
      let arrived_all = m.inbox ∙ ap (λ xs. xs ++ gs) empty in
      let count = length-map (grad_of opt o group key sys) order ∙ size in
      (
        push_to opt rs (mid o).token group v there,
        finish_optimize-one mid gs (m.tied o ∙ tied) more arrived_all (omega arith),
        push_to-keeps opt o group key (mid o).token v rs there o reached
              (ap (λ (c : Copies V G). c.values group) (put_value-same mid o done))
            ∙ value-eq sys mid gs m,
        subst (λ u. All (λ r. (push_to opt rs (mid o).token group v there r).values group ≡ u) rs)
            (value-eq sys mid gs m)
            (push_to-value opt o group key (mid o).token v rs there reached),
      )
