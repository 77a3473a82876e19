-- ===== src/Worker/HandOver.antt =====
-- executors/worker.py, _optimize: the gradients of the replicas reach the owner.
use mathlib.Core.List.{append-nil, append_assoc}
use torch_slicer.Common.{
  ℕ, ◌==◌, ==_refl, ==_iff, true, false, none, List, [], ◌∷◌, ◌++◌, map, All, if◌then◌else◌, ◌≡◌,
  ◌≢◌, refl, sym, ap, ap₂, ◌∙◌, subst, inl, inr, Bool-cases,
}
use torch_slicer.Worker.TiedSync.{
  Copies, Optimizer, System, put_value, on_worker, with_grad, with_inbox, tied_grad, synced,
  grad_or, hand_over, hand_all, stepped,
}

differ-eq : (a b : ℕ) → a ≢ b → (a == b) ≡ false
differ-eq a b ne = elim (Bool-cases (a == b)) [ inl e ↦ absurd (ne ((==_iff a b).0 e)) | inr e ↦ e ]

pub put_value-other : {A : Type 0} → (f : ℕ → A) (k x : ℕ) (a : A) → x ≢ k → put_value f k a x ≡ f x
put_value-other f k x a ne = rw (differ-eq x k ne) refl

pub put_value-same : {A : Type 0} → (f : ℕ → A) (k : ℕ) (a : A) → put_value f k a k ≡ a
put_value-same f k a = rw (==_refl k) refl

-- No worker comes twice.
abbrev pub AreDistinct : List ℕ → Type 0
AreDistinct [] = Unit
AreDistinct (r ∷ rs) = All (λ k. k ≢ r) rs × AreDistinct rs

module _ {V G : Type 0} (opt : Optimizer V G) (o group key : ℕ) where
  -- A worker that holds a copy of the group's parameter, and no other, and is no owner.
  pub record IsReplica (sys : System V G) (r : ℕ) : Type 0 where
    pub others : List ℕ
    pub tied :
        (sys r).tied
        ≡ record { group = group; owner = false; stubs = o ∷ others; requires_grad = true } ∷ []
    pub token : (sys r).token ≡ (sys o).token
    pub apart : r ≢ o

  -- The gradient that a worker hands over: zeros if it has none.
  abbrev pub grad_of : System V G → ℕ → G
  grad_of sys r = grad_or (opt.zeros_like ((sys r).values group)) ((sys r).grads group)

  -- The workers after some gradients `gs` have arrived at the owner.
  pub record HandedOver (sys after : System V G) (gs : List G) : Type 0 where
    pub inbox : (after o).inbox group key ≡ (sys o).inbox group key ++ gs
    pub values : (after o).values ≡ (sys o).values
    pub grads : (after o).grads ≡ (sys o).grads
    pub tied : (k : ℕ) → (after k).tied ≡ (sys k).tied
    pub token : (k : ℕ) → (after k).token ≡ (sys k).token

  one : System V G → ℕ → System V G
  one sys r =
      on_worker r (λ d. stepped opt d)
        (on_worker r (λ d. with_grad d group none)
          (on_worker o (tied_grad (sys r).token group key (grad_of sys r)) sys))

  hand_over-one :
      (sys : System V G) (r : ℕ)
      → IsReplica sys r
      → on_worker r (λ d. stepped opt d) (hand_over opt r key (synced (sys r).tied) sys) ≡ one sys r
  unfolding hand_over one
  hand_over-one sys r h =
      ap (λ ts. on_worker r (λ d. stepped opt d) (hand_over opt r key (synced ts) sys)) h.tied

  pub on_worker-field :
      {A : Type 0}
      → (p : Copies V G → A) (i : ℕ) (f : Copies V G → Copies V G) (sys : System V G)
      → ((d : Copies V G) → p (f d) ≡ p d)
      → (k : ℕ) → p (on_worker i f sys k) ≡ p (sys k)
  on_worker-field p i f sys kept k = elim (Bool-cases (k == i)) [
    | inl e ↦ rw e (kept (sys i) ∙ ap (λ x. p (sys x)) (sym ((==_iff k i).0 e)))
    | inr e ↦ rw e refl
  ]

  tied_grad-field :
      {A : Type 0}
      → (p : Copies V G → A) (token : ℕ) (g : G) (d : Copies V G)
      → p (with_inbox d group key (d.inbox group key ++ g ∷ [])) ≡ p d
      → p (tied_grad token group key g d) ≡ p d
  unfolding tied_grad
  tied_grad-field p token g d kept = elim (Bool-cases (token == d.token)) [
    | inl e ↦ rw e kept
    | inr e ↦ rw e refl
  ]

  module _ (sys : System V G) (r : ℕ) (h : IsReplica sys r) where
    one-field :
        {A : Type 0}
        → (p : Copies V G → A) → ((d : Copies V G) → p (stepped opt d) ≡ p d)
        → ((d : Copies V G) → p (with_grad d group none) ≡ p d)
        → ((d : Copies V G)
            → p (with_inbox d group key (d.inbox group key ++ grad_of sys r ∷ [])) ≡ p d)
        → (k : ℕ) → p (one sys r k) ≡ p (sys k)
    unfolding one
    one-field p s f g k =
        on_worker-field p r (λ d. stepped opt d)
          (on_worker r (λ d. with_grad d group none)
            (on_worker o (tied_grad (sys r).token group key (grad_of sys r)) sys))
          s k
        ∙ on_worker-field p r (λ d. with_grad d group none)
            (on_worker o (tied_grad (sys r).token group key (grad_of sys r)) sys) f k
        ∙ on_worker-field p o (tied_grad (sys r).token group key (grad_of sys r)) sys
            (λ d. tied_grad-field p (sys r).token (grad_of sys r) d (g d)) k

    one-owner :
        one sys r o ≡ with_inbox (sys o) group key ((sys o).inbox group key ++ grad_of sys r ∷ [])
    unfolding one tied_grad
    one-owner =
        put_value-other
          (on_worker r (λ d. with_grad d group none)
            (on_worker o (tied_grad (sys r).token group key (grad_of sys r)) sys))
          r o _ (λ e. h.apart (sym e))
        ∙ put_value-other (on_worker o (tied_grad (sys r).token group key (grad_of sys r)) sys) r o
            _ (λ e. h.apart (sym e))
        ∙ put_value-same sys o (tied_grad (sys r).token group key (grad_of sys r) (sys o))
        ∙ ap
            (λ t.
              if t
              then with_inbox (sys o) group key ((sys o).inbox group key ++ grad_of sys r ∷ [])
              else sys o)
            ((==_iff (sys r).token (sys o).token).1 h.token)

    one-other : (k : ℕ) → k ≢ r → k ≢ o → one sys r k ≡ sys k
    unfolding one
    one-other k nr away =
        put_value-other
          (on_worker r (λ d. with_grad d group none)
            (on_worker o (tied_grad (sys r).token group key (grad_of sys r)) sys))
          r k _ nr
        ∙ put_value-other (on_worker o (tied_grad (sys r).token group key (grad_of sys r)) sys) r k
            _ nr
        ∙ put_value-other sys o k _ away

    one-HandedOver : HandedOver sys (one sys r) (grad_of sys r ∷ [])
    one-HandedOver = record {
      inbox =
          ap (λ (c : Copies V G). c.inbox group key) one-owner
          ∙ rw (==_refl group) (rw (==_refl key) refl);
      values = ap (λ (c : Copies V G). c.values) one-owner;
      grads = ap (λ (c : Copies V G). c.grads) one-owner;
      tied = one-field (λ (c : Copies V G). c.tied) (λ d. refl) (λ d. refl) (λ d. refl);
      token = one-field (λ (c : Copies V G). c.token) (λ d. refl) (λ d. refl) (λ d. refl);
    }

  again :
      {sys mid after : System V G} {gs hs : List G}
      → HandedOver sys mid gs
      → HandedOver mid after hs
      → HandedOver sys after (gs ++ hs)
  again {sys} {mid} {after} {gs} {hs} a b = record {
    inbox = b.inbox ∙ ap (λ xs. xs ++ hs) a.inbox ∙ append_assoc ((sys o).inbox group key) gs hs;
    values = b.values ∙ a.values;
    grads = b.grads ∙ a.grads;
    tied = λ k. b.tied k ∙ a.tied k;
    token = λ k. b.token k ∙ a.token k;
  }

  still-IsReplica :
      (sys : System V G) (r k : ℕ) → IsReplica sys r → IsReplica sys k → IsReplica (one sys r) k
  still-IsReplica sys r k h hk =
      let m = one-HandedOver sys r h in
      record {
        others = hk.others;
        tied = m.tied k ∙ hk.tied;
        token = m.token k ∙ hk.token ∙ sym (m.token o);
        apart = hk.apart;
      }

  still-All :
      (sys : System V G) (r : ℕ) (rs : List ℕ)
      → IsReplica sys r
      → All (IsReplica sys) rs
      → All (IsReplica (one sys r)) rs
  still-All sys r [] h hs = tt
  still-All sys r (k ∷ rs) h hs = (still-IsReplica sys r k h hs.0, still-All sys r rs h hs.1)

  grads-kept :
      (sys : System V G) (r : ℕ) (rs : List ℕ)
      → IsReplica sys r
      → All (IsReplica sys) rs
      → All (λ k. k ≢ r) rs
      → map (grad_of (one sys r)) rs ≡ map (grad_of sys) rs
  grads-kept sys r [] h hs ne = refl
  grads-kept sys r (k ∷ rs) h hs ne =
      ap₂ (λ g gs. g ∷ gs)
        (ap (λ (c : Copies V G). grad_or (opt.zeros_like (c.values group)) (c.grads group))
          (one-other sys r h k ne.0 (hs.0).apart))
        (grads-kept sys r rs h hs.1 ne.1)

  -- All gradients arrive, in the order in which the replicas hand over.
  pub hand_all-HandedOver :
      (rs : List ℕ) (sys : System V G)
      → All (IsReplica sys) rs
      → AreDistinct rs
      → HandedOver sys (hand_all opt key rs sys) (map (grad_of sys) rs)
  unfolding hand_all
  hand_all-HandedOver [] sys h ne = record {
    inbox = sym (append-nil ((sys o).inbox group key));
    values = refl;
    grads = refl;
    tied = λ k. refl;
    token = λ k. refl;
  }
  hand_all-HandedOver (r ∷ rs) sys h ne =
      let ih = hand_all-HandedOver rs (one sys r) (still-All sys r rs h.0 h.1) ne.1 in
      let first = again (one-HandedOver sys r h.0) ih in
      subst (λ s. HandedOver sys (hand_all opt key rs s) (grad_of sys r ∷ map (grad_of sys) rs))
        (sym (hand_over-one sys r h.0))
        (subst (λ gs. HandedOver sys (hand_all opt key rs (one sys r)) (grad_of sys r ∷ gs))
          (grads-kept sys r rs h.0 h.1 ne.0) first)
