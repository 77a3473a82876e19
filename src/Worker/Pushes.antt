-- ===== src/Worker/Pushes.antt =====
-- executors/worker.py, tied_update: the owner's value on its way to the other copies.
use torch_slicer.Common.{
  ℕ, ◌==◌, ==_refl, ==_iff, true, false, List, [], ◌∷◌, All, if◌then◌else◌, ◌≡◌, ◌≢◌, refl, sym, ap,
  ◌∙◌, inl, inr, Bool-cases,
}
use torch_slicer.Worker.TiedSync.{
  TiedRef, Copies, Optimizer, System, on_worker, with_value, tied_update, copy_to, push_to,
}
use torch_slicer.Worker.HandOver.{put_value-same, on_worker-field}

module _ {V G : Type 0} (opt : Optimizer V G) (o group key : ℕ) where
  -- A worker that tied_update reaches.
  abbrev pub IsCopy : System V G → ℕ → ℕ → Type 0
  IsCopy sys token r =
      ((others : List ℕ) × ((sys r).tied
          ≡ record { group = group; owner = false; stubs = o ∷ others; requires_grad = true } ∷ []))
      × (token ≡ (sys r).token)
      × (r ≢ o)

  update-value :
      (token : ℕ) (v : V) (others : List ℕ) (d : Copies V G)
      → d.tied
        ≡ record { group = group; owner = false; stubs = o ∷ others; requires_grad = true } ∷ []
      → token ≡ d.token
      → (tied_update token group v d).values group ≡ v
  unfolding tied_update
  update-value token v others d tied same =
      ap (λ t. (if t then copy_to d.tied group v d else d).values group)
        ((==_iff token d.token).1 same)
      ∙ ap (λ ts. (copy_to ts group v d).values group) tied
      ∙ rw (==_refl group) (put_value-same d.values group v)

  copy_to-field :
      {A : Type 0}
      → (p : Copies V G → A) (v : V) → ((d : Copies V G) → p (with_value d group v) ≡ p d)
      → (ts : List TiedRef) (d : Copies V G) → p (copy_to ts group v d) ≡ p d
  copy_to-field p v kept [] d = refl
  copy_to-field p v kept (t ∷ ts) d = elim (Bool-cases (t.group == group)) [
    | inl e ↦ rw e (copy_to-field p v kept ts (with_value d group v) ∙ kept d)
    | inr e ↦ rw e (copy_to-field p v kept ts d)
  ]

  update-field :
      {A : Type 0}
      → (p : Copies V G → A) (token : ℕ) (v : V)
      → ((d : Copies V G) → p (with_value d group v) ≡ p d)
      → (d : Copies V G) → p (tied_update token group v d) ≡ p d
  unfolding tied_update
  update-field p token v kept d = elim (Bool-cases (token == d.token)) [
    | inl e ↦ rw e (copy_to-field p v kept d.tied d)
    | inr e ↦ rw e refl
  ]

  module _ (token : ℕ) (v : V) where
    pushed : ℕ → System V G → System V G
    pushed s sys = on_worker s (tied_update token group v) sys

    pushed-IsCopy :
        (s : ℕ) (sys : System V G) (r : ℕ) → IsCopy sys token r → IsCopy (pushed s sys) token r
    unfolding pushed
    pushed-IsCopy s sys r h =
        let field =
          λ (A : Type 0) (p : Copies V G → A)
              (kept : (d : Copies V G) → p (with_value d group v) ≡ p d).
            on_worker-field opt o group key p s (tied_update token group v) sys
              (update-field p token v kept) r in
        (
          (h.0.0, field (List TiedRef) (λ c. c.tied) (λ d. refl) ∙ h.0.1),
          h.1 ∙ sym (field ℕ (λ c. c.token) (λ d. refl)),
          h.2,
        )

    pushed-All :
        (s : ℕ) (sys : System V G) (ss : List ℕ)
        → All (IsCopy sys token) ss
        → All (IsCopy (pushed s sys) token) ss
    pushed-All s sys [] hs = tt
    pushed-All s sys (r ∷ ss) hs = (pushed-IsCopy s sys r hs.0, pushed-All s sys ss hs.1)

    pushed-value :
        (s : ℕ) (sys : System V G) → IsCopy sys token s → (pushed s sys s).values group ≡ v
    unfolding pushed
    pushed-value s sys h =
        ap (λ (c : Copies V G). c.values group)
          (put_value-same sys s (tied_update token group v (sys s)))
        ∙ update-value token v h.0.0 (sys s) h.0.1 h.1

    pushed-keeps :
        (s : ℕ) (sys : System V G) (k : ℕ)
        → IsCopy sys token s
        → (sys k).values group ≡ v
        → (pushed s sys k).values group ≡ v
    unfolding pushed
    pushed-keeps s sys k h e = elim (Bool-cases (k == s)) [
      | inl same ↦
          ap (λ x. (pushed s sys x).values group) ((==_iff k s).0 same) ∙ pushed-value s sys h
      | inr apart ↦ rw apart e
    ]

    pub push_to-keeps :
        (ss : List ℕ) (sys : System V G) (k : ℕ)
        → All (IsCopy sys token) ss
        → (sys k).values group ≡ v
        → (push_to opt ss token group v sys k).values group ≡ v
    unfolding pushed
    push_to-keeps [] sys k hs e = e
    push_to-keeps (s ∷ ss) sys k hs e =
        push_to-keeps ss (pushed s sys) k (pushed-All s sys ss hs.1) (pushed-keeps s sys k hs.0 e)

    pub push_to-value :
        (ss : List ℕ) (sys : System V G)
        → All (IsCopy sys token) ss
        → All (λ r. (push_to opt ss token group v sys r).values group ≡ v) ss
    unfolding pushed
    push_to-value [] sys hs = tt
    push_to-value (s ∷ ss) sys hs = (
      push_to-keeps ss (pushed s sys) s (pushed-All s sys ss hs.1) (pushed-value s sys hs.0),
      push_to-value ss (pushed s sys) (pushed-All s sys ss hs.1),
    )
