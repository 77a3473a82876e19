-- ===== src/Worker/Meets.antt =====
-- executors/worker.py: what one job of the last slice does to the output and the label of a batch.
use torch_slicer.Common.{
  ℕ, ◌==◌, ==_refl, true, false, Option, none, some, List, [], ◌∷◌, if◌then◌else◌, ◌≡◌, refl, sym,
  ap, ◌∙◌, subst, inl, inr, Bool-cases, Option-cases,
}
use torch_slicer.Worker.Stages.{
  Network, Servicer, Effect, send_forward, is_last_micro, run_backward_last, run_forward_stage,
  take_label, with_label, with_output, output_meets, label_meets, no_hooks,
}
use torch_slicer.Worker.Pairs.{losses_of}

module _ {T F Layer : Type 0} (net : Network T F Layer) where
  losses_of-run_backward_last :
      (w : Servicer T F Layer) (b c : ℕ) (out x l : T)
      → losses_of b (run_backward_last net no_hooks w c out x l).1
        ≡ (if c == b then (x, l) ∷ [] else [])
  unfolding run_backward_last
  losses_of-run_backward_last w b c out x l = elim (Bool-cases (is_last_micro w.n_micro c)) [
    | inl last ↦ elim (Bool-cases w.has_prev) [
      | inl p ↦ rw last (rw p refl)
      | inr p ↦ rw last (rw p refl)
    ]
    | inr early ↦ elim (Bool-cases w.has_prev) [
      | inl p ↦ rw early (rw p refl)
      | inr p ↦ rw early (rw p refl)
    ]
  ]

  -- After a job the slice and the generation are as before, and batch `b` stands as said.
  pub record Moved (w : Servicer T F Layer) (ran : Servicer T F Layer × List (Effect T F)) (b : ℕ)
      (o : Option (T × T)) (l : Option T) (pairs : List (T × T)) : Type 0 where
    pub generation : ran.0.generation ≡ w.generation
    pub is_last : ran.0.is_last ≡ w.is_last
    pub outputs : ran.0.outputs b ≡ o
    pub labels : ran.0.labels b ≡ l
    pub losses : losses_of b ran.1 ≡ pairs

  module _ (w : Servicer T F Layer) (last : w.is_last ≡ true) where
    pub forward-eq :
        (c : ℕ) (x : T) (l : Option T)
        → w.labels c ≡ l
        → run_forward_stage net no_hooks w c x
          ≡ output_meets net no_hooks w c (net.output w.layer x) x l
    unfolding run_forward_stage
    forward-eq c x l e =
        ap
          (λ t. if t then output_meets net no_hooks w c (net.output w.layer x) x (w.labels c) else (
            with_output net w c (some (net.output w.layer x, x)),
            send_forward c (net.output w.layer x) ∷ [],
          ))
          last
        ∙ ap (output_meets net no_hooks w c (net.output w.layer x) x) e

    pub forward-eq-kept :
        (c : ℕ) (x : T)
        → w.labels c ≡ none
        → run_forward_stage net no_hooks w c x
          ≡ (with_output net w c (some (net.output w.layer x, x)), [])
    unfolding output_meets
    forward-eq-kept c x none_ = forward-eq c x none none_

    pub forward-eq-met :
        (c : ℕ) (x l : T)
        → w.labels c ≡ some l
        → run_forward_stage net no_hooks w c x
          ≡ run_backward_last net no_hooks (with_label net w c none) c (net.output w.layer x) x l
    unfolding output_meets
    forward-eq-met c x l some_ = forward-eq c x (some l) some_

  module _ (w : Servicer T F Layer) where
    pub label-eq-kept :
        (c : ℕ) (l : T)
        → w.outputs c ≡ none
        → take_label net no_hooks w c l ≡ (with_label net w c (some l), [])
    unfolding take_label label_meets
    label-eq-kept c l none_ = ap (label_meets net no_hooks w c l) none_

    pub label-eq-met :
        (c : ℕ) (out x l : T)
        → w.outputs c ≡ some (out, x)
        → take_label net no_hooks w c l
          ≡ run_backward_last net no_hooks (with_output net w c none) c out x l
    unfolding take_label label_meets
    label-eq-met c out x l some_ = ap (label_meets net no_hooks w c l) some_

  -- run_backward_last leaves the labels and outputs alone.
  backward-Moved :
      (w v : Servicer T F Layer) (b c : ℕ) (out x l : T)
      → v.generation ≡ w.generation
      → v.is_last ≡ w.is_last
      → Moved w
          (run_backward_last net no_hooks v c out x l)
          b
          (v.outputs b)
          (v.labels b)
          (if c == b then (x, l) ∷ [] else [])
  unfolding run_backward_last
  backward-Moved w v b c out x l g last = record {
    generation = g;
    is_last = last;
    outputs = refl;
    labels = refl;
    losses = losses_of-run_backward_last v b c out x l;
  }

  module _ (w : Servicer T F Layer) (last : w.is_last ≡ true) (b : ℕ) where
    pub forward-other :
        (c : ℕ) (x : T)
        → (b == c) ≡ false
        → (c == b) ≡ false
        → Moved w (run_forward_stage net no_hooks w c x) b (w.outputs b) (w.labels b) []
    forward-other c x ne en = elim (Option-cases (w.labels c)) [
      | inl none_ ↦
          subst (λ r. Moved w r b (w.outputs b) (w.labels b) [])
            (sym (forward-eq-kept w last c x none_))
            (record {
              generation = refl;
              is_last = refl;
              outputs = rw ne refl;
              labels = refl;
              losses = refl;
            })
      | inr (l, some_) ↦
          subst (λ r. Moved w r b (w.outputs b) (w.labels b) [])
            (sym (forward-eq-met w last c x l some_))
            (let m =
                backward-Moved w (with_label net w c none) b c (net.output w.layer x) x l refl
                  refl in
              record {
                generation = m.generation;
                is_last = m.is_last;
                outputs = m.outputs;
                labels = m.labels ∙ rw ne refl;
                losses = m.losses ∙ rw en refl;
              })
    ]

    pub label-other :
        (c : ℕ) (l : T)
        → (b == c) ≡ false
        → (c == b) ≡ false
        → Moved w (take_label net no_hooks w c l) b (w.outputs b) (w.labels b) []
    label-other c l ne en = elim (Option-cases (w.outputs c)) [
      | inl none_ ↦
          subst (λ r. Moved w r b (w.outputs b) (w.labels b) []) (sym (label-eq-kept w c l none_))
            (record {
              generation = refl;
              is_last = refl;
              outputs = refl;
              labels = rw ne refl;
              losses = refl;
            })
      | inr ((out, x), some_) ↦
          subst (λ r. Moved w r b (w.outputs b) (w.labels b) [])
            (sym (label-eq-met w c out x l some_))
            (let m = backward-Moved w (with_output net w c none) b c out x l refl refl in
              record {
                generation = m.generation;
                is_last = m.is_last;
                outputs = m.outputs ∙ rw ne refl;
                labels = m.labels;
                losses = m.losses ∙ rw en refl;
              })
    ]

    pub forward-kept :
        (x : T)
        → w.labels b ≡ none
        → Moved w (run_forward_stage net no_hooks w b x) b (some (net.output w.layer x, x)) none []
    forward-kept x none_ =
        subst (λ r. Moved w r b (some (net.output w.layer x, x)) none [])
          (sym (forward-eq-kept w last b x none_))
          (record {
            generation = refl;
            is_last = refl;
            outputs = rw (==_refl b) refl;
            labels = none_;
            losses = refl;
          })

    pub forward-met :
        (x l : T)
        → w.labels b ≡ some l
        → Moved w (run_forward_stage net no_hooks w b x) b (w.outputs b) none ((x, l) ∷ [])
    forward-met x l some_ =
        subst (λ r. Moved w r b (w.outputs b) none ((x, l) ∷ []))
          (sym (forward-eq-met w last b x l some_))
          (let m =
              backward-Moved w (with_label net w b none) b b (net.output w.layer x) x l refl refl in
            record {
              generation = m.generation;
              is_last = m.is_last;
              outputs = m.outputs;
              labels = m.labels ∙ rw (==_refl b) refl;
              losses = m.losses ∙ rw (==_refl b) refl;
            })

    pub label-kept :
        (l : T) → w.outputs b ≡ none → Moved w (take_label net no_hooks w b l) b none (some l) []
    label-kept l none_ =
        subst (λ r. Moved w r b none (some l) []) (sym (label-eq-kept w b l none_))
          (record {
            generation = refl;
            is_last = refl;
            outputs = none_;
            labels = rw (==_refl b) refl;
            losses = refl;
          })

    pub label-met :
        (out x l : T)
        → w.outputs b ≡ some (out, x)
        → Moved w (take_label net no_hooks w b l) b none (w.labels b) ((x, l) ∷ [])
    label-met out x l some_ =
        subst (λ r. Moved w r b none (w.labels b) ((x, l) ∷ []))
          (sym (label-eq-met w b out x l some_))
          (let m = backward-Moved w (with_output net w b none) b b out x l refl refl in
            record {
              generation = m.generation;
              is_last = m.is_last;
              outputs = m.outputs ∙ rw (==_refl b) refl;
              labels = m.labels;
              losses = m.losses ∙ rw (==_refl b) refl;
            })
