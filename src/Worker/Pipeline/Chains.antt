-- ===== src/Worker/Pipeline/Chains.antt =====
-- executors/worker.py: one micro-batch on its way through a whole pipeline and back.
use mathlib.Core.List.{append-nil}
use torch_slicer.Common.{
  ℕ, Bool, true, false, none, some, List, [], ◌∷◌, ◌++◌, map, if◌then◌else◌, ◌≡◌, sym, ap, ap₂, ◌∙◌,
}
use torch_slicer.Worker.Stages.{
  Network, Servicer, Effect, Dict, with_key, is_last_micro, full_batch, loss_or, optimized,
  run_backward_last, report_metrics, batch_done, send_forward, no_hooks,
}
use torch_slicer.Worker.Pipeline.{Passed, reports, to_prev, to_next, with_answers, pass_through}
use torch_slicer.Worker.SentBack.{to_prev-answer, reports-answer, to_prev-effects, reports-effects}
use torch_slicer.Worker.Pipeline.Backprop.{backprop, added_loss}
use torch_slicer.Worker.Pipeline.Hops.{with_state, at_last-eq, kept, forward-eq, gradient-eq}

module _ {T F Layer : Type 0} where
  -- A worker's place in the pipeline, and that it caches nothing for the micro-batches of a batch.
  pub record Part (n batch : ℕ) (has_prev is_last : Bool) (w : Servicer T F Layer) : Type 0 where
    pub has_prev_eq : w.has_prev ≡ has_prev
    pub is_last_eq : w.is_last ≡ is_last
    pub n_micro_eq : w.n_micro ≡ n
    pub no_output : (b : ℕ) → full_batch n b ≡ batch → w.outputs b ≡ none
    pub no_label : (b : ℕ) → full_batch n b ≡ batch → w.labels b ≡ none

  -- Workers in their order, of which only the last one runs the loss and only the first one of a pipeline
  -- has none before it.
  abbrev pub IsChain : ℕ → ℕ → Bool → List (Servicer T F Layer) → Type 0
  IsChain n batch has_prev [] = ⊥
  IsChain n batch has_prev (w ∷ []) = Part n batch has_prev true w
  IsChain n batch has_prev (w ∷ v ∷ ws) =
      Part n batch has_prev false w × IsChain n batch true (v ∷ ws)

  abbrev pub layers : List (Servicer T F Layer) → List Layer
  layers ws = map (λ w. w.layer) ws

  -- The sums of losses at the last worker.
  abbrev pub losses : List (Servicer T F Layer) → Dict F
  losses [] = λ b. none
  losses (w ∷ []) = w.micro_losses
  losses (w ∷ v ∷ ws) = losses (v ∷ ws)

  -- The workers with other layers and other sums of losses, and all else as it is.
  abbrev pub with_layers :
      List (Servicer T F Layer) → List Layer → Dict F → List (Servicer T F Layer)
  with_layers [] ys d = []
  with_layers (w ∷ ws) [] d = w ∷ ws
  with_layers (w ∷ []) (y ∷ ys) d = with_state w y d ∷ []
  with_layers (w ∷ v ∷ ws) (y ∷ ys) d = with_state w y w.micro_losses ∷ with_layers (v ∷ ws) ys d

module _ {T F Layer : Type 0} (net : Network T F Layer) where
  -- What one micro-batch is to come to; `last` says whether it is the last one of its batch.
  abbrev pub settled :
      (last : Bool) (n b batch : ℕ) (has_prev : Bool)
      → List (Servicer T F Layer)
      → (x l : T) → Passed T F Layer
  settled last n b batch has_prev ws x l =
      let ran = backprop net n last (layers ws) x l in
      let sum = added_loss net (loss_or net.no_loss (losses ws batch)) (layers ws) x l in
      let sums = with_key (losses ws) batch (if last then none else some sum) in
      record {
        workers = with_layers ws (map (optimized net no_hooks last b) ran.0) sums;
        gradients = if has_prev then (b, ran.1) ∷ [] else [];
        told =
            (if last then report_metrics b (net.divide sum n) ∷ [] else [])
            ++ (if has_prev then [] else if last then batch_done b ∷ [] else []);
      }

  abbrev settled_as :
      (n b batch : ℕ) (has_prev : Bool) → List (Servicer T F Layer) → (x l : T) → Passed T F Layer
  settled_as n b batch has_prev ws x l = settled (is_last_micro n b) n b batch has_prev ws x l

  -- The last worker, in terms of its own fields.
  last-outcome :
      (w : Servicer T F Layer) (b : ℕ) (x l : T)
      → (let ran = run_backward_last net no_hooks w b (net.output w.layer x) x l in
          record { workers = ran.0 ∷ []; gradients = to_prev ran.1; told = reports ran.1 })
        ≡ settled_as w.n_micro b (full_batch w.n_micro b) w.has_prev (w ∷ []) x l
  unfolding run_backward_last
  last-outcome w b x l =
      let last = is_last_micro w.n_micro b in
      ap₂
        (λ gs es. record {
          workers =
              (settled_as w.n_micro b (full_batch w.n_micro b) w.has_prev (w ∷ []) x l).workers;
          gradients = gs;
          told = es;
        })
        (to_prev-effects F w.has_prev last _ _ _ _ _ _)
        (reports-effects F w.has_prev last _ _ _ _ _ _)

  -- A worker before the others, once the gradient of its output is back.
  inner-outcome :
      (w v : Servicer T F Layer) (ws : List (Servicer T F Layer)) (b batch : ℕ) (x l : T)
      (empty : w.outputs b ≡ none)
      → with_answers net no_hooks
          (kept net w b x empty, send_forward b (net.output w.layer x) ∷ [])
          (settled_as w.n_micro b batch true (v ∷ ws) (net.output w.layer x) l)
        ≡ settled_as w.n_micro b batch w.has_prev (w ∷ v ∷ ws) x l
  unfolding with_answers
  inner-outcome w v ws b batch x l empty =
      let last = is_last_micro w.n_micro b in
      let out = net.output w.layer x in
      let rest = settled_as w.n_micro b batch true (v ∷ ws) out l in
      let g = (backprop net w.n_micro last (layers (v ∷ ws)) out l).1 in
      ap
        (λ (back : Servicer T F Layer × List (Effect T F)). record {
          workers = back.0 ∷ rest.workers;
          gradients = to_prev back.1;
          told = rest.told ++ reports back.1;
        })
        (gradient-eq net w b x empty g)
      ∙ ap₂
          (λ gs es. record {
            workers = (settled_as w.n_micro b batch w.has_prev (w ∷ v ∷ ws) x l).workers;
            gradients = gs;
            told = es;
          })
          (to_prev-answer F w.has_prev last b _)
          (ap₂ (λ es fs. es ++ fs) (append-nil _) (reports-answer F w.has_prev last b _))

  pub pass_through-eq :
      (early has_prev : Bool) (n b batch : ℕ) (ws : List (Servicer T F Layer)) (x l : T)
      → full_batch n b ≡ batch
      → IsChain n batch has_prev ws
      → pass_through net no_hooks early ws ((b, x) ∷ []) ((b, l) ∷ [])
        ≡ settled (is_last_micro n b) n b batch has_prev ws x l
  unfolding pass_through
  pass_through-eq early has_prev n b batch [] x l whole chain = absurd chain
  pass_through-eq early has_prev n b batch (w ∷ []) x l whole h =
      ap
        (λ (ran : Servicer T F Layer × List (Effect T F)). record {
          workers = ran.0 ∷ [];
          gradients = to_prev ran.1;
          told = reports ran.1;
        })
        (at_last-eq net w b x (h.no_output b whole) l (h.no_label b whole) h.is_last_eq early)
      ∙ last-outcome w b x l
      ∙ ap (λ k. settled_as k b (full_batch k b) w.has_prev (w ∷ []) x l) h.n_micro_eq
      ∙ ap₂ (λ c p. settled_as n b c p (w ∷ []) x l) whole h.has_prev_eq
  pass_through-eq early has_prev n b batch (w ∷ v ∷ ws) x l whole h =
      let empty = h.0.no_output b whole in
      ap
        (λ ran.
          with_answers net no_hooks ran
            (pass_through net no_hooks early (v ∷ ws) (to_next ran.1) ((b, l) ∷ [])))
        (forward-eq net w b x empty h.0.is_last_eq)
      ∙ ap
          (with_answers net no_hooks
            (kept net w b x empty, send_forward b (net.output w.layer x) ∷ []))
          (pass_through-eq early true n b batch (v ∷ ws) (net.output w.layer x) l whole h.1
            ∙ ap (λ k. settled_as k b batch true (v ∷ ws) (net.output w.layer x) l)
                (sym h.0.n_micro_eq))
      ∙ inner-outcome w v ws b batch x l empty
      ∙ ap₂ (λ k p. settled_as k b batch p (w ∷ v ∷ ws) x l) h.0.n_micro_eq h.0.has_prev_eq
