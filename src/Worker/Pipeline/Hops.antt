-- ===== src/Worker/Pipeline/Hops.antt =====
-- executors/worker.py: one micro-batch at one worker, from its input to its gradient.
use mathlib.Core.List.{append-nil}
use torch_slicer.Common.{
  ℕ, ==_refl, ==_iff, Bool, true, false, none, some, List, [], ◌∷◌, ◌++◌, ◌≡◌, refl, ap, ap₂, ◌∙◌,
}
use torch_slicer.Worker.Stages.{
  Network, Servicer, Effect, Dict, Job, on_input, on_label, on_gradient, is_last_micro, optimized,
  sent_back, with_label, with_output, output_meets, label_meets, run_backward_last,
  run_forward_stage, take_label, run_backward_stage, run_job, run_work, run_works, grad_backward,
  send_forward, no_hooks,
}
use torch_slicer.Worker.Dicts.{restored}
use torch_slicer.Worker.Meets.{forward-eq-kept, label-eq-kept}
use torch_slicer.Worker.Pipeline.{handle_all, at_last}

-- A worker with another layer and other sums of losses.
abbrev pub with_state :
    {T F Layer : Type 0} → Servicer T F Layer → Layer → Dict F → Servicer T F Layer
with_state w y d = record w { layer = y; micro_losses = d }

module _ {T F Layer : Type 0} (net : Network T F Layer) where
  run-now :
      (w : Servicer T F Layer) (g : ℕ) (job : Job T)
      → g ≡ w.generation
      → run_work net no_hooks w g job ≡ run_job net no_hooks w job
  unfolding run_work
  run-now w g job now = rw ((==_iff g w.generation).1 now) refl

  run-one :
      (w : Servicer T F Layer) (g : ℕ) (job : Job T)
      → g ≡ w.generation
      → run_works net no_hooks w ((g, job) ∷ []) ≡ run_job net no_hooks w job
  unfolding run_works
  run-one w g job now =
      ap₂ (λ v es. (v, es)) (ap (λ r. r.0) (run-now w g job now))
        (append-nil _ ∙ ap (λ r. r.1) (run-now w g job now))

  -- The first of two jobs only stores something.
  run-two :
      (w v : Servicer T F Layer) (g : ℕ) (first second : Job T)
      → g ≡ w.generation
      → run_job net no_hooks w first ≡ (v, [])
      → g ≡ v.generation
      → run_works net no_hooks w ((g, first) ∷ (g, second) ∷ []) ≡ run_job net no_hooks v second
  unfolding run_works
  run-two w v g first second now stored still =
      let start = run-now w g first now ∙ stored in
      ap
        (λ (r : Servicer T F Layer × List (Effect T F)). (
          (run_works net no_hooks r.0 ((g, second) ∷ [])).0,
          r.1 ++ (run_works net no_hooks r.0 ((g, second) ∷ [])).1,
        ))
        start
      ∙ run-one v g second still

  module _ (w : Servicer T F Layer) (b : ℕ) (x : T) (no_output : w.outputs b ≡ none) where
    abbrev out : T
    out = net.output w.layer x

    module _ (l : T) (no_label : w.labels b ≡ none) (last : w.is_last ≡ true) where
      labels-first :
          run_works net no_hooks w
            ((w.generation, on_label b l) ∷ (w.generation, on_input b x) ∷ [])
          ≡ run_backward_last net no_hooks w b out x l
      unfolding take_label label_meets run_forward_stage output_meets
      labels-first =
          run-two w (with_label net w b (some l)) w.generation (on_label b l) (on_input b x) refl
            (label-eq-kept net w b l no_output) refl
          ∙ rw last (rw (==_refl b) refl)
          ∙ ap (λ d. run_backward_last net no_hooks (record w { labels = d }) b out x l)
              (restored w.labels b l no_label)

      inputs-first :
          run_works net no_hooks w
            ((w.generation, on_input b x) ∷ (w.generation, on_label b l) ∷ [])
          ≡ run_backward_last net no_hooks w b out x l
      unfolding take_label label_meets run_forward_stage output_meets
      inputs-first =
          run-two w (with_output net w b (some (out, x))) w.generation (on_input b x) (on_label b l)
            refl (forward-eq-kept net w last b x no_label) refl
          ∙ rw (==_refl b) refl
          ∙ ap (λ d. run_backward_last net no_hooks (record w { outputs = d }) b out x l)
              (restored w.outputs b (out, x) no_output)

      pub at_last-eq :
          (labels_first : Bool)
          → at_last net no_hooks labels_first w ((b, x) ∷ []) ((b, l) ∷ [])
            ≡ run_backward_last net no_hooks w b out x l
      unfolding at_last
      at_last-eq true = labels-first
      at_last-eq false = inputs-first

    -- A worker that is not the last keeps its output and sends it on.
    abbrev pub kept : Servicer T F Layer
    kept = with_output net w b (some (out, x))

    pub forward-eq :
        w.is_last ≡ false
        → handle_all net no_hooks w on_input ((b, x) ∷ []) ≡ (kept, send_forward b out ∷ [])
    unfolding run_forward_stage
    forward-eq inner = run-one w w.generation (on_input b x) refl ∙ rw inner refl

    pub gradient-eq :
        (g : T)
        → handle_all net no_hooks kept on_gradient ((b, g) ∷ []) ≡ (
          with_state w
              (optimized net no_hooks
                (is_last_micro w.n_micro b)
                b
                (net.backward_grad (is_last_micro w.n_micro b) w.layer out x g).0)
              w.micro_losses,
          grad_backward b out x g
              ∷ sent_back net no_hooks w b
                  (net.backward_grad (is_last_micro w.n_micro b) w.layer out x g).1
                  (is_last_micro w.n_micro b),
        )
    unfolding run_backward_stage
    gradient-eq g =
        run-one kept w.generation (on_gradient b g) refl
        ∙ rw (==_refl b, run_backward_stage) refl
        ∙ ap
            (λ d. (
              record w {
                layer =
                    optimized net no_hooks (is_last_micro w.n_micro b) b
                      (net.backward_grad (is_last_micro w.n_micro b) w.layer out x g).0;
                outputs = d;
              },
              grad_backward b out x g
                  ∷ sent_back net no_hooks w b
                      (net.backward_grad (is_last_micro w.n_micro b) w.layer out x g).1
                      (is_last_micro w.n_micro b),
            ))
            (restored w.outputs b (out, x) no_output)
