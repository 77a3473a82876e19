-- ===== src/Worker/Overlap/Streams.antt =====
-- executors/worker.py: what a worker sends to its neighbors, as streams of messages.
use torch_slicer.Common.{
  ℕ, ◌==◌, Bool, true, false, none, some, List, [], ◌∷◌, ◌++◌, map, is_nil, if◌then◌else◌, ◌≡◌,
  refl, ap, All,
}
use torch_slicer.Worker.Stages.{
  Network, Servicer, Effect, with_key, is_last_micro, optimized, sent_back, Job, on_input, on_label,
  on_gradient, run_backward_stage, run_job, loss_backward, grad_backward, report_metrics,
  send_forward, send_backward, batch_done, no_hooks, Hooks,
}
use torch_slicer.Worker.SentBack.{dones}
use torch_slicer.Worker.Pipeline.{to_next, to_prev, reports}

module _ {T F : Type 0} where
  pub to_next-append : (es fs : List (Effect T F)) → to_next (es ++ fs) ≡ to_next es ++ to_next fs
  to_next-append [] fs = refl
  to_next-append (send_forward b o ∷ es) fs = ap (λ ms. (b, o) ∷ ms) (to_next-append es fs)
  to_next-append (report_metrics b f ∷ es) fs = to_next-append es fs
  to_next-append (batch_done b ∷ es) fs = to_next-append es fs
  to_next-append (loss_backward b out x l ∷ es) fs = to_next-append es fs
  to_next-append (grad_backward b out x g ∷ es) fs = to_next-append es fs
  to_next-append (send_backward b g ∷ es) fs = to_next-append es fs

  pub reports-append : (es fs : List (Effect T F)) → reports (es ++ fs) ≡ reports es ++ reports fs
  reports-append [] fs = refl
  reports-append (report_metrics b f ∷ es) fs =
      ap (λ r. report_metrics b f ∷ r) (reports-append es fs)
  reports-append (batch_done b ∷ es) fs = ap (λ r. batch_done b ∷ r) (reports-append es fs)
  reports-append (send_backward b g ∷ es) fs = reports-append es fs
  reports-append (loss_backward b out x l ∷ es) fs = reports-append es fs
  reports-append (grad_backward b out x g ∷ es) fs = reports-append es fs
  reports-append (send_forward b o ∷ es) fs = reports-append es fs

  pub to_prev-append : (es fs : List (Effect T F)) → to_prev (es ++ fs) ≡ to_prev es ++ to_prev fs
  to_prev-append [] fs = refl
  to_prev-append (send_backward b g ∷ es) fs = ap (λ ms. (b, g) ∷ ms) (to_prev-append es fs)
  to_prev-append (report_metrics b f ∷ es) fs = to_prev-append es fs
  to_prev-append (batch_done b ∷ es) fs = to_prev-append es fs
  to_prev-append (loss_backward b out x l ∷ es) fs = to_prev-append es fs
  to_prev-append (grad_backward b out x g ∷ es) fs = to_prev-append es fs
  to_prev-append (send_forward b o ∷ es) fs = to_prev-append es fs

abbrev pub mark : (ℕ → Bool) → ℕ → Bool → ℕ → Bool
mark open_ b v k = if k == b then v else open_ k

pub joined_gradients :
    {T : Type 0}
    → (q : Bool) (m : ℕ × T) (ms : List (ℕ × T))
    → (if q then m ∷ [] else []) ++ (if q then ms else []) ≡ (if q then m ∷ ms else [])
joined_gradients true m ms = refl
joined_gradients false m ms = refl

-- The micro-batches whose id says that they are the last.
abbrev pub finals : ℕ → List ℕ → List ℕ
finals n [] = []
finals n (b ∷ bs) = (if is_last_micro n b then b ∷ [] else []) ++ finals n bs

pub joined_finals :
    (q : Bool) (ms fs : List ℕ)
    → (if q then [] else ms) ++ (if q then [] else fs) ≡ (if q then [] else ms ++ fs)
joined_finals true ms fs = refl
joined_finals false ms fs = refl

abbrev pub ids : {T : Type 0} → List (ℕ × T) → List ℕ
ids ms = map (λ m. m.0) ms

module _ {T : Type 0} where
  -- The jobs that were submitted in a generation, and the inputs and the gradients among some jobs.
  abbrev pub live : ℕ → List (ℕ × Job T) → List (Job T)
  live g [] = []
  live g ((k, job) ∷ works) = let rest = live g works in if k == g then job ∷ rest else rest

  abbrev pub inputs : List (Job T) → List (ℕ × T)
  inputs [] = []
  inputs (on_input b x ∷ js) = (b, x) ∷ inputs js
  inputs (on_label b l ∷ js) = inputs js
  inputs (on_gradient b g ∷ js) = inputs js

  abbrev pub gradients : List (Job T) → List (ℕ × T)
  gradients [] = []
  gradients (on_input b x ∷ js) = gradients js
  gradients (on_label b l ∷ js) = gradients js
  gradients (on_gradient b g ∷ js) = (b, g) ∷ gradients js

  -- The order of one batch's jobs at a worker that is not the last: a gradient comes after its input, once,
  -- and no input comes after the last micro-batch's gradient. `open_` has the micro-batches whose gradients
  -- are to come.
  abbrev pub IsServed : ℕ → (ℕ → Bool) → List (Job T) → Type 0
  IsServed n open_ [] = Unit
  IsServed n open_ (on_input b x ∷ js) = IsServed n (mark open_ b true) js
  IsServed n open_ (on_label b l ∷ js) = ⊥
  IsServed n open_ (on_gradient b g ∷ js) =
      (open_ b ≡ true)
      × (is_last_micro n b ≡ true → is_nil (inputs js) ≡ true)
      × IsServed n (mark open_ b false) js

  -- The messages are what `xs` has for their micro-batches.
  abbrev pub AreOf : (ℕ → T) → List (ℕ × T) → Type 0
  AreOf xs ms = All (λ m. m.1 ≡ xs m.0) ms

module _ {T F Layer : Type 0} (net : Network T F Layer) (hooks : Hooks T Layer) where
  -- The jobs one after the other, without their generations.
  abbrev pub run_jobs : Servicer T F Layer → List (Job T) → Servicer T F Layer × List (Effect T F)
  run_jobs w [] = (w, [])
  run_jobs w (job ∷ js) =
      let ran = run_job net hooks w job in let rest = run_jobs ran.0 js in (rest.0, ran.1 ++ rest.1)

module _ {T F Layer : Type 0} (net : Network T F Layer) where
  -- Gradients that are added up do not change what a layer computes.
  abbrev pub AddsUp : Type 0
  AddsUp =
      (y : Layer) (out x g z : T)
      → net.output (net.backward_grad false y out x g).0 z ≡ net.output y z

  -- The activations that a layer gives, and the layer and the gradients after some gradients: `first` is the
  -- layer that all the outputs are of.
  abbrev pub activations : Layer → List (ℕ × T) → List (ℕ × T)
  activations y ms = map (λ m. (m.0, net.output y m.1)) ms

  abbrev pub answers : ℕ → (ℕ → T) → (first y : Layer) → List (ℕ × T) → Layer × List (ℕ × T)
  answers n xs first y [] = (y, [])
  answers n xs first y ((b, g) ∷ gs) =
      let last = is_last_micro n b in
      let ran = net.backward_grad last y (net.output first (xs b)) (xs b) g in
      let rest = answers n xs first (optimized net no_hooks last b ran.0) gs in
      (rest.0, (b, ran.1) ∷ rest.1)

  -- What a worker sends, and its layer in the end.
  pub record Streams (xs : ℕ → T) (first : Layer) (w : Servicer T F Layer) (js : List (Job T))
      (ran : Servicer T F Layer × List (Effect T F)) : Type 0 where
    pub sent_on : to_next ran.1 ≡ activations first (inputs js)
    pub sent_before :
        to_prev ran.1
        ≡ (if w.has_prev then (answers w.n_micro xs first w.layer (gradients js)).1 else [])
    pub done : dones ran.1 ≡ (if w.has_prev then [] else finals w.n_micro (ids (gradients js)))
    pub remains : ran.0.layer ≡ (answers w.n_micro xs first w.layer (gradients js)).0

  -- The worker and the effects after a gradient whose micro-batch is cached.
  abbrev pub backed :
      Servicer T F Layer → ℕ → (out x g : T) → Servicer T F Layer × List (Effect T F)
  backed w b out x g =
      let last = is_last_micro w.n_micro b in
      let ran = net.backward_grad last w.layer out x g in
      (
        record w {
          layer = optimized net no_hooks last b ran.0;
          outputs = with_key w.outputs b none;
        },
        grad_backward b out x g ∷ sent_back net no_hooks w b ran.1 last,
      )

  pub backward-eq :
      (w : Servicer T F Layer) (b : ℕ) (out x g : T)
      → w.outputs b ≡ some (out, x)
      → run_backward_stage net no_hooks w b g ≡ backed w b out x g
  unfolding run_backward_stage
  backward-eq w b out x g some_ = rw (some_, run_backward_stage) refl
