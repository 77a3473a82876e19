-- ===== src/Worker/Overlap/Live.antt =====
-- executors/worker.py: jobs of earlier generations among those of the current one.
use torch_slicer.Common.{
  ℕ, ◌==◌, Bool, true, false, Option, none, some, List, [], ◌∷◌, ◌++◌, if◌then◌else◌, ◌≡◌, refl, ap,
  ◌∙◌, inl, inr, Bool-cases, Option-cases,
}
use torch_slicer.Worker.Stages.{
  Network, Servicer, Effect, Job, on_input, on_label, on_gradient, run_forward_stage,
  run_backward_stage, run_job, run_work, run_works, output_meets, label_meets, take_label,
  run_backward_last, no_hooks,
}
use torch_slicer.Worker.Overlap.Streams.{live, run_jobs, backward-eq}

module _ {T F Layer : Type 0} (net : Network T F Layer) where
  output_meets-generation :
      (w : Servicer T F Layer) (b : ℕ) (out x : T) (l : Option T)
      → (output_meets net no_hooks w b out x l).0.generation ≡ w.generation
  unfolding output_meets run_backward_last
  output_meets-generation w b out x none = refl
  output_meets-generation w b out x (some l) = refl

  label_meets-generation :
      (w : Servicer T F Layer) (b : ℕ) (l : T) (o : Option (T × T))
      → (label_meets net no_hooks w b l o).0.generation ≡ w.generation
  unfolding label_meets run_backward_last
  label_meets-generation w b l none = refl
  label_meets-generation w b l (some o) = refl

  skipped :
      (w : Servicer T F Layer) (b : ℕ) (g : T)
      → w.outputs b ≡ none
      → (run_backward_stage net no_hooks w b g).0.generation ≡ w.generation
  unfolding run_backward_stage
  skipped w b g e = rw (e, run_backward_stage) refl

  gradient-generation :
      (w : Servicer T F Layer) (b : ℕ) (g : T)
      → (run_backward_stage net no_hooks w b g).0.generation ≡ w.generation
  gradient-generation w b g = elim (Option-cases (w.outputs b)) [
    | inl e ↦ skipped w b g e
    | inr ((out, x), e) ↦ ap (λ r. r.0.generation) (backward-eq net w b out x g e)
  ]

  if-generation :
      (t : Bool) (r s : Servicer T F Layer × List (Effect T F)) {g : ℕ}
      → r.0.generation ≡ g
      → s.0.generation ≡ g
      → (if t then r else s).0.generation ≡ g
  if-generation true r s e f = e
  if-generation false r s e f = f

  -- Jobs of earlier generations do nothing, and no job changes the generation.
  run_job-generation :
      (w : Servicer T F Layer) (job : Job T)
      → (run_job net no_hooks w job).0.generation ≡ w.generation
  unfolding run_forward_stage take_label
  run_job-generation w (on_input b x) =
      if-generation w.is_last _ _
        (output_meets-generation w b (net.output w.layer x) x (w.labels b)) refl
  run_job-generation w (on_label b l) = label_meets-generation w b l (w.outputs b)
  run_job-generation w (on_gradient b g) = gradient-generation w b g

  pub run_works-live :
      (works : List (ℕ × Job T)) (w : Servicer T F Layer)
      → run_works net no_hooks w works ≡ run_jobs net no_hooks w (live w.generation works)
  unfolding run_works run_work
  run_works-live [] w = refl
  run_works-live ((k, job) ∷ works) w = elim (Bool-cases (k == w.generation)) [
    | inl e ↦
        let ran = run_job net no_hooks w job in
        rw e (
          ap (λ (r : Servicer T F Layer × List (Effect T F)). (r.0, ran.1 ++ r.1))
            (run_works-live works ran.0
              ∙ ap (λ g. run_jobs net no_hooks ran.0 (live g works)) (run_job-generation w job)))
    | inr e ↦ rw e (run_works-live works w)
  ]
