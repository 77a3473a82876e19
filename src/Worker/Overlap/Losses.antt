-- ===== src/Worker/Overlap/Losses.antt =====
-- executors/worker.py: what the last worker sends and reports.
use torch_slicer.Common.{
  ℕ, Bool, true, false, Option, none, List, [], ◌∷◌, ◌++◌, if◌then◌else◌, ◌≡◌, refl, sym, ap, subst,
  inl, inr, Bool-cases,
}
use torch_slicer.Worker.Stages.{
  Network, Servicer, Job, on_input, on_label, on_gradient, run_works, no_hooks,
}
use torch_slicer.Worker.Overlap.Streams.{live, inputs, mark, AreOf, run_jobs}
use torch_slicer.Worker.Overlap.Fed.{
  ins_after, labs_after, completed, given, IsFed, LossAddsUp, Losses,
}
use torch_slicer.Worker.Overlap.Live.{run_works-live}
use torch_slicer.Worker.Overlap.Ends.{Ends, input-met, input-kept, label-met, label-kept}

module _ {T F Layer : Type 0} (net : Network T F Layer) (batch : ℕ) (xs ls : ℕ → T)
    (first : Layer) where
  run_jobs-Losses : LossAddsUp net → (js : List (Job T)) → Ends net batch xs ls first js
  run_jobs-Losses adds [] w ins labs o h fed own given_ = record {
    back = elim (Bool-cases w.has_prev) [ inl e ↦ rw e refl | inr e ↦ rw e refl ];
    heard = refl;
    done = elim (Bool-cases w.has_prev) [ inl e ↦ rw e refl | inr e ↦ rw e refl ];
    remains = refl;
  }
  run_jobs-Losses adds (on_gradient b g ∷ js) w ins labs o h fed own given_ = absurd fed
  run_jobs-Losses adds (on_input b x ∷ js) w ins labs o h fed own given_ =
      let ih = run_jobs-Losses adds js in
      let more = completed (ins_after ins labs b) (mark labs b false) js in
      let shown = λ (t : Bool).
        Losses net w.n_micro w.has_prev xs ls first w.layer o ((if t then b ∷ [] else []) ++ more)
          (run_jobs net no_hooks w (on_input b x ∷ js)) in
      elim (Bool-cases (labs b)) [
        | inl e ↦
            subst shown (sym e)
              (input-met net batch xs ls first js ih adds w b ins labs o x h fed own given_ e)
        | inr e ↦
            subst shown (sym e)
              (input-kept net batch xs ls first js ih adds w b ins labs o x h fed own given_ e)
      ]
  run_jobs-Losses adds (on_label b l ∷ js) w ins labs o h fed own given_ =
      let ih = run_jobs-Losses adds js in
      let more = completed (mark ins b false) (labs_after ins labs b) js in
      let shown = λ (t : Bool).
        Losses net w.n_micro w.has_prev xs ls first w.layer o ((if t then b ∷ [] else []) ++ more)
          (run_jobs net no_hooks w (on_label b l ∷ js)) in
      elim (Bool-cases (ins b)) [
        | inl e ↦
            subst shown (sym e)
              (label-met net batch xs ls first js ih adds w b ins labs o l h fed own given_ e)
        | inr e ↦
            subst shown (sym e)
              (label-kept net batch xs ls first js ih adds w b ins labs o l h fed own given_ e)
      ]

  -- Nothing waits before the first job.
  pub run_works-Losses :
      LossAddsUp net
      → (w : Servicer T F Layer) (works : List (ℕ × Job T)) (o : Option F) → w.is_last ≡ true
      → ((b : ℕ) → w.outputs b ≡ none)
      → ((b : ℕ) → w.labels b ≡ none)
      → w.micro_losses batch ≡ o
      → first ≡ w.layer
      → IsFed w.n_micro batch (λ b. false) (λ b. false) (live w.generation works)
      → AreOf xs (inputs (live w.generation works))
      → AreOf ls (given (live w.generation works))
      → Losses net w.n_micro w.has_prev xs ls first w.layer o
          (completed (λ b. false) (λ b. false) (live w.generation works))
          (run_works net no_hooks w works)
  run_works-Losses adds w works o last no_output no_label sums start fed own given_ =
      let js = live w.generation works in
      subst
        (Losses net w.n_micro w.has_prev xs ls first w.layer o
          (completed (λ b. false) (λ b. false) js))
        (sym (run_works-live net works w))
        (run_jobs-Losses adds js w (λ b. false) (λ b. false) o
          (record {
            last = last;
            cached = no_output;
            labelled = no_label;
            sums = sums;
            same = λ more z. ap (λ y. net.output y z) (sym start);
          })
          fed own given_)
