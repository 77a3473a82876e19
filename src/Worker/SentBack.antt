-- ===== src/Worker/SentBack.antt =====
-- executors/worker.py, _send_backward and _run_backward_last: what is among the effects of a backward pass.
use torch_slicer.Common.{ℕ, Bool, true, false, List, [], ◌∷◌, ◌++◌, if◌then◌else◌, ◌≡◌, refl, ap}
use torch_slicer.Worker.Stages.{
  Effect, loss_backward, grad_backward, send_forward, report_metrics, send_backward, batch_done,
}
use torch_slicer.Worker.Pipeline.{reports, to_next, to_prev}

module _ {T F : Type 0} where
  -- The batches that are said to be done.
  abbrev pub dones : List (Effect T F) → List ℕ
  dones [] = []
  dones (batch_done b ∷ es) = b ∷ dones es
  dones (report_metrics b f ∷ es) = dones es
  dones (send_backward b g ∷ es) = dones es
  dones (loss_backward b out x l ∷ es) = dones es
  dones (grad_backward b out x g ∷ es) = dones es
  dones (send_forward b o ∷ es) = dones es

  pub dones-append : (es fs : List (Effect T F)) → dones (es ++ fs) ≡ dones es ++ dones fs
  dones-append [] fs = refl
  dones-append (batch_done b ∷ es) fs = ap (λ r. b ∷ r) (dones-append es fs)
  dones-append (report_metrics b f ∷ es) fs = dones-append es fs
  dones-append (send_backward b g ∷ es) fs = dones-append es fs
  dones-append (loss_backward b out x l ∷ es) fs = dones-append es fs
  dones-append (grad_backward b out x g ∷ es) fs = dones-append es fs
  dones-append (send_forward b o ∷ es) fs = dones-append es fs

module _ {T : Type 0} (F : Type 0) where
  -- What _send_backward sends.
  abbrev pub answer : (has_prev last : Bool) → ℕ → T → List (Effect T F)
  answer has_prev last b g =
      if has_prev then send_backward b g ∷ [] else if last then batch_done b ∷ [] else []

  pub to_next-answer :
      (has_prev last : Bool) (b : ℕ) (g : T) → to_next (answer has_prev last b g) ≡ []
  to_next-answer true last b g = refl
  to_next-answer false true b g = refl
  to_next-answer false false b g = refl

  pub to_prev-answer :
      (has_prev last : Bool) (b : ℕ) (g : T)
      → to_prev (answer has_prev last b g) ≡ (if has_prev then (b, g) ∷ [] else [])
  to_prev-answer true last b g = refl
  to_prev-answer false true b g = refl
  to_prev-answer false false b g = refl

  pub reports-answer :
      (has_prev last : Bool) (b : ℕ) (g : T)
      → reports (answer has_prev last b g)
        ≡ (if has_prev then [] else if last then batch_done b ∷ [] else [])
  reports-answer true last b g = refl
  reports-answer false true b g = refl
  reports-answer false false b g = refl

  pub dones-answer :
      (has_prev last : Bool) (b : ℕ) (g : T)
      → dones (answer has_prev last b g) ≡ (if has_prev then [] else if last then b ∷ [] else [])
  dones-answer true last b g = refl
  dones-answer false true b g = refl
  dones-answer false false b g = refl

  -- The effects of a loss.
  abbrev pub effects : (has_prev last : Bool) → ℕ → F → (out x l g : T) → List (Effect T F)
  effects has_prev last b f out x l g =
      (if last then report_metrics b f ∷ [] else [])
      ++ (loss_backward b out x l ∷ answer has_prev last b g)

  pub to_prev-effects :
      (has_prev last : Bool) (b : ℕ) (f : F) (out x l g : T)
      → to_prev (effects has_prev last b f out x l g) ≡ (if has_prev then (b, g) ∷ [] else [])
  to_prev-effects has_prev true b f out x l g = to_prev-answer has_prev true b g
  to_prev-effects has_prev false b f out x l g = to_prev-answer has_prev false b g

  pub reports-effects :
      (has_prev last : Bool) (b : ℕ) (f : F) (out x l g : T)
      → reports (effects has_prev last b f out x l g)
        ≡ (if last then report_metrics b f ∷ [] else [])
          ++ (if has_prev then [] else if last then batch_done b ∷ [] else [])
  reports-effects has_prev true b f out x l g =
      ap (λ es. report_metrics b f ∷ es) (reports-answer has_prev true b g)
  reports-effects has_prev false b f out x l g = reports-answer has_prev false b g

  pub dones-effects :
      (has_prev last : Bool) (b : ℕ) (f : F) (out x l g : T)
      → dones (effects has_prev last b f out x l g)
        ≡ (if has_prev then [] else if last then b ∷ [] else [])
  dones-effects has_prev true b f out x l g = dones-answer has_prev true b g
  dones-effects has_prev false b f out x l g = dones-answer has_prev false b g
