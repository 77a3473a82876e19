-- ===== src/Worker/Pairs.antt =====
-- executors/worker.py: the pairs of an output and a label that a loss is computed of.
use torch_slicer.Common.{
  ℕ, ◌==◌, Option, none, some, List, [], ◌∷◌, ◌++◌, if◌then◌else◌, ◌≡◌, refl, ap, inl, inr,
  Bool-cases, ◌≢◌,
}
use torch_slicer.Worker.Stages.{
  Effect, loss_backward, grad_backward, report_metrics, send_forward, send_backward, batch_done,
  Job, on_input, on_label, on_gradient,
}

module _ {T : Type 0} where
  -- The first input, and the first label, of a batch among the jobs of a generation.
  abbrev pub input_of : ℕ → ℕ → List (ℕ × Job T) → Option T
  input_of g b [] = none
  input_of g b ((k, on_input c x) ∷ works) =
      let rest = input_of g b works in if k == g then (if c == b then some x else rest) else rest
  input_of g b ((k, on_label c l) ∷ works) = input_of g b works
  input_of g b ((k, on_gradient c d) ∷ works) = input_of g b works

  abbrev pub label_of : ℕ → ℕ → List (ℕ × Job T) → Option T
  label_of g b [] = none
  label_of g b ((k, on_label c l) ∷ works) =
      let rest = label_of g b works in if k == g then (if c == b then some l else rest) else rest
  label_of g b ((k, on_input c x) ∷ works) = label_of g b works
  label_of g b ((k, on_gradient c d) ∷ works) = label_of g b works

  -- In generation `g`, each batch has at most one input and one label, and there are no gradients, which
  -- nobody sends to the last slice.
  abbrev pub AreSingle : ℕ → List (ℕ × Job T) → Type 0
  AreSingle g [] = Unit
  AreSingle g ((k, on_input c x) ∷ works) = (k ≡ g → input_of g c works ≡ none) × AreSingle g works
  AreSingle g ((k, on_label c l) ∷ works) = (k ≡ g → label_of g c works ≡ none) × AreSingle g works
  AreSingle g ((k, on_gradient c d) ∷ works) = (k ≢ g) × AreSingle g works

  -- What the loss is computed of for a batch that has both.
  abbrev pub paired : Option T → Option T → List (T × T)
  paired (some x) (some l) = (x, l) ∷ []
  paired (some x) none = []
  paired none l = []

  -- The inputs and labels of a batch for which a loss went backward, in their order.
  abbrev pub losses_of : {F : Type 0} → ℕ → List (Effect T F) → List (T × T)
  losses_of b [] = []
  losses_of b (loss_backward c out x l ∷ es) =
      let rest = losses_of b es in if c == b then (x, l) ∷ rest else rest
  losses_of b (grad_backward c out x g ∷ es) = losses_of b es
  losses_of b (report_metrics c f ∷ es) = losses_of b es
  losses_of b (send_forward c o ∷ es) = losses_of b es
  losses_of b (send_backward c g ∷ es) = losses_of b es
  losses_of b (batch_done c ∷ es) = losses_of b es

  pub losses_of-append :
      {F : Type 0}
      → (b : ℕ) (es fs : List (Effect T F))
      → losses_of b (es ++ fs) ≡ losses_of b es ++ losses_of b fs
  losses_of-append b [] fs = refl
  losses_of-append b (loss_backward c out x l ∷ es) fs =
      let ih = losses_of-append b es fs in
      elim (Bool-cases (c == b)) [ inl e ↦ rw e (ap (λ r. (x, l) ∷ r) ih) | inr e ↦ rw e ih ]
  losses_of-append b (grad_backward c out x g ∷ es) fs = losses_of-append b es fs
  losses_of-append b (report_metrics c f ∷ es) fs = losses_of-append b es fs
  losses_of-append b (send_forward c o ∷ es) fs = losses_of-append b es fs
  losses_of-append b (send_backward c g ∷ es) fs = losses_of-append b es fs
  losses_of-append b (batch_done c ∷ es) fs = losses_of-append b es fs

  -- What waits for its counterpart, and what is still to come, agree.
  abbrev pub Fits : Option (T × T) → Option T → Option T → Option T → Type 0
  Fits none none i l = Unit
  Fits (some p) none i l = i ≡ none
  Fits none (some q) i l = l ≡ none
  Fits (some p) (some q) i l = ⊥

  abbrev pub expected : Option (T × T) → Option T → Option T → Option T → List (T × T)
  expected none none i l = paired i l
  expected (some p) none i l = paired (some p.1) l
  expected none (some q) i l = paired i (some q)
  expected (some p) (some q) i l = []
