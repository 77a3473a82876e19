-- ===== src/Worker/Overlap/Fed.antt =====
-- executors/worker.py: the last worker, with overlapping activations and labels.
use torch_slicer.Common.{
  ℕ, Bool, true, false, ◌||◌, not, Option, none, some, List, [], ◌∷◌, ◌++◌, is_nil, if◌then◌else◌,
  ◌≡◌,
}
use torch_slicer.Worker.Stages.{
  Network, Servicer, is_last_micro, full_batch, loss_or, optimized, Job, on_input, on_label,
  on_gradient, report_metrics, batch_done, Effect, no_hooks,
}
use torch_slicer.Worker.Pipeline.{to_prev, reports}
use torch_slicer.Worker.Overlap.Streams.{inputs, mark, finals}
use torch_slicer.Worker.SentBack.{dones}

-- What is left at the last worker after an input and after a label: `ins` has the micro-batches whose
-- activations wait for their labels, and `labs` the other way round.
abbrev pub ins_after : (ins labs : ℕ → Bool) → ℕ → ℕ → Bool
ins_after ins labs b = mark ins b (ins b || not (labs b))

abbrev pub labs_after : (ins labs : ℕ → Bool) → ℕ → ℕ → Bool
labs_after ins labs b = mark labs b (labs b || not (ins b))

module _ {T : Type 0} where
  -- The micro-batches in the order in which they have both.
  abbrev pub completed : (ins labs : ℕ → Bool) → List (Job T) → List ℕ
  completed ins labs [] = []
  completed ins labs (on_input b x ∷ js) =
      (if labs b then b ∷ [] else []) ++ completed (ins_after ins labs b) (mark labs b false) js
  completed ins labs (on_label b l ∷ js) =
      (if ins b then b ∷ [] else []) ++ completed (mark ins b false) (labs_after ins labs b) js
  completed ins labs (on_gradient b g ∷ js) = completed ins labs js

  abbrev pub given : List (Job T) → List (ℕ × T)
  given [] = []
  given (on_input b x ∷ js) = given js
  given (on_label b l ∷ js) = (b, l) ∷ given js
  given (on_gradient b g ∷ js) = given js

  -- The order of one batch's jobs at the last worker: there are no gradients, and no input comes after the
  -- last micro-batch is complete.
  abbrev pub IsFed : ℕ → ℕ → (ins labs : ℕ → Bool) → List (Job T) → Type 0
  IsFed n batch ins labs [] = Unit
  IsFed n batch ins labs (on_input b x ∷ js) =
      (full_batch n b ≡ batch)
      × (labs b ≡ true → is_last_micro n b ≡ true → is_nil (inputs js) ≡ true)
      × IsFed n batch (ins_after ins labs b) (mark labs b false) js
  IsFed n batch ins labs (on_label b l ∷ js) =
      (full_batch n b ≡ batch)
      × (ins b ≡ true → is_last_micro n b ≡ true → is_nil (inputs js) ≡ true)
      × IsFed n batch (mark ins b false) (labs_after ins labs b) js
  IsFed n batch ins labs (on_gradient b g ∷ js) = ⊥

module _ {T F Layer : Type 0} (net : Network T F Layer) where
  abbrev pub LossAddsUp : Type 0
  LossAddsUp =
      (n : ℕ) (y : Layer) (out x l z : T)
      → net.output (net.backward_loss n false y out x l).0 z ≡ net.output y z

  -- The last layer and the gradients after the losses of some micro-batches, and what the coordinator is told.
  abbrev pub ends : ℕ → (xs ls : ℕ → T) → (first y : Layer) → List ℕ → Layer × List (ℕ × T)
  ends n xs ls first y [] = (y, [])
  ends n xs ls first y (b ∷ bs) =
      let last = is_last_micro n b in
      let ran = net.backward_loss n last y (net.output first (xs b)) (xs b) (ls b) in
      let rest = ends n xs ls first (optimized net no_hooks last b ran.0) bs in
      (rest.0, (b, ran.1) ∷ rest.1)

  -- `out` has the model's outputs.
  abbrev pub added : (out ls : ℕ → T) → Option F → ℕ → F
  added out ls o b = net.add_loss (loss_or net.no_loss o) (net.loss (out b) (ls b))

  abbrev pub told : ℕ → Bool → (out ls : ℕ → T) → Option F → List ℕ → List (Effect T F)
  told n has_prev out ls o [] = []
  told n has_prev out ls o (b ∷ bs) =
      let last = is_last_micro n b in
      let sum = added out ls o b in
      ((if last then report_metrics b (net.divide sum n) ∷ [] else [])
        ++ (if has_prev then [] else if last then batch_done b ∷ [] else []))
      ++ told n has_prev out ls (if last then none else some sum) bs

  -- What the last worker sends and reports when micro-batches `bs` are complete, from layer `y` and sum `o`.
  pub record Losses (n : ℕ) (has_prev : Bool) (xs ls : ℕ → T) (first y : Layer) (o : Option F)
      (bs : List ℕ) (ran : Servicer T F Layer × List (Effect T F)) : Type 0 where
    pub back : to_prev ran.1 ≡ (if has_prev then (ends n xs ls first y bs).1 else [])
    pub heard : reports ran.1 ≡ told n has_prev (λ b. net.output first (xs b)) ls o bs
    pub done : dones ran.1 ≡ (if has_prev then [] else finals n bs)
    pub remains : ran.0.layer ≡ (ends n xs ls first y bs).0
