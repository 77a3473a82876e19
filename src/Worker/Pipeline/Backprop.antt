-- ===== src/Worker/Pipeline/Backprop.antt =====
-- executors/worker.py: what a pipeline is to come to, the training step of the whole model in one place.
use torch_slicer.Common.{ℕ, Bool, true, false, List, [], ◌∷◌, map}
use torch_slicer.Worker.Stages.{Network}

module _ {T F Layer : Type 0} (net : Network T F Layer) where
  -- The model's output.
  abbrev pub predict : List Layer → T → T
  predict [] x = x
  predict (y ∷ ys) x = predict ys (net.output y x)

  -- The backward pass of the loss of one micro-batch through all layers: the layers with their gradients
  -- added, and the gradient of the input.
  abbrev pub backprop : ℕ → Bool → List Layer → (x l : T) → List Layer × T
  backprop n last [] x l = ([], x)
  backprop n last (y ∷ []) x l =
      let ran = net.backward_loss n last y (net.output y x) x l in (ran.0 ∷ [], ran.1)
  backprop n last (y ∷ z ∷ ys) x l =
      let out = net.output y x in
      let rest = backprop n last (z ∷ ys) out l in
      let ran = net.backward_grad last y out x rest.1 in (ran.0 ∷ rest.0, ran.1)

  abbrev pub added_loss : F → List Layer → (x l : T) → F
  added_loss sum ys x l = net.add_loss sum (net.loss (predict ys x) l)

  -- Micro-batches one after the other, with their gradients accumulated and their losses added to `sum`, and
  -- one step of the optimizer at the end, for batch id `b`.
  abbrev pub train_step : (n b : ℕ) → List Layer → F → (mains labels : List T) → List Layer × F
  train_step n b ys sum [] labels = (ys, sum)
  train_step n b ys sum (x ∷ mains) [] = (ys, sum)
  train_step n b ys sum (x ∷ []) (l ∷ labels) =
      (map (net.optimize b) (backprop n true ys x l).0, added_loss sum ys x l)
  train_step n b ys sum (x ∷ v ∷ mains) (l ∷ labels) =
      train_step n b (backprop n false ys x l).0 (added_loss sum ys x l) (v ∷ mains) labels
