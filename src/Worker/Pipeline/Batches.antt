-- ===== src/Worker/Pipeline/Batches.antt =====
-- executors/distributed.py, _send_batch: a batch through a pipeline of workers.
use torch_slicer.Common.{
  ℕ, ◌+◌, ◌-◌, ◌*◌, ◌≤◌, ltb, Bool, true, false, none, List, [], ◌∷◌, length, if◌then◌else◌, max,
  ◌≡◌, refl,
}
use torch_slicer.Worker.Stages.{Network, Hooks, Servicer, init, report_metrics, batch_done}
use torch_slicer.Worker.Pipeline.{send_batch}
use torch_slicer.Worker.Pipeline.Backprop.{train_step}
use torch_slicer.Worker.Pipeline.Chains.{Part, IsChain, layers, losses, with_layers}

-- The parts of a batch that become micro-batches, and the id of the last one.
abbrev pub micros : {T : Type 0} → (ℕ → T → List T) → ℕ → T → List T
micros chunk n t = if ltb 1 n then chunk n t else t ∷ []

abbrev pub last_id : ℕ → ℕ → ℕ
last_id n batch = if ltb 1 n then batch * n + (n - 1) else batch

module _ {T F Layer : Type 0} (net : Network T F Layer) where
  -- What init leaves is ready for any batch.
  pub init-Part :
      (is_last has_prev : Bool) (n batch : ℕ) (layer : Layer) (w : Servicer T F Layer)
      → Part (max 1 n) batch has_prev is_last (init net is_last has_prev n layer w)
  unfolding init
  init-Part is_last has_prev n batch layer w = record {
    has_prev_eq = refl;
    is_last_eq = refl;
    n_micro_eq = refl;
    no_output = λ b e. refl;
    no_label = λ b e. refl;
  }

  -- What is said of a batch that is sent.
  abbrev Sends : Hooks T Layer → Type 0
  Sends hooks =
      (chunk : ℕ → T → List T) (labels_first : ℕ → Bool) (n batch : ℕ) (main labels : T)
      (ws : List (Servicer T F Layer))
      → 1 ≤ n
      → IsChain n batch false ws
      → losses ws batch ≡ none
      → length (micros chunk n main) ≡ n
      → length (micros chunk n labels) ≡ n
      → send_batch net hooks chunk labels_first n batch main labels ws ≡ (
          let step =
            train_step net n (last_id n batch) (layers ws) net.no_loss (micros chunk n main)
              (micros chunk n labels) in
          record {
            pipeline = with_layers ws step.0 (losses ws);
            heard =
                report_metrics (last_id n batch) (net.divide step.1 n)
                ∷ batch_done (last_id n batch)
                ∷ [];
            complete = true;
          })
