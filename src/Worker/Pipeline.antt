-- ===== src/Worker/Pipeline.antt =====
-- executors/distributed.py and worker.py: a batch in its micro-batches, through a pipeline of workers.
pub mod Backprop
pub mod Hops
pub mod Chains
pub mod Layering
pub mod Training
pub mod Batches
pub mod Examples
use torch_slicer.Common.{
  ℕ, zero, suc, ◌+◌, ◌*◌, ltb, Bool, true, false, List, [], ◌∷◌, ◌++◌, map, if◌then◌else◌,
}
use torch_slicer.Worker.Stages.{
  Network, Hooks, Servicer, Effect, loss_backward, grad_backward, report_metrics, send_forward,
  send_backward, batch_done, Job, on_input, on_label, on_gradient, run_works,
}

-- What reaches the coordinator, and the messages to the worker after and to the one before.
module _ {T F : Type 0} where
  abbrev pub reports : List (Effect T F) → List (Effect T F)
  reports [] = []
  reports (report_metrics b f ∷ es) = report_metrics b f ∷ reports es
  reports (batch_done b ∷ es) = batch_done b ∷ reports es
  reports (loss_backward b out x l ∷ es) = reports es
  reports (grad_backward b out x g ∷ es) = reports es
  reports (send_forward b o ∷ es) = reports es
  reports (send_backward b g ∷ es) = reports es

  abbrev pub to_next : List (Effect T F) → List (ℕ × T)
  to_next [] = []
  to_next (send_forward b o ∷ es) = (b, o) ∷ to_next es
  to_next (report_metrics b f ∷ es) = to_next es
  to_next (batch_done b ∷ es) = to_next es
  to_next (loss_backward b out x l ∷ es) = to_next es
  to_next (grad_backward b out x g ∷ es) = to_next es
  to_next (send_backward b g ∷ es) = to_next es

  abbrev pub to_prev : List (Effect T F) → List (ℕ × T)
  to_prev [] = []
  to_prev (send_backward b g ∷ es) = (b, g) ∷ to_prev es
  to_prev (report_metrics b f ∷ es) = to_prev es
  to_prev (batch_done b ∷ es) = to_prev es
  to_prev (loss_backward b out x l ∷ es) = to_prev es
  to_prev (grad_backward b out x g ∷ es) = to_prev es
  to_prev (send_forward b o ∷ es) = to_prev es

-- What some messages do to a pipeline: its workers after them, the gradients for whoever is before the first
-- one, and what the coordinator is told.
pub record Passed (T F Layer : Type 0) : Type 0 where
  pub workers : List (Servicer T F Layer)
  pub gradients : List (ℕ × T)
  pub told : List (Effect T F)

-- Jobs get the worker's generation when their messages arrive.
abbrev pub received_as : {T : Type 0} → ℕ → (ℕ → T → Job T) → List (ℕ × T) → List (ℕ × Job T)
received_as generation job ms = map (λ m. (generation, job m.0 m.1)) ms

module _ {T F Layer : Type 0} (net : Network T F Layer) where
  -- The result of _send_batch, when all that it causes is done; `complete` unless a chunk was missing, which
  -- is an IndexError.
  pub record Sent : Type 0 where
    pub pipeline : List (Servicer T F Layer)
    pub heard : List (Effect T F)
    pub complete : Bool

module _ {T F Layer : Type 0} (net : Network T F Layer) (hooks : Hooks T Layer) where
  -- The jobs of one worker for messages of one kind.
  abbrev pub handle_all :
      Servicer T F Layer → (ℕ → T → Job T) → List (ℕ × T) → Servicer T F Layer × List (Effect T F)
  handle_all w job ms = run_works net hooks w (received_as w.generation job ms)

  -- The last slice gets the labels before the activations, or after them: they come from another node.
  unfoldable pub at_last :
      Bool → Servicer T F Layer → (ms ls : List (ℕ × T)) → Servicer T F Layer × List (Effect T F)
  at_last labels_first w ms ls =
      let inputs = received_as w.generation on_input ms in
      let labels = received_as w.generation on_label ls in
      run_works net hooks w (if labels_first then labels ++ inputs else inputs ++ labels)

  -- A worker that is not the last: what the workers after it sent back are its gradients.
  unfoldable pub with_answers :
      Servicer T F Layer × List (Effect T F) → Passed T F Layer → Passed T F Layer
  with_answers ran rest =
      let back = handle_all ran.0 on_gradient rest.gradients in
      record {
        workers = back.0 ∷ rest.workers;
        gradients = to_prev ran.1 ++ to_prev back.1;
        told = reports ran.1 ++ (rest.told ++ reports back.1);
      }

  -- Inputs `ms` for the first worker and labels `ls` for the last, with all that follows from them: each
  -- worker's activations go to the next one and its gradients to the one before.
  unfoldable pub pass_through :
      Bool → List (Servicer T F Layer) → (ms ls : List (ℕ × T)) → Passed T F Layer
  unfolding at_last with_answers
  pass_through labels_first [] ms ls = record { workers = []; gradients = []; told = [] }
  pass_through labels_first (w ∷ []) ms ls =
      let ran = at_last labels_first w ms ls in
      record { workers = ran.0 ∷ []; gradients = to_prev ran.1; told = reports ran.1 }
  pass_through labels_first (w ∷ v ∷ ws) ms ls =
      let ran = handle_all w on_input ms in
      with_answers ran (pass_through labels_first (v ∷ ws) (to_next ran.1) ls)

  -- for m in range(M), from `m` on, with the chunks from there
  unfoldable pub send_micros :
      (labels_first : ℕ → Bool) (n_micro batch_id m k : ℕ) (mains labels : List T)
      → List (Servicer T F Layer)
      → Sent net
  unfolding pass_through
  send_micros early n b m zero mains labels ws = record {
    pipeline = ws;
    heard = [];
    complete = true;
  }
  send_micros early n b m (suc k) mains [] ws = record {
    pipeline = ws;
    heard = [];
    complete = false;
  }
  send_micros early n b m (suc k) [] (l ∷ labels) ws =
      let id = b * n + m in
      let ran = pass_through (early id) ws [] ((id, l) ∷ []) in
      record { pipeline = ran.workers; heard = ran.told; complete = false }
  send_micros early n b m (suc k) (x ∷ mains) (l ∷ labels) ws =
      let id = b * n + m in
      let ran = pass_through (early id) ws ((id, x) ∷ []) ((id, l) ∷ []) in
      let rest = send_micros early n b (m + 1) k mains labels ran.workers in
      record { pipeline = rest.pipeline; heard = ran.told ++ rest.heard; complete = rest.complete }

  -- _send_batch; `chunk` is torch's, for the inputs and for the labels
  unfoldable pub send_batch :
      (chunk : ℕ → T → List T) (labels_first : ℕ → Bool) (n_micro batch_id : ℕ) (main labels : T)
      → List (Servicer T F Layer)
      → Sent net
  unfolding send_micros pass_through
  send_batch chunk early n b main labels ws =
      if ltb 1 n
      then send_micros early n b 0 n (chunk n main) (chunk n labels) ws
      else (let ran = pass_through (early b) ws ((b, main) ∷ []) ((b, labels) ∷ []) in
          record { pipeline = ran.workers; heard = ran.told; complete = true })
