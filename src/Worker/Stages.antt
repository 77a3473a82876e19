-- ===== src/Worker/Stages.antt =====
-- executors/worker.py: the work of a worker's pool, which runs one job after the other.
use torch_slicer.Common.{
  ℕ, ◌+◌, ◌-◌, ◌/◌, ◌%◌, leb, ltb, ◌==◌, Bool, ◌||◌, Option, none, some, List, [], ◌∷◌, ◌++◌,
  if◌then◌else◌, max, ◌≡◌, refl,
}

abbrev pub Dict : Type 0 → Type 0
Dict A = ℕ → Option A

-- d[b] = v, or d.pop(b) with v none
abbrev pub with_key : {A : Type 0} → Dict A → ℕ → Option A → Dict A
with_key d b v k = if k == b then v else d k

-- What the code calls of torch, on tensors T, losses F and a layer with its optimizer. `backward_loss`
-- gets what divides the loss; both backward passes get whether the micro-batch is the last one, for the
-- auxiliary loss, and give the layer with its gradients and the gradient of the input.
pub record Network (T F Layer : Type 0) : Type 0 where
  pub output : Layer → T → T
  pub loss : T → T → F
  pub no_loss : F
  pub add_loss : F → F → F
  pub divide : F → ℕ → F
  pub backward_loss : ℕ → Bool → Layer → T → T → T → Layer × T
  pub backward_grad : Bool → Layer → T → T → T → Layer × T
  -- the optimizer's step
  pub optimize : ℕ → Layer → Layer

-- A user's hook of a cut, which keeps no state: what is sent for an activation and for a gradient of a
-- batch, packed as a tensor, and what is made of it.
pub record WireHook (T : Type 0) : Type 0 where
  pub encode : ℕ → T → T
  pub decode : ℕ → T → T
  pub encode_grad : ℕ → T → T
  pub decode_grad : ℕ → T → T

-- The hooks of the cuts before and after a worker's slice; the first slice has none before it. `note` is
-- what a forward pass leaves in the layer: a mixture of experts adds up an auxiliary loss there, which the
-- backward pass of the last micro-batch takes. `tied` is there for a worker that shares parameters with
-- others: what its layer becomes with their exchange, which Worker.TiedSync models for all its workers.
pub record Hooks (T Layer : Type 0) : Type 0 where
  pub at_input : Layer → Option (WireHook T)
  pub at_output : Layer → Option (WireHook T)
  pub note : Layer → T → Layer
  pub tied : Layer → Option (ℕ → Layer → Layer)

abbrev pub no_hooks : {T Layer : Type 0} → Hooks T Layer
no_hooks = record { at_input = λ y. none; at_output = λ y. none; note = λ y x. y; tied = λ y. none }

-- No hook at any cut, no auxiliary loss, and no parameter that is tied across workers.
abbrev pub IsPlain : {T Layer : Type 0} → Hooks T Layer → Type 0
IsPlain {T} {Layer} hooks =
    ((y : Layer) → hooks.at_input y ≡ none)
    × ((y : Layer) → hooks.at_output y ≡ none)
    × ((y : Layer) (x : T) → hooks.note y x ≡ y)
    × ((y : Layer) → hooks.tied y ≡ none)

pub no_hooks-IsPlain : {T Layer : Type 0} → IsPlain (no_hooks {T = T} {Layer = Layer})
no_hooks-IsPlain = ((λ y. refl), (λ y. refl), (λ y x. refl), (λ y. refl))

pub IsPlain-eq : {T Layer : Type 0} (hooks : Hooks T Layer) → IsPlain hooks → hooks ≡ no_hooks
IsPlain-eq hooks plain i = record {
  at_input = λ y. plain.0 y i;
  at_output = λ y. plain.1 y i;
  note = λ y x. plain.2 y x i;
  tied = λ y. plain.3 y i;
}

pub record Servicer (T F Layer : Type 0) : Type 0 where
  pub generation : ℕ
  pub is_last : Bool
  -- whether a worker comes before this one
  pub has_prev : Bool
  pub n_micro : ℕ
  pub layer : Layer
  pub labels : Dict T
  pub outputs : Dict (T × T)
  pub micro_losses : Dict F

-- What a job does besides changing the worker: the backward pass of a loss, on the output of an input with
-- a label, and that of a gradient; and the calls of other nodes.
pub data Effect (T F : Type 0) : Type 0 where
  loss_backward : (batch_id : ℕ) (out x_ref label : T) → Effect T F
  grad_backward : (batch_id : ℕ) (out x_ref grad : T) → Effect T F
  report_metrics : ℕ → F → Effect T F
  send_forward : ℕ → T → Effect T F
  send_backward : ℕ → T → Effect T F
  batch_done : ℕ → Effect T F

-- The jobs: _forward of an input, _take_label, and _backward of a gradient.
pub data Job (T : Type 0) : Type 0 where
  on_input on_label on_gradient : ℕ → T → Job T

abbrev pub is_last_micro : ℕ → ℕ → Bool
is_last_micro n_micro batch_id = leb n_micro 1 || (batch_id % n_micro == n_micro - 1)

abbrev pub full_batch : ℕ → ℕ → ℕ
full_batch n_micro batch_id = if ltb 1 n_micro then batch_id / n_micro else batch_id

abbrev pub loss_or : {F : Type 0} → F → Option F → F
loss_or zero_ none = zero_
loss_or zero_ (some f) = f

module _ {T F Layer : Type 0} (net : Network T F Layer) where
  -- init: with the config's slice; the layer is what is built for it
  unfoldable pub init :
      (is_last has_prev : Bool) (n_micro : ℕ) → Layer → Servicer T F Layer → Servicer T F Layer
  init is_last has_prev n_micro layer w = record {
    generation = w.generation + 1;
    is_last = is_last;
    has_prev = has_prev;
    n_micro = max 1 n_micro;
    layer = layer;
    labels = λ b. none;
    outputs = λ b. none;
    micro_losses = λ b. none;
  }

  abbrev pub with_label : Servicer T F Layer → ℕ → Option T → Servicer T F Layer
  with_label w b v = record {
    generation = w.generation;
    is_last = w.is_last;
    has_prev = w.has_prev;
    n_micro = w.n_micro;
    layer = w.layer;
    labels = with_key w.labels b v;
    outputs = w.outputs;
    micro_losses = w.micro_losses;
  }

  abbrev pub with_output : Servicer T F Layer → ℕ → Option (T × T) → Servicer T F Layer
  with_output w b v = record {
    generation = w.generation;
    is_last = w.is_last;
    has_prev = w.has_prev;
    n_micro = w.n_micro;
    layer = w.layer;
    labels = w.labels;
    outputs = with_key w.outputs b v;
    micro_losses = w.micro_losses;
  }

  abbrev pub with_layer : Servicer T F Layer → Layer → Servicer T F Layer
  with_layer w y = record {
    generation = w.generation;
    is_last = w.is_last;
    has_prev = w.has_prev;
    n_micro = w.n_micro;
    layer = y;
    labels = w.labels;
    outputs = w.outputs;
    micro_losses = w.micro_losses;
  }

module _ {T F Layer : Type 0} (net : Network T F Layer) (hooks : Hooks T Layer) where
  -- _optimize, after the last micro-batch
  abbrev pub optimized : Bool → ℕ → Layer → Layer
  optimized last batch_id layer =
      if last
      then elim (hooks.tied layer) [
        | none ↦ net.optimize batch_id layer
        | some exchange ↦ exchange batch_id layer
      ]
      else layer

  -- _decode_in, _encode_out, _decode_grad and _encode_grad
  abbrev pub decode_in : Servicer T F Layer → ℕ → T → T
  decode_in w batch_id t = elim (hooks.at_input w.layer) [
    | none ↦ t
    | some hook ↦ hook.decode batch_id t
  ]

  abbrev pub encode_out : Servicer T F Layer → ℕ → T → T
  encode_out w batch_id out = elim (hooks.at_output w.layer) [
    | none ↦ out
    | some hook ↦ hook.encode batch_id out
  ]

  abbrev pub decode_grad : Servicer T F Layer → ℕ → T → T
  decode_grad w batch_id t = elim (hooks.at_output w.layer) [
    | none ↦ t
    | some hook ↦ hook.decode_grad batch_id t
  ]

  abbrev pub encode_grad : Servicer T F Layer → ℕ → T → T
  encode_grad w batch_id grad = elim (hooks.at_input w.layer) [
    | none ↦ grad
    | some hook ↦ hook.encode_grad batch_id grad
  ]

  -- _send_backward
  abbrev pub sent_back : Servicer T F Layer → ℕ → T → Bool → List (Effect T F)
  sent_back w batch_id grad last =
      if w.has_prev
      then send_backward batch_id (encode_grad w batch_id grad) ∷ []
      else if last
      then batch_done batch_id ∷ []
      else []

  -- _run_backward_last
  unfoldable pub run_backward_last :
      Servicer T F Layer → ℕ → (out x_ref label : T) → Servicer T F Layer × List (Effect T F)
  run_backward_last w batch_id out x_ref label =
      let last = is_last_micro w.n_micro batch_id in
      let full = full_batch w.n_micro batch_id in
      let sum = net.add_loss (loss_or net.no_loss (w.micro_losses full)) (net.loss out label) in
      let ran = net.backward_loss w.n_micro last w.layer out x_ref label in
      let report = if last then report_metrics batch_id (net.divide sum w.n_micro) ∷ [] else [] in
      (
        record {
          generation = w.generation;
          is_last = w.is_last;
          has_prev = w.has_prev;
          n_micro = w.n_micro;
          layer = optimized last batch_id ran.0;
          labels = w.labels;
          outputs = w.outputs;
          micro_losses = with_key w.micro_losses full (if last then none else some sum);
        },
        report ++ (loss_backward batch_id out x_ref label ∷ sent_back w batch_id ran.1 last),
      )

  -- The label that an output finds, and the output that a label finds, if they are there.
  unfoldable pub output_meets :
      Servicer T F Layer → ℕ → (out x_ref : T) → Option T → Servicer T F Layer × List (Effect T F)
  unfolding run_backward_last
  output_meets w batch_id out x_ref none = (with_output net w batch_id (some (out, x_ref)), [])
  output_meets w batch_id out x_ref (some label) =
      run_backward_last (with_label net w batch_id none) batch_id out x_ref label

  unfoldable pub label_meets :
      Servicer T F Layer → ℕ → T → Option (T × T) → Servicer T F Layer × List (Effect T F)
  unfolding run_backward_last
  label_meets w batch_id label none = (with_label net w batch_id (some label), [])
  label_meets w batch_id label (some (out, x_ref)) =
      run_backward_last (with_output net w batch_id none) batch_id out x_ref label

  -- _run_forward_stage, with _send_forward_peer, and the last slice's branch of _forward_last, which does the same
  unfoldable pub run_forward_stage :
      Servicer T F Layer → ℕ → T → Servicer T F Layer × List (Effect T F)
  unfolding output_meets
  run_forward_stage w batch_id x =
      let out = net.output w.layer x in
      let noted = with_layer net w (hooks.note w.layer x) in
      if w.is_last then output_meets noted batch_id out x (w.labels batch_id) else (
        with_output net noted batch_id (some (out, x)),
        send_forward batch_id (encode_out w batch_id out) ∷ [],
      )

  -- _take_label
  unfoldable pub take_label : Servicer T F Layer → ℕ → T → Servicer T F Layer × List (Effect T F)
  unfolding label_meets
  take_label w batch_id label = label_meets w batch_id label (w.outputs batch_id)

  -- _run_backward_stage: without a cached output the gradient is skipped
  unfoldable pub run_backward_stage :
      Servicer T F Layer → ℕ → T → Servicer T F Layer × List (Effect T F)
  run_backward_stage w batch_id grad = elim (w.outputs batch_id) [
    | none ↦ (w, [])
    | some (out, x_ref) ↦
        let last = is_last_micro w.n_micro batch_id in
        let popped = with_output net w batch_id none in
        let ran = net.backward_grad last w.layer out x_ref grad in
        (
          record {
            generation = w.generation;
            is_last = w.is_last;
            has_prev = w.has_prev;
            n_micro = w.n_micro;
            layer = optimized last batch_id ran.0;
            labels = w.labels;
            outputs = popped.outputs;
            micro_losses = w.micro_losses;
          },
          grad_backward batch_id out x_ref grad ∷ sent_back w batch_id ran.1 last,
        )
  ]

  abbrev pub run_job : Servicer T F Layer → Job T → Servicer T F Layer × List (Effect T F)
  run_job w (on_input b x) = run_forward_stage w b (decode_in w b x)
  run_job w (on_label b l) = take_label w b l
  run_job w (on_gradient b g) = run_backward_stage w b (decode_grad w b g)

  -- A job with the generation in which it was submitted: _ensure_generation drops it after an init.
  unfoldable pub run_work : Servicer T F Layer → ℕ → Job T → Servicer T F Layer × List (Effect T F)
  run_work w generation job = if generation == w.generation then run_job w job else (w, [])

  -- The jobs of the pool, in their order.
  unfoldable pub run_works :
      Servicer T F Layer → List (ℕ × Job T) → Servicer T F Layer × List (Effect T F)
  unfolding run_work
  run_works w [] = (w, [])
  run_works w ((generation, job) ∷ works) =
      let ran = run_work w generation job in
      let rest = run_works ran.0 works in (rest.0, ran.1 ++ rest.1)
