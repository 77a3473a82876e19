-- ===== src/Worker/Pipeline/Examples.antt =====
-- executors/distributed.py and worker.py: three workers, and a batch of two micro-batches.
use torch_slicer.Common.{
  ℕ, ◌+◌, ◌*◌, ◌/◌, ◌%◌, ◌==◌, Bool, true, false, none, some, List, [], ◌∷◌, ◌≡◌, refl,
}
use torch_slicer.Worker.Stages.{
  Network, Servicer, init, run_works, run_forward_stage, take_label, run_backward_stage,
  report_metrics, batch_done, no_hooks,
}
use torch_slicer.Worker.Pipeline.{send_batch}
use torch_slicer.Worker.Pipeline.Chains.{layers}

-- A layer is a weight and its gradient: it multiplies by the weight.
abbrev pub product_net : Network ℕ ℕ (ℕ × ℕ)
product_net = record {
  output = λ y x. y.0 * x;
  loss = λ out l. out + l;
  no_loss = 0;
  add_loss = λ a b. a + b;
  divide = λ a n. a / n;
  backward_loss = λ n last y out x l. ((y.0, y.1 + x), y.0);
  backward_grad = λ last y out x g. ((y.0, y.1 + g * x), g * y.0);
  optimize = λ b y. (y.0 + y.1, 0);
}

abbrev pub blank : ℕ → Servicer ℕ ℕ (ℕ × ℕ)
blank g = record {
  generation = g;
  is_last = false;
  has_prev = false;
  n_micro = 1;
  layer = (0, 0);
  labels = λ b. some 1;
  outputs = λ b. none;
  micro_losses = λ b. some 4;
}

abbrev pipeline : List (Servicer ℕ ℕ (ℕ × ℕ))
pipeline =
    init product_net false false 2 (2, 0) (blank 0)
    ∷ init product_net false true 2 (3, 0) (blank 4)
    ∷ init product_net true true 2 (5, 0) (blank 1)
    ∷ []

-- torch's chunk, as far as these batches need it
abbrev halves : ℕ → ℕ → List ℕ
halves n x = x / 10 ∷ x % 10 ∷ []

abbrev odd_first : ℕ → Bool
odd_first b = b % 2 == 1

told_once :
    (send_batch product_net no_hooks halves odd_first 2 3 47 12 pipeline).heard
    ≡ report_metrics 7 166 ∷ batch_done 7 ∷ []
unfolding send_batch init run_works run_forward_stage take_label run_backward_stage
told_once = refl

after_one_step :
    layers (send_batch product_net no_hooks halves odd_first 2 3 47 12 pipeline).pipeline
    ≡ (2 + 165, 0) ∷ (3 + 110, 0) ∷ (5 + 66, 0) ∷ []
unfolding send_batch init run_works run_forward_stage take_label run_backward_stage
after_one_step = refl

-- Three rows that torch cuts into one part less than asked for: the last micro-batch fails, after its label
-- or before it.
abbrev too_few : ℕ → ℕ → List ℕ
too_few n x = x ∷ []

index_error :
    (send_batch product_net no_hooks too_few odd_first 2 3 47 12 pipeline).complete ≡ false
unfolding send_batch init run_works run_forward_stage take_label run_backward_stage
index_error = refl
