-- ===== src/Worker/Rounds.antt =====
-- executors/worker.py: three batches at the last slice, one of them without its input.
use torch_slicer.Common.{
  ℕ, suc, ◌+◌, ◌*◌, ◌/◌, ◌≡◌, refl, arith, true, none, List, [], ◌∷◌, some, Option, false,
}
use torch_slicer.Worker.Stages.{
  Network, Servicer, Job, on_input, on_label, init, run_works, no_hooks, no_hooks-IsPlain, WireHook,
  Hooks, run_work, run_forward_stage, run_backward_stage, on_gradient, send_forward, grad_backward,
  send_backward,
}
use torch_slicer.Worker.Overlap.Streams.{live, run_jobs}
use torch_slicer.Worker.Pairs.{losses_of}
use torch_slicer.Worker.Once.{run_works-losses}

-- Layers that multiply by a number; it grows by one with each step of the optimizer.
abbrev scale : Network ℕ ℕ ℕ
scale = record {
  output = λ layer x. layer * x;
  loss = λ out l. out + l;
  no_loss = 0;
  add_loss = λ a b. a + b;
  divide = λ a n. a / n;
  backward_loss = λ n last layer out x l. (layer, x);
  backward_grad = λ last layer out x g. (layer, g);
  optimize = λ b layer. suc layer;
}

abbrev used : Servicer ℕ ℕ ℕ
used = record {
  generation = 3;
  is_last = true;
  has_prev = true;
  n_micro = 2;
  layer = 8;
  labels = λ b. none;
  outputs = λ b. none;
  micro_losses = λ b. none;
}

abbrev works : List (ℕ × Job ℕ)
works =
    (3, on_input 0 99)
    ∷ (4, on_label 1 50)
    ∷ (4, on_input 0 10)
    ∷ (4, on_label 2 7)
    ∷ (4, on_input 1 11)
    ∷ (4, on_label 0 60)
    ∷ []

old : ◌≡◌ {A = ℕ} 3 4 → ◌≡◌ {A = Option ℕ} (some 10) none
old e = absurd (omega arith)

run_works-losses_example :
    (losses_of 1 (run_works scale no_hooks (init scale true true 2 5 used) works).1 ≡ (11, 50) ∷ [])
    × (run_works scale no_hooks (init scale true true 2 5 used) works
        ≡ run_jobs scale no_hooks (init scale true true 2 5 used) (live 4 works))
run_works-losses_example =
    run_works-losses scale no_hooks no_hooks-IsPlain used true 2 5 works 1
      (old, (λ e. refl, (λ e. refl, (λ e. refl, (λ e. refl, (λ e. refl, tt))))))

-- A hook that sends twice a tensor, at both cuts of a worker in the middle.
abbrev doubled : WireHook ℕ
doubled = record {
  encode = λ b t. 2 * t;
  decode = λ b t. t / 2;
  encode_grad = λ b t. 2 * t;
  decode_grad = λ b t. t / 2;
}

abbrev hooked : Hooks ℕ ℕ
hooked = record {
  at_input = λ y. some doubled;
  at_output = λ y. some doubled;
  note = λ y x. y;
  tied = λ y. none;
}

abbrev middle : Servicer ℕ ℕ ℕ
middle = init scale false true 1 5 used

-- 6 arrives as 3, of which 5 times 3 is sent as 30; the gradient 8 arrives as 4 and is sent as 8.
both_ways :
    (run_works scale hooked middle ((4, on_input 0 6) ∷ (4, on_gradient 0 8) ∷ [])).1
    ≡ send_forward 0 30 ∷ grad_backward 0 15 3 4 ∷ send_backward 0 8 ∷ []
unfolding run_works init run_work run_forward_stage run_backward_stage
both_ways = refl
