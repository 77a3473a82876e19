-- ===== src/Worker/Overlap/Examples.antt =====
-- executors/worker.py: two workers whose two micro-batches overlap.
use torch_slicer.Common.{ℕ, ◌==◌, true, false, none, [], ◌∷◌, if◌then◌else◌, ◌≡◌, refl}
use torch_slicer.Worker.Stages.{
  on_input, on_label, on_gradient, init, run_works, run_forward_stage, take_label,
  run_backward_stage, no_hooks, no_hooks-IsPlain,
}
use torch_slicer.Worker.Pipeline.{reports}
use torch_slicer.Worker.Pipeline.Backprop.{predict}
use torch_slicer.Worker.Overlap.Fed.{told}
use torch_slicer.Worker.SentBack.{dones}
use torch_slicer.Worker.Overlap.Swaps.{train_all}
use torch_slicer.Worker.Overlap.Runs.{Node, IsEnd, IsLink, layers_after, ran, IsOverlap-train_all}
use torch_slicer.Worker.Pipeline.Examples.{product_net, blank}

abbrev first_node : Node ℕ ℕ (ℕ × ℕ)
first_node = record {
  worker = init product_net false false 2 (2, 0) (blank 0);
  works =
      (1, on_input 6 4)
      ∷ (0, on_gradient 6 9)
      ∷ (1, on_input 7 7)
      ∷ (1, on_gradient 6 5)
      ∷ (1, on_gradient 7 5)
      ∷ [];
}

abbrev second_node : Node ℕ ℕ (ℕ × ℕ)
second_node = record {
  worker = init product_net true true 2 (5, 0) (blank 1);
  works = (2, on_label 6 1) ∷ (2, on_input 6 8) ∷ (2, on_input 7 14) ∷ (2, on_label 7 2) ∷ [];
}

abbrev main_of : ℕ → ℕ
main_of b = if b == 6 then 4 else 7

abbrev label_of : ℕ → ℕ
label_of b = if b == 6 then 1 else 2

linked : IsLink product_net no_hooks 2 first_node second_node
unfolding init run_works run_forward_stage take_label run_backward_stage
linked = record {
  inner = refl;
  micro = refl;
  next_prev = refl;
  in_sequence = (refl, (λ e. absurd (cc)), (refl, (λ e. refl), tt));
  passed_on = refl;
  backward = refl;
}

end : IsEnd 2 3 (6 ∷ 7 ∷ []) label_of second_node
unfolding init
end = record {
  last = refl;
  micro = refl;
  no_output = λ b. refl;
  no_label = λ b. refl;
  no_loss = refl;
  fed = (
    refl,
    (λ e. absurd (cc)),
    (refl, (λ e f. absurd (cc)), (refl, (λ e. absurd (cc)), (refl, (λ e f. refl), tt))),
  );
  labelled = (refl, (refl, tt));
  completes = refl;
}

IsOverlap-train_all_example :
    (layers_after product_net no_hooks (first_node ∷ second_node ∷ [])
      ≡ train_all product_net 2 label_of main_of ((2, 0) ∷ (5, 0) ∷ []) (6 ∷ 7 ∷ []))
    × (reports (ran product_net no_hooks second_node).1
        ≡ told product_net 2 true
            (λ b. predict product_net ((2, 0) ∷ (5, 0) ∷ []) (main_of b))
            label_of
            none
            (6 ∷ 7 ∷ []))
    × (dones (ran product_net no_hooks first_node).1 ≡ 7 ∷ [])
unfolding init
IsOverlap-train_all_example =
    IsOverlap-train_all product_net no_hooks no_hooks-IsPlain (λ y out x g z. refl)
      (λ n y out x l z. refl) 2 3 (6 ∷ 7 ∷ []) main_of label_of first_node (second_node ∷ [])
      ((λ e. absurd (cc)), ((λ e. refl), tt)) (linked, end) (refl, (refl, tt))
