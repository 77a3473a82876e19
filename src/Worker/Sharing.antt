-- ===== src/Worker/Sharing.antt =====
-- executors/worker.py, _optimize: three workers share a parameter, and the last one hands over first.
use torch_slicer.Common.{
  ℕ, zero, suc, ◌+◌, ◌≡◌, refl, false, true, Option, none, some, [], ◌∷◌, All, ok, arith,
}
use torch_slicer.Worker.TiedSync.{
  TiedRef, Copies, Optimizer, System, grad_or, finish_optimize, hand_all,
}
use torch_slicer.Worker.HandOver.{IsReplica}
use torch_slicer.Worker.Synced.{new_value, finish_optimize_lem}

abbrev descent : Optimizer ℕ ℕ
descent = record {
  zeros_like = λ v. 0;
  plus = λ a b. a + b;
  step = λ values grads g. values g + grad_or 0 (grads g);
  cleared = λ grads g. none;
}

abbrev worker : Option ℕ → TiedRef → Copies ℕ ℕ
worker grad ref = record {
  token = 5;
  tied = ref ∷ [];
  values = λ g. 100;
  grads = λ g. grad;
  inbox = λ g k. [];
}

abbrev replica : TiedRef
replica = record { group = 0; owner = false; stubs = 0 ∷ []; requires_grad = true }

abbrev three : System ℕ ℕ
three zero =
    worker (some 1) (record { group = 0; owner = true; stubs = 1 ∷ 2 ∷ []; requires_grad = true })
three (suc zero) = worker (some 20) replica
three (suc (suc k)) = worker none replica

first : IsReplica descent 0 0 7 three 1
first = record { others = []; tied = refl; token = refl; apart = λ e. absurd (omega arith) }

second : IsReplica descent 0 0 7 three 2
second = record { others = []; tied = refl; token = refl; apart = λ e. absurd (omega arith) }

finish_optimize_lem_example :
    (after : System ℕ ℕ) × (finish_optimize descent 0 7 (hand_all descent 7 (2 ∷ 1 ∷ []) three)
      ≡ ok after)
    × ((after 0).values 0 ≡ new_value descent 0 0 7 (1 ∷ 2 ∷ []) three (0 ∷ 20 ∷ []))
    × All
        (λ r. (after r).values 0 ≡ new_value descent 0 0 7 (1 ∷ 2 ∷ []) three (0 ∷ 20 ∷ []))
        (1 ∷ 2 ∷ [])
finish_optimize_lem_example =
    finish_optimize_lem descent 0 0 7 (1 ∷ 2 ∷ []) three (2 ∷ 1 ∷ []) refl refl refl
      (first, (second, tt)) (second, (first, tt)) (((λ e. absurd (omega arith)), tt), (tt, tt)) refl
