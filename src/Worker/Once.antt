-- ===== src/Worker/Once.antt =====
-- executors/worker.py: inputs and labels at the last slice, in whatever order.
use torch_slicer.Common.{
  ℕ, ◌+◌, ◌==◌, ==_iff, Bool, true, false, Option, none, some, List, [], ◌∷◌, ◌++◌, ◌≡◌, refl, sym,
  ap, ap₂, ◌∙◌, subst, inl, inr, Bool-cases, arith,
}
use torch_slicer.Worker.Stages.{
  Network, Hooks, IsPlain, IsPlain-eq, Servicer, Job, on_input, on_label, on_gradient, init,
  run_forward_stage, take_label, run_job, run_work, run_works, no_hooks,
}
use torch_slicer.Worker.Pairs.{
  input_of, label_of, AreSingle, paired, losses_of, losses_of-append, Fits, expected,
}
use torch_slicer.Worker.Meets.{
  Moved, forward-other, label-other, forward-kept, forward-met, label-kept, label-met,
}
use torch_slicer.Worker.Overlap.Streams.{live, run_jobs}
use torch_slicer.Worker.Overlap.Live.{run_works-live}

flip_eq : (b c : ℕ) → (c == b) ≡ false → (b == c) ≡ false
flip_eq b c e = ground arith

module _ {T F Layer : Type 0} (net : Network T F Layer) where
  -- What is to be shown of some jobs, from any state of the worker.
  abbrev Claim : ℕ → List (ℕ × Job T) → Type 0
  Claim g works =
      (w : Servicer T F Layer) (b : ℕ) (o : Option (T × T)) (l : Option T)
      → w.generation ≡ g
      → w.is_last ≡ true
      → AreSingle g works
      → w.outputs b ≡ o
      → w.labels b ≡ l
      → Fits o l (input_of g b works) (label_of g b works)
      → losses_of b (run_works net no_hooks w works).1
        ≡ expected o l (input_of g b works) (label_of g b works)

  module _ (g : ℕ) (works : List (ℕ × Job T)) (ih : Claim g works) (single : AreSingle g works)
      (w : Servicer T F Layer) (at_g : w.generation ≡ g) (last : w.is_last ≡ true) where
    -- The first job is done, and the others follow.
    follow :
        (k b : ℕ) (job : Job T) (o : Option (T × T)) (l : Option T) (pairs : List (T × T))
        → (k == w.generation) ≡ true
        → Moved net w (run_job net no_hooks w job) b o l pairs
        → Fits o l (input_of g b works) (label_of g b works)
        → losses_of b (run_works net no_hooks w ((k, job) ∷ works)).1
          ≡ pairs ++ expected o l (input_of g b works) (label_of g b works)
    unfolding run_works run_work
    follow k b job o l pairs now m fits = rw now (
        losses_of-append b (run_job net no_hooks w job).1
          (run_works net no_hooks (run_job net no_hooks w job).0 works).1
        ∙ ap₂ (λ xs ys. xs ++ ys) m.losses
            (ih (run_job net no_hooks w job).0 b o l (m.generation ∙ at_g) (m.is_last ∙ last) single
              m.outputs m.labels fits))

    stale :
        (k b : ℕ) (job : Job T)
        → (k == w.generation) ≡ false
        → losses_of b (run_works net no_hooks w ((k, job) ∷ works)).1
          ≡ losses_of b (run_works net no_hooks w works).1
    unfolding run_works run_work
    stale k b job old = rw old refl

    input-same :
        (k c : ℕ) (x : T) (o : Option (T × T)) (l : Option T)
        → (k == w.generation) ≡ true
        → w.outputs c ≡ o
        → w.labels c ≡ l
        → input_of g c works ≡ none
        → Fits o l (some x) (label_of g c works)
        → losses_of c (run_works net no_hooks w ((k, on_input c x) ∷ works)).1
          ≡ expected o l (some x) (label_of g c works)
    input-same k c x none none now eo el alone fits =
        follow k c (on_input c x) (some (net.output w.layer x, x)) none [] now
          (forward-kept net w last c x el) alone
    input-same k c x none (some q) now eo el alone fits =
        follow k c (on_input c x) none none ((x, q) ∷ []) now
          (subst (λ v. Moved net w (run_forward_stage net no_hooks w c x) c v none ((x, q) ∷ [])) eo
            (forward-met net w last c x q el))
          tt
        ∙ ap (λ i. (x, q) ∷ paired i (label_of g c works)) alone
    input-same k c x (some p) none now eo el alone fits = absurd (cc)
    input-same k c x (some p) (some q) now eo el alone fits = absurd fits

    label-same :
        (k c : ℕ) (q : T) (o : Option (T × T)) (l : Option T)
        → (k == w.generation) ≡ true
        → w.outputs c ≡ o
        → w.labels c ≡ l
        → label_of g c works ≡ none
        → Fits o l (input_of g c works) (some q)
        → losses_of c (run_works net no_hooks w ((k, on_label c q) ∷ works)).1
          ≡ expected o l (input_of g c works) (some q)
    label-same k c q none none now eo el alone fits =
        follow k c (on_label c q) none (some q) [] now (label-kept net w last c q eo) alone
    label-same k c q (some (out, x)) none now eo el alone fits =
        follow k c (on_label c q) none none ((x, q) ∷ []) now
          (subst (λ v. Moved net w (take_label net no_hooks w c q) c none v ((x, q) ∷ [])) el
            (label-met net w last c out x q eo))
          tt
        ∙ ap (λ i. (x, q) ∷ paired i (label_of g c works)) fits
    label-same k c q none (some r) now eo el alone fits = absurd (cc)
    label-same k c q (some p) (some r) now eo el alone fits = absurd fits

    other :
        (k b : ℕ) (job : Job T) (o : Option (T × T)) (l : Option T)
        → (k == w.generation) ≡ true
        → Moved net w (run_job net no_hooks w job) b (w.outputs b) (w.labels b) []
        → w.outputs b ≡ o
        → w.labels b ≡ l
        → Fits o l (input_of g b works) (label_of g b works)
        → losses_of b (run_works net no_hooks w ((k, job) ∷ works)).1
          ≡ expected o l (input_of g b works) (label_of g b works)
    other k b job o l now m eo el fits =
        follow k b job o l [] now
          (subst (λ v. Moved net w (run_job net no_hooks w job) b v l []) eo
            (subst (λ v. Moved net w (run_job net no_hooks w job) b (w.outputs b) v []) el m))
          fits

  run-none :
      (w : Servicer T F Layer) (b : ℕ) (o : Option (T × T)) (l : Option T)
      → losses_of b (run_works net no_hooks w []).1 ≡ expected o l none none
  unfolding run_works
  run-none w b none none = refl
  run-none w b (some p) none = refl
  run-none w b none (some q) = refl
  run-none w b (some p) (some q) = refl

  -- The values that `Fits` and `expected` are about may be replaced by equal ones.
  replaced :
      {X : List (T × T)}
      → (o : Option (T × T)) (l i i2 j j2 : Option T) → i ≡ i2
      → j ≡ j2
      → (Fits o l i2 j2 → X ≡ expected o l i2 j2)
      → Fits o l i j
      → X ≡ expected o l i j
  replaced o l i i2 j j2 e f goes fits =
      goes (subst (λ v. Fits o l i2 v) f (subst (λ v. Fits o l v j) e fits))
      ∙ ap₂ (λ v u. expected o l v u) (sym e) (sym f)

  run-losses : (g : ℕ) (works : List (ℕ × Job T)) → Claim g works
  run-losses g [] w b o l at_g last single eo el fits = run-none w b o l
  run-losses g ((k, on_input c x) ∷ works) w b o l at_g last single eo el fits =
      let ih = run-losses g works in
      let j = label_of g b works in
      elim (Bool-cases (k == g)) [
        | inr old ↦
            replaced o l _ (input_of g b works) j j (rw old refl) refl
              (λ f.
                stale g works ih single.1 w at_g last k b (on_input c x) (rw at_g old)
                ∙ ih w b o l at_g last single.1 eo el f)
              fits
        | inl now ↦ elim (Bool-cases (c == b)) [
          | inr apart ↦
              replaced o l _ (input_of g b works) j j (rw now (rw apart refl)) refl
                (other g works ih single.1 w at_g last k b (on_input c x) o l (rw at_g now)
                  (forward-other net w last b c x (flip_eq b c apart) apart) eo el)
                fits
          | inl same ↦
              let here = (==_iff c b).0 same in
              replaced o l _ (some x) j (label_of g c works) (rw now (rw same refl))
                (ap (λ d. label_of g d works) (sym here))
                (λ f.
                  ap (λ d. losses_of d (run_works net no_hooks w ((k, on_input c x) ∷ works)).1)
                    (sym here)
                  ∙ input-same g works ih single.1 w at_g last k c x o l (rw at_g now)
                      (ap w.outputs here ∙ eo) (ap w.labels here ∙ el)
                      (single.0 ((==_iff k g).0 now)) f)
                fits
        ]
      ]
  run-losses g ((k, on_label c q) ∷ works) w b o l at_g last single eo el fits =
      let ih = run-losses g works in
      let i = input_of g b works in
      elim (Bool-cases (k == g)) [
        | inr old ↦
            replaced o l i i _ (label_of g b works) refl (rw old refl)
              (λ f.
                stale g works ih single.1 w at_g last k b (on_label c q) (rw at_g old)
                ∙ ih w b o l at_g last single.1 eo el f)
              fits
        | inl now ↦ elim (Bool-cases (c == b)) [
          | inr apart ↦
              replaced o l i i _ (label_of g b works) refl (rw now (rw apart refl))
                (other g works ih single.1 w at_g last k b (on_label c q) o l (rw at_g now)
                  (label-other net w last b c q (flip_eq b c apart) apart) eo el)
                fits
          | inl same ↦
              let here = (==_iff c b).0 same in
              replaced o l i (input_of g c works) _ (some q)
                (ap (λ d. input_of g d works) (sym here)) (rw now (rw same refl))
                (λ f.
                  ap (λ d. losses_of d (run_works net no_hooks w ((k, on_label c q) ∷ works)).1)
                    (sym here)
                  ∙ label-same g works ih single.1 w at_g last k c q o l (rw at_g now)
                      (ap w.outputs here ∙ eo) (ap w.labels here ∙ el)
                      (single.0 ((==_iff k g).0 now)) f)
                fits
        ]
      ]
  run-losses g ((k, on_gradient c q) ∷ works) w b o l at_g last single eo el fits =
      elim (Bool-cases (k == g)) [
        | inl now ↦ absurd (single.0 ((==_iff k g).0 now))
        | inr old ↦
            let ih = run-losses g works in
            stale g works ih single.1 w at_g last k b (on_gradient c q) (rw at_g old)
            ∙ ih w b o l at_g last single.1 eo el fits
      ]

  -- What is said of the jobs after an init.
  abbrev Once : Hooks T Layer → Type 0
  Once hooks =
      (before : Servicer T F Layer) (has_prev : Bool) (n_micro : ℕ) (layer : Layer)
      (works : List (ℕ × Job T)) (b : ℕ)
      → AreSingle (before.generation + 1) works
      → (let start = init net true has_prev n_micro layer before in
          (losses_of b (run_works net hooks start works).1
            ≡ paired (input_of (before.generation + 1) b works)
                (label_of (before.generation + 1) b works))
          × (run_works net hooks start works
              ≡ run_jobs net hooks start (live (before.generation + 1) works)))

  plain-Once : Once no_hooks
  unfolding init
  plain-Once before has_prev n_micro layer works b single =
      let start = init net true has_prev n_micro layer before in
      (
        run-losses (before.generation + 1) works start b none none refl refl single refl refl tt,
        run_works-live net works start,
      )

  -- After an init of the last slice, whatever came before it, the loss of a batch goes backward on the
  -- batch's own input and label, once, if both come in the new generation, in whichever order and among
  -- whatever other jobs, and if one of them is missing it never does; and jobs that were submitted in
  -- another generation change nothing, as the worker's state and all its effects are those of a run of the
  -- new generation's jobs only. The conditions are that no batch has two inputs or two labels in this
  -- generation, that the last slice is sent no gradients, and that no cut has a hook, no layer an
  -- auxiliary loss and no parameter is tied across workers. Each job is run as a whole.
  pub run_works-losses :
      (hooks : Hooks T Layer)
      → IsPlain hooks
      → (before : Servicer T F Layer) (has_prev : Bool) (n_micro : ℕ) (layer : Layer)
        (works : List (ℕ × Job T)) (b : ℕ)
      → AreSingle (before.generation + 1) works
      → (let start = init net true has_prev n_micro layer before in
          (losses_of b (run_works net hooks start works).1
            ≡ paired
                (input_of (before.generation + 1) b works)
                (label_of (before.generation + 1) b works))
          × (run_works net hooks start works
              ≡ run_jobs net hooks start (live (before.generation + 1) works)))
  run_works-losses hooks plain = subst Once (sym (IsPlain-eq hooks plain)) plain-Once
