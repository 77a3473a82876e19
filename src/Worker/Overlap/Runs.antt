-- ===== src/Worker/Overlap/Runs.antt =====
-- executors/worker.py: a pipeline of workers through which micro-batches go at the same time.
use torch_slicer.Common.{
  ℕ, true, false, none, List, [], ◌∷◌, map, All, if◌then◌else◌, ◌≡◌, refl, sym, ap, ap₂, ◌∙◌, subst,
}
use torch_slicer.Worker.Stages.{
  Network, Hooks, no_hooks, IsPlain, IsPlain-eq, Servicer, Effect, Job, run_works,
}
use torch_slicer.Worker.Pipeline.{to_next, to_prev, reports}
use torch_slicer.Worker.Pipeline.Backprop.{predict}
use torch_slicer.Worker.Overlap.Streams.{
  live, inputs, gradients, IsServed, AreOf, AddsUp, activations, answers, finals, ids,
}
use torch_slicer.Worker.SentBack.{dones}
use torch_slicer.Worker.Overlap.Served.{run_works-Streams}
use torch_slicer.Worker.Overlap.Fed.{completed, given, IsFed, LossAddsUp, told, Losses}
use torch_slicer.Worker.Overlap.Losses.{run_works-Losses}
use torch_slicer.Worker.Overlap.Swaps.{EndsLast, train_all, outer, outer-train_all, ids-outer}

-- A worker with the jobs that its pool runs, in their order.
pub record Node (T F Layer : Type 0) : Type 0 where
  pub worker : Servicer T F Layer
  pub works : List (ℕ × Job T)

module _ {T F Layer : Type 0} where
  abbrev pub jobs : Node T F Layer → List (Job T)
  jobs r = live r.worker.generation r.works

  abbrev pub end_node : Node T F Layer → List (Node T F Layer) → Node T F Layer
  end_node r [] = r
  end_node r (q ∷ rs) = end_node q rs

  abbrev pub layers_before : List (Node T F Layer) → List Layer
  layers_before rs = map (λ r. r.worker.layer) rs

  module _ (n batch : ℕ) (bs : List ℕ) (ls : ℕ → T) where
    -- The last worker holds nothing for the batch, and the micro-batches come to have both their activation
    -- and their label in the order `bs`.
    pub record IsEnd (r : Node T F Layer) : Type 0 where
      pub last : r.worker.is_last ≡ true
      pub micro : r.worker.n_micro ≡ n
      pub no_output : (b : ℕ) → r.worker.outputs b ≡ none
      pub no_label : (b : ℕ) → r.worker.labels b ≡ none
      pub no_loss : r.worker.micro_losses batch ≡ none
      pub fed : IsFed n batch (λ b. false) (λ b. false) (jobs r)
      pub labelled : AreOf ls (given (jobs r))
      pub completes : completed (λ b. false) (λ b. false) (jobs r) ≡ bs

module _ {T F Layer : Type 0} (net : Network T F Layer) (hooks : Hooks T Layer) where
  abbrev pub ran : Node T F Layer → Servicer T F Layer × List (Effect T F)
  ran r = run_works net hooks r.worker r.works

  abbrev pub layers_after : List (Node T F Layer) → List Layer
  layers_after rs = map (λ r. (ran r).0.layer) rs

  -- A worker and the next one: each message of one is a job of the other, in the order of their sending.
  pub record IsLink (n : ℕ) (r q : Node T F Layer) : Type 0 where
    pub inner : r.worker.is_last ≡ false
    pub micro : r.worker.n_micro ≡ n
    pub next_prev : q.worker.has_prev ≡ true
    pub in_sequence : IsServed n (λ b. false) (jobs r)
    pub passed_on : inputs (jobs q) ≡ to_next (ran r).1
    pub backward : gradients (jobs r) ≡ to_prev (ran q).1

  module _ (n batch : ℕ) (bs : List ℕ) (ls : ℕ → T) where
    abbrev pub IsOverlap : Node T F Layer → List (Node T F Layer) → Type 0
    IsOverlap r [] = IsEnd n batch bs ls r
    IsOverlap r (q ∷ rs) = IsLink n r q × IsOverlap q rs

module _ {T F Layer : Type 0} (net : Network T F Layer) where
  abbrev twice : List (Node T F Layer) → List (Layer × Layer)
  twice rs = map (λ r. (r.worker.layer, r.worker.layer)) rs

  now-twice : (rs : List (Node T F Layer)) → map (λ p. p.1) (twice rs) ≡ layers_before rs
  now-twice [] = refl
  now-twice (r ∷ rs) = ap (λ ys. r.worker.layer ∷ ys) (now-twice rs)

  twice-All :
      (rs : List (Node T F Layer))
      → All (λ (p : Layer × Layer). (z : T) → net.output p.1 z ≡ net.output p.0 z) (twice rs)
  twice-All [] = tt
  twice-All (r ∷ rs) = (λ z. refl, twice-All rs)

  module _ (n batch : ℕ) (bs : List ℕ) (ls : ℕ → T) where
    record Outcome (r : Node T F Layer) (rs : List (Node T F Layer)) (xs : ℕ → T) : Type 0 where
      head :
          (ran net no_hooks r).0.layer
          ≡ (outer net n ls (r.worker.layer, r.worker.layer) (twice rs) xs bs).0
      tail :
          layers_after net no_hooks rs
          ≡ (outer net n ls (r.worker.layer, r.worker.layer) (twice rs) xs bs).1
      back : to_prev (ran net no_hooks r).1 ≡ (
          if r.worker.has_prev
          then (outer net n ls (r.worker.layer, r.worker.layer) (twice rs) xs bs).2
          else [])
      done : dones (ran net no_hooks r).1 ≡ (if r.worker.has_prev then [] else finals n bs)
      heard :
          reports (ran net no_hooks (end_node r rs)).1
          ≡ told net n
              (end_node r rs).worker.has_prev
              (λ b. predict net (layers_before (r ∷ rs)) (xs b))
              ls
              none
              bs

    AreOf-activations :
        (y : Layer) (xs : ℕ → T) (ms : List (ℕ × T))
        → AreOf xs ms
        → AreOf (λ b. net.output y (xs b)) (activations net y ms)
    AreOf-activations y xs [] h = tt
    AreOf-activations y xs (m ∷ ms) h = (ap (net.output y) h.0, AreOf-activations y xs ms h.1)

    module _ (adds : AddsUp net) (loss_adds : LossAddsUp net) where
      end-Outcome :
          (r : Node T F Layer) (xs : ℕ → T)
          → IsEnd n batch bs ls r
          → AreOf xs (inputs (jobs r))
          → Outcome r [] xs
      end-Outcome r xs h own =
          let w = r.worker in
          let losses =
            run_works-Losses net batch xs ls w.layer loss_adds w r.works none h.last h.no_output
              h.no_label h.no_loss refl
              (subst (λ k. IsFed k batch (λ b. false) (λ b. false) (jobs r)) (sym h.micro) h.fed)
              own h.labelled in
          let shown =
            subst (λ k. Losses net k w.has_prev xs ls w.layer w.layer none bs (ran net no_hooks r))
              h.micro
              (subst
                (λ cs.
                  Losses net w.n_micro w.has_prev xs ls w.layer w.layer none cs
                    (ran net no_hooks r))
                h.completes losses) in
          record {
            head = shown.remains;
            tail = refl;
            back = shown.back;
            done = shown.done;
            heard = shown.heard;
          }

      link-Outcome :
          (r q : Node T F Layer) (rs : List (Node T F Layer)) (xs : ℕ → T)
          → IsLink net no_hooks n r q
          → AreOf xs (inputs (jobs r))
          → Outcome q rs (λ b. net.output r.worker.layer (xs b))
          → Outcome r (q ∷ rs) xs
      link-Outcome r q rs xs h own o =
          let w = r.worker in
          let s =
            run_works-Streams net adds xs w r.works h.inner
              (subst (λ k. IsServed k (λ b. false) (jobs r)) (sym h.micro) h.in_sequence) own in
          let rest =
            outer net n ls (q.worker.layer, q.worker.layer) (twice rs)
              (λ b. net.output w.layer (xs b)) bs in
          let came : gradients (jobs r) ≡ rest.2 =
            h.backward ∙ o.back ∙ ap (λ t. if t then rest.2 else []) h.next_prev in
          let same = ap₂ (λ k gs. answers net k xs w.layer w.layer gs) h.micro came in
          record {
            head = s.remains ∙ ap (λ a. a.0) same;
            tail = ap₂ (λ y ys. y ∷ ys) o.head o.tail;
            back = s.sent_before ∙ ap (λ a. if w.has_prev then a.1 else []) same;
            done =
                s.done
                ∙ ap₂ (λ k cs. if w.has_prev then [] else finals k cs) h.micro
                    (ap ids came
                      ∙ ids-outer net n ls (q.worker.layer, q.worker.layer) (twice rs)
                          (λ b. net.output w.layer (xs b)) bs);
            heard = o.heard;
          }

      overlap-Outcome :
          (r : Node T F Layer) (rs : List (Node T F Layer)) (xs : ℕ → T)
          → IsOverlap net no_hooks n batch bs ls r rs
          → AreOf xs (inputs (jobs r))
          → Outcome r rs xs
      overlap-Outcome r [] xs h own = end-Outcome r xs h own
      overlap-Outcome r (q ∷ rs) xs h own =
          let w = r.worker in
          let s =
            run_works-Streams net adds xs w r.works h.0.inner
              (subst (λ k. IsServed k (λ b. false) (jobs r)) (sym h.0.micro) h.0.in_sequence) own in
          link-Outcome r q rs xs h.0 own (
            overlap-Outcome q rs (λ b. net.output w.layer (xs b)) h.1
              (subst (AreOf (λ b. net.output w.layer (xs b))) (sym (h.0.passed_on ∙ s.sent_on))
                (AreOf-activations w.layer xs (inputs (jobs r)) own)))

  -- What is said of a pipeline's run.
  abbrev pub Trains : Hooks T Layer → Type 0
  Trains hooks =
      (n batch : ℕ) (bs : List ℕ) (xs ls : ℕ → T) (r : Node T F Layer) (rs : List (Node T F Layer))
      → EndsLast n bs
      → IsOverlap net hooks n batch bs ls r rs
      → AreOf xs (inputs (jobs r))
      → (layers_after net hooks (r ∷ rs) ≡ train_all net n ls xs (layers_before (r ∷ rs)) bs)
        × (reports (ran net hooks (end_node r rs)).1
            ≡ told net n (end_node r rs).worker.has_prev
                (λ b. predict net (layers_before (r ∷ rs)) (xs b)) ls none bs)
        × (dones (ran net hooks r).1 ≡ (if r.worker.has_prev then [] else finals n bs))

  plain-Trains : AddsUp net → LossAddsUp net → Trains no_hooks
  plain-Trains adds loss_adds n batch bs xs ls r rs ends_last run own =
      let o = overlap-Outcome n batch bs ls adds loss_adds r rs xs run own in
      let y = r.worker.layer in
      (
        ap₂ (λ y ys. y ∷ ys) o.head o.tail
            ∙ outer-train_all net n ls adds loss_adds bs (y, y) (twice rs) xs ends_last
                (λ some_. (λ z. refl, twice-All rs))
            ∙ ap (λ ys. train_all net n ls xs (y ∷ ys) bs) (now-twice rs),
        o.heard,
        o.done,
      )

  -- Micro-batches go through a pipeline at the same time. In whatever order each worker's pool gets its
  -- jobs, and with jobs of earlier generations among them, the workers' layers end as if the whole model
  -- were trained on one micro-batch after the other, with the step of the optimizer after the last; and if
  -- the last micro-batch is among them the last worker reports the average loss of the model's outputs once,
  -- and the first worker, if it has none before it, says once that the batch is done. The conditions are
  -- that no cut has a hook, no layer has an auxiliary loss of a mixture of experts and no parameter is tied
  -- across workers; that each worker's messages reach the next one, and its gradients the one before, in the
  -- order of their sending; that a gradient comes after its activation; that the micro-batches come to have
  -- both activation and label in their order, with the last one at the end, after all activations; that the
  -- last worker holds nothing yet; and that adding gradients up does not change what a layer computes.
  pub IsOverlap-train_all :
      (hooks : Hooks T Layer)
      → IsPlain hooks
      → AddsUp net
      → LossAddsUp net
      → (n batch : ℕ) (bs : List ℕ) (xs ls : ℕ → T) (r : Node T F Layer)
        (rs : List (Node T F Layer))
      → EndsLast n bs
      → IsOverlap net hooks n batch bs ls r rs
      → AreOf xs (inputs (jobs r))
      → (layers_after net hooks (r ∷ rs) ≡ train_all net n ls xs (layers_before (r ∷ rs)) bs)
        × (reports (ran net hooks (end_node r rs)).1
            ≡ told net n
                (end_node r rs).worker.has_prev
                (λ b. predict net (layers_before (r ∷ rs)) (xs b))
                ls
                none
                bs)
        × (dones (ran net hooks r).1 ≡ (if r.worker.has_prev then [] else finals n bs))
  IsOverlap-train_all hooks plain adds loss_adds =
      subst Trains (sym (IsPlain-eq hooks plain)) (plain-Trains adds loss_adds)
