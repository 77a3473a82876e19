-- ===== src/Worker/Overlap/Feeding.antt =====
-- executors/worker.py: what holds at the last worker between two jobs, and what each job makes of it.
use torch_slicer.Common.{
  ℕ, ◌==◌, ==_iff, ==_refl, Bool, true, false, ◌||◌, not, Option, none, some, List, [], ◌∷◌, ◌++◌,
  is_nil, if◌then◌else◌, ◌≡◌, sym, ap, ap₂, ◌∙◌, inl, inr, Bool-cases, arith,
}
use torch_slicer.Worker.Stages.{
  Network, Servicer, Effect, Dict, with_key, is_last_micro, full_batch, optimized, Job,
  run_backward_last, report_metrics, batch_done, no_hooks,
}
use torch_slicer.Worker.SentBack.{
  to_prev-effects, reports-effects, dones-effects, dones, dones-append,
}
use torch_slicer.Worker.Pipeline.{to_prev, reports}
use torch_slicer.Worker.Overlap.Streams.{
  inputs, mark, run_jobs, to_prev-append, joined_gradients, reports-append, joined_finals,
}
use torch_slicer.Worker.Overlap.Fed.{LossAddsUp, added, Losses}

-- A dictionary has the values of `f` at the keys in `held`.
abbrev pub Holds : {A : Type 0} → Dict A → (ℕ → Bool) → (ℕ → A) → Type 0
Holds d held f = (c : ℕ) → d c ≡ (if held c then some (f c) else none)

pub Holds-put :
    {A : Type 0}
    → (d : Dict A) (held : ℕ → Bool) (f : ℕ → A) (b : ℕ) (t : Bool) → Holds d held f
    → Holds (with_key d b (if t then some (f b) else none)) (mark held b t) f
Holds-put d held f b t h c = elim (Bool-cases (c == b)) [
  | inl e ↦ rw e (ap (λ k. if t then some (f k) else none) (sym ((==_iff c b).0 e)))
  | inr e ↦ rw e (h c)
]

pub Holds-kept :
    {A : Type 0}
    → (d : Dict A) (held : ℕ → Bool) (f : ℕ → A) (b : ℕ) (t : Bool) → t ≡ held b
    → Holds d held f
    → Holds d (mark held b t) f
Holds-kept d held f b t same h c = elim (Bool-cases (c == b)) [
  | inl e ↦
      rw e (h c ∙ ap (λ q. if q then some (f c) else none) (ap held ((==_iff c b).0 e) ∙ sym same))
  | inr e ↦ rw e (h c)
]

pub or_not-true : (p q : Bool) → q ≡ true → (p || not q) ≡ p
or_not-true p q e = ground arith

pub or_not-false : (p q : Bool) → q ≡ false → (p || not q) ≡ true
or_not-false p q e = ground arith

module _ {T F Layer : Type 0} (net : Network T F Layer) (batch : ℕ) (xs ls : ℕ → T)
    (first : Layer) where
  -- The outputs that are cached.
  abbrev pub outs : ℕ → T × T
  outs b = (net.output first (xs b), xs b)

  pub record Feeding (ins labs : ℕ → Bool) (o : Option F) (js : List (Job T))
      (w : Servicer T F Layer) : Type 0 where
    pub last : w.is_last ≡ true
    pub cached : Holds w.outputs ins outs
    pub labelled : Holds w.labels labs ls
    pub sums : w.micro_losses batch ≡ o
    pub same : is_nil (inputs js) ≡ false → (z : T) → net.output w.layer z ≡ net.output first z

  -- A loss goes backward.
  abbrev pub lost : Servicer T F Layer → ℕ → Servicer T F Layer × List (Effect T F)
  lost v b = run_backward_last net no_hooks v b (net.output first (xs b)) (xs b) (ls b)

  module _ (v : Servicer T F Layer) (b : ℕ) where
    abbrev pub last_one : Bool
    last_one = is_last_micro v.n_micro b

    abbrev pub ran : Layer × T
    ran = net.backward_loss v.n_micro last_one v.layer (net.output first (xs b)) (xs b) (ls b)

    abbrev pub sum : Option F → F
    sum o = added net (λ c. net.output first (xs c)) ls o b

    pub lost-back : to_prev (lost v b).1 ≡ (if v.has_prev then (b, ran.1) ∷ [] else [])
    unfolding run_backward_last
    lost-back = to_prev-effects F v.has_prev last_one _ _ _ _ _ _

    pub lost-heard :
        (o : Option F)
        → v.micro_losses (full_batch v.n_micro b) ≡ o
        → reports (lost v b).1
          ≡ (if last_one then report_metrics b (net.divide (sum o) v.n_micro) ∷ [] else [])
            ++ (if v.has_prev then [] else if last_one then batch_done b ∷ [] else [])
    unfolding run_backward_last
    lost-heard o e =
        reports-effects F v.has_prev last_one _ _ _ _ _ _
        ∙ ap
            (λ u.
              (if last_one then report_metrics b (net.divide (sum u) v.n_micro) ∷ [] else [])
              ++ (if v.has_prev then [] else if last_one then batch_done b ∷ [] else []))
            e

    lost-done : dones (lost v b).1 ≡ (if v.has_prev then [] else if last_one then b ∷ [] else [])
    unfolding run_backward_last
    lost-done = dones-effects F v.has_prev last_one _ _ _ _ _ _

    lost-sums :
        (o : Option F)
        → full_batch v.n_micro b ≡ batch
        → v.micro_losses batch ≡ o
        → (lost v b).0.micro_losses batch ≡ (if last_one then none else some (sum o))
    unfolding run_backward_last
    lost-sums o whole e =
        ap
          (λ k.
            with_key v.micro_losses k (if last_one then none else some (sum (v.micro_losses k)))
              batch)
          whole
        ∙ rw (==_refl batch) (ap (λ u. if last_one then none else some (sum u)) e)

    pub lost-Feeding :
        (ins labs : ℕ → Bool) (o : Option F) (js : List (Job T))
        → LossAddsUp net
        → full_batch v.n_micro b ≡ batch
        → (last_one ≡ true → is_nil (inputs js) ≡ true)
        → v.is_last ≡ true
        → Holds v.outputs ins outs
        → Holds v.labels labs ls
        → v.micro_losses batch ≡ o
        → (is_nil (inputs js) ≡ false → (z : T) → net.output v.layer z ≡ net.output first z)
        → Feeding ins labs (if last_one then none else some (sum o)) js (lost v b).0
    unfolding run_backward_last
    lost-Feeding ins labs o js adds whole over last cached labelled sums same = record {
      last = last;
      cached = cached;
      labelled = labelled;
      sums = lost-sums o whole sums;
      same = λ more z. elim (Bool-cases last_one) [
        | inl e ↦ let none_ = over e in absurd (cc)
        | inr e ↦
            rw e (adds v.n_micro v.layer (net.output first (xs b)) (xs b) (ls b) z ∙ same more z)
      ];
    }

    pub lost-Losses :
        (o : Option F) (bs : List ℕ) (js : List (Job T))
        → full_batch v.n_micro b ≡ batch
        → v.micro_losses batch ≡ o
        → Losses net v.n_micro v.has_prev xs ls first
            (optimized net no_hooks last_one b ran.0)
            (if last_one then none else some (sum o))
            bs
            (run_jobs net no_hooks (lost v b).0 js)
        → Losses net v.n_micro v.has_prev xs ls first v.layer o (b ∷ bs) (
          (run_jobs net no_hooks (lost v b).0 js).0,
          (lost v b).1 ++ (run_jobs net no_hooks (lost v b).0 js).1,
        )
    lost-Losses o bs js whole sums rest = record {
      back =
          to_prev-append (lost v b).1 (run_jobs net no_hooks (lost v b).0 js).1
          ∙ ap₂ (λ ms rs. ms ++ rs) lost-back rest.back
          ∙ joined_gradients v.has_prev _ _;
      heard =
          reports-append (lost v b).1 (run_jobs net no_hooks (lost v b).0 js).1
          ∙ ap₂ (λ ms rs. ms ++ rs) (lost-heard o (ap v.micro_losses whole ∙ sums)) rest.heard;
      done =
          dones-append (lost v b).1 (run_jobs net no_hooks (lost v b).0 js).1
          ∙ ap₂ (λ ms rs. ms ++ rs) lost-done rest.done
          ∙ joined_finals v.has_prev (if last_one then b ∷ [] else []) _;
      remains = rest.remains;
    }
