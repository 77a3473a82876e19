-- ===== src/Worker/Overlap/Served.antt =====
-- executors/worker.py: a worker before the last one, with overlapping inputs and gradients.
use torch_slicer.Common.{
  ℕ, ◌==◌, ==_iff, Bool, true, false, some, List, [], ◌∷◌, ◌++◌, is_nil, if◌then◌else◌, ◌≡◌, refl,
  sym, ap, ap₂, ◌∙◌, subst, inl, inr, Bool-cases,
}
use torch_slicer.Worker.Stages.{
  Network, Servicer, is_last_micro, sent_back, with_output, Job, on_input, on_label, on_gradient,
  run_forward_stage, run_works, send_forward, no_hooks,
}
use torch_slicer.Worker.SentBack.{dones-append, to_next-answer, to_prev-answer, dones-answer}
use torch_slicer.Worker.Pipeline.{to_next}
use torch_slicer.Worker.Overlap.Live.{run_works-live}
use torch_slicer.Worker.Overlap.Streams.{
  live, inputs, mark, IsServed, AddsUp, run_jobs, Streams, backed, backward-eq, to_next-append,
  to_prev-append, AreOf, joined_gradients, joined_finals,
}

module _ {T F Layer : Type 0} (net : Network T F Layer) where
  -- What holds between two jobs.
  record Serving (n : ℕ) (xs : ℕ → T) (open_ : ℕ → Bool) (first : Layer) (has_prev : Bool)
      (js : List (Job T)) (w : Servicer T F Layer) : Type 0 where
    inner : w.is_last ≡ false
    prev : w.has_prev ≡ has_prev
    micro : w.n_micro ≡ n
    cached : (b : ℕ) → open_ b ≡ true → w.outputs b ≡ some (net.output first (xs b), xs b)
    same : is_nil (inputs js) ≡ false → (z : T) → net.output w.layer z ≡ net.output first z

  forward-eq :
      (w : Servicer T F Layer) (b : ℕ) (x : T)
      → w.is_last ≡ false
      → run_forward_stage net no_hooks w b x ≡ (
        with_output net w b (some (net.output w.layer x, x)),
        send_forward b (net.output w.layer x) ∷ [],
      )
  unfolding run_forward_stage
  forward-eq w b x inner = rw inner refl

  module _ (n : ℕ) (xs : ℕ → T) (open_ : ℕ → Bool) (first : Layer) (p : Bool) (js : List (Job T))
      (w : Servicer T F Layer) (b : ℕ) where
    Serving-input :
        (x : T)
        → x ≡ xs b
        → Serving n xs open_ first p (on_input b x ∷ js) w
        → Serving n xs
            (mark open_ b true)
            first
            p
            js
            (with_output net w b (some (net.output w.layer x, x)))
    Serving-input x own h = record {
      inner = h.inner;
      prev = h.prev;
      micro = h.micro;
      cached = λ c waits. elim (Bool-cases (c == b)) [
        | inl e ↦ rw e (
            ap (λ o. some (o, x)) (h.same refl x)
            ∙ ap (λ z. some (net.output first z, z)) (own ∙ ap xs (sym ((==_iff c b).0 e))))
        | inr e ↦ rw e (h.cached c (subst (λ t. (if t then true else open_ c) ≡ true) e waits))
      ];
      same = λ more. h.same refl;
    }

    Serving-gradient :
        AddsUp net
        → (g : T) → (is_last_micro n b ≡ true → is_nil (inputs js) ≡ true)
        → Serving n xs open_ first p (on_gradient b g ∷ js) w
        → Serving n xs
            (mark open_ b false)
            first
            p
            js
            (backed net w b (net.output first (xs b)) (xs b) g).0
    Serving-gradient adds g ends h = record {
      inner = h.inner;
      prev = h.prev;
      micro = h.micro;
      cached = λ c waits. elim (Bool-cases (c == b)) [
        | inl e ↦
            let bad : ◌≡◌ {A = Bool} false true =
              subst (λ t. (if t then false else open_ c) ≡ true) e waits in
            absurd (cc)
        | inr e ↦ rw e (h.cached c (subst (λ t. (if t then false else open_ c) ≡ true) e waits))
      ];
      same = λ more z. elim (Bool-cases (is_last_micro n b)) [
        | inl e ↦ let over = ends e in absurd (cc)
        | inr e ↦
            let inner : is_last_micro w.n_micro b ≡ false =
              ap (λ k. is_last_micro k b) h.micro ∙ e in
            rw inner (adds w.layer (net.output first (xs b)) (xs b) g z ∙ h.same more z)
      ];
    }

  run_jobs-Streams :
      AddsUp net
      → (n : ℕ) (xs : ℕ → T) (js : List (Job T)) (open_ : ℕ → Bool) (first : Layer) (p : Bool)
        (w : Servicer T F Layer)
      → Serving n xs open_ first p js w
      → IsServed n open_ js
      → AreOf xs (inputs js)
      → Streams net xs first w js (run_jobs net no_hooks w js)
  run_jobs-Streams adds n xs [] open_ first p w h served own = record {
    sent_on = refl;
    sent_before = elim (Bool-cases w.has_prev) [ inl e ↦ rw e refl | inr e ↦ rw e refl ];
    done = elim (Bool-cases w.has_prev) [ inl e ↦ rw e refl | inr e ↦ rw e refl ];
    remains = refl;
  }
  run_jobs-Streams adds n xs (on_label b l ∷ js) open_ first p w h served own = absurd served
  run_jobs-Streams adds n xs (on_input b x ∷ js) open_ first p w h served own =
      let out = net.output w.layer x in
      let caching = with_output net w b (some (out, x)) in
      let rest =
        run_jobs-Streams adds n xs js (mark open_ b true) first p caching
          (Serving-input n xs open_ first p js w b x own.0 h) served own.1 in
      subst
        (λ ran.
          Streams net xs first w (on_input b x ∷ js)
            ((run_jobs net no_hooks ran.0 js).0, ran.1 ++ (run_jobs net no_hooks ran.0 js).1))
        (sym (forward-eq w b x h.inner))
        (record {
          sent_on = ap₂ (λ o ms. (b, o) ∷ ms) (h.same refl x) rest.sent_on;
          sent_before = rest.sent_before;
          done = rest.done;
          remains = rest.remains;
        })
  run_jobs-Streams adds n xs (on_gradient b g ∷ js) open_ first p w h served own =
      let out = net.output first (xs b) in
      let last = is_last_micro w.n_micro b in
      let step = backed net w b out (xs b) g in
      let sent = sent_back net no_hooks w b (net.backward_grad last w.layer out (xs b) g).1 last in
      let rest =
        run_jobs-Streams adds n xs js (mark open_ b false) first p step.0
          (Serving-gradient n xs open_ first p js w b adds g served.1 h) served.2 own in
      subst
        (λ ran.
          Streams net xs first w (on_gradient b g ∷ js)
            ((run_jobs net no_hooks ran.0 js).0, ran.1 ++ (run_jobs net no_hooks ran.0 js).1))
        (sym (backward-eq net w b out (xs b) g (h.cached b served.0)))
        (record {
          sent_on =
              to_next-append sent (run_jobs net no_hooks step.0 js).1
              ∙ ap (λ ms. ms ++ to_next (run_jobs net no_hooks step.0 js).1)
                  (to_next-answer F w.has_prev last b _)
              ∙ rest.sent_on;
          sent_before =
              to_prev-append sent (run_jobs net no_hooks step.0 js).1
              ∙ ap₂ (λ ms rs. ms ++ rs) (to_prev-answer F w.has_prev last b _) rest.sent_before
              ∙ joined_gradients w.has_prev _ _;
          done =
              dones-append sent (run_jobs net no_hooks step.0 js).1
              ∙ ap₂ (λ ms rs. ms ++ rs) (dones-answer F w.has_prev last b _) rest.done
              ∙ joined_finals w.has_prev (if last then b ∷ [] else []) _;
          remains = rest.remains;
        })

  pub run_works-Streams :
      AddsUp net
      → (xs : ℕ → T) (w : Servicer T F Layer) (works : List (ℕ × Job T)) → w.is_last ≡ false
      → IsServed w.n_micro (λ b. false) (live w.generation works)
      → AreOf xs (inputs (live w.generation works))
      → Streams net xs w.layer w (live w.generation works) (run_works net no_hooks w works)
  run_works-Streams adds xs w works inner served own =
      subst (Streams net xs w.layer w (live w.generation works)) (sym (run_works-live net works w))
        (run_jobs-Streams adds w.n_micro xs (live w.generation works) (λ b. false) w.layer
          w.has_prev w
          (record {
            inner = inner;
            prev = refl;
            micro = refl;
            cached = λ b waits. absurd (cc);
            same = λ more z. refl;
          })
          served own)
