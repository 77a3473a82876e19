-- ===== src/Worker/Overlap/Ends.antt =====
-- executors/worker.py: one job of the last worker among overlapping ones.
use torch_slicer.Common.{
  ℕ, Bool, true, false, ◌||◌, not, Option, none, some, List, [], ◌∷◌, ◌++◌, if◌then◌else◌, ◌≡◌,
  refl, sym, ap, ◌∙◌, subst,
}
use torch_slicer.Worker.Stages.{
  Network, Servicer, with_output, with_label, Job, on_input, on_label, run_backward_last, no_hooks,
}
use torch_slicer.Worker.Overlap.Streams.{inputs, mark, AreOf, run_jobs}
use torch_slicer.Worker.Meets.{forward-eq-kept, forward-eq-met, label-eq-kept, label-eq-met}
use torch_slicer.Worker.Overlap.Fed.{
  ins_after, labs_after, completed, given, IsFed, LossAddsUp, Losses,
}
use torch_slicer.Worker.Overlap.Feeding.{
  Holds, Holds-put, Holds-kept, or_not-true, or_not-false, outs, Feeding, lost, lost-Feeding,
  lost-Losses,
}

module _ {T F Layer : Type 0} (net : Network T F Layer) (batch : ℕ) (xs ls : ℕ → T)
    (first : Layer) where
  -- What is to be shown of some jobs.
  abbrev pub Ends : List (Job T) → Type 0
  Ends js =
      (w : Servicer T F Layer) (ins labs : ℕ → Bool) (o : Option F)
      → Feeding net batch xs ls first ins labs o js w
      → IsFed w.n_micro batch ins labs js
      → AreOf xs (inputs js)
      → AreOf ls (given js)
      → Losses net w.n_micro w.has_prev xs ls first w.layer o (completed ins labs js)
          (run_jobs net no_hooks w js)

  module _ (js : List (Job T)) (ih : Ends js) (adds : LossAddsUp net) (w : Servicer T F Layer)
      (b : ℕ) (ins labs : ℕ → Bool) (o : Option F) where
    pub input-met :
        (x : T)
        → Feeding net batch xs ls first ins labs o (on_input b x ∷ js) w
        → IsFed w.n_micro batch ins labs (on_input b x ∷ js)
        → AreOf xs ((b, x) ∷ inputs js)
        → AreOf ls (given js)
        → labs b ≡ true
        → Losses net w.n_micro w.has_prev xs ls first w.layer o
            (b ∷ completed (ins_after ins labs b) (mark labs b false) js)
            (run_jobs net no_hooks w (on_input b x ∷ js))
    unfolding run_backward_last
    input-met x h fed own given_ has =
        let v = with_label net w b none in
        let label : w.labels b ≡ some (ls b) =
          h.labelled b ∙ ap (λ t. if t then some (ls b) else none) has in
        let next =
          lost-Feeding net batch xs ls first v b (ins_after ins labs b) (mark labs b false) o js
            adds fed.0 (fed.1 has) h.last
            (Holds-kept w.outputs ins (outs net batch xs ls first) b (ins b || not (labs b))
              (or_not-true (ins b) (labs b) has) h.cached)
            (Holds-put w.labels labs ls b false h.labelled) h.sums (λ more. h.same refl) in
        subst
          (λ ran.
            Losses net w.n_micro w.has_prev xs ls first w.layer o
              (b ∷ completed (ins_after ins labs b) (mark labs b false) js)
              ((run_jobs net no_hooks ran.0 js).0, ran.1 ++ (run_jobs net no_hooks ran.0 js).1))
          (sym (
            forward-eq-met net w h.last b x (ls b) label
            ∙ ap (λ out. run_backward_last net no_hooks v b out x (ls b)) (h.same refl x)
            ∙ ap (λ z. run_backward_last net no_hooks v b (net.output first z) z (ls b)) own.0))
          (lost-Losses net batch xs ls first v b o _ js fed.0 h.sums (
            ih (lost net batch xs ls first v b).0 (ins_after ins labs b) (mark labs b false) _ next
              fed.2 own.1 given_))

    pub input-kept :
        (x : T)
        → Feeding net batch xs ls first ins labs o (on_input b x ∷ js) w
        → IsFed w.n_micro batch ins labs (on_input b x ∷ js)
        → AreOf xs ((b, x) ∷ inputs js)
        → AreOf ls (given js)
        → labs b ≡ false
        → Losses net w.n_micro w.has_prev xs ls first w.layer o
            (completed (ins_after ins labs b) (mark labs b false) js)
            (run_jobs net no_hooks w (on_input b x ∷ js))
    input-kept x h fed own given_ missing =
        let v = with_output net w b (some (outs net batch xs ls first b)) in
        let label : w.labels b ≡ none =
          h.labelled b ∙ ap (λ t. if t then some (ls b) else none) missing in
        let next : Feeding net batch xs ls first (ins_after ins labs b) (mark labs b false) o js v =
          record {
            last = h.last;
            cached =
                subst (λ t. Holds v.outputs (mark ins b t) (outs net batch xs ls first))
                  (sym (or_not-false (ins b) (labs b) missing))
                  (Holds-put w.outputs ins (outs net batch xs ls first) b true h.cached);
            labelled = Holds-kept w.labels labs ls b false (sym missing) h.labelled;
            sums = h.sums;
            same = λ more. h.same refl;
          } in
        subst
          (λ ran.
            Losses net w.n_micro w.has_prev xs ls first w.layer o
              (completed (ins_after ins labs b) (mark labs b false) js)
              ((run_jobs net no_hooks ran.0 js).0, ran.1 ++ (run_jobs net no_hooks ran.0 js).1))
          (sym (
            forward-eq-kept net w h.last b x label
            ∙ ap (λ out. (with_output net w b (some (out, x)), [])) (h.same refl x)
            ∙ ap (λ z. (with_output net w b (some (net.output first z, z)), [])) own.0))
          (ih v (ins_after ins labs b) (mark labs b false) o next fed.2 own.1 given_)

    pub label-met :
        (l : T)
        → Feeding net batch xs ls first ins labs o (on_label b l ∷ js) w
        → IsFed w.n_micro batch ins labs (on_label b l ∷ js)
        → AreOf xs (inputs js)
        → AreOf ls ((b, l) ∷ given js)
        → ins b ≡ true
        → Losses net w.n_micro w.has_prev xs ls first w.layer o
            (b ∷ completed (mark ins b false) (labs_after ins labs b) js)
            (run_jobs net no_hooks w (on_label b l ∷ js))
    unfolding run_backward_last
    label-met l h fed own given_ has =
        let v = with_output net w b none in
        let out : w.outputs b ≡ some (outs net batch xs ls first b) =
          h.cached b ∙ ap (λ t. if t then some (outs net batch xs ls first b) else none) has in
        let next =
          lost-Feeding net batch xs ls first v b (mark ins b false) (labs_after ins labs b) o js
            adds fed.0 (fed.1 has) h.last
            (Holds-put w.outputs ins (outs net batch xs ls first) b false h.cached)
            (Holds-kept w.labels labs ls b (labs b || not (ins b))
              (or_not-true (labs b) (ins b) has) h.labelled)
            h.sums h.same in
        subst
          (λ ran.
            Losses net w.n_micro w.has_prev xs ls first w.layer o
              (b ∷ completed (mark ins b false) (labs_after ins labs b) js)
              ((run_jobs net no_hooks ran.0 js).0, ran.1 ++ (run_jobs net no_hooks ran.0 js).1))
          (sym (
            label-eq-met net w b (net.output first (xs b)) (xs b) l out
            ∙ ap (run_backward_last net no_hooks v b (net.output first (xs b)) (xs b)) given_.0))
          (lost-Losses net batch xs ls first v b o _ js fed.0 h.sums (
            ih (lost net batch xs ls first v b).0 (mark ins b false) (labs_after ins labs b) _ next
              fed.2 own given_.1))

    pub label-kept :
        (l : T)
        → Feeding net batch xs ls first ins labs o (on_label b l ∷ js) w
        → IsFed w.n_micro batch ins labs (on_label b l ∷ js)
        → AreOf xs (inputs js)
        → AreOf ls ((b, l) ∷ given js)
        → ins b ≡ false
        → Losses net w.n_micro w.has_prev xs ls first w.layer o
            (completed (mark ins b false) (labs_after ins labs b) js)
            (run_jobs net no_hooks w (on_label b l ∷ js))
    label-kept l h fed own given_ missing =
        let v = with_label net w b (some (ls b)) in
        let out : w.outputs b ≡ none =
          h.cached b ∙ ap (λ t. if t then some (outs net batch xs ls first b) else none) missing in
        let next : Feeding net batch xs ls first (mark ins b false) (labs_after ins labs b) o js v =
          record {
            last = h.last;
            cached =
                Holds-kept w.outputs ins (outs net batch xs ls first) b false (sym missing)
                  h.cached;
            labelled =
                subst (λ t. Holds v.labels (mark labs b t) ls)
                  (sym (or_not-false (labs b) (ins b) missing))
                  (Holds-put w.labels labs ls b true h.labelled);
            sums = h.sums;
            same = h.same;
          } in
        subst
          (λ ran.
            Losses net w.n_micro w.has_prev xs ls first w.layer o
              (completed (mark ins b false) (labs_after ins labs b) js)
              ((run_jobs net no_hooks ran.0 js).0, ran.1 ++ (run_jobs net no_hooks ran.0 js).1))
          (sym (label-eq-kept net w b l out ∙ ap (λ z. (with_label net w b (some z), [])) given_.0))
          (ih v (mark ins b false) (labs_after ins labs b) o next fed.2 own given_.1)
