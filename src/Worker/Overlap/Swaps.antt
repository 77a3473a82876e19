-- ===== src/Worker/Overlap/Swaps.antt =====
-- executors/worker.py: gradients by worker after worker, and by micro-batch after micro-batch.
use mathlib.Core.List.{map-id}
use torch_slicer.Common.{
  ℕ, suc, Bool, true, false, List, [], ◌∷◌, is_nil, length, length-map, map, All, ◌≡◌, refl, sym,
  ap, ◌∙◌, inl, inr, Bool-cases, arith, subst,
}
use torch_slicer.Worker.Stages.{Network, is_last_micro, optimized, no_hooks}
use torch_slicer.Worker.Pipeline.Backprop.{backprop}
use torch_slicer.Worker.Overlap.Streams.{AddsUp, answers, ids}
use torch_slicer.Worker.Overlap.Fed.{LossAddsUp, ends}

-- Only the last micro-batch, if any, has an id that says so.
abbrev pub EndsLast : ℕ → List ℕ → Type 0
EndsLast n [] = Unit
EndsLast n (b ∷ bs) = (is_last_micro n b ≡ true → is_nil bs ≡ true) × EndsLast n bs

module _ {T F Layer : Type 0} (net : Network T F Layer) (n : ℕ) (ls : ℕ → T) where
  -- The whole model on one micro-batch after the other, with a step of the optimizer after the last.
  abbrev pub train_all : (xs : ℕ → T) → List Layer → List ℕ → List Layer
  train_all xs ys [] = ys
  train_all xs ys (b ∷ bs) =
      let last = is_last_micro n b in
      train_all xs (map (optimized net no_hooks last b) (backprop net n last ys (xs b) (ls b)).0) bs

  -- Each layer is given twice: as it computes outputs, and with the gradients that it has by now. For a first
  -- layer and those after it: the layers when all micro-batches are done at the last one, then at the one
  -- before it, and so on; and the gradients of the inputs.
  abbrev pub outer :
      (p : Layer × Layer)
      → List (Layer × Layer)
      → (xs : ℕ → T) → List ℕ
      → Layer × List Layer × List (ℕ × T)
  outer p [] xs bs = let r = ends net n xs ls p.0 p.1 bs in (r.0, [], r.1)
  outer p (q ∷ ps) xs bs =
      let r = outer q ps (λ b. net.output p.0 (xs b)) bs in
      let a = answers net n xs p.0 p.1 r.2 in (a.0, r.0 ∷ r.1, a.1)

  -- The gradients come back in the order of the micro-batches.
  ids-answers :
      (xs : ℕ → T) (first : Layer) (gs : List (ℕ × T)) (y : Layer)
      → ids (answers net n xs first y gs).1 ≡ ids gs
  ids-answers xs first [] y = refl
  ids-answers xs first ((b, g) ∷ gs) y = ap (λ cs. b ∷ cs) (ids-answers xs first gs _)

  ids-ends :
      (xs : ℕ → T) (first : Layer) (bs : List ℕ) (y : Layer)
      → ids (ends net n xs ls first y bs).1 ≡ bs
  ids-ends xs first [] y = refl
  ids-ends xs first (b ∷ bs) y = ap (λ cs. b ∷ cs) (ids-ends xs first bs _)

  pub ids-outer :
      (p : Layer × Layer) (ps : List (Layer × Layer)) (xs : ℕ → T) (bs : List ℕ)
      → ids (outer p ps xs bs).2 ≡ bs
  ids-outer p [] xs bs = ids-ends xs p.0 bs p.1
  ids-outer p (q ∷ ps) xs bs =
      ids-answers xs p.0 (outer q ps (λ b. net.output p.0 (xs b)) bs).2 p.1
      ∙ ids-outer q ps (λ b. net.output p.0 (xs b)) bs

  -- One micro-batch.
  abbrev step :
      Bool → (p : Layer × Layer) → List (Layer × Layer) → (x l : T) → Layer × List Layer × T
  step last p [] x l =
      let ran = net.backward_loss n last p.1 (net.output p.0 x) x l in (ran.0, [], ran.1)
  step last p (q ∷ ps) x l =
      let out = net.output p.0 x in
      let rest = step last q ps out l in
      let ran = net.backward_grad last p.1 out x rest.2 in (ran.0, rest.0 ∷ rest.1, ran.1)

  abbrev renewed : List (Layer × Layer) → List Layer → List (Layer × Layer)
  renewed [] zs = []
  renewed (p ∷ ps) [] = p ∷ ps
  renewed (p ∷ ps) (z ∷ zs) = (p.0, z) ∷ renewed ps zs

  abbrev now : List (Layer × Layer) → List Layer
  now ps = map (λ p. p.1) ps

  outer-cons :
      (p : Layer × Layer) (ps : List (Layer × Layer)) (xs : ℕ → T) (b : ℕ) (bs : List ℕ)
      → outer p ps xs (b ∷ bs) ≡ (
          let last = is_last_micro n b in
          let s = step last p ps (xs b) (ls b) in
          let r =
            outer
              (p.0, optimized net no_hooks last b s.0)
              (renewed ps (map (optimized net no_hooks last b) s.1))
              xs
              bs in
          (r.0, r.1, (b, s.2) ∷ r.2))
  outer-cons p [] xs b bs = refl
  outer-cons p (q ∷ ps) xs b bs =
      ap
        (λ (r : Layer × List Layer × List (ℕ × T)).
          (let a = answers net n xs p.0 p.1 r.2 in (a.0, r.0 ∷ r.1, a.1)))
        (outer-cons q ps (λ c. net.output p.0 (xs c)) b bs)

  -- Both copies of a layer compute the same.
  abbrev Same : Layer × Layer → Type 0
  Same p = (z : T) → net.output p.1 z ≡ net.output p.0 z

  step-backprop :
      (last : Bool) (p : Layer × Layer) (ps : List (Layer × Layer)) (x l : T)
      → Same p
      → All Same ps
      → backprop net n last (p.1 ∷ now ps) x l ≡ (let s = step last p ps x l in (s.0 ∷ s.1, s.2))
  step-backprop last p [] x l h hs =
      ap (λ out. (let ran = net.backward_loss n last p.1 out x l in (ran.0 ∷ [], ran.1))) (h x)
  step-backprop last p (q ∷ ps) x l h hs =
      ap
        (λ out.
          (let rest = backprop net n last (q.1 ∷ now ps) out l in
            let ran = net.backward_grad last p.1 out x rest.1 in (ran.0 ∷ rest.0, ran.1)))
        (h x)
      ∙ ap
          (λ (rest : List Layer × T).
            (let ran = net.backward_grad last p.1 (net.output p.0 x) x rest.1 in
              (ran.0 ∷ rest.0, ran.1)))
          (step-backprop last q ps (net.output p.0 x) l hs.0 hs.1)

  length-step :
      (last : Bool) (p : Layer × Layer) (ps : List (Layer × Layer)) (x l : T)
      → length (step last p ps x l).1 ≡ length ps
  length-step last p [] x l = refl
  length-step last p (q ∷ ps) x l = ap suc (length-step last q ps (net.output p.0 x) l)

  now-renewed :
      (ps : List (Layer × Layer)) (zs : List Layer)
      → length zs ≡ length ps
      → now (renewed ps zs) ≡ zs
  now-renewed [] [] e = refl
  now-renewed [] (z ∷ zs) e = absurd (omega arith)
  now-renewed (p ∷ ps) [] e = absurd (omega arith)
  now-renewed (p ∷ ps) (z ∷ zs) e = ap (λ r. z ∷ r) (now-renewed ps zs (omega arith))

  module _ (adds : AddsUp net) (loss_adds : LossAddsUp net) where
    step-Same :
        (p : Layer × Layer) (ps : List (Layer × Layer)) (x l : T)
        → Same p
        → All Same ps
        → Same (p.0, (step false p ps x l).0) × All Same (renewed ps (step false p ps x l).1)
    step-Same p [] x l h hs = (λ z. loss_adds n p.1 (net.output p.0 x) x l z ∙ h z, tt)
    step-Same p (q ∷ ps) x l h hs = (
      λ z. adds p.1 (net.output p.0 x) x (step false q ps (net.output p.0 x) l).2 z ∙ h z,
      step-Same q ps (net.output p.0 x) l hs.0 hs.1,
    )

    -- The same after a micro-batch that is not the last one.
    stepped-Same :
        (last : Bool) (b : ℕ) (p : Layer × Layer) (ps : List (Layer × Layer)) (x l : T)
        → last ≡ false
        → Same p
        → All Same ps
        → (let s = step last p ps x l in
            Same (p.0, optimized net no_hooks last b s.0)
            × All Same (renewed ps (map (optimized net no_hooks last b) s.1)))
    stepped-Same true b p ps x l e h hs = absurd (cc)
    stepped-Same false b p ps x l e h hs =
        let s = step false p ps x l in
        let k = step-Same p ps x l h hs in
        (k.0, subst (λ zs. All Same (renewed ps zs)) (sym (map-id s.1)) k.1)

    outer-nil :
        (p : Layer × Layer) (ps : List (Layer × Layer)) (xs : ℕ → T)
        → outer p ps xs [] ≡ (p.1, now ps, [])
    outer-nil p [] xs = refl
    outer-nil p (q ∷ ps) xs =
        ap
          (λ (r : Layer × List Layer × List (ℕ × T)).
            (let a = answers net n xs p.0 p.1 r.2 in (a.0, r.0 ∷ r.1, a.1)))
          (outer-nil q ps (λ c. net.output p.0 (xs c)))

    pub outer-train_all :
        (bs : List ℕ) (p : Layer × Layer) (ps : List (Layer × Layer)) (xs : ℕ → T)
        → EndsLast n bs
        → (is_nil bs ≡ false → Same p × All Same ps)
        → (outer p ps xs bs).0 ∷ (outer p ps xs bs).1 ≡ train_all xs (p.1 ∷ now ps) bs
    outer-train_all [] p ps xs ends_last same = ap (λ r. r.0 ∷ r.1) (outer-nil p ps xs)
    outer-train_all (b ∷ bs) p ps xs ends_last same =
        let last = is_last_micro n b in
        let h = same refl in
        let s = step last p ps (xs b) (ls b) in
        let opt = optimized net no_hooks last b in
        let size = length-map opt s.1 ∙ length-step last p ps (xs b) (ls b) in
        let later : is_nil bs ≡ false → Same (p.0, opt s.0) × All Same (renewed ps (map opt s.1)) =
          λ more. elim (Bool-cases last) [
            | inl e ↦ let over = ends_last.0 e in absurd (cc)
            | inr e ↦ stepped-Same last b p ps (xs b) (ls b) e h.0 h.1
          ] in
        ap (λ r. r.0 ∷ r.1) (outer-cons p ps xs b bs)
        ∙ outer-train_all bs (p.0, opt s.0) (renewed ps (map opt s.1)) xs ends_last.1 later
        ∙ ap (λ zs. train_all xs (opt s.0 ∷ zs) bs) (now-renewed ps (map opt s.1) size)
        ∙ ap (λ (r : List Layer × T). train_all xs (map opt r.0) bs)
            (sym (step-backprop last p ps (xs b) (ls b) h.0 h.1))
