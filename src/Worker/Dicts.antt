-- ===== src/Worker/Dicts.antt =====
-- executors/worker.py: the dictionaries by micro-batch id, of which each key is set and popped.
use torch_slicer.Common.{
  ℕ, ◌==◌, ==_refl, ==_iff, Option, none, some, ◌≡◌, refl, sym, ap, ◌∙◌, fun_ext, inl, inr,
  Bool-cases,
}
use torch_slicer.Worker.Stages.{Dict, with_key}

-- A key set twice.
pub with_key-twice :
    {A : Type 0}
    → (d : Dict A) (b : ℕ) (o p : Option A) → with_key (with_key d b o) b p ≡ with_key d b p
with_key-twice d b o p =
    fun_ext (λ k. elim (Bool-cases (k == b)) [ inl e ↦ rw e refl | inr e ↦ rw e refl ])

pub with_key-none : {A : Type 0} → (d : Dict A) (b : ℕ) → d b ≡ none → with_key d b none ≡ d
with_key-none d b empty = fun_ext (λ k. elim (Bool-cases (k == b)) [
  | inl e ↦ rw e (sym empty ∙ ap d (sym ((==_iff k b).0 e)))
  | inr e ↦ rw e refl
])

pub with_key-same : {A : Type 0} → (d : Dict A) (b : ℕ) (o : Option A) → with_key d b o b ≡ o
with_key-same d b o = rw (==_refl b) refl

-- A key that is set and taken out again.
pub restored :
    {A : Type 0}
    → (d : Dict A) (b : ℕ) (v : A) → d b ≡ none
    → with_key (with_key d b (some v)) b none ≡ d
restored d b v empty = with_key-twice d b (some v) none ∙ with_key-none d b empty
