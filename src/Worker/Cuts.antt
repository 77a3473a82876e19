-- ===== src/Worker/Cuts.antt =====
-- executors/worker.py, _recv_into: what a read does when the stream ends too early.
use torch_slicer.Common.{
  ℕ, zero, suc, ◌-◌, ◌<◌, min, ◌≡◌, ◌⊎◌, inl, inr, refl, ap, ◌∙◌, subst, arith, false, List, [],
  ◌∷◌, ◌++◌, length, length-take, length-drop, take, drop, is_nil, ok, raise,
}
use torch_slicer.Worker.Frames.{
  Event, timeout, arrived, Read, RecvError, stream_closed, stream_error, fill, recv_into,
}
use torch_slicer.Worker.Arrivals.{IsServed, fill-arrived, received}

-- The errors of a stream that ended.
abbrev pub IsEnd : RecvError → Type 0
IsEnd e = (e ≡ stream_closed) ⊎ (e ≡ stream_error)

abbrev pub Fails : {A : Type 0} → Read A → Type 0
Fails call = (e : RecvError) × (call ≡ raise e) × IsEnd e

fill_cut :
    (events : List Event) (got : List ℕ) (n : ℕ) (s : List ℕ)
    → length s < n
    → IsServed s events
    → Fails (fill false got n events s)
unfolding fill
fill_cut events got zero s short served = absurd (omega arith)
fill_cut [] got (suc n) s short served = absurd (omega arith)
fill_cut (timeout ∷ events) got (suc n) s short served = fill_cut events got (suc n) s short served
fill_cut (arrived k ∷ events) [] (suc n) [] short served = (
  stream_closed,
  rw (let e : min (suc k) (suc n) ≡ suc (min k n) = omega arith in e) refl,
  inl refl,
)
fill_cut (arrived k ∷ events) (g ∷ gs) (suc n) [] short served = (
  stream_error,
  rw (let e : min (suc k) (suc n) ≡ suc (min k n) = omega arith in e) refl,
  inr refl,
)
fill_cut (arrived k ∷ events) got (suc n) (b ∷ bs) short served =
    let j = length (take (min k n) bs) in
    let dropped = length-drop j bs in
    let taken = length-take (min k n) bs in
    let ih =
      fill_cut events (got ++ (b ∷ take (min k n) bs)) (n - j) (drop j bs) (omega arith)
        (omega arith) in
    (ih.0, fill-arrived false got n k events b bs ∙ ih.1, ih.2)

split_or_cut :
    (bytes rest p q : List ℕ)
    → p ++ q ≡ bytes ++ rest
    → (length p < length bytes) ⊎ ((more : List ℕ) × (p ≡ bytes ++ more) × (more ++ q ≡ rest))
split_or_cut [] rest p q e = inr (p, refl, e)
split_or_cut (b ∷ bs) rest [] q e = inl (omega arith)
split_or_cut (b ∷ bs) rest (x ∷ p) q e =
    let same : x ≡ b = cc in
    let later : p ++ q ≡ bs ++ rest = cc in
    elim (split_or_cut bs rest p q later) [
      | inl short ↦ inl (omega arith)
      | inr (more, front, back) ↦ inr (more, cc, back)
    ]

-- A read of bytes that the stream should have: it fails at the end of the stream, or gives them.
pub recv_or_fail :
    (n : ℕ) (bytes rest p q : List ℕ) (events : List Event)
    → length bytes ≡ n
    → p ++ q ≡ bytes ++ rest
    → IsServed p events
    → Fails (recv_into n events p)
      ⊎ ((later : List Event) × (more : List ℕ) × (recv_into n events p ≡ ok (bytes, later, more))
          × (more ++ q ≡ rest)
          × IsServed more later)
recv_or_fail n bytes rest p q events size whole served = elim (split_or_cut bytes rest p q whole) [
  | inl short ↦ inl (fill_cut events [] n p (omega arith) served)
  | inr (more, front, back) ↦
      let r = received n bytes more events size (subst (λ s. IsServed s events) front served) in
      inr (r.0, more, ap (recv_into n events) front ∙ r.1, back, r.2)
]

-- Bytes that are missing.
abbrev pub IsMissing : List ℕ → Type 0
IsMissing q = is_nil q ≡ false

pub none_missing : (p q : List ℕ) → p ++ q ≡ [] → IsMissing q → ⊥
none_missing [] [] e missing = cc
none_missing [] (x ∷ q) e missing = cc
none_missing (x ∷ p) q e missing = cc
