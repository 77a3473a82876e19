-- ===== src/Split/Entries.antt =====
-- core/split_layer.py: what a layer of a slice finds of the outputs of other layers.
use mathlib.Core.Option.{none, some, Option}
use mathlib.Core.Option
use torch_slicer.Common.{
  ℕ, map, ◌++◌, zero, suc, List, [], ◌∷◌, refl, ◌<◌, ◌≤◌, count_up, ◌+◌, length, All, ◌≡◌,
  get_elem?, arith, ◌-◌, dec_le, ◌∙◌, ap, ==_iff, get_elem?-append_right, get_elem?-append_left,
  get_elem?-some, sym,
}
use torch_slicer.Graph.{gather}
use torch_slicer.Strategy.Base.{position_from, local_of, locals}
use torch_slicer.Split.{fetch}

position_from_outside : (l a n q : ℕ) → q < a → position_from l (count_up a n) q ≡ none
unfolding position_from
position_from_outside l a zero q lt = refl
position_from_outside l a (suc n) q lt = ground (arith, position_from_outside (suc l) (suc a) n q)

position_from_inside :
    (l a n q : ℕ) → a ≤ q → q < a + n → position_from l (count_up a n) q ≡ some (l + (q - a))
unfolding position_from
position_from_inside l a zero q low high = absurd (omega arith)
position_from_inside l a (suc n) q low high = elim (dec_le (suc a) q) [
  | yes later ↦
      rw (position_from_inside (suc l) (suc a) n q later (omega arith)) (ap some (omega arith))
  | no here ↦
      rw (position_from_outside (suc l) (suc a) n q (omega arith), (==_iff a q).1 (omega arith))
        (ap some (omega arith))
]

module _ (a n q : ℕ) where
  pub local_of_inside : a ≤ q → q < a + n → local_of (count_up a n) q ≡ some (q - a)
  local_of_inside low high = position_from_inside 0 a n q low high ∙ ap some (omega arith)

  pub local_of_outside : q < a → local_of (count_up a n) q ≡ none
  local_of_outside lt = position_from_outside 0 a n q lt

-- What a slice that starts at node `a` gets: the tensor that crosses the cut before it, or, at
-- node 0, the model input with the extra tensors.
pub record IsEntry {T A : Type 0} (x x_in : T) (aux slice_aux : Option A) (a : ℕ) (outs : List T)
    : Type 0 where
  pub size : length outs ≡ a
  pub cut : (q : ℕ) → suc q ≡ a → get_elem? outs q ≡ some x_in
  pub first : a ≡ 0 → (x_in ≡ x) × (slice_aux ≡ aux)
  pub later : 0 < a → slice_aux ≡ none

module _ {T : Type 0} (outputs : List T) (q : ℕ) {v : T} (at : get_elem? outputs q ≡ some v) where
  pub gather_at :
      (qs : List ℕ) → gather outputs (q ∷ qs) ≡ Option.map (λ vs. v ∷ vs) (gather outputs qs)
  unfolding gather
  gather_at qs = rw (at, gather) refl

  fetch_at :
      (x_in : T) (ps : List (Option ℕ))
      → fetch x_in outputs (some q ∷ ps) ≡ Option.map (λ vs. v ∷ vs) (fetch x_in outputs ps)
  unfolding fetch
  fetch_at x_in ps = rw (at, fetch) refl

fetch_cut :
    {T : Type 0} (x_in : T) (outputs : List T) (ps : List (Option ℕ))
    → fetch x_in outputs (none ∷ ps) ≡ Option.map (λ vs. x_in ∷ vs) (fetch x_in outputs ps)
unfolding fetch
fetch_cut x_in outputs ps = refl

module _ {T A : Type 0} {x x_in : T} {aux slice_aux : Option A} {a : ℕ} {outs : List T}
    (entry : IsEntry x x_in aux slice_aux a outs) (locs : List T) (n : ℕ) where
  pub right_of : (q : ℕ) → a ≤ q → get_elem? (outs ++ locs) q ≡ get_elem? locs (q - a)
  right_of q low = get_elem?-append_right outs locs q (q - a) (let s = entry.size in omega arith)

  pub left_of : (q : ℕ) → q < a → get_elem? (outs ++ locs) q ≡ get_elem? outs q
  left_of q high = get_elem?-append_left outs locs q (let s = entry.size in omega arith)

  -- The inputs of a multi-input layer.
  pub fetch_lem :
      (qs : List ℕ)
      → All (λ q. (a ≤ suc q) × (q < a + length locs)) qs
      → length locs ≤ n
      → fetch x_in locs (map (local_of (count_up a n)) qs) ≡ gather (outs ++ locs) qs
  unfolding fetch gather
  fetch_lem [] h fits = refl
  fetch_lem (q ∷ qs) h fits = elim (dec_le a q) [
    | yes low ↦
        let (v, at) = get_elem?-some locs (q - a) (omega arith) in
        rw (local_of_inside a n q low (omega arith)) (
          fetch_at locs (q - a) at x_in (map (local_of (count_up a n)) qs)
          ∙ ap (Option.map (λ vs. v ∷ vs)) (fetch_lem qs h.1 fits)
          ∙ sym (gather_at (outs ++ locs) q (right_of q low ∙ at) qs))
    | no high ↦ rw (local_of_outside a n q (omega arith)) (
        fetch_cut x_in locs (map (local_of (count_up a n)) qs)
        ∙ ap (Option.map (λ vs. x_in ∷ vs)) (fetch_lem qs h.1 fits)
        ∙ sym (gather_at (outs ++ locs) q (left_of q (omega arith) ∙ entry.cut q (omega arith)) qs))
  ]

pub locals_inside :
    (li : List ℕ) (q l : ℕ) → local_of li q ≡ some l → locals li (q ∷ []) ≡ some l ∷ []
unfolding locals
locals_inside li q l h = rw (h, locals) refl

pub locals_outside : (li : List ℕ) (q : ℕ) → local_of li q ≡ none → locals li (q ∷ []) ≡ []
unfolding locals
locals_outside li q h = rw (h, locals) refl
