-- ===== src/Offload/Pager/Moves.antt =====
-- offload/pager.py: what a change of one page and its slot does to the others.
use torch_slicer.Common.{
  ℕ, ◌<◌, ◌≡◌, refl, sym, ap, ◌∙◌, Bool, true, false, Option, none, some, Bool-cases, inl, inr,
  ==_iff, ==_refl, ◌==◌, if◌then◌else◌, some_injective, Option-cases,
}
use torch_slicer.Offload.Pager.{Page, Slot, Pager, set_both, put_at}
use torch_slicer.Offload.Pager.Views.{
  view, look, at_home, in_slot, IsAtHome, IsHeld, IsPage, IsPager, look, in_slot, at_home,
}

pub put_at-same {ℓ} : {A : Type ℓ} (f : ℕ → A) (i : ℕ) (x : A) → put_at f i x i ≡ x
put_at-same f i x = rw (==_refl i)

pub put_at-other {ℓ} :
    {A : Type ℓ} (f : ℕ → A) (i : ℕ) (x : A) (k : ℕ) → (k == i) ≡ false → put_at f i x k ≡ f k
put_at-other f i x k e = rw e

module _ {V : Type 0} where
  pub look-home : (slots : ℕ → Slot V) (pg : Page V) → IsAtHome pg → look slots pg ≡ at_home pg
  look-home slots pg h = λ t. record {
    params = elim (h.pb_at t) [ none ↦ pg.params | some j ↦ (slots j).params ];
    buffer_values = elim (h.pb_at t) [ none ↦ pg.buffer_values | some j ↦ (slots j).buffer_values ];
    state = elim (h.s_at t) [ none ↦ pg.state | some j ↦ some (slots j).state ];
  }

  pub look-held :
      (slots : ℕ → Slot V) (i j : ℕ) (pg : Page V) (sl : Slot V)
      → slots j ≡ sl
      → IsHeld i j pg sl
      → look slots pg ≡ in_slot pg sl
  look-held slots i j pg sl there h = λ t. record {
    params =
        (ap (at_pb (λ (x : Slot V). x.params) pg.params) h.pb_at
            ∙ ap (λ (x : Slot V). x.params) there)
          t;
    buffer_values =
        (ap (at_pb (λ (x : Slot V). x.buffer_values) pg.buffer_values) h.pb_at
            ∙ ap (λ (x : Slot V). x.buffer_values) there)
          t;
    state = (ap at_s h.s_at ∙ by_state pg.state_in) t;
  }
    where
      at_pb : (Slot V → V) → V → Option ℕ → V
      at_pb f home o = elim o [ none ↦ home | some k ↦ f (slots k) ]

      at_s : Option ℕ → Option V
      at_s o = elim o [ none ↦ pg.state | some k ↦ some (slots k).state ]

      by_state :
          (b : Bool) → at_s (if b then some j else none) ≡ (if b then some sl.state else pg.state)
      by_state true = ap (λ (x : Slot V). some x.state) there
      by_state false = refl

  -- A page and a slot after a change: together, or the page at home and the slot empty.
  pub data IsKept (i j : ℕ) (pg : Page V) (sl : Slot V) : Type 0 where
    inside : IsHeld i j pg sl → IsKept i j pg sl
    outside : pg.slot ≡ none → sl.page ≡ none → IsAtHome pg → IsKept i j pg sl

  -- No other page is in slot j, and page i is in no other slot.
  pub record IsApart (p : Pager V) (i j : ℕ) : Type 0 where
    pub page : (k : ℕ) → (p.pages k).slot ≡ some j → k ≡ i
    pub slot : (l : ℕ) → (p.slots l).page ≡ some i → l ≡ j

  pub IsApart-of_held :
      (p : Pager V) → IsPager p → (i j : ℕ) → (p.pages i).slot ≡ some j → IsApart p i j
  IsApart-of_held p ok i j at = record {
    page = λ k at'. some_injective (sym (ok.held k j at').1.holds ∙ (ok.held i j at).1.holds);
    slot = λ l at'. some_injective (sym (ok.back i l at') ∙ at);
  }

  pub IsApart-of_free :
      (p : Pager V)
      → IsPager p
      → (i j : ℕ) → (p.pages i).slot ≡ none
      → (p.slots j).page ≡ none
      → IsApart p i j
  IsApart-of_free p ok i j at empty = record {
    page = λ k at'. absurd (let wrong = sym (ok.held k j at').1.holds ∙ empty in cc);
    slot = λ l at'. absurd (let wrong = sym (ok.back i l at') ∙ at in cc);
  }

  module _ (p : Pager V) (ok : IsPager p) (i j : ℕ) (apart : IsApart p i j)
      (in_range : j < p.n_slots) (pg : Page V) (sl : Slot V) (kept : IsKept i j pg sl) where
    kept_slot : (l : ℕ) → pg.slot ≡ some l → (l ≡ j) × IsHeld i j pg sl
    kept_slot l at = elim kept [
      | inside h ↦ (some_injective (sym at ∙ h.slot), h)
      | outside none_ empty home ↦ absurd (let wrong = sym at ∙ none_ in cc)
    ]

    kept_home : pg.slot ≡ none → IsAtHome pg
    kept_home at = elim kept [
      | inside h ↦ absurd (let wrong = sym at ∙ h.slot in cc)
      | outside none_ empty home ↦ home
    ]

    other_slot : (k l : ℕ) → (k == i) ≡ false → (p.pages k).slot ≡ some l → (l == j) ≡ false
    other_slot k l other at = elim (Bool-cases (l == j)) [
      | inr e ↦ e
      | inl e ↦ absurd (
          let same = apart.page k (at ∙ ap some ((==_iff l j).0 e)) in
          let wrong = sym other ∙ (==_iff k i).1 same in cc)
    ]

    set_both-IsHeld :
        (k l : ℕ)
        → (put_at p.pages i pg k).slot ≡ some l
        → (l < p.n_slots) × IsHeld k l (put_at p.pages i pg k) (put_at p.slots j sl l)
    set_both-IsHeld k l at = elim (Bool-cases (k == i)) [
      | inl same ↦
          let at_i = sym (ap (λ b. (if b then pg else p.pages k).slot) same) ∙ at in
          let inner = kept_slot l at_i in
          rw ((==_iff k i).0 same, inner.0, ==_refl i, ==_refl j) (in_range, inner.1)
      | inr other ↦
          let at_k = sym (ap (λ b. (if b then pg else p.pages k).slot) other) ∙ at in
          let old = ok.held k l at_k in (old.0, rw (other, other_slot k l other at_k) old.1)
    ]

    set_both-home : (k : ℕ) → (put_at p.pages i pg k).slot ≡ none → IsAtHome (put_at p.pages i pg k)
    set_both-home k at = elim (Bool-cases (k == i)) [
      | inl same ↦
          rw same (kept_home (sym (ap (λ b. (if b then pg else p.pages k).slot) same) ∙ at))
      | inr other ↦
          rw other (ok.home k (sym (ap (λ b. (if b then pg else p.pages k).slot) other) ∙ at))
    ]

    kept_page : (k : ℕ) → sl.page ≡ some k → (k ≡ i) × (pg.slot ≡ some j)
    kept_page k at = elim kept [
      | inside h ↦ (some_injective (sym at ∙ h.holds), h.slot)
      | outside none_ empty home ↦ absurd (let wrong = sym at ∙ empty in cc)
    ]

    set_both-back :
        (k l : ℕ) → (put_at p.slots j sl l).page ≡ some k → (put_at p.pages i pg k).slot ≡ some l
    set_both-back k l at = elim (Bool-cases (l == j)) [
      | inl same ↦
          let inner = kept_page k (sym (ap (λ b. (if b then sl else p.slots l).page) same) ∙ at) in
          rw (inner.0, (==_iff l j).0 same, ==_refl i) inner.1
      | inr other ↦
          let at_l = sym (ap (λ b. (if b then sl else p.slots l).page) other) ∙ at in
          rw (other_page k l other at_l) (ok.back k l at_l)
    ]
      where
        other_page : (k l : ℕ) → (l == j) ≡ false → (p.slots l).page ≡ some k → (k == i) ≡ false
        other_page k l other at = elim (Bool-cases (k == i)) [
          | inr e ↦ e
          | inl e ↦ absurd (
              let same = apart.slot l (at ∙ ap some ((==_iff k i).0 e)) in
              let wrong = sym other ∙ (==_iff l j).1 same in cc)
        ]

    set_both-IsPage : IsPage p.gpu pg → (k : ℕ) → IsPage p.gpu (put_at p.pages i pg k)
    set_both-IsPage page k = elim (Bool-cases (k == i)) [
      | inl same ↦ rw same page
      | inr other ↦ rw other (ok.page k)
    ]

    -- The pager stays one.
    pub set_both-IsPager : IsPage p.gpu pg → IsPager (set_both p i j pg sl)
    set_both-IsPager page = record {
      held = set_both-IsHeld;
      home = set_both-home;
      back = set_both-back;
      page = set_both-IsPage page;
    }

    -- What the other slices read as is as before.
    pub set_both-view_other : (k : ℕ) → (k == i) ≡ false → view (set_both p i j pg sl) k ≡ view p k
    set_both-view_other k other =
        ap (look (put_at p.slots j sl)) (put_at-other p.pages i pg k other)
        ∙ elim (Option-cases (p.pages k).slot) [
          | inl none_ ↦
              look-home (put_at p.slots j sl) (p.pages k) (ok.home k none_)
              ∙ sym (look-home p.slots (p.pages k) (ok.home k none_))
          | inr (l, at) ↦
              look-held (put_at p.slots j sl) k l (p.pages k) (p.slots l)
                (put_at-other p.slots j sl l (other_slot k l other at)) (ok.held k l at).1
              ∙ sym (look-held p.slots k l (p.pages k) (p.slots l) refl (ok.held k l at).1)
        ]

    -- The slice itself reads as the changed page and slot do.
    pub set_both-view_in : IsHeld i j pg sl → view (set_both p i j pg sl) i ≡ in_slot pg sl
    set_both-view_in h =
        ap (look (put_at p.slots j sl)) (put_at-same p.pages i pg)
        ∙ look-held (put_at p.slots j sl) i j pg sl (put_at-same p.slots j sl) h

    pub set_both-view_out : IsAtHome pg → view (set_both p i j pg sl) i ≡ at_home pg
    set_both-view_out h =
        ap (look (put_at p.slots j sl)) (put_at-same p.pages i pg)
        ∙ look-home (put_at p.slots j sl) pg h
