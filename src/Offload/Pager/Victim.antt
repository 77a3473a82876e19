-- ===== src/Offload/Pager/Victim.antt =====
-- offload/pager.py, _victim: the slot that a slice is paged into.
use torch_slicer.Common.{
  ℕ, ◌<◌, ◌≤◌, ◌≡◌, refl, sym, ap, ◌∙◌, subst, true, false, Option, none, some, arith, Bool-cases,
  inl, inr, ==_iff, ◌==◌, ◌⊎◌, ◌↔◌, Option-cases, ltb, List, [], ◌∷◌, elem, range, ok, ok_injective,
  elem-count_up, ◌-◌,
}
use torch_slicer.Offload.Pager.{
  Pager, idle, first_empty, least_recent, victim, choose, empty_or_least,
}

module _ {V : Type 0} where
  idle_lem :
      (p : Pager V) (js : List ℕ) (j : ℕ)
      → (elem j (idle p js) ≡ true) ↔ ((elem j js ≡ true) × ((p.slots j).busy ≡ false))
  unfolding idle
  idle_lem p [] j = (λ e. absurd (cc), λ e. absurd (cc))
  idle_lem p (k ∷ js) j = ground (arith, idle_lem p js j)

  first_empty-some :
      (p : Pager V) (js : List ℕ) (j : ℕ)
      → first_empty p js ≡ some j
      → (elem j js ≡ true) × ((p.slots j).page ≡ none)
  unfolding first_empty
  first_empty-some p [] j e = absurd (cc)
  first_empty-some p (k ∷ js) j e = ground (arith, first_empty-some p js j)

  first_empty-none :
      (p : Pager V) (js : List ℕ) (j : ℕ)
      → first_empty p js ≡ none
      → elem j js ≡ true
      → (i : ℕ) × ((p.slots j).page ≡ some i)
  unfolding first_empty
  first_empty-none p [] j e there = absurd (cc)
  first_empty-none p (k ∷ js) j e there = elim (Option-cases (p.slots k).page) [
    | inl none_ ↦ absurd (ground arith)
    | inr (i, at) ↦ elim (Bool-cases (j == k)) [
      | inl same ↦ (i, ap (λ x. (p.slots x).page) ((==_iff j k).0 same) ∙ at)
      | inr other ↦ first_empty-none p js j (ground arith) (ground arith)
    ]
  ]

  -- `r` is one of the slots `best` and `js`, and none of them was used before it.
  pub record IsLeast (p : Pager V) (r best : ℕ) (js : List ℕ) : Type 0 where
    pub among : (r ≡ best) ⊎ (elem r js ≡ true)
    pub first : (p.slots r).last ≤ (p.slots best).last
    pub rest : (l : ℕ) → elem l js ≡ true → (p.slots r).last ≤ (p.slots l).last

  next-IsLeast :
      (p : Pager V) (r best n j : ℕ) (js : List ℕ)
      → (n ≡ j) ⊎ (n ≡ best)
      → (p.slots n).last ≤ (p.slots best).last
      → (p.slots n).last ≤ (p.slots j).last
      → IsLeast p r n js
      → IsLeast p r best (j ∷ js)
  next-IsLeast p r best n j js which le_best le_j h = record {
    among = elim h.among [
      | inr e ↦ inr (ground arith)
      | inl e ↦ elim which [ inl same ↦ inr (ground arith) | inr same ↦ inl (e ∙ same) ]
    ];
    first = let le = h.first in omega arith;
    rest = λ l e. elim (Bool-cases (l == j)) [
      | inl same ↦
          let le = h.first in
          let at_l = ap (λ x. (p.slots x).last) ((==_iff l j).0 same) in omega arith
      | inr other ↦ h.rest l (ground arith)
    ];
  }

  least_recent_lem :
      (p : Pager V) (best : ℕ) (js : List ℕ) → IsLeast p (least_recent p best js) best js
  unfolding least_recent
  least_recent_lem p best [] = record {
    among = inl refl;
    first = omega arith;
    rest = λ l e. absurd (cc);
  }
  least_recent_lem p best (j ∷ js) = elim (Bool-cases (ltb (p.slots j).last (p.slots best).last)) [
    | inl lt ↦ rw lt (
        next-IsLeast p (least_recent p j js) best j j js (inl refl) (ground arith) (omega arith)
          (least_recent_lem p j js))
    | inr ge ↦ rw ge (
        next-IsLeast p (least_recent p best js) best best j js (inr refl) (omega arith)
          (ground arith) (least_recent_lem p best js))
  ]

  -- A slot to page into: it is not busy, and if it holds a slice, then no free slot is empty, and none
  -- was used before it.
  pub record IsVictim (p : Pager V) (j : ℕ) : Type 0 where
    pub in_range : j < p.n_slots
    pub idle : (p.slots j).busy ≡ false
    pub least :
        (i l : ℕ)
        → (p.slots j).page ≡ some i
        → l < p.n_slots
        → (p.slots l).busy ≡ false
        → ((k : ℕ) × ((p.slots l).page ≡ some k)) × ((p.slots j).last ≤ (p.slots l).last)

  in_idle :
      (p : Pager V) (l : ℕ)
      → (elem l (idle p (range 0 p.n_slots)) ≡ true)
        ↔ ((l < p.n_slots) × ((p.slots l).busy ≡ false))
  in_idle p l = ground (arith, idle_lem p (range 0 p.n_slots) l, elem-count_up l 0 (p.n_slots - 0))

  chosen-IsVictim :
      (p : Pager V) (js : List ℕ) (j : ℕ)
      → ((l : ℕ) → (elem l js ≡ true) ↔ ((l < p.n_slots) × ((p.slots l).busy ≡ false)))
      → choose p js ≡ ok j
      → IsVictim p j
  chosen-IsVictim p [] j free returned = absurd (cc)
  chosen-IsVictim p (k ∷ js) j free returned = elim (Option-cases (first_empty p (k ∷ js))) [
    | inr (e, found) ↦
        let same : e ≡ j = ok_injective (sym (ap (empty_or_least p k js) found) ∙ returned) in
        let there = first_empty-some p (k ∷ js) e found in
        let free_e = (free e).0 there.0 in
        subst (IsVictim p) same (record {
          in_range = free_e.0;
          idle = free_e.1;
          least = λ i l at. absurd (let wrong = sym at ∙ there.1 in cc);
        })
    | inl none_ ↦
        let same : least_recent p k js ≡ j =
          ok_injective (sym (ap (empty_or_least p k js) none_) ∙ returned) in
        let least = least_recent_lem p k js in
        let free_r =
          (free (least_recent p k js)).0 (in-cons (least_recent p k js) k js least.among) in
        subst (IsVictim p) same (record {
          in_range = free_r.0;
          idle = free_r.1;
          least = λ i l at lt not_busy.
              let there = (free l).1 (lt, not_busy) in
              (
                first_empty-none p (k ∷ js) l none_ there,
                below l k js (least_recent p k js) least there,
              );
        })
  ]
    where
      in-cons : (r k : ℕ) (js : List ℕ) → (r ≡ k) ⊎ (elem r js ≡ true) → elem r (k ∷ js) ≡ true
      in-cons r k js (inl e) = ground arith
      in-cons r k js (inr e) = ground arith

      below :
          (l k : ℕ) (js : List ℕ) (r : ℕ)
          → IsLeast p r k js
          → elem l (k ∷ js) ≡ true
          → (p.slots r).last ≤ (p.slots l).last
      below l k js r least there = elim (Bool-cases (l == k)) [
        | inl e ↦
            subst (λ x. (p.slots r).last ≤ (p.slots x).last) (sym ((==_iff l k).0 e)) least.first
        | inr other ↦ least.rest l (ground arith)
      ]

  -- The slot that _victim returns is free, empty if a free slot is, and otherwise the one that was used
  -- longest ago.
  pub victim_lem : (p : Pager V) (j : ℕ) → victim p ≡ ok j → IsVictim p j
  unfolding victim
  victim_lem p j returned = chosen-IsVictim p (idle p (range 0 p.n_slots)) j (in_idle p) returned

  -- With a free slot, _victim returns one.
  pub victim-returns :
      (p : Pager V) (l : ℕ) → l < p.n_slots → (p.slots l).busy ≡ false → (j : ℕ) × (victim p ≡ ok j)
  unfolding victim
  victim-returns p l lt free =
      choose-returns p (idle p (range 0 p.n_slots)) l ((in_idle p l).1 (lt, free))
    where
      from_option :
          (p : Pager V) (k : ℕ) (js : List ℕ) (o : Option ℕ)
          → (j : ℕ) × (empty_or_least p k js o ≡ ok j)
      from_option p k js none = (least_recent p k js, refl)
      from_option p k js (some e) = (e, refl)

      choose-returns :
          (p : Pager V) (js : List ℕ) (l : ℕ) → elem l js ≡ true → (j : ℕ) × (choose p js ≡ ok j)
      choose-returns p [] l e = absurd (cc)
      choose-returns p (k ∷ js) l e = from_option p k js (first_empty p (k ∷ js))
