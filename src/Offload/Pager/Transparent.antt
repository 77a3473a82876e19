-- ===== src/Offload/Pager/Transparent.antt =====
-- offload/pager.py: paging does not show. Whatever is fetched, released or flushed, every slice reads as
-- it would without a pager.
use torch_slicer.Common.{
  ◌-◌, ◌||◌, elem-count_up, ◌&&◌, and-eq-true, ℕ, ◌<◌, ◌≡◌, refl, sym, ap, ◌∙◌, subst, Bool, true,
  not, none, some, arith, Bool-cases, inl, inr, ==_iff, ◌==◌, Option-cases, List, [], ◌∷◌, elem,
  range, ok, ok_injective, >>=-eq-ok, >>-eq-ok, require, require-eq-ok, not-eq-true,
}
use torch_slicer.Offload.Pager.{
  Page, Pager, victim, fetch_from, bring_state, fetch_state, fetch_new, evict, page_in, fetch,
  s_nbytes, want_state,
}
use torch_slicer.Offload.Pager.Batches.{flush_slots, flush}
use torch_slicer.Offload.Pager.Victim.{victim_lem}
use torch_slicer.Offload.Pager.Views.{view, at_home, IsPager}
use torch_slicer.Offload.Pager.Moves.{look-home}
use torch_slicer.Offload.Pager.Paging.{
  IsSame, IsSame-trans, evict_lem, page_in-IsSame, page_in_state-IsSame,
}

module _ {V : Type 0} where
  pub IsSame-refl : (p : Pager V) → IsPager p → IsSame p p
  IsSame-refl p pager = record { pager = pager; reads = λ k. refl; n_slots = refl; gpu = refl }

  -- A slice is in no slot when all slots are empty.
  nowhere :
      (q : Pager V) (i : ℕ)
      → IsPager q
      → ((l : ℕ) → l < q.n_slots → (q.slots l).page ≡ none)
      → (q.pages i).slot ≡ none
  nowhere q i pager empty = elim (Option-cases (q.pages i).slot) [
    | inl e ↦ e
    | inr (j, at) ↦
        let (lt, held) = pager.held i j at in
        absurd (let wrong = sym (empty j lt) ∙ held.holds in cc)
  ]

  -- What is wanted of the state is there to be paged in.
  wanted :
      (p : Pager V) (i : ℕ) (state : Bool)
      → want_state p i state ≡ true
      → (p.gpu ≡ true) × (0 < s_nbytes (p.pages i))
  wanted p i state e = ground arith

  fetch_state-IsSame :
      (p q : Pager V) (i j : ℕ) (state : Bool)
      → IsPager p
      → (p.pages i).slot ≡ some j
      → fetch_state p i j (want_state p i state) ≡ ok q
      → IsSame p q
  fetch_state-IsSame p q i j state pager at returned =
      elim (Bool-cases (want_state p i state && not (p.pages i).state_in)) [
        | inr e ↦
            subst (IsSame p) (ok_injective (sym (ap (bring_state p i j) e) ∙ returned))
              (IsSame-refl p pager)
        | inl e ↦
            let both = and-eq-true (want_state p i state) (not (p.pages i).state_in) e in
            let want = wanted p i state both.0 in
            let paged = sym (ap (bring_state p i j) e) ∙ returned in
            subst (IsSame p) (ok_injective (>>-eq-ok (require _ _) _ paged).1) (
              page_in_state-IsSame p i j pager at (not-eq-true (p.pages i).state_in both.1) want.1
                want.0)
      ]

  fetch_new-IsSame :
      (p q : Pager V) (i : ℕ) (state : Bool)
      → IsPager p
      → (p.pages i).slot ≡ none
      → fetch_new p i (want_state p i state) ≡ ok q
      → IsSame p q
  fetch_new-IsSame p q i state pager at returned =
      let step = (>>-eq-ok (require _ _) _ returned).1 in
      let (j, chosen, paged) = >>=-eq-ok (victim p) _ step in
      let v = victim_lem p j chosen in
      let out = evict_lem p j pager v.idle in
      let kept = out.at_home i at in
      let still_wanted : want_state p i state ≡ true
          → ((evict p j).gpu ≡ true) × (0 < s_nbytes ((evict p j).pages i)) =
        λ e.
          let (on_gpu, some_state) = wanted p i state e in
          (out.same.gpu ∙ on_gpu, subst (λ pg. 0 < s_nbytes pg) (sym kept) some_state) in
      subst (IsSame p) (ok_injective paged) (
        IsSame-trans p (evict p j) (page_in (evict p j) i j true (want_state p i state)) out.same (
          page_in-IsSame (evict p j) i j (want_state p i state) out.same.pager
            (ap (λ (pg : Page V). pg.slot) kept ∙ at) out.empty
            (subst (λ n. j < n) (sym out.same.n_slots) v.in_range) still_wanted))

  -- A slice that is fetched reads as before, and so does every other.
  pub fetch-IsSame :
      (p q : Pager V) (i : ℕ) (state : Bool) → IsPager p → fetch p i state ≡ ok q → IsSame p q
  unfolding fetch
  fetch-IsSame p q i state pager returned =
      let step = (>>-eq-ok (require _ _) _ returned).1 in
      elim (Option-cases (p.pages i).slot) [
        | inl none_ ↦
            fetch_new-IsSame p q i state pager none_
              (sym (ap (fetch_from p i (want_state p i state)) none_) ∙ step)
        | inr (j, at) ↦
            fetch_state-IsSame p q i j state pager at
              (sym (ap (fetch_from p i (want_state p i state)) at) ∙ step)
      ]

  flush_slots-IsSame :
      (p q : Pager V) (js : List ℕ)
      → IsPager p
      → flush_slots p js ≡ ok q
      → IsSame p q
        × ((l : ℕ) → (p.slots l).page ≡ none → (q.slots l).page ≡ none)
        × ((l : ℕ) → elem l js ≡ true → (q.slots l).page ≡ none)
  unfolding flush_slots
  flush_slots-IsSame p q [] pager returned =
      let same = ok_injective returned in
      subst
        (λ (r : Pager V).
          IsSame p r
          × ((l : ℕ) → (p.slots l).page ≡ none → (r.slots l).page ≡ none)
          × ((l : ℕ) → elem l [] ≡ true → (r.slots l).page ≡ none))
        same (IsSame-refl p pager, λ l e. e, λ l e. absurd (cc))
  flush_slots-IsSame p q (j ∷ js) pager returned =
      let (test, step) = >>-eq-ok (require _ _) _ returned in
      let free = not-eq-true (p.slots j).busy (require-eq-ok _ _ test) in
      let out = evict_lem p j pager free in
      let (same, keeps, empties) = flush_slots-IsSame (evict p j) q js out.same.pager step in
      (
        IsSame-trans p (evict p j) q out.same same,
        λ l e. keeps l (out.stays_empty l e),
        λ l there. elim (Bool-cases (l == j)) [
          | inl e ↦
              keeps l
                (subst (λ x. ((evict p j).slots x).page ≡ none) (sym ((==_iff l j).0 e)) out.empty)
          | inr e ↦ empties l (sym (ap (λ b. b || elem l js) e) ∙ there)
        ],
      )

  -- After flush every slice reads as before, and what it reads is at its home.
  pub flush_lem :
      (p q : Pager V)
      → IsPager p
      → flush p ≡ ok q
      → IsSame p q × ((i : ℕ) → ((q.pages i).slot ≡ none) × (view p i ≡ at_home (q.pages i)))
  unfolding flush
  flush_lem p q pager returned =
      let (same, _, empties) = flush_slots-IsSame p q (range 0 p.n_slots) pager returned in
      let out = λ (i : ℕ). nowhere q i same.pager (λ l lt. empties l (
        (elem-count_up l 0 (p.n_slots - 0)).1
          (omega arith, let n = same.n_slots in omega arith))) in
      (
        same,
        λ i.
            (out i, sym (same.reads i) ∙ look-home q.slots (q.pages i) (same.pager.home i (out i))),
      )
