-- ===== src/Offload/Pager/Paging.antt =====
-- offload/pager.py: fetch, acquire, release and flush leave a pager, in which the slices read as before.
use torch_slicer.Common.{
  ℕ, ◌<◌, ◌≡◌, refl, sym, ap, ◌∙◌, subst, Bool, true, false, none, some, Bool-cases, inl, inr,
  ==_iff, ==_refl, ◌==◌, Option-cases,
}
use torch_slicer.Offload.Pager.{
  Page, Slot, Pager, Dirty, clean, set_both, evict, writeback, marked, sent_home, page_in,
  paged_page, paged_slot, s_nbytes,
}
use torch_slicer.Offload.Pager.Views.{view, in_slot, IsHeld, IsPage, IsPager}
use torch_slicer.Offload.Pager.Moves.{
  inside, outside, IsApart-of_held, IsApart-of_free, set_both-IsPager, set_both-view_other,
  set_both-view_in, set_both-view_out, look-home, look-held, put_at-other, put_at-same,
}
use torch_slicer.Offload.Pager.Calls.{
  IsHonest, released-IsHeld, released-IsPage, released-in_slot, sent_home-IsAtHome,
  sent_home-at_home, sent_home-IsPage, paged-IsHeld, paged-IsPage, paged-in_slot,
  paged_state-IsHeld, paged_state-in_slot, writeback_clean,
}

module _ {V : Type 0} where
  -- A pager after a call, in which every slice reads as it did before.
  pub record IsSame (p q : Pager V) : Type 0 where
    pub pager : IsPager q
    pub reads : (k : ℕ) → view q k ≡ view p k
    pub n_slots : q.n_slots ≡ p.n_slots
    pub gpu : q.gpu ≡ p.gpu

  pub IsSame-trans : (p q r : Pager V) → IsSame p q → IsSame q r → IsSame p r
  IsSame-trans p q r a b = record {
    pager = b.pager;
    reads = λ k. b.reads k ∙ a.reads k;
    n_slots = b.n_slots ∙ a.n_slots;
    gpu = b.gpu ∙ a.gpu;
  }

  -- One page and its slot change, and the page reads as before.
  changed :
      (p : Pager V) (i j : ℕ) (pg : Page V) (sl : Slot V)
      → IsPager (set_both p i j pg sl)
      → ((k : ℕ) → (k == i) ≡ false → view (set_both p i j pg sl) k ≡ view p k)
      → view (set_both p i j pg sl) i ≡ view p i
      → IsSame p (set_both p i j pg sl)
  changed p i j pg sl pager others same = record {
    pager = pager;
    reads = λ k. elim (Bool-cases (k == i)) [
      | inl e ↦ subst (λ x. view (set_both p i j pg sl) x ≡ view p x) (sym ((==_iff k i).0 e)) same
      | inr e ↦ others k e
    ];
    n_slots = refl;
    gpu = refl;
  }

  -- A slice stays in its slot.
  pub changed_inside :
      (p : Pager V) (i j : ℕ) (pg : Page V) (sl : Slot V)
      → IsPager p
      → (p.pages i).slot ≡ some j
      → IsHeld i j pg sl
      → IsPage p.gpu pg
      → in_slot pg sl ≡ in_slot (p.pages i) (p.slots j)
      → IsSame p (set_both p i j pg sl)
  changed_inside p i j pg sl ok at h page same =
      let apart = IsApart-of_held p ok i j at in
      let old = ok.held i j at in
      changed p i j pg sl (set_both-IsPager p ok i j apart old.0 pg sl (inside h) page)
        (set_both-view_other p ok i j apart old.0 pg sl (inside h))
        (set_both-view_in p ok i j apart old.0 pg sl (inside h) h
          ∙ same
          ∙ sym (look-held p.slots i j (p.pages i) (p.slots j) refl old.1))

  pub release_from-IsSame :
      (p : Pager V) (i j : ℕ) (d : Dirty)
      → IsPager p
      → (p.pages i).slot ≡ some j
      → IsHonest d (p.pages i) (p.slots j)
      → IsSame p (
          set_both p i j
            (writeback p.gpu (p.slots j) (marked d (p.pages i)))
            (record (p.slots j) { busy = false }))
  release_from-IsSame p i j d ok at honest =
      let old = (ok.held i j at).1 in
      changed_inside p i j (writeback p.gpu (p.slots j) (marked d (p.pages i)))
        (record (p.slots j) { busy = false }) ok at
        (released-IsHeld p.gpu i j d (p.pages i) (p.slots j) old (ok.page i) honest)
        (released-IsPage p.gpu d (p.pages i) (p.slots j) old.dirty (ok.page i))
        (released-in_slot p.gpu i j d (p.pages i) (p.slots j) old)

  pub page_in_state-IsSame :
      (p : Pager V) (i j : ℕ)
      → IsPager p
      → (p.pages i).slot ≡ some j
      → (p.pages i).state_in ≡ false
      → 0 < s_nbytes (p.pages i)
      → p.gpu ≡ true
      → IsSame p (page_in p i j false true)
  unfolding page_in
  page_in_state-IsSame p i j ok at out some_state on_gpu =
      let old = (ok.held i j at).1 in
      changed_inside p i j (paged_page j true (p.pages i))
        (paged_slot i false true (p.pages i) (p.slots j)) ok at
        (paged_state-IsHeld i j p.gpu (p.pages i) (p.slots j) old (ok.page i) out some_state)
        (paged-IsPage j true p.gpu (p.pages i) (ok.page i) (λ _. (on_gpu, some_state)))
        (paged_state-in_slot i j p.gpu (p.pages i) (p.slots j) old (ok.page i) out some_state)

  pub page_in-IsSame :
      (p : Pager V) (i j : ℕ) (s : Bool)
      → IsPager p
      → (p.pages i).slot ≡ none
      → (p.slots j).page ≡ none
      → j < p.n_slots
      → (s ≡ true → (p.gpu ≡ true) × (0 < s_nbytes (p.pages i)))
      → IsSame p (page_in p i j true s)
  unfolding page_in
  page_in-IsSame p i j s ok at empty in_range paged =
      let apart = IsApart-of_free p ok i j at empty in
      let home = ok.home i at in
      let h = paged-IsHeld i j s p.gpu (p.pages i) (p.slots j) home (ok.page i) paged in
      let pg = paged_page j s (p.pages i) in
      let sl = paged_slot i true s (p.pages i) (p.slots j) in
      changed p i j pg sl
        (set_both-IsPager p ok i j apart in_range pg sl (inside h)
          (paged-IsPage j s p.gpu (p.pages i) (ok.page i) paged))
        (set_both-view_other p ok i j apart in_range pg sl (inside h))
        (set_both-view_in p ok i j apart in_range pg sl (inside h) h
          ∙ paged-in_slot i j s p.gpu (p.pages i) (p.slots j) home (ok.page i) paged
          ∙ sym (look-home p.slots (p.pages i) home))

  leave-IsSame :
      (p : Pager V) (i j : ℕ)
      → IsPager p
      → (p.pages i).slot ≡ some j
      → (p.slots j).busy ≡ false
      → IsSame p (set_both p i j (sent_home (p.pages i)) (record (p.slots j) { page = none }))
  leave-IsSame p i j ok at free =
      let apart = IsApart-of_held p ok i j at in
      let old = ok.held i j at in
      let pg = sent_home (p.pages i) in
      let sl = record (p.slots j) { page = none } in
      let home = sent_home-IsAtHome p.gpu i j (p.pages i) (p.slots j) old.1 (ok.page i) in
      changed p i j pg sl
        (set_both-IsPager p ok i j apart old.0 pg sl (outside refl refl home)
          (sent_home-IsPage p.gpu (p.pages i) (ok.page i)))
        (set_both-view_other p ok i j apart old.0 pg sl (outside refl refl home))
        (set_both-view_out p ok i j apart old.0 pg sl (outside refl refl home) home
          ∙ sent_home-at_home i j (p.pages i) (p.slots j) old.1 (old.1.idle free)
          ∙ sym (look-held p.slots i j (p.pages i) (p.slots j) refl old.1))

  -- What is left when slot j is given up.
  pub record IsEvicted (p : Pager V) (j : ℕ) (q : Pager V) : Type 0 where
    pub same : IsSame p q
    pub empty : (q.slots j).page ≡ none
    pub at_home : (k : ℕ) → (p.pages k).slot ≡ none → q.pages k ≡ p.pages k
    pub stays_empty : (l : ℕ) → (p.slots l).page ≡ none → (q.slots l).page ≡ none
    pub busy : (l : ℕ) → (q.slots l).busy ≡ (p.slots l).busy

  evict-none : (p : Pager V) (j : ℕ) → (p.slots j).page ≡ none → evict p j ≡ p
  unfolding evict
  evict-none p j e =
      ap
        (λ o. elim o [
          | none ↦ p
          | some i ↦
              set_both p i j (sent_home (writeback p.gpu (p.slots j) (p.pages i)))
                (record (p.slots j) { page = none })
        ])
        e

  evict-some :
      (p : Pager V) (i j : ℕ)
      → (p.slots j).page ≡ some i
      → (p.pages i).dirty ≡ clean
      → evict p j ≡ set_both p i j (sent_home (p.pages i)) (record (p.slots j) { page = none })
  unfolding evict
  evict-some p i j e unchanged =
      ap
        (λ o. elim o [
          | none ↦ p
          | some i ↦
              set_both p i j (sent_home (writeback p.gpu (p.slots j) (p.pages i)))
                (record (p.slots j) { page = none })
        ])
        e
      ∙ ap (λ pg. set_both p i j (sent_home pg) (record (p.slots j) { page = none }))
          (writeback_clean p.gpu (p.slots j) (p.pages i) unchanged)

  leave-IsEvicted :
      (p : Pager V) (i j : ℕ)
      → IsPager p
      → (p.pages i).slot ≡ some j
      → (p.slots j).busy ≡ false
      → IsEvicted p j (set_both p i j (sent_home (p.pages i)) (record (p.slots j) { page = none }))
  leave-IsEvicted p i j ok at free = record {
    same = leave-IsSame p i j ok at free;
    empty =
        ap (λ (x : Slot V). x.page) (put_at-same p.slots j (record (p.slots j) { page = none }));
    at_home = λ k none_. elim (Bool-cases (k == i)) [
      | inl e ↦
          absurd (let wrong = sym none_ ∙ ap (λ x. (p.pages x).slot) ((==_iff k i).0 e) ∙ at in cc)
      | inr e ↦ put_at-other p.pages i (sent_home (p.pages i)) k e
    ];
    stays_empty =
        λ l e. elim (Bool-cases (l == j)) [ inl same ↦ rw same refl | inr other ↦ rw other e ];
    busy = λ l. elim (Bool-cases (l == j)) [
      | inl same ↦ rw ((==_iff l j).0 same, ==_refl j) refl
      | inr other ↦ rw other refl
    ];
  }

  -- Whatever a slot that is not busy holds leaves it.
  pub evict_lem :
      (p : Pager V) (j : ℕ) → IsPager p → (p.slots j).busy ≡ false → IsEvicted p j (evict p j)
  evict_lem p j ok free = elim (Option-cases (p.slots j).page) [
    | inl none_ ↦ subst (IsEvicted p j) (sym (evict-none p j none_)) (record {
      same = record { pager = ok; reads = λ k. refl; n_slots = refl; gpu = refl };
      empty = none_;
      at_home = λ k e. refl;
      stays_empty = λ l e. e;
      busy = λ l. refl;
    })
    | inr (i, at) ↦
        let slot_of = ok.back i j at in
        subst (IsEvicted p j) (sym (evict-some p i j at (ok.held i j slot_of).1.dirty))
          (leave-IsEvicted p i j ok slot_of free)
  ]
