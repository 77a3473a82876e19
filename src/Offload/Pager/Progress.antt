-- ===== src/Offload/Pager/Progress.antt =====
-- offload/pager.py: fetch and acquire succeed while a slot is free and no slice outgrew the slots.
use torch_slicer.Common.{
  and-eq-true, ℕ, ◌<◌, ◌≤◌, ◌≡◌, refl, sym, ap, ◌∙◌, subst, Bool, true, false, not, ◌&&◌, none,
  some, arith, inl, inr, leb_iff, ltb_iff, Option-cases, Result, ok, ◌>>◌, ◌>>=◌, require, ◌⊎◌,
}
use torch_slicer.Offload.Pager.{
  Page, Pager, OffloadError, no_such_slice, outgrew_the_slots, s_nbytes, slot_bytes, victim, evict,
  page_in, want_state, bring_state, fetch_new, fetch_from, fetch, paged_page,
}
use torch_slicer.Offload.Pager.Views.{IsPager}
use torch_slicer.Offload.Pager.Moves.{put_at-same}
use torch_slicer.Offload.Pager.Victim.{victim-returns, victim_lem}
use torch_slicer.Offload.Pager.Paging.{evict_lem}

module _ {V : Type 0} where
  -- Every slot holds any slice with its state.
  abbrev pub Fits : Pager V → Type 0
  Fits p = (i j : ℕ) → slot_bytes (p.pages i) true ≤ (p.slots j).cap

  -- What a fetch that returns leaves: the slice is in a slot, with its state where that was wanted.
  abbrev pub Fetched : Pager V → ℕ → Bool → Result OffloadError (Pager V) → Type 0
  Fetched p i want result =
      (q : Pager V) × ((result ≡ ok q)
        × ((j : ℕ) × (((q.pages i).slot ≡ some j) × (want ≡ true → (q.pages i).state_in ≡ true))))

  paged_in :
      (p : Pager V) (i j : ℕ) (pb s : Bool)
      → (page_in p i j pb s).pages i ≡ paged_page j s (p.pages i)
  unfolding page_in
  paged_in p i j pb s = put_at-same p.pages i (paged_page j s (p.pages i))

  state_paged :
      (j : ℕ) (want : Bool) (pg : Page V)
      → (want ≡ true → 0 < s_nbytes pg)
      → want ≡ true
      → (paged_page j want pg).state_in ≡ true
  state_paged j want pg some_state e = ground arith

  bring_state-returns :
      (p : Pager V) (i j : ℕ) (want missing : Bool)
      → Fits p
      → (p.pages i).slot ≡ some j
      → (missing ≡ true → 0 < s_nbytes (p.pages i))
      → (missing ≡ false → want ≡ true → (p.pages i).state_in ≡ true)
      → Fetched p i want (bring_state p i j missing)
  bring_state-returns p i j want false fits at some_state there = (p, (refl, (j, (at, there refl))))
  bring_state-returns p i j want true fits at some_state there =
      let in_page = paged_in p i j false true in
      let enough = (leb_iff (slot_bytes (p.pages i) true) (p.slots j).cap).1 (fits i j) in
      (
        page_in p i j false true,
        (
          ap (λ b. require b outgrew_the_slots >> ok (page_in p i j false true)) enough,
          (
            j,
            (
              ap (λ (pg : Page V). pg.slot) in_page,
              λ _.
                  ap (λ (pg : Page V). pg.state_in) in_page
                  ∙ state_paged j true (p.pages i) some_state refl,
            ),
          ),
        ),
      )

  fetch_new-returns :
      (p : Pager V) (i l : ℕ) (want : Bool)
      → IsPager p
      → Fits p
      → (p.pages i).slot ≡ none
      → l < p.n_slots
      → (p.slots l).busy ≡ false
      → (want ≡ true → 0 < s_nbytes (p.pages i))
      → Fetched p i want (fetch_new p i want)
  fetch_new-returns p i l want pager fits at lt free some_state =
      let (j, chosen) = victim-returns p l lt free in
      let kept = (evict_lem p j pager (victim_lem p j chosen).idle).at_home i at in
      let in_page = paged_in (evict p j) i j true want ∙ ap (paged_page j want) kept in
      let enough =
        (leb_iff (slot_bytes (p.pages i) want) (p.slots 0).cap).1
          (fits_less (p.pages i) want (p.slots 0).cap (fits i 0)) in
      (
        page_in (evict p j) i j true want,
        (
          ap
                (λ b.
                  require b outgrew_the_slots
                  >> (victim p >>= λ j. ok (page_in (evict p j) i j true want)))
                enough
              ∙ ap (λ r. r >>= λ j. ok (page_in (evict p j) i j true want)) chosen,
          (
            j,
            (
              ap (λ (pg : Page V). pg.slot) in_page,
              λ e.
                  ap (λ (pg : Page V). pg.state_in) in_page
                  ∙ state_paged j want (p.pages i) some_state e,
            ),
          ),
        ),
      )
    where
      fits_less :
          (pg : Page V) (want : Bool) (cap : ℕ)
          → slot_bytes pg true ≤ cap
          → slot_bytes pg want ≤ cap
      fits_less pg true cap h = h
      fits_less pg false cap h = omega arith

  -- While a slot is free and the slots hold any slice with its state, fetch returns, and leaves the
  -- slice in a slot, with its state if the state is wanted and there is one on the device.
  pub fetch-returns :
      (p : Pager V) (i l : ℕ) (state : Bool)
      → IsPager p
      → Fits p
      → i < p.n_pages
      → l < p.n_slots
      → (p.slots l).busy ≡ false
      → Fetched p i (want_state p i state) (fetch p i state)
  unfolding fetch
  fetch-returns p i l state pager fits known lt free =
      let want = want_state p i state in
      let some_state : want ≡ true → 0 < s_nbytes (p.pages i) = λ e. ground arith in
      let (q, (returned, rest)) = from_slot (Option-cases (p.pages i).slot) some_state in
      (
        q,
        (
          ap (λ b. require b no_such_slice >> fetch_from p i want (p.pages i).slot)
                ((ltb_iff i p.n_pages).1 known)
              ∙ returned,
          rest,
        ),
      )
    where
      missing : (want inside : Bool) → (want && not inside) ≡ false → want ≡ true → inside ≡ true
      missing true true e w = refl
      missing true false e w = absurd (cc)
      missing false inside e w = absurd (cc)

      from_slot :
          ((p.pages i).slot ≡ none) ⊎ ((j : ℕ) × ((p.pages i).slot ≡ some j))
          → (want_state p i state ≡ true → 0 < s_nbytes (p.pages i))
          → Fetched p i
              (want_state p i state)
              (fetch_from p i (want_state p i state) (p.pages i).slot)
      from_slot (inl none_) some_state =
          subst (λ o. Fetched p i (want_state p i state) (fetch_from p i (want_state p i state) o))
            (sym none_)
            (fetch_new-returns p i l (want_state p i state) pager fits none_ lt free some_state)
      from_slot (inr (j, at)) some_state =
          subst (λ o. Fetched p i (want_state p i state) (fetch_from p i (want_state p i state) o))
            (sym at)
            (bring_state-returns p i j (want_state p i state)
              (want_state p i state && not (p.pages i).state_in) fits at
              (λ e. some_state (and-eq-true (want_state p i state) (not (p.pages i).state_in) e).0)
              (missing (want_state p i state) (p.pages i).state_in))
