-- ===== src/Offload/Pager/Runs.antt =====
-- offload/pager.py: the calls that an executor makes of a pager, one after the other.
use torch_slicer.Common.{
  ℕ, suc, ◌≡◌, refl, sym, ap, ◌∙◌, subst, Bool, true, false, Option, none, some, inl, inr,
  Option-cases, range, ok, ok_injective, >>=-eq-ok, >>-eq-ok, require,
}
use torch_slicer.Offload.Pager.{
  Pager, Dirty, fetch_if_out, acquire, take_slot, release, release_from,
}
use torch_slicer.Offload.Pager.Batches.{
  flush, grow, grow_unless, flush_if, end_batch_if, ensure_cap, end_batch, new_buffer,
  any_new_state, largest,
}
use torch_slicer.Offload.Pager.Views.{IsPager}
use torch_slicer.Offload.Pager.Moves.{look-home}
use torch_slicer.Offload.Pager.Calls.{IsHonest}
use torch_slicer.Offload.Pager.Paging.{IsSame, IsSame-trans, changed_inside, release_from-IsSame}
use torch_slicer.Offload.Pager.Transparent.{IsSame-refl, fetch-IsSame, flush_lem}

module _ {V : Type 0} where
  take_slot-IsSame :
      (p q : Pager V) (i : ℕ) → IsPager p → take_slot p i (p.pages i).slot ≡ ok q → IsSame p q
  take_slot-IsSame p q i pager returned = elim (Option-cases (p.pages i).slot) [
    | inl none_ ↦ absurd (let wrong = sym (ap (take_slot p i) none_) ∙ returned in cc)
    | inr (j, at) ↦
        let h = (pager.held i j at).1 in
        let sl = record (p.slots j) { busy = true; last = suc p.clock } in
        let busy =
          changed_inside p i j (p.pages i) sl pager at
            (record {
              slot = h.slot;
              holds = h.holds;
              pb_at = h.pb_at;
              dirty = h.dirty;
              s_at = h.s_at;
              has_state = h.has_state;
              idle = λ wrong. absurd (cc);
            })
            (pager.page i) refl in
        subst (IsSame p) (ok_injective (sym (ap (take_slot p i) at) ∙ returned)) (record {
          pager = record {
            held = busy.pager.held;
            home = busy.pager.home;
            back = busy.pager.back;
            page = busy.pager.page;
          };
          reads = busy.reads;
          n_slots = refl;
          gpu = refl;
        })
  ]

  fetch_if_out-IsSame :
      (p q : Pager V) (i : ℕ) (grads : Bool) (o : Option ℕ)
      → IsPager p
      → fetch_if_out p i grads o ≡ ok q
      → IsSame p q
  fetch_if_out-IsSame p q i grads (some j) pager e =
      subst (IsSame p) (ok_injective e) (IsSame-refl p pager)
  fetch_if_out-IsSame p q i grads none pager e = fetch-IsSame p q i grads pager e

  pub acquire-IsSame :
      (p q : Pager V) (i : ℕ) (grads : Bool) → IsPager p → acquire p i grads ≡ ok q → IsSame p q
  unfolding acquire
  acquire-IsSame p q i grads pager returned =
      let step = (>>-eq-ok (require _ _) _ returned).1 in
      let (mid, fetched, taken_) = >>=-eq-ok (fetch_if_out p i grads (p.pages i).slot) _ step in
      let same = fetch_if_out-IsSame p mid i grads (p.pages i).slot pager fetched in
      IsSame-trans p mid q same (take_slot-IsSame mid q i same.pager taken_)

  pub release-IsSame :
      (p q : Pager V) (i : ℕ) (d : Dirty)
      → IsPager p
      → ((j : ℕ) → (p.pages i).slot ≡ some j → IsHonest d (p.pages i) (p.slots j))
      → release p i d ≡ ok q
      → IsSame p q
  unfolding release
  release-IsSame p q i d pager honest returned = elim (Option-cases (p.pages i).slot) [
    | inl none_ ↦ absurd (let wrong = sym (ap (release_from p i d) none_) ∙ returned in cc)
    | inr (j, at) ↦
        subst (IsSame p) (ok_injective (sym (ap (release_from p i d) at) ∙ returned))
          (release_from-IsSame p i j d pager at (honest j at))
  ]

  -- New buffers for slots that are all empty.
  rebuffer-IsSame :
      (junk : V) (nbytes : ℕ) (q : Pager V)
      → IsPager q
      → ((i : ℕ) → (q.pages i).slot ≡ none)
      → IsSame q (record q { slots = λ j. new_buffer junk nbytes (q.slots j) })
  rebuffer-IsSame junk nbytes q pager out = record {
    pager = record {
      held = λ i j at. absurd (let wrong = sym (out i) ∙ at in cc);
      home = pager.home;
      back = pager.back;
      page = pager.page;
    };
    reads = λ k.
        look-home (λ j. new_buffer junk nbytes (q.slots j)) (q.pages k) (pager.home k (out k))
        ∙ sym (look-home q.slots (q.pages k) (pager.home k (out k)));
    n_slots = refl;
    gpu = refl;
  }

  grow_unless-IsSame :
      (junk : V) (p q : Pager V) (nbytes : ℕ) (enough : Bool)
      → IsPager p
      → grow_unless junk p nbytes enough ≡ ok q
      → IsSame p q
  grow_unless-IsSame junk p q nbytes true pager returned =
      subst (IsSame p) (ok_injective returned) (IsSame-refl p pager)
  grow_unless-IsSame junk p q nbytes false pager returned =
      let step = (>>-eq-ok (require _ _) _ returned).1 in
      let (mid, flushed, grown) = >>=-eq-ok (flush p) _ step in
      let (same, out) = flush_lem p mid pager flushed in
      let after = record mid { slots = λ j. new_buffer junk nbytes (mid.slots j) } in
      subst (IsSame p) (ok_injective grown) (
        IsSame-trans p mid after same (rebuffer-IsSame junk nbytes mid same.pager (λ i. (out i).0)))

  pub ensure_cap-IsSame :
      (junk : V) (p q : Pager V) (nbytes : ℕ)
      → IsPager p
      → ensure_cap junk p nbytes ≡ ok q
      → IsSame p q
  unfolding ensure_cap grow
  ensure_cap-IsSame junk p q nbytes pager returned = grow_unless-IsSame junk p q _ _ pager returned

  flush_if-IsSame : (p q : Pager V) (new : Bool) → IsPager p → flush_if p new ≡ ok q → IsSame p q
  flush_if-IsSame p q true pager returned = (flush_lem p q pager returned).0
  flush_if-IsSame p q false pager returned =
      subst (IsSame p) (ok_injective returned) (IsSame-refl p pager)

  end_batch_if-IsSame :
      (junk : V) (p q : Pager V) (on_gpu : Bool)
      → IsPager p
      → end_batch_if junk p on_gpu ≡ ok q
      → IsSame p q
  end_batch_if-IsSame junk p q false pager returned =
      subst (IsSame p) (ok_injective returned) (IsSame-refl p pager)
  end_batch_if-IsSame junk p q true pager returned =
      let new = any_new_state p (range 0 p.n_pages) in
      let (mid, flushed, grown) =
        >>=-eq-ok (flush_if p new) (λ r. ensure_cap junk r (largest r (range 0 r.n_pages)))
          returned in
      let same = flush_if-IsSame p mid new pager flushed in
      IsSame-trans p mid q same
        (ensure_cap-IsSame junk mid q (largest mid (range 0 mid.n_pages)) same.pager grown)

  pub end_batch-IsSame :
      (junk : V) (p q : Pager V) → IsPager p → end_batch junk p ≡ ok q → IsSame p q
  unfolding end_batch
  end_batch-IsSame junk p q pager returned = end_batch_if-IsSame junk p q p.gpu pager returned
