-- ===== src/Offload/Pager/Writes.antt =====
-- offload/pager.py: what a computation on a slice, and a step on the host, change.
use torch_slicer.Common.{
  ℕ, ◌≡◌, refl, sym, ap, ◌∙◌, subst, Bool, true, false, Option, none, some, arith, Bool-cases, inl,
  inr, ==_iff, ◌==◌, if◌then◌else◌, Option-cases, is_some, ok, ok_injective,
}
use torch_slicer.Offload.Pager.{buffers, Page, Slot, Pager, put_at, set_both}
use torch_slicer.Offload.Pager.Batches.{stepped_page, step_from, step_on_cpu}
use torch_slicer.Offload.Pager.Views.{
  IsAtHome, at_home, View, view, in_slot, IsHeld, IsPage, IsPager,
}
use torch_slicer.Offload.Pager.Moves.{
  look-held, set_both-view_out, outside, IsApart-of_held, inside, set_both-IsPager,
  set_both-view_other, set_both-view_in,
}
use torch_slicer.Offload.Pager.Calls.{IsHonest}

module _ {V : Type 0} where
  abbrev from_some : V → Option V → V
  from_some v none = v
  from_some v (some w) = w

  -- A computation writes what its slice holds, through where the tensors point: into the slot, and the
  -- optimizer's state wherever that is.
  abbrev pub written : Pager V → ℕ → ℕ → View V → Pager V
  written p i j w =
      set_both p i j
        (record (p.pages i) { state = if (p.pages i).state_in then (p.pages i).state else w.state })
        (record (p.slots j) {
          params = w.params;
          buffer_values = w.buffer_values;
          state =
              if (p.pages i).state_in
              then from_some (p.slots j).state w.state
              else (p.slots j).state;
        })

  -- The optimizer's tensors do not vanish.
  abbrev pub KeepsState : View V → View V → Type 0
  KeepsState old new = is_some old.state ≡ true → is_some new.state ≡ true

  -- What a slice holds after its optimizer's step on the host.
  abbrev pub step_view : (V → V) → View V → View V
  step_view step v = record v { params = step v.params }

  -- One slice reads as `w`, and the others as before.
  one_changed :
      (p : Pager V) (i : ℕ) (q : Pager V) (w : View V)
      → view q i ≡ w
      → ((k : ℕ) → (k == i) ≡ false → view q k ≡ view p k)
      → (k : ℕ) → view q k ≡ put_at (view p) i w k
  one_changed p i q w now others k = elim (Bool-cases (k == i)) [
    | inl same ↦
        subst (λ x. view q x ≡ w) (sym ((==_iff k i).0 same)) now
        ∙ sym (ap (λ b. if b then w else view p k) same)
    | inr other ↦ others k other ∙ sym (ap (λ b. if b then w else view p k) other)
  ]

  written-IsHeld :
      (i j : ℕ) (pg : Page V) (sl : Slot V) (w : View V)
      → IsHeld i j pg sl
      → sl.busy ≡ true
      → IsHeld i j
          (record pg { state = if pg.state_in then pg.state else w.state })
          (record sl {
            params = w.params;
            buffer_values = w.buffer_values;
            state = if pg.state_in then from_some sl.state w.state else sl.state;
          })
  written-IsHeld i j pg sl w h busy = record {
    slot = h.slot;
    holds = h.holds;
    pb_at = h.pb_at;
    dirty = h.dirty;
    s_at = h.s_at;
    has_state = h.has_state;
    idle = λ free. absurd (let wrong = sym busy ∙ free in cc);
  }

  written-IsPage :
      (gpu : Bool) (pg : Page V) (sl : Slot V) (w : View V)
      → IsPage gpu pg
      → KeepsState (in_slot pg sl) w
      → IsPage gpu (record pg { state = if pg.state_in then pg.state else w.state })
  written-IsPage gpu pg sl w page keeps = record { made = ground arith; paged = page.paged }

  written-in_slot :
      (pg : Page V) (sl : Slot V) (w : View V)
      → KeepsState (in_slot pg sl) w
      → in_slot
          (record pg { state = if pg.state_in then pg.state else w.state })
          (record sl {
            params = w.params;
            buffer_values = w.buffer_values;
            state = if pg.state_in then from_some sl.state w.state else sl.state;
          })
        ≡ w
  written-in_slot pg sl w keeps = ground arith

  pub written-lem :
      (p : Pager V) (i j : ℕ) (w : View V)
      → IsPager p
      → (p.pages i).slot ≡ some j
      → (p.slots j).busy ≡ true
      → KeepsState (view p i) w
      → IsPager (written p i j w) × ((k : ℕ) → view (written p i j w) k ≡ put_at (view p) i w k)
  written-lem p i j w pager at busy keeps =
      let (lt, old) = pager.held i j at in
      let apart = IsApart-of_held p pager i j at in
      let pg = record (p.pages i) {
        state = if (p.pages i).state_in then (p.pages i).state else w.state;
      } in
      let sl = record (p.slots j) {
        params = w.params;
        buffer_values = w.buffer_values;
        state =
            if (p.pages i).state_in then from_some (p.slots j).state w.state else (p.slots j).state;
      } in
      let h = written-IsHeld i j (p.pages i) (p.slots j) w old busy in
      let keeps_in =
        subst (λ v. KeepsState v w) (look-held p.slots i j (p.pages i) (p.slots j) refl old)
          keeps in
      let reads_i =
        set_both-view_in p pager i j apart lt pg sl (inside h) h
        ∙ written-in_slot (p.pages i) (p.slots j) w keeps_in in
      (
        set_both-IsPager p pager i j apart lt pg sl (inside h)
            (written-IsPage p.gpu (p.pages i) (p.slots j) w (pager.page i) keeps_in),
        one_changed p i (written p i j w) w reads_i
            (set_both-view_other p pager i j apart lt pg sl (inside h)),
      )

  stepped-IsAtHome :
      (gpu : Bool) (i j : ℕ) (step : V → V) (pg : Page V) (sl : Slot V)
      → IsHeld i j pg sl
      → IsPage gpu pg
      → gpu ≡ false
      → IsAtHome (stepped_page step pg sl)
  stepped-IsAtHome gpu i j step pg sl h page host = ground arith

  stepped-IsPage :
      (gpu : Bool) (step : V → V) (pg : Page V) (sl : Slot V)
      → IsPage gpu pg
      → IsPage gpu (stepped_page step pg sl)
  stepped-IsPage gpu step pg sl page = record { made = page.made; paged = page.paged }

  stepped-at_home :
      (gpu : Bool) (i j : ℕ) (step : V → V) (pg : Page V) (sl : Slot V)
      → IsHeld i j pg sl
      → IsPage gpu pg
      → gpu ≡ false
      → IsHonest buffers pg sl
      → at_home (stepped_page step pg sl) ≡ step_view step (in_slot pg sl)
  stepped-at_home gpu i j step pg sl h page host honest = ground arith

  pub step_on_cpu-lem :
      (p q : Pager V) (i : ℕ) (step : V → V)
      → IsPager p
      → p.gpu ≡ false
      → ((j : ℕ) → (p.pages i).slot ≡ some j → IsHonest buffers (p.pages i) (p.slots j))
      → step_on_cpu p i step ≡ ok q
      → IsPager q × ((k : ℕ) → view q k ≡ put_at (view p) i (step_view step (view p i)) k)
  unfolding step_on_cpu
  step_on_cpu-lem p q i step pager host honest returned = elim (Option-cases (p.pages i).slot) [
    | inl none_ ↦ absurd (let wrong = sym (ap (step_from p i step) none_) ∙ returned in cc)
    | inr (j, at) ↦
        let (lt, old) = pager.held i j at in
        let apart = IsApart-of_held p pager i j at in
        let pg = stepped_page step (p.pages i) (p.slots j) in
        let sl = record (p.slots j) { busy = false; page = none } in
        let home =
          stepped-IsAtHome p.gpu i j step (p.pages i) (p.slots j) old (pager.page i) host in
        let now =
          set_both-view_out p pager i j apart lt pg sl (outside refl refl home) home
          ∙ stepped-at_home p.gpu i j step (p.pages i) (p.slots j) old (pager.page i) host
              (honest j at)
          ∙ ap (step_view step) (sym (look-held p.slots i j (p.pages i) (p.slots j) refl old)) in
        subst
          (λ r. IsPager r × ((k : ℕ) → view r k ≡ put_at (view p) i (step_view step (view p i)) k))
          (ok_injective (sym (ap (step_from p i step) at) ∙ returned))
          (
            set_both-IsPager p pager i j apart lt pg sl (outside refl refl home)
                (stepped-IsPage p.gpu step (p.pages i) (p.slots j) (pager.page i)),
            one_changed p i (set_both p i j pg sl) (step_view step (view p i)) now
                (set_both-view_other p pager i j apart lt pg sl (outside refl refl home)),
          )
  ]
