-- ===== src/Offload/Pager/Calls.antt =====
-- offload/pager.py, _evict, _page_in and release: the pager stays one, and the slices read as before.
use torch_slicer.Common.{ℕ, ◌<◌, ◌≤◌, ◌≡◌, refl, Bool, true, false, some, arith}
use torch_slicer.Offload.Pager.{
  Page, Slot, Dirty, clean, buffers, all, writeback, marked, sent_home, paged_page, paged_slot,
  s_nbytes,
}
use torch_slicer.Offload.Pager.Views.{at_home, in_slot, IsAtHome, IsHeld, IsPage, IsSynced}

module _ {V : Type 0} where
  -- A page with nothing to copy is as it was.
  pub writeback_clean :
      (gpu : Bool) (sl : Slot V) (pg : Page V) → pg.dirty ≡ clean → writeback gpu sl pg ≡ pg
  writeback_clean gpu sl pg e = ground arith

  -- A slice that leaves its slot, when its home is in step with it.
  pub sent_home-IsAtHome :
      (gpu : Bool) (i j : ℕ) (pg : Page V) (sl : Slot V)
      → IsHeld i j pg sl
      → IsPage gpu pg
      → IsAtHome (sent_home pg)
  sent_home-IsAtHome gpu i j pg sl h page = record {
    pb_at = refl;
    s_at = ground arith;
    state_in = refl;
    dirty = h.dirty;
  }

  -- What the caller of release says changed is what changed since the last copy.
  abbrev pub IsHonest : Dirty → Page V → Slot V → Type 0
  IsHonest clean pg sl = IsSynced pg sl
  IsHonest buffers pg sl =
      (pg.params ≡ sl.params)
      × ((pg.state_in ≡ true → pg.state ≡ some sl.state)
          × (pg.pb_nbytes ≤ pg.buf_start → pg.buffer_values ≡ sl.buffer_values))
  IsHonest all pg sl = Unit

  pub released-IsHeld :
      (gpu : Bool) (i j : ℕ) (d : Dirty) (pg : Page V) (sl : Slot V)
      → IsHeld i j pg sl
      → IsPage gpu pg
      → IsHonest d pg sl
      → IsHeld i j (writeback gpu sl (marked d pg)) (record sl { busy = false })
  released-IsHeld gpu i j clean pg sl h page honest = ground arith
  released-IsHeld gpu i j buffers pg sl h page honest = ground arith
  released-IsHeld gpu i j all pg sl h page honest = ground arith

  pub released-IsPage :
      (gpu : Bool) (d : Dirty) (pg : Page V) (sl : Slot V)
      → pg.dirty ≡ clean
      → IsPage gpu pg
      → IsPage gpu (writeback gpu sl (marked d pg))
  released-IsPage gpu clean pg sl e page = record { made = ground arith; paged = ground arith }
  released-IsPage gpu buffers pg sl e page = record { made = ground arith; paged = ground arith }
  released-IsPage gpu all pg sl e page = record { made = ground arith; paged = ground arith }

  -- What is in the slot is what was in it.
  pub released-in_slot :
      (gpu : Bool) (i j : ℕ) (d : Dirty) (pg : Page V) (sl : Slot V)
      → IsHeld i j pg sl
      → in_slot (writeback gpu sl (marked d pg)) (record sl { busy = false }) ≡ in_slot pg sl
  released-in_slot gpu i j clean pg sl h = ground arith
  released-in_slot gpu i j buffers pg sl h = ground arith
  released-in_slot gpu i j all pg sl h = ground arith

  pub sent_home-at_home :
      (i j : ℕ) (pg : Page V) (sl : Slot V)
      → IsHeld i j pg sl
      → IsSynced pg sl
      → at_home (sent_home pg) ≡ in_slot pg sl
  sent_home-at_home i j pg sl h synced = ground arith

  pub sent_home-IsPage : (gpu : Bool) (pg : Page V) → IsPage gpu pg → IsPage gpu (sent_home pg)
  sent_home-IsPage gpu pg page = record { made = page.made; paged = ground arith }

  -- A slice that is paged into an empty slot.
  pub paged-IsHeld :
      (i j : ℕ) (s gpu : Bool) (pg : Page V) (sl : Slot V)
      → IsAtHome pg
      → IsPage gpu pg
      → (s ≡ true → (gpu ≡ true) × (0 < s_nbytes pg))
      → IsHeld i j (paged_page j s pg) (paged_slot i true s pg sl)
  paged-IsHeld i j s gpu pg sl home page paged = ground arith

  pub paged-IsPage :
      (j : ℕ) (s gpu : Bool) (pg : Page V)
      → IsPage gpu pg
      → (s ≡ true → (gpu ≡ true) × (0 < s_nbytes pg))
      → IsPage gpu (paged_page j s pg)
  paged-IsPage j s gpu pg page paged = record { made = page.made; paged = ground arith }

  pub paged-in_slot :
      (i j : ℕ) (s gpu : Bool) (pg : Page V) (sl : Slot V)
      → IsAtHome pg
      → IsPage gpu pg
      → (s ≡ true → (gpu ≡ true) × (0 < s_nbytes pg))
      → in_slot (paged_page j s pg) (paged_slot i true s pg sl) ≡ at_home pg
  paged-in_slot i j s gpu pg sl home page paged = ground arith

  -- The state of a slice that is in its slot already.
  pub paged_state-IsHeld :
      (i j : ℕ) (gpu : Bool) (pg : Page V) (sl : Slot V)
      → IsHeld i j pg sl
      → IsPage gpu pg
      → pg.state_in ≡ false
      → 0 < s_nbytes pg
      → IsHeld i j (paged_page j true pg) (paged_slot i false true pg sl)
  paged_state-IsHeld i j gpu pg sl h page out some_state = ground arith

  pub paged_state-in_slot :
      (i j : ℕ) (gpu : Bool) (pg : Page V) (sl : Slot V)
      → IsHeld i j pg sl
      → IsPage gpu pg
      → pg.state_in ≡ false
      → 0 < s_nbytes pg
      → in_slot (paged_page j true pg) (paged_slot i false true pg sl) ≡ in_slot pg sl
  paged_state-in_slot i j gpu pg sl h page out some_state = ground arith
