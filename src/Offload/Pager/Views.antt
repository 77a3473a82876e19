-- ===== src/Offload/Pager/Views.antt =====
-- offload/pager.py: what the tensors of a slice hold, wherever they point, and the state of a pager
-- between two calls.
use torch_slicer.Common.{ℕ, ◌<◌, ◌≡◌, Bool, true, false, Option, none, some, if◌then◌else◌, is_some}
use torch_slicer.Offload.Pager.{Page, Slot, Pager, clean, s_nbytes}

-- What a slice's parameters, buffers and optimizer state hold.
pub record View (V : Type 0) : Type 0 where
  pub params : V
  pub buffer_values : V
  pub state : Option V

module _ {V : Type 0} where
  -- What the tensors of a page read as: through where they point.
  abbrev pub look : (ℕ → Slot V) → Page V → View V
  look slots pg = record {
    params = elim pg.pb_at [ none ↦ pg.params | some j ↦ (slots j).params ];
    buffer_values = elim pg.pb_at [ none ↦ pg.buffer_values | some j ↦ (slots j).buffer_values ];
    state = elim pg.s_at [ none ↦ pg.state | some j ↦ some (slots j).state ];
  }

  abbrev pub view : Pager V → ℕ → View V
  view p i = look p.slots (p.pages i)

  -- What is at the home of a page, and what is in its slot.
  abbrev pub at_home : Page V → View V
  at_home pg = record { params = pg.params; buffer_values = pg.buffer_values; state = pg.state }

  abbrev pub in_slot : Page V → Slot V → View V
  in_slot pg sl = record {
    params = sl.params;
    buffer_values = sl.buffer_values;
    state = if pg.state_in then some sl.state else pg.state;
  }

  -- The home of slice i holds what slot j does.
  pub record IsSynced (pg : Page V) (sl : Slot V) : Type 0 where
    pub params : pg.params ≡ sl.params
    pub buffer_values : pg.buffer_values ≡ sl.buffer_values
    pub state : pg.state_in ≡ true → pg.state ≡ some sl.state

  -- A slice at home.
  pub record IsAtHome (pg : Page V) : Type 0 where
    pub pb_at : pg.pb_at ≡ none
    pub s_at : pg.s_at ≡ none
    pub state_in : pg.state_in ≡ false
    pub dirty : pg.dirty ≡ clean

  -- Slice i in slot j.
  pub record IsHeld (i j : ℕ) (pg : Page V) (sl : Slot V) : Type 0 where
    pub slot : pg.slot ≡ some j
    pub holds : sl.page ≡ some i
    pub pb_at : pg.pb_at ≡ some j
    pub dirty : pg.dirty ≡ clean
    pub s_at : pg.s_at ≡ (if pg.state_in then some j else none)
    pub has_state : pg.state_in ≡ true → 0 < s_nbytes pg
    pub idle : sl.busy ≡ false → IsSynced pg sl

  -- What holds of a slice wherever it is: a layout of some bytes is that of a state that was made,
  -- and the state is paged with the slice only where the optimizer steps on the device.
  pub record IsPage (gpu : Bool) (pg : Page V) : Type 0 where
    pub made : 0 < s_nbytes pg → is_some pg.state ≡ true
    pub paged : pg.state_in ≡ true → gpu ≡ true

  -- A pager between two calls.
  pub record IsPager (p : Pager V) : Type 0 where
    pub held :
        (i j : ℕ) → (p.pages i).slot ≡ some j → (j < p.n_slots) × IsHeld i j (p.pages i) (p.slots j)
    pub home : (i : ℕ) → (p.pages i).slot ≡ none → IsAtHome (p.pages i)
    pub back : (i j : ℕ) → (p.slots j).page ≡ some i → (p.pages i).slot ≡ some j
    pub page : (i : ℕ) → IsPage p.gpu (p.pages i)
