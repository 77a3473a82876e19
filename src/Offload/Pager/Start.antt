-- ===== src/Offload/Pager/Start.antt =====
-- offload/pager.py, SlicePager.__init__: what a new pager is.
use torch_slicer.Common.{
  ℕ, ltb, max, Bool, false, not, ◌&&◌, ◌||◌, none, List, [], ◌∷◌, range, Result, ok, require, ◌>>◌,
  String, str_eq, ◌≤◌, ◌≡◌, refl, arith, >>-eq-ok,
}
use torch_slicer.Offload.Pager.{
  Page, Slot, Pager, clean, OffloadError, bad_mode, bad_optimizer, disk_steps_on_the_device,
  too_few_slots, no_directory, slot_bytes,
}
use torch_slicer.Offload.Pager.Batches.{ensure_cap}
use torch_slicer.Offload.Pager.Views.{View, view, IsPager}
use torch_slicer.Offload.Pager.Runs.{ensure_cap-IsSame}

-- What _Page takes of a slice: the sizes of its regions and what its tensors hold.
pub record Slice (V : Type 0) : Type 0 where
  pub pb_nbytes : ℕ
  pub buf_start : ℕ
  pub g_nbytes : ℕ
  pub state_nbytes : ℕ
  pub params : V
  pub buffer_values : V

-- The checks of SlicePager.__init__, on settings as they are written.
unfoldable pub check_settings :
    (mode optimizer_on directory : String) (n_slots : ℕ) → Result OffloadError (Unit {0})
check_settings mode optimizer_on directory n_slots =
    require (str_eq mode "cpu" || str_eq mode "disk") bad_mode
    >> (require (str_eq optimizer_on "gpu" || str_eq optimizer_on "cpu") bad_optimizer
        >> (require (not (str_eq mode "disk" && str_eq optimizer_on "cpu")) disk_steps_on_the_device
            >> (require (not (ltb n_slots 2)) too_few_slots
                >> require (not (str_eq mode "disk" && str_eq directory "")) no_directory)))

check_settings-slots :
    (mode optimizer_on directory : String) (n_slots : ℕ)
    → check_settings mode optimizer_on directory n_slots ≡ ok tt
    → 2 ≤ n_slots
unfolding check_settings
check_settings-slots mode optimizer_on directory n_slots returned = ground arith

module _ {V : Type 0} where
  -- _Page.__init__ and _make_home: the slice is at home, and its optimizer has made nothing
  abbrev pub new_page : Slice V → Page V
  new_page slice = record {
    pb_nbytes = slice.pb_nbytes;
    buf_start = slice.buf_start;
    g_nbytes = slice.g_nbytes;
    state_nbytes = slice.state_nbytes;
    s = none;
    params = slice.params;
    buffer_values = slice.buffer_values;
    state = none;
    slot = none;
    pb_at = none;
    s_at = none;
    state_in = false;
    dirty = clean;
  }

  -- _Slot.__init__
  abbrev pub new_slot : V → Slot V
  new_slot junk = record {
    cap = 0;
    page = none;
    busy = false;
    last = 0;
    params = junk;
    buffer_values = junk;
    state = junk;
  }

  -- max(pg.slot_bytes(False) for pg in pages), 0 without pages
  unfoldable pub largest_stateless : Pager V → List ℕ → ℕ
  largest_stateless p [] = 0
  largest_stateless p (i ∷ is) = max (slot_bytes (p.pages i) false) (largest_stateless p is)

  abbrev pub before_growth : V → Bool → ℕ → (ℕ → Slice V) → ℕ → Pager V
  before_growth junk gpu n_pages slices n_slots = record {
    gpu = gpu;
    n_pages = n_pages;
    n_slots = n_slots;
    pages = λ i. new_page (slices i);
    slots = λ j. new_slot junk;
    clock = 0;
  }

  -- SlicePager.__init__, of slices that share no tensors
  unfoldable pub new_pager :
      (mode optimizer_on directory : String) (n_slots : ℕ) (junk : V) (n_pages : ℕ)
      (slices : ℕ → Slice V)
      → Result OffloadError (Pager V)
  new_pager mode optimizer_on directory n_slots junk n_pages slices =
      check_settings mode optimizer_on directory n_slots
      >> (let p = before_growth junk (str_eq optimizer_on "gpu") n_pages slices n_slots in
          ensure_cap junk p (largest_stateless p (range 0 n_pages)))

  before_growth-IsPager :
      (junk : V) (gpu : Bool) (n_pages : ℕ) (slices : ℕ → Slice V) (n_slots : ℕ)
      → IsPager (before_growth junk gpu n_pages slices n_slots)
  before_growth-IsPager junk gpu n_pages slices n_slots = record {
    held = λ i j at. absurd (cc);
    home = λ i _. record { pb_at = refl; s_at = refl; state_in = refl; dirty = refl };
    back = λ i j at. absurd (cc);
    page = λ i. record { made = λ h. absurd (omega arith); paged = λ e. absurd (cc) };
  }

  -- What a slice reads as before the first batch.
  abbrev pub first_view : Slice V → View V
  first_view slice = record {
    params = slice.params;
    buffer_values = slice.buffer_values;
    state = none;
  }

  -- A new pager has two slots or more, is as a pager is between two calls, and every slice reads as it
  -- was given.
  pub new_pager_lem :
      (mode optimizer_on directory : String) (n_slots : ℕ) (junk : V) (n_pages : ℕ)
      (slices : ℕ → Slice V) (p : Pager V)
      → new_pager mode optimizer_on directory n_slots junk n_pages slices ≡ ok p
      → IsPager p × (2 ≤ p.n_slots) × ((i : ℕ) → view p i ≡ first_view (slices i))
  unfolding new_pager
  new_pager_lem mode optimizer_on directory n_slots junk n_pages slices p returned =
      let (checked, grown) =
        >>-eq-ok (check_settings mode optimizer_on directory n_slots) _ returned in
      let fresh = before_growth junk (str_eq optimizer_on "gpu") n_pages slices n_slots in
      let same =
        ensure_cap-IsSame junk fresh p (largest_stateless fresh (range 0 n_pages))
          (before_growth-IsPager junk (str_eq optimizer_on "gpu") n_pages slices n_slots) grown in
      let enough = check_settings-slots mode optimizer_on directory n_slots checked in
      let count = same.n_slots in (same.pager, omega arith, same.reads)
