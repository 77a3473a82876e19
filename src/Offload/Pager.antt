-- ===== src/Offload/Pager.antt =====
-- offload/pager.py, SlicePager: the slices of a model take turns in the slots of a device, on a device
-- without streams and with homes in host memory.
pub mod Views
pub mod Moves
pub mod Calls
pub mod Paging
pub mod Victim
pub mod Transparent
pub mod Progress
pub mod Runs
pub mod Writes
pub mod Reach
pub mod Batches
pub mod Start
mod Examples
use torch_slicer.Common.{
  String, str_eq, ℕ, zero, suc, ◌+◌, ◌==◌, ltb, leb, max, Bool, true, false, not, ◌&&◌, ◌||◌,
  Option, none, some, List, [], ◌∷◌, if◌then◌else◌, range, Result, ok, raise, require, ◌>>=◌, ◌>>◌,
  is_some, String, str_eq,
}
use torch_slicer.Offload.{alignment, round_up}

-- What changed in a slot since it was last copied home.
pub data Dirty : Type 0 where
  clean buffers all : Dirty

pub data OffloadError : Type 0 where
  every_slot_in_use outgrew_the_slots grow_while_busy flush_while_busy no_such_slice not_resident
        bad_mode bad_optimizer disk_steps_on_the_device too_few_slots no_directory :
      OffloadError

-- _Page, with what its home holds. `state` is what the optimizer's tensors hold outside the slots, if
-- the optimizer made any, and `s` the size of their layout once it is made. `pb_at` and `s_at` are the
-- slots that the slice's tensors and those of its optimizer point into; `none` is home.
pub record Page (V : Type 0) : Type 0 where
  pub pb_nbytes : ℕ
  pub buf_start : ℕ
  pub g_nbytes : ℕ
  pub state_nbytes : ℕ
  pub s : Option ℕ
  pub params : V
  pub buffer_values : V
  pub state : Option V
  pub slot : Option ℕ
  pub pb_at : Option ℕ
  pub s_at : Option ℕ
  pub state_in : Bool
  pub dirty : Dirty

-- _Slot, with what its buffer holds.
pub record Slot (V : Type 0) : Type 0 where
  pub cap : ℕ
  pub page : Option ℕ
  pub busy : Bool
  pub last : ℕ
  pub params : V
  pub buffer_values : V
  pub state : V

-- The number of slots is fixed; `gpu` is optimizer_on == "gpu".
pub record Pager (V : Type 0) : Type 0 where
  pub gpu : Bool
  pub n_pages : ℕ
  pub n_slots : ℕ
  pub pages : ℕ → Page V
  pub slots : ℕ → Slot V
  pub clock : ℕ

abbrev pub put_at {ℓ} : {A : Type ℓ} → (ℕ → A) → ℕ → A → ℕ → A
put_at f i x k = if k == i then x else f k

module _ {V : Type 0} where
  -- page i and slot j change
  abbrev pub set_both : Pager V → ℕ → ℕ → Page V → Slot V → Pager V
  set_both p i j pg sl = record p { pages = put_at p.pages i pg; slots = put_at p.slots j sl }

  -- The bytes of the optimizer's state, 0 without a layout.
  abbrev pub s_nbytes : Page V → ℕ
  s_nbytes pg = elim pg.s [ none ↦ 0 | some n ↦ n ]

  abbrev pub slot_bytes : Page V → Bool → ℕ
  slot_bytes pg with_state = pg.pb_nbytes + pg.g_nbytes + (if with_state then s_nbytes pg else 0)

  -- the slots with an index from a list that are not busy
  unfoldable pub idle : Pager V → List ℕ → List ℕ
  idle p [] = []
  idle p (j ∷ js) = let later = idle p js in if (p.slots j).busy then later else j ∷ later

  -- the first of these slots that holds no page
  unfoldable pub first_empty : Pager V → List ℕ → Option ℕ
  first_empty p [] = none
  first_empty p (j ∷ js) = elim (p.slots j).page [ none ↦ some j | some i ↦ first_empty p js ]

  -- min(idle, key=lambda s: s.last)
  unfoldable pub least_recent : Pager V → ℕ → List ℕ → ℕ
  least_recent p best [] = best
  least_recent p best (j ∷ js) =
      least_recent p (if ltb (p.slots j).last (p.slots best).last then j else best) js

  abbrev pub empty_or_least : Pager V → ℕ → List ℕ → Option ℕ → Result OffloadError ℕ
  empty_or_least p j js (some e) = ok e
  empty_or_least p j js none = ok (least_recent p j js)

  abbrev pub choose : Pager V → List ℕ → Result OffloadError ℕ
  choose p [] = raise every_slot_in_use
  choose p (j ∷ js) = empty_or_least p j js (first_empty p (j ∷ js))

  unfoldable pub victim : Pager V → Result OffloadError ℕ
  victim p = choose p (idle p (range 0 p.n_slots))

  -- _adopt_state: the layout of the state that the optimizer made, none or some.
  abbrev pub adopt_state : Page V → Page V
  adopt_state pg = record pg { s = some (if is_some pg.state then pg.state_nbytes else 0) }

  abbrev pub adopted : Bool → Page V → Page V
  adopted gpu pg = elim pg.dirty [
    | all ↦ if gpu && not (is_some pg.s) then adopt_state pg else pg
    | buffers ↦ pg
    | clean ↦ pg
  ]

  -- the page after the copy of what changed in the slot
  abbrev pub copied : Slot V → Page V → Page V
  copied sl pg = elim pg.dirty [
    | clean ↦ pg
    | buffers ↦ record pg {
      buffer_values = if ltb pg.buf_start pg.pb_nbytes then sl.buffer_values else pg.buffer_values;
      dirty = clean;
    }
    | all ↦ record pg {
      params = sl.params;
      buffer_values = sl.buffer_values;
      state = if pg.state_in && ltb 0 (s_nbytes pg) then some sl.state else pg.state;
      dirty = clean;
    }
  ]

  -- _writeback: the page after what changed in its slot is copied home
  abbrev pub writeback : Bool → Slot V → Page V → Page V
  writeback gpu sl pg = copied sl (adopted gpu pg)

  -- _evict, after the copy: the tensors point home, and the slot is given up
  abbrev pub sent_home : Page V → Page V
  sent_home pg = record pg {
    pb_at = none;
    s_at = if is_some pg.s && is_some pg.state then none else pg.s_at;
    slot = none;
    state_in = false;
  }

  unfoldable pub evict : Pager V → ℕ → Pager V
  evict p j = elim (p.slots j).page [
    | none ↦ p
    | some i ↦
        set_both p i j (sent_home (writeback p.gpu (p.slots j) (p.pages i)))
          (record (p.slots j) { page = none })
  ]

  -- _page_in of slice i into slot j: of the parameters and buffers if `pb`, of the state if `s`
  abbrev pub paged_page : ℕ → Bool → Page V → Page V
  paged_page j s pg = record pg {
    slot = some j;
    pb_at = some j;
    s_at = if s && is_some pg.s then some j else pg.s_at;
    state_in = (s && is_some pg.s) || pg.state_in;
  }

  abbrev pub paged_slot : ℕ → Bool → Bool → Page V → Slot V → Slot V
  paged_slot i pb s pg sl = record sl {
    page = some i;
    params = if pb then pg.params else sl.params;
    buffer_values = if pb then pg.buffer_values else sl.buffer_values;
    state =
        if s && ltb 0 (s_nbytes pg)
        then elim pg.state [ some v ↦ v | none ↦ sl.state ]
        else sl.state;
  }

  unfoldable pub page_in : Pager V → ℕ → ℕ → Bool → Bool → Pager V
  page_in p i j pb s =
      set_both p i j (paged_page j s (p.pages i)) (paged_slot i pb s (p.pages i) (p.slots j))

  abbrev pub want_state : Pager V → ℕ → Bool → Bool
  want_state p i state = state && p.gpu && ltb 0 (s_nbytes (p.pages i))

  -- fetch, of a slice that is in a slot already: only its state may be missing
  abbrev pub bring_state : Pager V → ℕ → ℕ → Bool → Result OffloadError (Pager V)
  bring_state p i j false = ok p
  bring_state p i j true =
      require (leb (slot_bytes (p.pages i) true) (p.slots j).cap) outgrew_the_slots
      >> ok (page_in p i j false true)

  abbrev pub fetch_state : Pager V → ℕ → ℕ → Bool → Result OffloadError (Pager V)
  fetch_state p i j want = bring_state p i j (want && not (p.pages i).state_in)

  abbrev pub fetch_new : Pager V → ℕ → Bool → Result OffloadError (Pager V)
  fetch_new p i want =
      require (leb (slot_bytes (p.pages i) want) (p.slots 0).cap) outgrew_the_slots
      >> (victim p >>= λ j. ok (page_in (evict p j) i j true want))

  abbrev pub fetch_from : Pager V → ℕ → Bool → Option ℕ → Result OffloadError (Pager V)
  fetch_from p i want (some j) = fetch_state p i j want
  fetch_from p i want none = fetch_new p i want

  unfoldable pub fetch : Pager V → ℕ → Bool → Result OffloadError (Pager V)
  fetch p i state =
      require (ltb i p.n_pages) no_such_slice
      >> fetch_from p i (want_state p i state) (p.pages i).slot

  abbrev pub taken : Pager V → ℕ → ℕ → Pager V
  taken p i j =
      record (set_both p i j (p.pages i) (record (p.slots j) { busy = true; last = suc p.clock })) {
        clock = suc p.clock;
      }

  -- the slot of slice i is taken for a computation
  abbrev pub take_slot : Pager V → ℕ → Option ℕ → Result OffloadError (Pager V)
  take_slot p i none = raise not_resident
  take_slot p i (some j) = ok (taken p i j)

  abbrev pub fetch_if_out : Pager V → ℕ → Bool → Option ℕ → Result OffloadError (Pager V)
  fetch_if_out p i grads (some j) = ok p
  fetch_if_out p i grads none = fetch p i grads

  -- acquire; the gradients, which it sets to zero, are left out
  unfoldable pub acquire : Pager V → ℕ → Bool → Result OffloadError (Pager V)
  acquire p i grads =
      require (ltb i p.n_pages) no_such_slice
      >> (fetch_if_out p i grads (p.pages i).slot >>= λ q. take_slot q i (q.pages i).slot)

  abbrev pub marked : Dirty → Page V → Page V
  marked all pg = record pg { dirty = all }
  marked buffers pg = elim pg.dirty [
    | clean ↦ record pg { dirty = buffers }
    | buffers ↦ pg
    | all ↦ pg
  ]
  marked clean pg = pg

  abbrev pub release_from : Pager V → ℕ → Dirty → Option ℕ → Result OffloadError (Pager V)
  release_from p i dirty none = raise not_resident
  release_from p i dirty (some j) = ok (
      set_both p i j (writeback p.gpu (p.slots j) (marked dirty (p.pages i)))
        (record (p.slots j) { busy = false }))

  unfoldable pub release : Pager V → ℕ → Dirty → Result OffloadError (Pager V)
  release p i dirty = release_from p i dirty (p.pages i).slot
