-- ===== src/Offload/Pager/Batches.antt =====
-- offload/pager.py: flush, the growth of the slots, the end of a batch, and the step on the host.
use torch_slicer.Common.{
  ℕ, ltb, leb, max, Bool, true, false, not, ◌&&◌, ◌||◌, none, some, List, [], ◌∷◌, if◌then◌else◌,
  range, Result, ok, raise, require, ◌>>=◌, ◌>>◌, is_some, Option,
}
use torch_slicer.Offload.{alignment, round_up}
use torch_slicer.Offload.Pager.{
  Slot, Pager, clean, OffloadError, flush_while_busy, grow_while_busy, not_resident, set_both,
  slot_bytes, evict, Page,
}

module _ {V : Type 0} where
  -- flush, of the slots with an index from a list
  unfoldable pub flush_slots : Pager V → List ℕ → Result OffloadError (Pager V)
  flush_slots p [] = ok p
  flush_slots p (j ∷ js) =
      require (not (p.slots j).busy) flush_while_busy >> flush_slots (evict p j) js

  unfoldable pub flush : Pager V → Result OffloadError (Pager V)
  flush p = flush_slots p (range 0 p.n_slots)

  unfoldable pub all_slots : (Slot V → Bool) → Pager V → List ℕ → Bool
  all_slots test p [] = true
  all_slots test p (j ∷ js) = test (p.slots j) && all_slots test p js

  -- a new buffer for a slot, which holds anything
  abbrev pub new_buffer : V → ℕ → Slot V → Slot V
  new_buffer junk nbytes sl = record sl {
    cap = nbytes;
    params = junk;
    buffer_values = junk;
    state = junk;
  }

  abbrev pub grow_unless : V → Pager V → ℕ → Bool → Result OffloadError (Pager V)
  grow_unless junk p nbytes true = ok p
  grow_unless junk p nbytes false =
      require (all_slots (λ sl. not sl.busy) p (range 0 p.n_slots)) grow_while_busy
      >> (flush p >>= λ q. ok (record q { slots = λ j. new_buffer junk nbytes (q.slots j) }))

  unfoldable pub grow : V → Pager V → ℕ → Result OffloadError (Pager V)
  grow junk p nbytes =
      grow_unless junk p nbytes (all_slots (λ sl. leb nbytes sl.cap) p (range 0 p.n_slots))

  unfoldable pub ensure_cap : V → Pager V → ℕ → Result OffloadError (Pager V)
  ensure_cap junk p nbytes = grow junk p (round_up (max nbytes alignment) alignment)

  -- any(pg.s is None and pg.fresh_state() for pg in pages)
  unfoldable pub any_new_state : Pager V → List ℕ → Bool
  any_new_state p [] = false
  any_new_state p (i ∷ is) =
      (not (is_some (p.pages i).s) && is_some (p.pages i).state) || any_new_state p is

  -- max(pg.slot_bytes(True) for pg in pages), 0 without pages
  unfoldable pub largest : Pager V → List ℕ → ℕ
  largest p [] = 0
  largest p (i ∷ is) = max (slot_bytes (p.pages i) true) (largest p is)

  abbrev pub flush_if : Pager V → Bool → Result OffloadError (Pager V)
  flush_if p true = flush p
  flush_if p false = ok p

  abbrev pub end_batch_if : V → Pager V → Bool → Result OffloadError (Pager V)
  end_batch_if junk p true = flush_if p (any_new_state p (range 0 p.n_pages)) >>= λ q.
      ensure_cap junk q (largest q (range 0 q.n_pages))
  end_batch_if junk p false = ok p

  unfoldable pub end_batch : V → Pager V → Result OffloadError (Pager V)
  end_batch junk p = end_batch_if junk p p.gpu

  abbrev pub stepped_page : (V → V) → Page V → Slot V → Page V
  stepped_page step pg sl = record pg {
    buffer_values = if ltb pg.buf_start pg.pb_nbytes then sl.buffer_values else pg.buffer_values;
    params = step pg.params;
    pb_at = none;
    slot = none;
    dirty = clean;
  }

  abbrev pub step_from : Pager V → ℕ → (V → V) → Option ℕ → Result OffloadError (Pager V)
  step_from p i step none = raise not_resident
  step_from p i step (some j) = ok (
      set_both p i j (stepped_page step (p.pages i) (p.slots j))
        (record (p.slots j) { busy = false; page = none }))

  -- step_on_cpu: the buffers go home, the slice leaves its slot, and `step`, which stands for the
  -- optimizer's step with the gradients sent home, changes the parameters there. The next page-in of
  -- the slice waits for the step.
  unfoldable pub step_on_cpu : Pager V → ℕ → (V → V) → Result OffloadError (Pager V)
  step_on_cpu p i step = step_from p i step (p.pages i).slot
