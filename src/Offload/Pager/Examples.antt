-- ===== src/Offload/Pager/Examples.antt =====
-- offload/pager.py: three slices in two slots.
use torch_slicer.Common.{
  ℕ, ◌≡◌, refl, true, false, none, some, Result, ok, raise, arith, ◌≤◌, ◌+◌, ◌*◌,
}
use torch_slicer.Offload.Pager.{
  Pager, all, OffloadError, fetch, acquire, release, victim, put_at, idle, first_empty,
  least_recent, evict, page_in,
}
use torch_slicer.Offload.Pager.Batches.{flush, flush_slots, ensure_cap, grow, all_slots}
use torch_slicer.Offload.Pager.Views.{View, view, at_home, IsPager}
use torch_slicer.Offload.Pager.Victim.{IsVictim, victim_lem}
use torch_slicer.Offload.Pager.Paging.{IsSame}
use torch_slicer.Offload.Pager.Transparent.{flush_lem}
use torch_slicer.Offload.Pager.Progress.{Fetched, Fits, fetch-returns}
use torch_slicer.Offload.Pager.Writes.{written}
use torch_slicer.Offload.Pager.Reach.{
  Reach, start, call, compute, fetches, acquires, releases, Reach-view,
}
use torch_slicer.Offload.Pager.Start.{
  Slice, new_pager, check_settings, largest_stateless, first_view, new_pager_lem, before_growth,
}

-- Slice i holds 10 i + 1 and 10 i + 2.
abbrev slices : ℕ → Slice ℕ
slices i = record {
  pb_nbytes = 512;
  buf_start = 256;
  g_nbytes = 256;
  state_nbytes = 256;
  params = 10 * i + 1;
  buffer_values = 10 * i + 2;
}

abbrev or_else : Pager ℕ → Result OffloadError (Pager ℕ) → Pager ℕ
or_else p (ok q) = q
or_else p (raise e) = p

abbrev made : Result OffloadError (Pager ℕ)
made = new_pager "cpu" "gpu" "" 2 99 3 slices

abbrev sample : Pager ℕ
unfolding new_pager check_settings ensure_cap grow all_slots flush flush_slots largest_stateless
    evict
sample = or_else (before_growth 99 true 3 slices 2) made

sample-made : made ≡ ok sample
unfolding new_pager check_settings ensure_cap grow all_slots flush flush_slots largest_stateless
    evict
sample-made = refl

new_pager_lem_example :
    IsPager sample × (2 ≤ sample.n_slots) × ((i : ℕ) → view sample i ≡ first_view (slices i))
new_pager_lem_example = new_pager_lem "cpu" "gpu" "" 2 99 3 slices sample sample-made

abbrev fetched : Pager ℕ
unfolding fetch victim idle first_empty least_recent evict page_in sample
fetched = or_else sample (fetch sample 1 false)

fetch_1 : fetch sample 1 false ≡ ok fetched
unfolding fetch victim idle first_empty least_recent evict page_in sample
fetch_1 = refl

abbrev acquired : Pager ℕ
unfolding acquire fetched
acquired = or_else fetched (acquire fetched 1 true)

acquire_1 : acquire fetched 1 true ≡ ok acquired
unfolding acquire fetched
acquire_1 = refl

-- The last batch of slice 1: its step writes everything.
abbrev trained : View ℕ
trained = record { params = 51; buffer_values = 52; state = some 53 }

abbrev computed : Pager ℕ
unfolding acquired
computed = written acquired 1 0 trained

abbrev released : Pager ℕ
unfolding release computed
released = or_else computed (release computed 1 all)

release_1 : release computed 1 all ≡ ok released
unfolding release computed
release_1 = refl

abbrev read_at_first : ℕ → View ℕ
read_at_first i = first_view (slices i)

batch_trace : Reach sample read_at_first released (put_at read_at_first 1 trained)
unfolding sample fetched acquired computed released
batch_trace =
    call released
      (compute 1 0 trained
        (call acquired (call fetched start (fetches 1 false fetch_1)) (acquires 1 true acquire_1))
        refl refl (λ _. refl))
      (releases 1 all (λ j at. tt) release_1)

Reach-view_example :
    IsPager released × ((k : ℕ) → view released k ≡ put_at read_at_first 1 trained k)
Reach-view_example = Reach-view new_pager_lem_example.0 new_pager_lem_example.2 batch_trace

abbrev flushed : Pager ℕ
unfolding flush flush_slots evict released
flushed = or_else released (flush released)

flush_1 : flush released ≡ ok flushed
unfolding flush flush_slots evict released
flush_1 = refl

flush_lem_example :
    IsSame released flushed
    × ((i : ℕ) → ((flushed.pages i).slot ≡ none) × (view released i ≡ at_home (flushed.pages i)))
flush_lem_example = flush_lem released flushed Reach-view_example.0 flush_1

victim_1 : victim released ≡ ok 1
unfolding victim idle first_empty least_recent released
victim_1 = refl

victim_lem_example : IsVictim released 1
victim_lem_example = victim_lem released 1 victim_1

-- Slots that hold a slice of this size with its state.
sample-Fits : Fits sample
unfolding sample
sample-Fits i j = omega arith

fetch-returns_example : Fetched sample 2 false (fetch sample 2 true)
unfolding sample
fetch-returns_example =
    fetch-returns sample 2 0 true new_pager_lem_example.0 sample-Fits (omega arith) (omega arith)
      refl
