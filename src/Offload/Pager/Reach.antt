-- ===== src/Offload/Pager/Reach.antt =====
-- offload/pager.py: whatever an executor calls of a pager, paging does not show.
use torch_slicer.Common.{
  ℕ, ◌≡◌, sym, ap, ◌∙◌, subst, Bool, true, false, some, ◌==◌, if◌then◌else◌, ok, ap₂,
}
use torch_slicer.Offload.Pager.{buffers, Pager, Dirty, put_at, fetch, acquire, release}
use torch_slicer.Offload.Pager.Runs.{acquire-IsSame, release-IsSame, end_batch-IsSame}
use torch_slicer.Offload.Pager.Batches.{step_on_cpu, flush, end_batch}
use torch_slicer.Offload.Pager.Views.{View, view, IsPager}
use torch_slicer.Offload.Pager.Calls.{IsHonest}
use torch_slicer.Offload.Pager.Paging.{IsSame}
use torch_slicer.Offload.Pager.Transparent.{fetch-IsSame, flush_lem}
use torch_slicer.Offload.Pager.Writes.{written, KeepsState, step_view, written-lem, step_on_cpu-lem}

module _ {V : Type 0} where
  -- A call of the pager that returned. Who releases a slice says what changed in it.
  pub data Call (p q : Pager V) : Type 0 where
    fetches : (i : ℕ) (state : Bool) → fetch p i state ≡ ok q → Call p q
    acquires : (i : ℕ) (grads : Bool) → acquire p i grads ≡ ok q → Call p q
    releases :
        (i : ℕ) (d : Dirty)
        → ((j : ℕ) → (p.pages i).slot ≡ some j → IsHonest d (p.pages i) (p.slots j))
        → release p i d ≡ ok q
        → Call p q
    ends_batch : (junk : V) → end_batch junk p ≡ ok q → Call p q
    flushes : flush p ≡ ok q → Call p q

  pub Call-IsSame : (p q : Pager V) → IsPager p → Call p q → IsSame p q
  Call-IsSame p q pager (fetches i state e) = fetch-IsSame p q i state pager e
  Call-IsSame p q pager (acquires i grads e) = acquire-IsSame p q i grads pager e
  Call-IsSame p q pager (releases i d honest e) = release-IsSame p q i d pager honest e
  Call-IsSame p q pager (ends_batch junk e) = end_batch-IsSame junk p q pager e
  Call-IsSame p q pager (flushes e) = (flush_lem p q pager e).0

  -- What can come of a pager and of what its slices hold: calls, and computations on slices that are
  -- acquired, one after the other.
  pub data Reach (p₀ : Pager V) (m₀ : ℕ → View V) : Pager V → (ℕ → View V) → Type 0 where
    start : Reach p₀ m₀ p₀ m₀
    call :
        {p : Pager V} {m : ℕ → View V} (q : Pager V) → Reach p₀ m₀ p m → Call p q → Reach p₀ m₀ q m
    compute :
        {p : Pager V} {m : ℕ → View V} (i j : ℕ) (w : View V)
        → Reach p₀ m₀ p m
        → (p.pages i).slot ≡ some j
        → (p.slots j).busy ≡ true
        → KeepsState (m i) w
        → Reach p₀ m₀ (written p i j w) (put_at m i w)
    step_on_host :
        {p : Pager V} {m : ℕ → View V} (q : Pager V) (i : ℕ) (step : V → V)
        → Reach p₀ m₀ p m
        → p.gpu ≡ false
        → ((j : ℕ) → (p.pages i).slot ≡ some j → IsHonest buffers (p.pages i) (p.slots j))
        → step_on_cpu p i step ≡ ok q
        → Reach p₀ m₀ q (put_at m i (step_view step (m i)))

  -- Paging does not show: after any calls that return and any computations, every slice reads as it would
  -- if it were always in memory. The conditions are that who releases a slice, or steps it on the host,
  -- says what changed in it; that a computation is on a slice that is acquired, and does not take its
  -- optimizer state away; and that steps on the host are of a pager without a GPU.
  pub Reach-view :
      {p₀ : Pager V} {m₀ : ℕ → View V} {p : Pager V} {m : ℕ → View V}
      → IsPager p₀
      → ((k : ℕ) → view p₀ k ≡ m₀ k)
      → Reach p₀ m₀ p m
      → IsPager p × ((k : ℕ) → view p k ≡ m k)
  Reach-view pager agree start = (pager, agree)
  Reach-view pager agree (call q before step) =
      let (mid, reads) = Reach-view pager agree before in
      let same = Call-IsSame _ q mid step in (same.pager, λ k. same.reads k ∙ reads k)
  Reach-view pager agree (compute i j w before at busy keeps) =
      let (mid, reads) = Reach-view pager agree before in
      let (after, now) =
        written-lem _ i j w mid at busy (subst (λ v. KeepsState v w) (sym (reads i)) keeps) in
      (after, λ k. now k ∙ ap (λ v. if k == i then w else v) (reads k))
  Reach-view pager agree (step_on_host q i step before host honest returned) =
      let (mid, reads) = Reach-view pager agree before in
      let (after, now) = step_on_cpu-lem _ q i step mid host honest returned in
      (after, λ k. now k ∙ ap₂ (λ v w. if k == i then step_view step w else v) (reads k) (reads i))
