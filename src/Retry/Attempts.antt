-- ===== src/Retry/Attempts.antt =====
-- retry.py, call_with_retry: how often it calls, and what it makes of the last call.
use torch_slicer.Common.{
  ℕ, zero, suc, ◌+◌, ◌≤◌, ◌<◌, max, ◌≡◌, ◌⊎◌, sym, ap, subst, Bool, true, false, not, ◌||◌, Option,
  none, some, leb, if◌then◌else◌, arith, Bool-cases, inl, inr, Result, ok, raise, Result-cases,
  dec_lt,
}
use torch_slicer.Retry.{attempts_from, call_with_retry}

module _ {E A : Type 0} (func : ℕ → Result E A) (max_attempts : ℕ) (should_retry : E → Bool)
    (type_error : E) where
  abbrev pub limit : ℕ
  limit = max 1 max_attempts

  -- Attempt `k` failed with an error that is worth another attempt.
  abbrev pub IsRetried : ℕ → Type 0
  IsRetried k = (exc : E) × (func k ≡ raise exc) × (should_retry exc ≡ true)

  -- Attempt `k` ends the loop: it returned, or it failed for good.
  abbrev pub IsFinal : ℕ → Type 0
  IsFinal k =
      ((value : A) × (func k ≡ ok value))
      ⊎ ((exc : E) × (func k ≡ raise exc) × ((k ≡ limit) ⊎ (should_retry exc ≡ false)))

  -- What the loop makes of the attempts from `first` on.
  pub record IsOutcome (first : ℕ) (outcome : Result E A × ℕ) : Type 0 where
    pub from : first ≤ outcome.1
    pub within : outcome.1 ≤ limit
    pub retried : (k : ℕ) → first ≤ k → k < outcome.1 → IsRetried k
    pub final : IsFinal outcome.1
    pub result : outcome.0 ≡ func outcome.1

  stop_here :
      (first : ℕ) (r : Result E A)
      → first ≤ limit
      → func first ≡ r
      → IsFinal first
      → IsOutcome first (r, first)
  stop_here first r low at final = record {
    from = omega arith;
    within = low;
    retried = λ k from below. absurd (omega arith);
    final = final;
    result = sym at;
  }

  try_again :
      (first : ℕ) (outcome : Result E A × ℕ)
      → IsRetried first
      → IsOutcome (suc first) outcome
      → IsOutcome first outcome
  try_again first outcome failed o = record {
    from = let f = o.from in omega arith;
    within = o.within;
    retried = λ k from below. elim (dec_lt first k) [
      | yes later ↦ o.retried k later below
      | no same ↦ let here : k ≡ first = omega arith in subst IsRetried (sym here) failed
    ];
    final = o.final;
    result = o.result;
  }

  attempts_from_lem :
      (left first : ℕ) (last_exc : Option E)
      → 0 < left
      → first + left ≡ suc limit
      → IsOutcome first
          (attempts_from func max_attempts should_retry type_error left first last_exc)
  unfolding attempts_from
  attempts_from_lem zero first last_exc pos rounds = absurd (omega arith)
  attempts_from_lem (suc left) first last_exc pos rounds =
      let later : E → Result E A × ℕ = λ exc.
        attempts_from func max_attempts should_retry type_error left (suc first) (some exc) in
      let after : E → Result E A × ℕ = λ exc.
        if leb limit first || not (should_retry exc) then (raise exc, first) else later exc in
      let go : Result E A → Result E A × ℕ =
        λ r. elim r [ ok value ↦ (ok value, first) | raise exc ↦ after exc ] in
      elim (Result-cases (func first)) [
        | inl (value, at) ↦
            subst (IsOutcome first) (sym (ap go at))
              (stop_here first (ok value) (omega arith) at (inl (value, at)))
        | inr (exc, at) ↦
            subst (IsOutcome first) (sym (ap go at)) (elim (Bool-cases (leb limit first)) [
              | inl over ↦
                  let last : first ≡ limit = ground arith in
                  let stop : leb limit first || not (should_retry exc) ≡ true = ground arith in
                  subst (IsOutcome first)
                    (sym (ap (λ test. if test then (raise exc, first) else later exc) stop))
                    (stop_here first (raise exc) (omega arith) at (inr (exc, at, inl last)))
              | inr more ↦ elim (Bool-cases (should_retry exc)) [
                | inl retry ↦
                    let go_on : leb limit first || not (should_retry exc) ≡ false = ground arith in
                    subst (IsOutcome first)
                      (sym (ap (λ test. if test then (raise exc, first) else later exc) go_on))
                      (try_again first (later exc) (exc, at, retry)
                        (attempts_from_lem left (suc first) (some exc) (ground arith)
                          (omega arith)))
                | inr fatal ↦
                    let stop : leb limit first || not (should_retry exc) ≡ true = ground arith in
                    subst (IsOutcome first)
                      (sym (ap (λ test. if test then (raise exc, first) else later exc) stop))
                      (stop_here first (raise exc) (omega arith) at (inr (exc, at, inr fatal)))
              ]
            ])
      ]

  -- call_with_retry makes at least one call and at most the larger of 1 and max_attempts. Every call
  -- before the last one failed with an error worth another attempt; the last one returned, or failed
  -- for good: with an error that is not, or at the limit. What it returned or raised is the result.
  pub call_with_retry_lem : IsOutcome 1 (call_with_retry func max_attempts should_retry type_error)
  unfolding call_with_retry
  call_with_retry_lem = attempts_from_lem limit 1 none (omega arith) (omega arith)
