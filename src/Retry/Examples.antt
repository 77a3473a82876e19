-- ===== src/Retry/Examples.antt =====
-- retry.py: a call that succeeds the third time.
use torch_slicer.Common.{ℕ, ◌≡◌, refl, Bool, true, ltb, Result, ok, raise, if◌then◌else◌}
use torch_slicer.Retry.{call_with_retry}
use torch_slicer.Retry.Attempts.{IsOutcome, call_with_retry_lem}

abbrev flaky : ℕ → Result ℕ ℕ
flaky n = if ltb n 3 then raise n else ok 100

abbrev always : ℕ → Bool
always exc = true

third : call_with_retry flaky 5 always 0 ≡ (ok 100, 3)
unfolding call_with_retry
third = refl

too_few : call_with_retry flaky 2 always 0 ≡ (raise 2, 2)
unfolding call_with_retry
too_few = refl

call_with_retry_lem_example : IsOutcome flaky 5 always 0 1 (call_with_retry flaky 5 always 0)
call_with_retry_lem_example = call_with_retry_lem flaky 5 always 0
