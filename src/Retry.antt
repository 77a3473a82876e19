-- ===== src/Retry.antt =====
-- retry.py, call_with_retry: what the call returns or raises when it is made for the n-th time is a
-- function of n, from 1. Waiting and the on_retry callback are left out; `type_error` is what
-- `raise None` raises.
pub mod Attempts
mod Examples
use torch_slicer.Common.{
  ℕ, zero, suc, ◌-◌, max, Bool, not, ◌||◌, Option, none, some, leb, if◌then◌else◌, Result, ok,
  raise,
}

module _ {E A : Type 0} (func : ℕ → Result E A) (max_attempts : ℕ) (should_retry : E → Bool)
    (type_error : E) where
  -- The loop from the given attempt on, for `left` more rounds: the result, and the last attempt made.
  unfoldable pub attempts_from : ℕ → ℕ → Option E → Result E A × ℕ
  attempts_from zero attempt last_exc =
      (raise (elim last_exc [ some exc ↦ exc | none ↦ type_error ]), attempt - 1)
  attempts_from (suc left) attempt last_exc =
      let later : E → Result E A × ℕ = λ exc. attempts_from left (suc attempt) (some exc) in
      elim (func attempt) [
        | ok value ↦ (ok value, attempt)
        | raise exc ↦
            if leb (max 1 max_attempts) attempt || not (should_retry exc)
            then (raise exc, attempt)
            else later exc
      ]

  unfoldable pub call_with_retry : Result E A × ℕ
  unfolding attempts_from
  call_with_retry = attempts_from (max 1 max_attempts) 1 none
