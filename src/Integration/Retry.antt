-- ===== src/Integration/Retry.antt =====
-- backend/app/integration/retry.py. A delay is its count of microseconds, rounded down; the multiplier
-- is a fraction. The calls of `func` are a parameter: what each attempt returns, `none` when it
-- raises. A run yields its result and the delays that it slept.
pub mod Laws
use athena_order_priority.Prelude.{
  ℕ, zero, suc, ◌+◌, ◌-◌, ◌*◌, ◌/◌, min, ltb, leb, List, [], ◌∷◌, Option, none, some, if◌then◌else◌,
}
use athena_order_priority.Services.Outcomes.{Outcome, done, validation_error, integration_error}

pub record RetryPolicy : Type 0 where
  pub attempts : ℕ
  pub base_delay : ℕ
  pub multiplier : ℕ × ℕ
  pub max_delay : ℕ

-- `__post_init__`; delays are not negative here.
unfoldable pub retry_policy : RetryPolicy → Outcome RetryPolicy
retry_policy p =
    if ltb p.attempts 1
    then validation_error
    else if ltb p.multiplier.0 p.multiplier.1
    then validation_error
    else done p

unfoldable pub power : ℕ → ℕ → ℕ
power b zero = 1
power b (suc n) = b * power b n

unfoldable pub delay_before : RetryPolicy → ℕ → ℕ
unfolding power
delay_before p attempt =
    min p.max_delay
      (p.base_delay * power p.multiplier.0 (attempt - 1) / power p.multiplier.1 (attempt - 1))

module _ {ℓ} {A : Type ℓ} (p : RetryPolicy) (func : ℕ → Option A) where
  -- The wait before the next attempts, which `rest` is a run of.
  abbrev pub after_delay : ℕ → Outcome A × List ℕ → Outcome A × List ℕ
  after_delay attempt rest = (rest.0, delay_before p attempt ∷ rest.1)

  -- What an attempt leads to.
  abbrev pub after_attempt : ℕ → Option A → Outcome A × List ℕ → Outcome A × List ℕ
  after_attempt attempt (some x) rest = (done x, [])
  after_attempt attempt none rest =
      if leb p.attempts attempt then (integration_error, []) else after_delay attempt rest

  -- The attempts from a number on.
  unfoldable pub attempts_from : ℕ → ℕ → Outcome A × List ℕ
  attempts_from zero attempt = (integration_error, [])
  attempts_from (suc left) attempt =
      after_attempt attempt (func attempt) (attempts_from left (suc attempt))

  unfoldable pub call_with_retry : Outcome A × List ℕ
  unfolding attempts_from
  call_with_retry = attempts_from p.attempts 1
