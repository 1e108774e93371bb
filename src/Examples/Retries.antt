-- ===== src/Examples/Retries.antt =====
-- The retry of a call on a concrete policy.
use athena_order_priority.Prelude.{
  ℕ, ◌≡◌, refl, ◌==◌, if◌then◌else◌, Option, none, some, [], ◌∷◌, arith,
}
use athena_order_priority.Services.Outcomes.{done, integration_error}
use athena_order_priority.Integration.Retry.{
  RetryPolicy, retry_policy, delay_before, call_with_retry,
}
use athena_order_priority.Integration.Retry.Laws.{
  delays, call_with_retry-first, call_with_retry-none,
}

abbrev policy : RetryPolicy
policy = record { attempts = 3; base_delay = 500; multiplier = (2, 1); max_delay = 900 }

policy_is_valid : retry_policy policy ≡ done policy
unfolding retry_policy
policy_is_valid = refl

delays_run : delays policy 1 3 ≡ 500 ∷ 900 ∷ 900 ∷ []
unfolding delay_before
delays_run = refl

-- The third attempt returns.
abbrev third : ℕ → Option ℕ
third j = if j == 3 then some 8 else none

call_with_retry-first_example : call_with_retry policy third ≡ (done 8, delays policy 1 2)
call_with_retry-first_example =
    call_with_retry-first policy third 2 8 (omega arith) (λ j g l. ground (arith, g, l)) refl

abbrev never : ℕ → Option ℕ
never j = none

call_with_retry-none_example : call_with_retry policy never ≡ (integration_error, delays policy 1 2)
call_with_retry-none_example = call_with_retry-none policy never 2 refl (λ j g l. refl)
