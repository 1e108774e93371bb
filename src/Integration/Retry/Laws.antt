-- ===== src/Integration/Retry/Laws.antt =====
-- The theorems about the retry of a call (backend/app/integration/retry.py).
use athena_order_priority.Prelude.{
  ℕ, zero, suc, ◌+◌, ◌≤◌, ◌<◌, ◌≡◌, refl, ap, ◌∙◌, leb, true, false, List, [], ◌∷◌, Option, none,
  some, arith,
}
use athena_order_priority.Services.Outcomes.{Outcome, done, integration_error}
use athena_order_priority.Integration.Retry.{
  RetryPolicy, delay_before, attempts_from, call_with_retry,
}

-- The delays before the next `n` attempts after the failed one `a`.
abbrev pub delays : RetryPolicy → ℕ → ℕ → List ℕ
delays p a zero = []
delays p a (suc n) = delay_before p a ∷ delays p (suc a) n

module _ {ℓ} {A : Type ℓ} (p : RetryPolicy) (func : ℕ → Option A) where
  attempt_lem :
      (left a : ℕ) (r : Outcome A × List ℕ)
      → func a ≡ none
      → a < p.attempts
      → attempts_from p func left (suc a) ≡ r
      → attempts_from p func (suc left) a ≡ (r.0, delay_before p a ∷ r.1)
  unfolding attempts_from
  attempt_lem left a r e h rest =
      let more : leb p.attempts a ≡ false = ground (arith, h) in rw e (rw more (rw rest refl))

  attempts_from-first :
      (left a n : ℕ) (x : A)
      → n < left
      → a + n ≤ p.attempts
      → ((j : ℕ) → a ≤ j → j < a + n → func j ≡ none)
      → func (a + n) ≡ some x
      → attempts_from p func left a ≡ (done x, delays p a n)
  unfolding attempts_from
  attempts_from-first zero a n x h k fails e = absurd (omega (arith, h))
  attempts_from-first (suc left) a zero x h k fails e =
      let here : func a ≡ some x = ap func (omega arith) ∙ e in rw here refl
  attempts_from-first (suc left) a (suc n) x h k fails e =
      attempt_lem left a (done x, delays p (suc a) n) (fails a (omega arith) (omega arith))
        (omega (arith, k))
        (attempts_from-first left (suc a) n x (omega (arith, h)) (omega (arith, k))
          (λ j g l. fails j (omega (arith, g)) (omega (arith, l))) (ap func (omega arith) ∙ e))

  attempts_from-none :
      (n a : ℕ)
      → a + n ≡ p.attempts
      → ((j : ℕ) → a ≤ j → j ≤ p.attempts → func j ≡ none)
      → attempts_from p func (suc n) a ≡ (integration_error, delays p a n)
  unfolding attempts_from
  attempts_from-none zero a e fails =
      let last : leb p.attempts a ≡ true = ground (arith, e) in
      rw (fails a (omega arith) (omega (arith, e))) (rw last refl)
  attempts_from-none (suc n) a e fails =
      attempt_lem (suc n) a (integration_error, delays p (suc a) n)
        (fails a (omega arith) (omega (arith, e))) (omega (arith, e))
        (attempts_from-none n (suc a) (omega (arith, e)) (λ j g l. fails j (omega (arith, g)) l))

-- When attempt `1 + n` is the first that returns, and is within `attempts`, `call_with_retry` returns
-- its result, after the delays before the retries `1` to `n`.
pub call_with_retry-first {ℓ} :
    {A : Type ℓ} (p : RetryPolicy) (func : ℕ → Option A) (n : ℕ) (x : A)
    → n < p.attempts
    → ((j : ℕ) → 1 ≤ j → j < 1 + n → func j ≡ none)
    → func (1 + n) ≡ some x
    → call_with_retry p func ≡ (done x, delays p 1 n)
unfolding call_with_retry
call_with_retry-first p func n x h fails e =
    attempts_from-first p func p.attempts 1 n x h (omega (arith, h)) fails e

-- When `1 + n` attempts are configured and each of them raises, `call_with_retry` raises an
-- integration error, after the delays before the retries `1` to `n`.
pub call_with_retry-none {ℓ} :
    {A : Type ℓ} (p : RetryPolicy) (func : ℕ → Option A) (n : ℕ)
    → p.attempts ≡ 1 + n
    → ((j : ℕ) → 1 ≤ j → j ≤ p.attempts → func j ≡ none)
    → call_with_retry p func ≡ (integration_error, delays p 1 n)
unfolding call_with_retry
call_with_retry-none p func n e fails =
    let all : p.attempts ≡ suc n = omega (arith, e) in
    ap (λ k. attempts_from p func k 1) all ∙ attempts_from-none p func n 1 (omega (arith, e)) fails
