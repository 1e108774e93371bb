-- ===== src/Services/Outcomes.antt =====
-- What a service call does: its result, or one of the errors of backend/app/core/errors.py. An error
-- rolls the session back, so it carries no store.
use athena_order_priority.Prelude.{
  Bool, true, false, not, ◌&&◌, leb, length, is_nil, ◌≡◌, ◌≢◌, refl, arith,
}
use athena_order_priority.Domain.Window.{Text}

-- What a service call does: the errors are those of backend/app/core/errors.py.
pub data Outcome {ℓ} (A : Type ℓ) : Type ℓ where
  done : A → Outcome A
  validation_error : Outcome A
  conflict_error : Outcome A
  not_found : Outcome A
  integration_error : Outcome A
  configuration_error : Outcome A

infixl 5 ◌>>=◌
abbrev pub ◌>>=◌ {ℓ κ} : {A : Type ℓ} {B : Type κ} → Outcome A → (A → Outcome B) → Outcome B
done a >>= f = f a
validation_error >>= f = validation_error
conflict_error >>= f = conflict_error
not_found >>= f = not_found
integration_error >>= f = integration_error
configuration_error >>= f = configuration_error

-- The call goes on when the condition holds.
abbrev pub require : Bool → Outcome (Unit {0}) → Outcome (Unit {0})
require true error = done tt
require false error = error

-- `require_reason` of backend/app/services/base.py on a stripped text.
abbrev pub has_reason : Text → Bool
has_reason reason = not (is_nil reason) && leb (length reason) 2000

-- A call that succeeds has gone through its first part.
pub after_bind {ℓ κ} :
    {A : Type ℓ} {B : Type κ} (a : Outcome A) (f : A → Outcome B) (b : B)
    → (a >>= f) ≡ done b
    → (x : A) × (a ≡ done x) × (f x ≡ done b)
after_bind (done x) f b e = (x, refl, e)
after_bind validation_error f b e = absurd (ground (arith, e))
after_bind conflict_error f b e = absurd (ground (arith, e))
after_bind not_found f b e = absurd (ground (arith, e))
after_bind integration_error f b e = absurd (ground (arith, e))
after_bind configuration_error f b e = absurd (ground (arith, e))

pub after_require :
    (t : Bool) (error : Outcome (Unit {0})) (x : Unit {0})
    → error ≢ done tt
    → require t error ≡ done x
    → t ≡ true
after_require true error x h e = refl
after_require false error tt h e = absurd (h e)
