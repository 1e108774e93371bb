-- ===== src/Priority/Adjustments.antt =====
-- backend/app/engines/priority/adjustments.py: the adjustments that an order's data give, in front
-- of the planner's overrides. The rates per day are thousandths of a point.
use athena_order_priority.Prelude.{
  ℕ, ◌-◌, ◌*◌, ℤ, pos, negsuc, min_int, max_int, Bool, false, not, ◌||◌, List, Option, none, some,
  min, ltb, leb, ◌==◌, if◌then◌else◌, get,
}
use athena_order_priority.Domain.Window.{Instant}
use athena_order_priority.Domain.Keys.{Key}
use athena_order_priority.Domain.Orders.{Order, or_else}
use athena_order_priority.Domain.Overlays.{CustomerRule, Expedite, expedite_is_active_at}
use athena_order_priority.Priority.{
  PriorityAdjustment, aging, fairness, expedite, customer_rule, erp_priority,
}

pub record AgingConfig : Type 0 where
  pub aging_enabled : Bool
  pub start_after : ℕ
  pub rate : ℕ
  pub max_points : ℕ

pub record FairnessConfig : Type 0 where
  pub fairness_enabled : Bool
  pub max_wait : ℕ
  pub starvation_boost_points : ℕ
  pub max_share : ℕ
  pub top_n : ℕ

pub record PriorityProfile : Type 0 where
  pub erp_priority_points : List (ℕ × ℤ)
  pub aging_config : AgingConfig
  pub fairness_config : FairnessConfig
  pub max_boost_points : ℤ
  pub blocked_order_cap : Option ℤ

-- A missing value ends the chain.
infixl 5 ◌>>=◌
abbrev ◌>>=◌ {ℓ κ} : {A : Type ℓ} {B : Type κ} → Option A → (A → Option B) → Option B
none >>= f = none
some a >>= f = f a

-- The time that the order has waited, in microseconds.
unfoldable pub waiting : Order → Instant → Option ℕ
waiting order now = elim (or_else order.received_date order.order_date) [
  | none ↦ none
  | some start ↦ some (now - start)
]

-- `points == 0`
abbrev is_zero : ℤ → Bool
is_zero (pos n) = n == 0
is_zero (negsuc n) = false

unfoldable pub erp_priority_adjustment : Order → PriorityProfile → Option PriorityAdjustment
unfolding get
erp_priority_adjustment order profile = do
  code ← order.erp_priority
  points ← get code profile.erp_priority_points
  if is_zero points
      then none
      else some (record { kind = erp_priority; points = points; source_id = none })

unfoldable pub customer_rule_adjustment :
    Order → List (Key × CustomerRule) → Option PriorityAdjustment
unfolding get
customer_rule_adjustment order rules = do
  rule ← get order.customer_id rules
  if not rule.active || is_zero rule.priority_boost_points
      then none
      else some (record {
        kind = customer_rule;
        points = rule.priority_boost_points;
        source_id = some order.customer_id;
      })

-- The excess of `start_after`, at `rate`, up to `max_points`.
unfoldable pub aging_points : AgingConfig → ℕ → ℕ
aging_points cfg waited = min cfg.max_points ((waited - cfg.start_after) * cfg.rate)

unfoldable pub aging_adjustment : Order → PriorityProfile → Instant → Option PriorityAdjustment
unfolding waiting aging_points
aging_adjustment order profile now =
    let cfg = profile.aging_config in
    if not cfg.aging_enabled then none else (do
      waited ← waiting order now
      if leb waited cfg.start_after || (aging_points cfg waited == 0)
          then none
          else some
              (record { kind = aging; points = pos (aging_points cfg waited); source_id = none }))

unfoldable pub starvation_adjustment : Order → PriorityProfile → Instant → Option PriorityAdjustment
unfolding waiting
starvation_adjustment order profile now =
    let cfg = profile.fairness_config in
    if not cfg.fairness_enabled || (cfg.starvation_boost_points == 0) then none else (do
      waited ← waiting order now
      if ltb waited cfg.max_wait
          then none
          else some (record {
            kind = fairness;
            points = pos cfg.starvation_boost_points;
            source_id = none;
          }))

unfoldable pub expedite_adjustment :
    Order → List (Key × Expedite) → PriorityProfile → Instant → Option PriorityAdjustment
unfolding get expedite_is_active_at
expedite_adjustment order expedites profile now = do
  e ← get order.order_id expedites
  if not (expedite_is_active_at e now)
      then none
      else some (record {
        kind = expedite;
        points = min_int (max_int (pos 0) e.boost_points) profile.max_boost_points;
        source_id = some e.expedite_id;
      })
