-- ===== src/Priority/Engine.antt =====
-- `PriorityEngine._evaluate` of backend/app/engines/priority/engine.py, and `make_factor_score` of
-- backend/app/engines/priority/base.py. What a factor's `score` finds is given by its kind, its
-- weight in thousandths and its raw score, of which `day_length` units are one point; the risk and
-- the texts of a result are left out.
pub mod Laws
use athena_order_priority.Prelude.{
  ℕ, zero, suc, ◌*◌, ◌≤◌, min, ℤ, pos, negsuc, ◌+ℤ◌, neg, leq, min_int, max_int, zero_add, add_zero,
  add_assoc, add_sub, ◌≡◌, refl, sym, ap, ◌∙◌, Bool, true, false, not, ◌&&◌, List, [], ◌∷◌, ◌++◌,
  Option, none, some, if◌then◌else◌, get, any, inl, inr, Bool-cases, arith,
}
use athena_order_priority.Domain.Window.{Instant}
use athena_order_priority.Domain.Keys.{Key}
use athena_order_priority.Domain.Status.{ReadinessState, ready}
use athena_order_priority.Domain.Orders.{Order}
use athena_order_priority.Domain.Overlays.{CustomerRule, Expedite, PriorityOverride}
use athena_order_priority.Calendar.Shifts.{day_length}
use athena_order_priority.Priority.{PriorityAdjustment, total, score_max}
use athena_order_priority.Priority.Adjustments.{
  PriorityProfile, erp_priority_adjustment, customer_rule_adjustment, aging_adjustment,
  starvation_adjustment, expedite_adjustment,
}
use athena_order_priority.Priority.Overrides.{
  override_adjustments, override_adjustments-replay, is_force_next, total-append,
}
use athena_order_priority.Priority.Ranking.{PriorityResult}

pub data FactorKind : Type 0 where
  bonus : FactorKind
  penalty : FactorKind

pub record Factor : Type 0 where
  pub kind : FactorKind
  pub weight : ℕ
  pub raw_score : ℤ

-- `max(0.0, min(100.0, raw_score))`
unfoldable pub clamp : ℕ → ℤ → ℕ
clamp top (pos n) = min n top
clamp top (negsuc n) = 0

-- The points of `make_factor_score`.
unfoldable pub factor_points : Factor → ℤ
unfolding clamp neg
factor_points f =
    let points = f.weight * clamp (100 * day_length) f.raw_score in
    elim f.kind [ bonus ↦ pos points | penalty ↦ neg (pos points) ]

unfoldable pub base_score_of : List Factor → ℤ
unfolding factor_points ◌+ℤ◌
base_score_of [] = pos 0
base_score_of (f ∷ fs) = factor_points f +ℤ base_score_of fs

-- `AdjustmentInputs`
pub record AdjustmentInputs : Type 0 where
  pub now : Instant
  pub profile : PriorityProfile
  pub customer_rules : List (Key × CustomerRule)
  pub expedites : List (Key × Expedite)
  pub overrides : List (Key × List PriorityOverride)

-- The adjustments in their fixed order, `none` where there is none.
unfoldable pub adjustments_of : Order → AdjustmentInputs → List (Option PriorityAdjustment)
unfolding erp_priority_adjustment customer_rule_adjustment aging_adjustment starvation_adjustment
    expedite_adjustment
adjustments_of order i =
    erp_priority_adjustment order i.profile
    ∷ customer_rule_adjustment order i.customer_rules
    ∷ aging_adjustment order i.profile i.now
    ∷ starvation_adjustment order i.profile i.now
    ∷ expedite_adjustment order i.expedites i.profile i.now
    ∷ []

-- The loop over them: `adjustments` and `score`.
unfoldable pub add_all :
    List (Option PriorityAdjustment) → List PriorityAdjustment → ℤ → List PriorityAdjustment × ℤ
unfolding ◌+ℤ◌
add_all [] adjustments score = (adjustments, score)
add_all (none ∷ rest) adjustments score = add_all rest adjustments score
add_all (some a ∷ rest) adjustments score = add_all rest (adjustments ++ a ∷ []) (score +ℤ a.points)

-- `overrides.get(order_id, ())`
unfoldable pub overrides_of : Key → List (Key × List PriorityOverride) → List PriorityOverride
unfolding get
overrides_of k overrides = elim (get k overrides) [ none ↦ [] | some os ↦ os ]

-- `readiness is not ReadinessState.READY`
abbrev pub is_blocked : ReadinessState → Bool
is_blocked ready = false
is_blocked _ = true

-- The cap of a blocked order that is not forced.
unfoldable pub cap_score : Bool → Bool → Option ℤ → ℤ → ℤ
cap_score blocked forced none score = score
cap_score blocked forced (some cap) score =
    if blocked && not forced then min_int score cap else score

unfoldable pub evaluate : List Factor → Order → AdjustmentInputs → ReadinessState → PriorityResult
unfolding base_score_of adjustments_of add_all override_adjustments overrides_of cap_score clamp
    total ◌+ℤ◌
evaluate factors order i readiness =
    let base = base_score_of factors in
    let (adjustments, score) = add_all (adjustments_of order i) [] base in
    let (overrides, forced) =
      override_adjustments (overrides_of order.order_id i.overrides) score in
    record {
      order_id = order.order_id;
      score =
          cap_score (is_blocked readiness) forced i.profile.blocked_order_cap
            (pos (clamp score_max (score +ℤ total overrides)));
      base_score = base;
      adjustments = adjustments ++ overrides;
      readiness = readiness;
      blocked = is_blocked readiness;
      forced_next = forced;
      rank = none;
    }
