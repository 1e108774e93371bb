-- ===== src/Priority.antt =====
-- The priority engine: backend/app/engines/priority. Points and scores are integers of a fixed unit,
-- one point being `point` of them, in which the points of a day's waiting are exact.
pub mod Adjustments
pub mod Engine
pub mod Overrides
pub mod Ranking
use athena_order_priority.Prelude.{ℕ, ◌*◌, ℤ, ◌+ℤ◌, pos, List, [], ◌∷◌, Option}
use athena_order_priority.Domain.Keys.{Key}
use athena_order_priority.Calendar.Shifts.{day_length}

abbrev pub point : ℕ
point = 1000 * day_length

-- `FORCE_NEXT_SCORE` and `SCORE_MAX`
abbrev pub score_max : ℕ
score_max = 100 * point

pub data AdjustmentKind : Type 0 where
  aging : AdjustmentKind
  fairness : AdjustmentKind
  expedite : AdjustmentKind
  override : AdjustmentKind
  customer_rule : AdjustmentKind
  erp_priority : AdjustmentKind

-- `PriorityAdjustment` of backend/app/domain/results.py, without its text.
pub record PriorityAdjustment : Type 0 where
  pub kind : AdjustmentKind
  pub points : ℤ
  pub source_id : Option Key

-- `sum(a.points for a in adjustments)`
unfoldable pub total : List PriorityAdjustment → ℤ
unfolding ◌+ℤ◌
total [] = pos 0
total (a ∷ rest) = a.points +ℤ total rest
