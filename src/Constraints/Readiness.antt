-- ===== src/Constraints/Readiness.antt =====
-- backend/app/engines/constraints/readiness.py: the state of a list of blockers, the first instant a
-- machine is available, and the blocker of an operation no machine can take now. Messages, details
-- and notes are left out. A violation of `machine_operable` carries no return, so the blocker of an
-- operation without eligible machines has none.
pub mod Laws
use athena_order_priority.Prelude.{
  ℕ, Bool, List, [], ◌∷◌, Option, none, some, min, max, ltb, leb, not, any, map, sort_by,
  if◌then◌else◌,
}
use athena_order_priority.Domain.Window.{Instant, TimeWindow, contains}
use athena_order_priority.Domain.Keys.{Key}
use athena_order_priority.Domain.Status.{
  ReadinessState, ready, waiting_material, waiting_tooling, waiting_approval,
  waiting_previous_operation, machine_unavailable, quality_hold, state_on_hold, other_constraint,
}
use athena_order_priority.Domain.Machines.{Machine, all_downtime}
use athena_order_priority.Domain.Orders.{Order, Operation}
use athena_order_priority.Domain.Snapshot.{PlanningSnapshot}
use athena_order_priority.Constraints.Hard.{HardConstraint}
use athena_order_priority.Constraints.Eligibility.{
  EligibilityResult, evaluate_eligibility, known_machines,
}

pub record Blocker : Type 0 where
  pub state : ReadinessState
  pub resolves_at : Option Instant

-- `_PRECEDENCE_RANK`
abbrev pub precedence_rank : ReadinessState → ℕ
precedence_rank state_on_hold = 0
precedence_rank quality_hold = 1
precedence_rank waiting_approval = 2
precedence_rank waiting_material = 3
precedence_rank waiting_tooling = 4
precedence_rank machine_unavailable = 5
precedence_rank waiting_previous_operation = 6
precedence_rank other_constraint = 7
precedence_rank ready = 8

-- `min` by the rank: the first of the least.
unfoldable pub least_state : ReadinessState → List Blocker → ReadinessState
least_state best [] = best
least_state best (b ∷ bs) =
    least_state (if ltb (precedence_rank b.state) (precedence_rank best) then b.state else best) bs

unfoldable pub readiness_state : List Blocker → ReadinessState
unfolding least_state
readiness_state [] = ready
readiness_state (b ∷ bs) = least_state b.state bs

-- `max(t, available_from)`
abbrev pub from_available : Option Instant → Instant → Instant
from_available none t = t
from_available (some u) t = max t u

-- The loop over the windows.
unfoldable pub skip_windows : Instant → List TimeWindow → Instant
unfolding contains
skip_windows t [] = t
skip_windows t (w ∷ ws) = skip_windows (if contains w t then w.end else t) ws

abbrev pub starts_le : TimeWindow → TimeWindow → Bool
starts_le v w = leb v.start w.start

unfoldable pub machine_available_at : Machine → Instant → Instant
unfolding skip_windows sort_by
machine_available_at m at =
    skip_windows (from_available m.available_from at) (sort_by starts_le (all_downtime m))

unfoldable pub earliest : Instant → List Instant → Instant
earliest t [] = t
earliest t (u ∷ us) = min t (earliest u us)

-- What the availability of the eligible machines leaves to wait for.
unfoldable pub machine_wait : Instant → List Instant → Option Blocker
unfolding earliest any
machine_wait at [] = some (record { state = machine_unavailable; resolves_at = none })
machine_wait at (t ∷ ts) =
    if not (any (λ u. leb u at) (t ∷ ts))
    then some (record { state = machine_unavailable; resolves_at = some (earliest t ts) })
    else none

-- `_machine_blocker`
unfoldable pub machine_blocker :
    Order → Operation → PlanningSnapshot → Instant → List HardConstraint → Option Blocker
unfolding machine_wait machine_available_at evaluate_eligibility known_machines
machine_blocker order op s at hard = machine_wait at (
    map (λ m. machine_available_at m at)
      (known_machines s (evaluate_eligibility op s at hard (some order)).eligible))
