-- ===== src/Domain/Snapshot.antt =====
-- The queries of `PlanningSnapshot` (backend/app/domain/snapshot.py) that the engines share; `now` is
-- given by the caller.
pub mod Laws
use athena_order_priority.Prelude.{
  ℕ, ℤ, leq, Bool, true, false, not, ◌&&◌, List, [], ◌∷◌, ◌++◌, Option, none, some, leb, ◌==◌,
  if◌then◌else◌, then_by, filter, map, sort_by, Dict, get, put, append_at,
}
use athena_order_priority.Domain.Window.{Instant, TimeWindow}
use athena_order_priority.Domain.Keys.{Key}
use athena_order_priority.Domain.Orders.{Order, Operation, is_open, is_done}
use athena_order_priority.Domain.Machines.{Machine, Material, Tooling, machine_le, supports_process}
use athena_order_priority.Domain.Status.{ProcessType}
use athena_order_priority.Domain.Overlays.{
  ScheduleLock, PriorityOverride, Expedite, override_is_active_at, expedite_is_active_at,
}

pub record PlanningSnapshot : Type 0 where
  pub orders : Dict Order
  pub operations : List Operation
  pub machines : Dict Machine
  pub materials : Dict Material
  pub tooling : Dict Tooling
  pub locks : List ScheduleLock
  pub overrides : List PriorityOverride
  pub expedites : List Expedite

-- The indexed operations of an order, by `(sequence, operation_id)`.
unfoldable pub operations_for_order : PlanningSnapshot → Key → List Operation
unfolding sort_by filter
operations_for_order s k =
    sort_by (λ o p. then_by o.sequence p.sequence (leb o.operation_id p.operation_id))
      (filter (λ op. op.order == k) s.operations)

unfoldable pub pending_operations_for_order : PlanningSnapshot → Key → List Operation
unfolding operations_for_order filter is_done
pending_operations_for_order s k = filter (λ op. not (is_done op)) (operations_for_order s k)

-- `pending[0] if pending else None`
unfoldable pub next_operation_for_order : PlanningSnapshot → Key → Option Operation
unfolding pending_operations_for_order
next_operation_for_order s k = elim (pending_operations_for_order s k) [
  | [] ↦ none
  | op ∷ ops ↦ some op
]

unfoldable pub open_orders : PlanningSnapshot → List Order
unfolding sort_by filter is_open
open_orders s =
    sort_by (λ o p. leb o.order_id p.order_id) (filter is_open (map (λ entry. entry.1) s.orders))

-- The strongest expedite so far of an order is replaced only by a stronger one.
unfoldable pub stronger : Option Expedite → Expedite → Dict Expedite → Dict Expedite
unfolding put
stronger none e d = put e.order_id e d
stronger (some current) e d =
    if leq e.boost_points current.boost_points then d else put e.order_id e d

unfoldable pub add_expedite : Instant → Dict Expedite → Expedite → Dict Expedite
unfolding stronger get expedite_is_active_at
add_expedite now d e = if expedite_is_active_at e now then stronger (get e.order_id d) e d else d

unfoldable pub add_expedites : Instant → Dict Expedite → List Expedite → Dict Expedite
unfolding add_expedite
add_expedites now d [] = d
add_expedites now d (e ∷ es) = add_expedites now (add_expedite now d e) es

unfoldable pub active_expedites : PlanningSnapshot → Instant → Dict Expedite
unfolding add_expedites
active_expedites s now = add_expedites now [] s.expedites

unfoldable pub add_overrides :
    Instant → Dict (List PriorityOverride) → List PriorityOverride → Dict (List PriorityOverride)
unfolding append_at override_is_active_at
add_overrides now d [] = d
add_overrides now d (o ∷ os) =
    add_overrides now (if override_is_active_at o now then append_at o.order_id o d else d) os

unfoldable pub active_overrides : PlanningSnapshot → Instant → Dict (List PriorityOverride)
unfolding add_overrides
active_overrides s now = add_overrides now [] s.overrides

-- `window is not None and window.end <= now`
abbrev pub has_ended : Option TimeWindow → Instant → Bool
has_ended none now = false
has_ended (some w) now = leb w.end now

unfoldable pub active_locks : PlanningSnapshot → Instant → List ScheduleLock
unfolding filter
active_locks s now = filter (λ l. l.active && not (has_ended l.window now)) s.locks

-- `self.machines.values()`
abbrev pub all_machines : PlanningSnapshot → List Machine
all_machines s = map (λ entry. entry.1) s.machines

unfoldable pub machines_in_group : PlanningSnapshot → Key → List Machine
unfolding sort_by filter
machines_in_group s group =
    sort_by machine_le (filter (λ m. m.machine_group == group) (all_machines s))

unfoldable pub machines_for_process : PlanningSnapshot → ProcessType → List Machine
unfolding sort_by filter supports_process
machines_for_process s process =
    sort_by machine_le (filter (λ m. supports_process m process) (all_machines s))
