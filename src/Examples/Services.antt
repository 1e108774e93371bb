-- ===== src/Examples/Services.antt =====
-- The lock service on a concrete store.
use athena_order_priority.Prelude.{◌≡◌, refl, arith, [], ◌∷◌, some}
use athena_order_priority.Domain.Window.{codes}
use athena_order_priority.Domain.Overlays.{ScheduleLock}
use athena_order_priority.Domain.Status.{time_slot_lock}
use athena_order_priority.Services.LockService
use athena_order_priority.Services.LockService.{LockRequest, create, new_lock}
use athena_order_priority.Services.Outcomes.{done, conflict_error}
use athena_order_priority.Services.LockService.Laws.{
  at_first, creating, passing, IsConsistent, Reachable-IsConsistent,
}
use athena_order_priority.Examples.Orders.{orders}

abbrev request : LockRequest
request = record {
  lock_id = 40;
  lock_type = time_slot_lock;
  reason = codes "rush";
  order_id = some 1;
  machine_id = some 4;
  window_start = some 200;
  window_end = some 300;
  sequence_order_ids = [];
}

abbrev locked : ScheduleLock
locked = new_lock request 100 (some (record { start = 200; end = 300; reason = codes "locked" }))

create_runs : create orders (4 ∷ []) 60 100 request [] ≡ done (locked ∷ [])
unfolding create LockService.checked_window
create_runs = refl

-- A second request for the same time is refused.
create_refused :
    create orders (4 ∷ []) 60 100 (record request { lock_id = 41 }) (locked ∷ []) ≡ conflict_error
unfolding create LockService.checked_window
create_refused = refl

Reachable-IsConsistent_example : IsConsistent 250 (locked ∷ [])
Reachable-IsConsistent_example = Reachable-IsConsistent 250 (locked ∷ []) (
    passing 100 250 (locked ∷ []) (omega arith)
      (creating orders (4 ∷ []) 60 100 request [] (locked ∷ []) create_runs (at_first 100)))
