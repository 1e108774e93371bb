-- ===== src/Examples/Dispatch.antt =====
-- The laws of the scheduler's choices on concrete orders and jobs.
use athena_order_priority.Prelude.{
  ◌*◌, ◌≡◌, refl, true, false, [], ◌∷◌, map, length, Dict, none, some, get, get_list, sort_by,
}
use athena_order_priority.Domain.Snapshot.{open_orders}
use athena_order_priority.Calendar.Work.{found}
use athena_order_priority.Domain.Status.{sequence_lock}
use athena_order_priority.Priority.Ranking.{PriorityResult}
use athena_order_priority.Scheduling.Locks.{
  build_lock_index, locks_by_creation, window_before, no_locks, LockIndex,
}
use athena_order_priority.Scheduling.Locks.Laws.{
  first_key, reserved_by, build_lock_index-first_key, build_lock_index-reserved_by,
}
use athena_order_priority.Scheduling.Candidates.{
  select_candidates, status_not_schedulable, run_limit,
}
use athena_order_priority.Scheduling.Candidates.Laws.{
  IsCandidate, IsLeftOut, Selects, select_candidates-Selects,
}
use athena_order_priority.Scheduling.Batching
use athena_order_priority.Scheduling.Batching.{
  BatchCandidate, BatchDecision, BatchingConfig, MachineState, by_customer, pick_next,
}
use athena_order_priority.Scheduling.Batching.Laws.{IsAllowed, pick_next_lem}
use athena_order_priority.Examples.Plant.{lathe, lathe-IsLively, hour}
use athena_order_priority.Examples.Orders.{snapshot, result, order_first}

build_lock_index-first_key_example :
    get 1 (build_lock_index snapshot 100).order_locked
    ≡ first_key 1 100 (locks_by_creation snapshot 100)
build_lock_index-first_key_example = build_lock_index-first_key snapshot 100 1

build_lock_index-reserved_by_example :
    get_list 4 (build_lock_index snapshot 100).reserved
    ≡ sort_by window_before (reserved_by 4 100 (locks_by_creation snapshot 100))
build_lock_index-reserved_by_example = build_lock_index-reserved_by snapshot 100 4

abbrev results : Dict PriorityResult
results = (1, result 1 60) ∷ (2, result 2 50) ∷ []

-- A lock that puts the second order before the first.
abbrev second_first : LockIndex
second_first = record no_locks {
  sequence_locks =
      record order_first { lock_type = sequence_lock; sequence_order_ids = 2 ∷ 1 ∷ [] } ∷ [];
}

-- Both orders are candidates, in the order of the lock, and the limit cuts the first
-- one; the third has another status.
selected_run :
    (map
        (λ c. c.order.order_id)
        (select_candidates snapshot results true [] 100 second_first none).0
      ≡ 2 ∷ 1 ∷ [])
    × ((select_candidates snapshot results true [] 100 second_first (some 1)).1
        ≡ record { order_id = 3; reason_code = status_not_schedulable }
          ∷ record { order_id = 1; reason_code = run_limit }
          ∷ [])
unfolding select_candidates
selected_run = (refl, refl)

select_candidates-Selects_example :
    Selects
      (IsCandidate snapshot results true [] 100)
      (IsLeftOut snapshot results true [] 100)
      (some 1)
      (length (open_orders snapshot))
      (select_candidates snapshot results true [] 100 second_first (some 1))
select_candidates-Selects_example =
    select_candidates-Selects snapshot results true [] 100 second_first (some 1)

abbrev head : BatchCandidate
head = record {
  order_id = 1;
  operation_id = 1;
  score = 60;
  duration = hour;
  due_date = some (40 * hour);
  setup_family = some 5;
  material_id = none;
  part_family = none;
  customer_id = some 7;
  tooling_ids = [];
  forced_next = false;
  locked = false;
}

abbrev second : BatchCandidate
second = record head { order_id = 2; operation_id = 2; score = 55; setup_family = some 6 }

abbrev state : MachineState
state = record {
  machine_id = 4;
  next_free = 0;
  current_setup_family = some 6;
  current_material_id = none;
  mounted_tooling = [];
  scheduled_minutes = 0;
  last_customer_id = none;
  last_part_family = none;
}

abbrev batching : BatchingConfig
batching = record {
  enabled = true;
  dimensions = by_customer ∷ [];
  min_priority_gap = 10;
  max_delay = 2 * hour;
}

pick_next_example :
    (d : BatchDecision) × (pick_next (head ∷ second ∷ []) state batching (some lathe)
      ≡ found (some d))
    × IsAllowed head state batching (some lathe) (head ∷ second ∷ []) d
pick_next_example = pick_next_lem head state batching (some lathe) (second ∷ []) lathe-IsLively

-- The second job shares the setup family and is pulled forward.
pick_next_pulls :
    pick_next (head ∷ second ∷ []) state batching none
    ≡ found (some (Batching.pull state batching (head ∷ []) second))
unfolding pick_next Batching.pull
pick_next_pulls = refl
