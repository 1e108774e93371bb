-- ===== src/Examples/Frozen.antt =====
-- The start of a run on a concrete plant.
use athena_order_priority.Prelude.{◌≡◌, refl, List, [], ◌∷◌, map, filter, sort_by}
use athena_order_priority.Domain.Results.{ScheduleEntry}
use athena_order_priority.Domain.Snapshot.{PlanningSnapshot}
use athena_order_priority.Scheduling.Locks.{no_locks}
use athena_order_priority.Scheduling.State.{init_machine_states, MachinePool}
use athena_order_priority.Scheduling.Frozen.{reproduce_frozen_entries, entry_le, locked_entry}
use athena_order_priority.Scheduling.Frozen.Laws.{
  keeps, first_of_each, reproduce_frozen_entries-first_of_each,
}
use athena_order_priority.Examples.Eligibilities.{plant, operation}
use athena_order_priority.Examples.Replans.{cut, drill}
use athena_order_priority.Examples.Plant.{lathe}

abbrev busy_plant : PlanningSnapshot
busy_plant = record plant {
  operations =
      record operation { operation_id = 1 }
      ∷ record operation { operation_id = 2; sequence = 2 }
      ∷ [];
}

abbrev pool : MachinePool
pool = init_machine_states busy_plant ((4, lathe) ∷ (6, lathe) ∷ []) 100 no_locks

-- One mill has no calendar, and the broken one no known return.
pool_run : map (λ entry. entry.0) pool.states ≡ 4 ∷ []
unfolding init_machine_states
pool_run = refl

abbrev previous : List ScheduleEntry
previous = drill ∷ cut ∷ record cut { entry_id = 7; setup_start = 120 } ∷ []

kept_run :
    (reproduce_frozen_entries previous busy_plant pool.states pool.timelines no_locks 100
      60).entries
    ≡ locked_entry cut ∷ []
unfolding reproduce_frozen_entries init_machine_states
kept_run = refl

reproduce_frozen_entries-first_of_each_example :
    (reproduce_frozen_entries previous busy_plant pool.states pool.timelines no_locks 100
      60).entries
    ≡ map locked_entry (
        first_of_each []
          (filter (keeps busy_plant no_locks 100 160 pool.states) (sort_by entry_le previous)))
reproduce_frozen_entries-first_of_each_example =
    reproduce_frozen_entries-first_of_each previous busy_plant pool.states pool.timelines no_locks
      100 60
