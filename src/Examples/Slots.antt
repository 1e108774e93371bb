-- ===== src/Examples/Slots.antt =====
-- The slot of a job in front of a placed one.
use athena_order_priority.Prelude.{◌*◌, ◌≡◌, refl, false, All, [], none, some}
use athena_order_priority.Calendar.Work.{found}
use athena_order_priority.Scheduling.Batching.{MachineState}
use athena_order_priority.Scheduling.Setup.{SetupRules, compute_setup, from_default}
use athena_order_priority.Scheduling.Timeline.{MachineTimeline, new_timeline, insert, unknown}
use athena_order_priority.Scheduling.Timeline.Gaps.{IsRecorded, insert-IsRecorded}
use athena_order_priority.Scheduling.Slots.{SlotPlacement, find_slot}
use athena_order_priority.Scheduling.Slots.Laws.{IsFeasible, find_slot-IsFeasible}
use athena_order_priority.Examples.Plant.{lathe, lathe-IsLively, hour}
use athena_order_priority.Examples.Timelines.{later_slot}
use athena_order_priority.Examples.Eligibilities.{mill, operation}

abbrev pub rules : SetupRules
rules = record { same_family_factor = (0, 1); same_material_factor = (1, 2); default_setup = hour }

abbrev pub mill_state : MachineState
mill_state = record {
  machine_id = 4;
  next_free = 22 * hour;
  current_setup_family = none;
  current_material_id = none;
  mounted_tooling = [];
  scheduled_minutes = 0;
  last_customer_id = none;
  last_part_family = none;
}

abbrev pub empty_timeline : MachineTimeline
empty_timeline =
    new_timeline 4 lathe 0
      (record { setup_family = none; material_id = none; mounted_tooling = [] })

-- Nothing is known of the machine, so a full setup of the default length is taken.
setup_run : compute_setup operation mill mill_state rules none none ≡ record {
  minutes = hour;
  base_minutes = hour;
  factor = (1, 1);
  basis = unknown;
  tooling_minutes = 0;
  base_source = from_default;
}
unfolding compute_setup
setup_run = refl

gaps-IsRecorded : All (IsRecorded lathe) (insert later_slot empty_timeline).gaps
unfolding new_timeline
gaps-IsRecorded = insert-IsRecorded later_slot empty_timeline tt

find_slot-IsFeasible_example :
    (slot : SlotPlacement) × (find_slot operation none mill mill_state lathe rules 0 hour [] none
        (some (insert later_slot empty_timeline))
        false
      ≡ found slot)
    × IsFeasible lathe [] (insert later_slot empty_timeline).gaps 0 (22 * hour) slot
find_slot-IsFeasible_example =
    find_slot-IsFeasible operation none mill mill_state lathe rules 0 hour [] none
      (some (insert later_slot empty_timeline)) false lathe-IsLively gaps-IsRecorded
