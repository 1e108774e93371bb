-- ===== src/Examples/Timelines.antt =====
-- A timeline with one slot receives a second one in front of it.
use athena_order_priority.Prelude.{◌*◌, inl, false, [], ◌∷◌, none, arith}
use athena_order_priority.Scheduling.Timeline.{BusySlot, MachineTimeline, insert}
use athena_order_priority.Scheduling.Timeline.Laws.{IsTimeline, insert-IsTimeline}
use athena_order_priority.Examples.Plant.{lathe, hour}

abbrev pub later_slot : BusySlot
later_slot = record {
  setup_start = 20 * hour;
  end = 22 * hour;
  entry_id = 1;
  setup_minutes = 0;
  setup_basis = none;
  setup_family = none;
  material_id = none;
  mounted_tooling = [];
  customer_id = none;
  part_family = none;
  locked = false;
}

abbrev early_slot : BusySlot
early_slot = record later_slot { entry_id = 2; setup_start = 10 * hour; end = 12 * hour }

abbrev timeline : MachineTimeline
timeline = record {
  machine_id = 4;
  calendar = lathe;
  floor = 0;
  tail_end = 22 * hour;
  slots = later_slot ∷ [];
  gaps = [];
  initial = record { setup_family = none; material_id = none; mounted_tooling = [] };
}

insert-IsTimeline_example : IsTimeline (insert early_slot timeline)
insert-IsTimeline_example =
    insert-IsTimeline early_slot timeline
      (record { slots_apart = (omega arith, tt, tt); tail_last = (omega arith, tt) }) (omega arith)
      (inl (omega arith), tt)
