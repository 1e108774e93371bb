-- ===== src/Examples/Eligibilities.antt =====
-- The eligible machines of concrete operations.
use athena_order_priority.Prelude.{◌≡◌, refl, true, false, [], ◌∷◌, some, none, get, All}
use athena_order_priority.Domain.Keys.{is_in}
use athena_order_priority.Domain.Status.{
  cnc_machining, machine_available, machine_down, op_pending, machine_lock,
}
use athena_order_priority.Domain.Machines.{Machine}
use athena_order_priority.Domain.Machines
use athena_order_priority.Domain.Orders.{Operation}
use athena_order_priority.Domain.Overlays.{ScheduleLock}
use athena_order_priority.Domain.Snapshot.{PlanningSnapshot}
use athena_order_priority.Constraints.Pins.{pinned_machine_for_order}
use athena_order_priority.Constraints.Pins.Laws.{IsPin, pinned_machine_for_order-IsPin}
use athena_order_priority.Constraints.Hard
use athena_order_priority.Constraints.Hard.{default_hard_constraints, cannot_run, machine_operable}
use athena_order_priority.Constraints.Eligibility.{check_hard, evaluate_eligibility}
use athena_order_priority.Constraints.Eligibility.Laws.{
  evaluate_eligibility_complete, evaluate_eligibility-pinned,
}
use athena_order_priority.Examples.Orders.{first_order, order_first}
use athena_order_priority.Examples.Orders

abbrev pub mill : Machine
mill = record {
  machine_id = 4;
  process_type = cnc_machining;
  machine_group = 1;
  status = machine_available;
  maintenance_windows = [];
  planned_downtime = [];
  unplanned_downtime = [];
  compatible_materials = [];
  compatible_processes = [];
  max_part_size = none;
  tooling_configuration = [];
  current_material_id = none;
  current_setup_family = none;
  available_from = none;
  preferred_rank = 1;
  efficiency = (1, 1);
  min_batch = none;
  max_batch = none;
}

abbrev pub other_mill : Machine
other_mill = record mill { machine_id = 5; preferred_rank = 0 }

-- Down, with no window that says when it comes back.
abbrev broken_mill : Machine
broken_mill = record mill { machine_id = 6; status = machine_down }

abbrev pub operation : Operation
operation = record {
  operation_id = 90;
  order = 1;
  sequence = 1;
  machine_id = none;
  op_quantity = 5;
  op_completed_quantity = 0;
  operation_status = op_pending;
  operation_type = cnc_machining;
  op_machine_group = none;
  eligible_machine_ids = [];
  op_material_id = none;
  tooling_ids = [];
  setup_family = none;
  setup = none;
  cycle = some 600_000_000;
  machine_cycle = [];
}

abbrev pub plant : PlanningSnapshot
plant = record Orders.snapshot {
  machines = (4, mill) ∷ (5, other_mill) ∷ (6, broken_mill) ∷ [];
  locks = [];
}

abbrev to_mill : ScheduleLock
to_mill = record order_first {
  lock_type = machine_lock;
  order_id = some 1;
  machine_id = some 4;
  window = none;
}

abbrev pinned_plant : PlanningSnapshot
pinned_plant = record plant { locks = to_mill ∷ [] }

eligible_run :
    evaluate_eligibility operation plant 100 default_hard_constraints (some first_order)
    ≡ record { eligible = 5 ∷ 4 ∷ []; rejected = (6, machine_operable ∷ []) ∷ [] }
unfolding evaluate_eligibility Hard.fails Machines.supports_process Hard.explicit_eligibility_fails
    Hard.machine_group_fails Hard.material_compatibility_fails Hard.tooling_compatibility_fails
    Hard.machine_operable_fails Hard.part_size_fails Hard.quantity_restriction_fails
    Hard.locked_machine_assignment_fails
eligible_run = refl

mill_clean :
    check_hard operation mill
      (record { snapshot = plant; at = 100; order = some first_order })
      default_hard_constraints
    ≡ []
unfolding check_hard Hard.fails Machines.supports_process Hard.explicit_eligibility_fails
    Hard.machine_group_fails Hard.material_compatibility_fails Hard.tooling_compatibility_fails
    Hard.machine_operable_fails Hard.part_size_fails Hard.quantity_restriction_fails
    Hard.locked_machine_assignment_fails
mill_clean = refl

mill_known : get 4 plant.machines ≡ some mill
unfolding get
mill_known = refl

evaluate_eligibility_complete_example :
    is_in 4
      (evaluate_eligibility operation plant 100 default_hard_constraints
        (some first_order)).eligible
    ≡ true
evaluate_eligibility_complete_example =
    evaluate_eligibility_complete operation plant 100 first_order mill refl mill_known mill_clean

pinned_run : pinned_machine_for_order pinned_plant 1 100 ≡ some 4
unfolding pinned_machine_for_order
pinned_run = refl

runs_there : cannot_run cnc_machining (get 4 pinned_plant.machines) ≡ false
unfolding get Machines.supports_process
runs_there = refl

evaluate_eligibility-pinned_example :
    All
      (λ j. j ≡ 4)
      (evaluate_eligibility operation pinned_plant 100 default_hard_constraints none).eligible
evaluate_eligibility-pinned_example =
    evaluate_eligibility-pinned operation pinned_plant 100 none 4 pinned_run runs_there

pinned_machine_for_order-IsPin_example :
    IsPin pinned_plant 1 100 (pinned_machine_for_order pinned_plant 1 100)
pinned_machine_for_order-IsPin_example = pinned_machine_for_order-IsPin pinned_plant 1 100
