-- ===== src/Examples/Blockers.antt =====
-- The wait for machines that are down, and the state of some blockers.
use athena_order_priority.Prelude.{◌≡◌, refl, [], ◌∷◌, some, none}
use athena_order_priority.Domain.Status.{machine_unavailable, waiting_material, state_on_hold}
use athena_order_priority.Domain.Machines.{Machine}
use athena_order_priority.Domain.Machines
use athena_order_priority.Domain.Snapshot.{PlanningSnapshot}
use athena_order_priority.Constraints.Hard
use athena_order_priority.Constraints.Hard.{default_hard_constraints}
use athena_order_priority.Constraints.Eligibility.{evaluate_eligibility, known_machines}
use athena_order_priority.Constraints.Readiness.{
  machine_available_at, machine_blocker, readiness_state,
}
use athena_order_priority.Constraints.Readiness.Laws.{
  IsFirst, IsWait, machine_available_at-IsFirst, machine_blocker-IsWait,
}
use athena_order_priority.Examples.Orders.{first_order}
use athena_order_priority.Examples.Eligibilities.{mill, other_mill, operation, plant}

-- Down from 90 to 130, in windows that overlap and are not in order.
abbrev stopped_mill : Machine
stopped_mill = record mill {
  planned_downtime = record { start = 110; end = 130; reason = [] } ∷ [];
  unplanned_downtime =
      record { start = 90; end = 105; reason = [] }
      ∷ record { start = 95; end = 110; reason = [] }
      ∷ [];
}

abbrev late_mill : Machine
late_mill = record other_mill { available_from = some 125 }

abbrev stopped_plant : PlanningSnapshot
stopped_plant = record plant { machines = (4, stopped_mill) ∷ (5, late_mill) ∷ [] }

stopped_run : machine_available_at stopped_mill 100 ≡ 130
unfolding machine_available_at
stopped_run = refl

blocked_run :
    machine_blocker first_order operation stopped_plant 100 default_hard_constraints
    ≡ some (record { state = machine_unavailable; resolves_at = some 125 })
unfolding machine_blocker Hard.fails Machines.supports_process Hard.explicit_eligibility_fails
    Hard.machine_group_fails Hard.material_compatibility_fails Hard.tooling_compatibility_fails
    Hard.machine_operable_fails Hard.part_size_fails Hard.quantity_restriction_fails
    Hard.locked_machine_assignment_fails
blocked_run = refl

-- A held order is on hold even if it also lacks material.
state_run :
    readiness_state (
      record { state = waiting_material; resolves_at = none }
      ∷ record { state = state_on_hold; resolves_at = none }
      ∷ record { state = machine_unavailable; resolves_at = some 125 }
      ∷ [])
    ≡ state_on_hold
unfolding readiness_state
state_run = refl

machine_available_at-IsFirst_example :
    IsFirst stopped_mill 100 (machine_available_at stopped_mill 100)
machine_available_at-IsFirst_example = machine_available_at-IsFirst stopped_mill 100

machine_blocker-IsWait_example :
    IsWait 100
      (known_machines stopped_plant
        (evaluate_eligibility operation stopped_plant 100 default_hard_constraints
          (some first_order)).eligible)
      (machine_blocker first_order operation stopped_plant 100 default_hard_constraints)
machine_blocker-IsWait_example =
    machine_blocker-IsWait first_order operation stopped_plant 100 default_hard_constraints
