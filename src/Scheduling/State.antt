-- ===== src/Scheduling/State.antt =====
-- backend/app/engines/scheduling/state.py: the machines of a run, and the entries of the previous
-- schedule that it starts from, with `MachineTimeline.add_entry` of timeline.py. A warning is the
-- cause for which an entry or a machine is left out, not its text.
use athena_order_priority.Prelude.{
  ◌+◌, Bool, true, false, List, [], ◌∷◌, Option, none, some, leb, max, map, Dict, get, put, sort_by,
}
use athena_order_priority.Domain.Window.{Instant}
use athena_order_priority.Domain.Keys.{Key, is_in, union}
use athena_order_priority.Domain.Status.{is_operable}
use athena_order_priority.Domain.Machines.{Machine}
use athena_order_priority.Domain.Orders.{Order, Operation, or_else}
use athena_order_priority.Domain.Results.{ScheduleEntry}
use athena_order_priority.Domain.Snapshot.{PlanningSnapshot}
use athena_order_priority.Calendar.Machine.{MachineCalendar}
use athena_order_priority.Constraints.Hard.{required_tooling_ids, maintenance_end_after}
use athena_order_priority.Scheduling.Batching.{MachineState}
use athena_order_priority.Scheduling.Locks.{LockIndex}
use athena_order_priority.Scheduling.Timeline.{
  SetupBasis, BusySlot, InitialSetup, MachineTimeline, new_timeline, predecessor, insert,
}

pub data Exclusion : Type 0 where
  no_calendar : Exclusion
  no_known_return : Exclusion
  machine_locked : Exclusion

pub record MachinePool : Type 0 where
  pub states : Dict MachineState
  pub timelines : Dict MachineTimeline
  pub excluded : Dict Exclusion

abbrev later_of : Option Instant → Instant → Instant
later_of none t = t
later_of (some u) t = max t u

abbrev pub setup_of : Machine → InitialSetup
setup_of m = record {
  setup_family = m.current_setup_family;
  material_id = m.current_material_id;
  mounted_tooling = m.tooling_configuration;
}

-- The state and the timeline of a machine that is free from `next_free` on.
unfoldable pub pool_machine : Machine → MachineCalendar → Instant → MachinePool → MachinePool
unfolding new_timeline put
pool_machine m calendar next_free pool = record {
  states =
      put m.machine_id
        (record {
          machine_id = m.machine_id;
          next_free = next_free;
          current_setup_family = m.current_setup_family;
          current_material_id = m.current_material_id;
          mounted_tooling = m.tooling_configuration;
          scheduled_minutes = 0;
          last_customer_id = none;
          last_part_family = none;
        })
        pool.states;
  timelines =
      put m.machine_id (new_timeline m.machine_id calendar next_free (setup_of m)) pool.timelines;
  excluded = pool.excluded;
}

abbrev exclude : Machine → Exclusion → MachinePool → MachinePool
exclude m cause pool = record pool { excluded = put m.machine_id cause pool.excluded }

abbrev exclude_when : Bool → Machine → MachinePool → MachinePool
exclude_when true m pool = exclude m machine_locked pool
exclude_when false m pool = pool

-- A machine that may be down: the instant from which it is back, when one is known.
abbrev free_from : Bool → Option Instant → Instant → Option Instant
free_from true back t = some t
free_from false none t = none
free_from false (some b) t = some (max t b)

abbrev pool_when : Option Instant → Bool → Machine → MachineCalendar → MachinePool → MachinePool
pool_when none frozen m calendar pool = exclude m no_known_return pool
pool_when (some t) frozen m calendar pool = pool_machine m calendar t (exclude_when frozen m pool)

abbrev with_calendar : Option MachineCalendar → Instant → Bool → Machine → MachinePool → MachinePool
with_calendar none now frozen m pool = exclude m no_calendar pool
with_calendar (some calendar) now frozen m pool =
    pool_when
      (free_from (is_operable m.status) (maintenance_end_after m now)
        (later_of m.available_from now))
      frozen m calendar pool

-- One round of the loop of `init_machine_states`.
unfoldable pub add_to_pool :
    Dict MachineCalendar → Instant → LockIndex → MachinePool → Machine → MachinePool
unfolding get maintenance_end_after pool_machine put is_in
add_to_pool calendars now locks pool m =
    with_calendar (get m.machine_id calendars) now (is_in m.machine_id locks.frozen_machines) m pool

unfoldable pub add_all_to_pool :
    Dict MachineCalendar → Instant → LockIndex → MachinePool → List Machine → MachinePool
unfolding add_to_pool
add_all_to_pool calendars now locks pool [] = pool
add_all_to_pool calendars now locks pool (m ∷ ms) =
    add_all_to_pool calendars now locks (add_to_pool calendars now locks pool m) ms

unfoldable pub init_machine_states :
    PlanningSnapshot → Dict MachineCalendar → Instant → LockIndex → MachinePool
unfolding add_all_to_pool sort_by
init_machine_states s calendars now locks =
    add_all_to_pool calendars now locks (record { states = []; timelines = []; excluded = [] })
      (map (λ entry. entry.1) (sort_by (λ a b. leb a.0 b.0) s.machines))

abbrev family_after : Option Operation → ScheduleEntry → Option Key
family_after none entry = entry.setup_family
family_after (some op) entry = op.setup_family

abbrev material_of_operation : Option Operation → Option Key
material_of_operation none = none
material_of_operation (some op) = op.op_material_id

abbrev order_field : (Order → Option Key) → Option Order → Option Key
order_field field none = none
order_field field (some o) = field o

abbrev material_after : Option Operation → Option Order → ScheduleEntry → Option Key
material_after op order entry =
    or_else (or_else (material_of_operation op) entry.material_id)
      (order_field (λ o. o.required_material_id) order)

abbrev customer_after : Option Order → ScheduleEntry → Option Key
customer_after order entry = or_else entry.customer_id (order_field (λ o. some o.customer_id) order)

unfoldable pub tooling_after : Option Operation → Option Order → List Key → List Key
unfolding required_tooling_ids union
tooling_after none order mounted = mounted
tooling_after (some op) order mounted = union mounted (required_tooling_ids op order)

-- The setup state that a last job leaves.
abbrev tail_state :
    Bool → Option Operation → Option Order → ScheduleEntry → MachineState → MachineState
tail_state false op order entry state = state
tail_state true op order entry state = record state {
  current_setup_family = family_after op entry;
  current_material_id = material_after op order entry;
  last_customer_id = customer_after order entry;
  last_part_family = order_field (λ o. o.part_family) order;
}

unfoldable pub apply_entry_to_state :
    MachineState → ScheduleEntry → Option Operation → Option Order → Bool → MachineState
unfolding tooling_after
apply_entry_to_state state entry op order tail = tail_state tail op order entry (record state {
  next_free = max state.next_free entry.end;
  scheduled_minutes = state.scheduled_minutes + (entry.setup_minutes + entry.run_minutes);
  mounted_tooling = tooling_after op order state.mounted_tooling;
})

abbrev mounted_before : Option BusySlot → InitialSetup → List Key
mounted_before none initial = initial.mounted_tooling
mounted_before (some slot) initial = slot.mounted_tooling

-- `MachineTimeline.add_entry`
unfoldable pub add_entry :
    ScheduleEntry
    → Option Operation
    → Option Order
    → Option SetupBasis
    → MachineTimeline
    → MachineTimeline
unfolding predecessor tooling_after insert
add_entry entry op order basis m =
    insert
      (record {
        setup_start = entry.setup_start;
        end = entry.end;
        entry_id = entry.entry_id;
        setup_minutes = entry.setup_minutes;
        setup_basis = basis;
        setup_family = family_after op entry;
        material_id = material_after op order entry;
        mounted_tooling =
            tooling_after op order (mounted_before (predecessor m entry.setup_start) m.initial);
        customer_id = customer_after order entry;
        part_family = order_field (λ o. o.part_family) order;
        locked = entry.locked;
      })
      m
