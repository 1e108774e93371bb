-- ===== src/Domain/Status.antt =====
-- The enumerations of backend/app/domain/enums.py that the other parts use.
use athena_order_priority.Prelude.{ℕ, Bool, true, false, not, ◌==◌}

pub data ProcessType : Type 0 where
  cnc_machining : ProcessType
  additive_3d_printing : ProcessType
  support_removal : ProcessType
  deburring : ProcessType
  finishing : ProcessType
  heat_treatment : ProcessType
  surface_treatment : ProcessType
  inspection : ProcessType
  assembly : ProcessType
  packing : ProcessType
  other_process : ProcessType

pub data OrderStatus : Type 0 where
  new : OrderStatus
  released : OrderStatus
  planned : OrderStatus
  scheduled : OrderStatus
  material_waiting : OrderStatus
  tooling_waiting : OrderStatus
  in_production : OrderStatus
  partially_completed : OrderStatus
  quality_inspection : OrderStatus
  rework : OrderStatus
  completed : OrderStatus
  packed : OrderStatus
  shipped : OrderStatus
  on_hold : OrderStatus
  cancelled : OrderStatus

-- `CLOSED_ORDER_STATUSES`
abbrev pub is_closed : OrderStatus → Bool
is_closed completed = true
is_closed packed = true
is_closed shipped = true
is_closed cancelled = true
is_closed _ = false

-- `OrderStatus.is_open`
abbrev pub has_open_status : OrderStatus → Bool
has_open_status s = not (is_closed s)

-- `OrderStatus.is_schedulable`
abbrev pub is_schedulable : OrderStatus → Bool
is_schedulable new = true
is_schedulable released = true
is_schedulable planned = true
is_schedulable scheduled = true
is_schedulable material_waiting = true
is_schedulable tooling_waiting = true
is_schedulable in_production = true
is_schedulable partially_completed = true
is_schedulable rework = true
is_schedulable _ = false

pub data LockType : Type 0 where
  order_lock : LockType
  machine_lock : LockType
  sequence_lock : LockType
  time_slot_lock : LockType

pub data OverrideType : Type 0 where
  increase_priority : OverrideType
  decrease_priority : OverrideType
  set_priority : OverrideType
  force_next : OverrideType
  hold_order : OverrideType
  release_hold : OverrideType
  move_order : OverrideType
  lock_machine_assignment : OverrideType

pub data ReadinessState : Type 0 where
  ready : ReadinessState
  waiting_material : ReadinessState
  waiting_tooling : ReadinessState
  waiting_approval : ReadinessState
  waiting_previous_operation : ReadinessState
  machine_unavailable : ReadinessState
  quality_hold : ReadinessState
  state_on_hold : ReadinessState
  other_constraint : ReadinessState

pub data OperationStatus : Type 0 where
  op_pending : OperationStatus
  op_ready : OperationStatus
  op_scheduled : OperationStatus
  op_in_progress : OperationStatus
  op_completed : OperationStatus
  op_on_hold : OperationStatus
  op_rework : OperationStatus
  op_cancelled : OperationStatus

-- `OperationStatus.is_done`
abbrev pub has_done_status : OperationStatus → Bool
has_done_status op_completed = true
has_done_status op_cancelled = true
has_done_status _ = false

pub data ScheduleStatus : Type 0 where
  draft : ScheduleStatus
  approved : ScheduleStatus
  published : ScheduleStatus
  superseded : ScheduleStatus
  rejected : ScheduleStatus

pub data WritebackMode : Type 0 where
  read_only : WritebackMode
  approval : WritebackMode
  writeback : WritebackMode
  controlled_auto : WritebackMode

pub data MachineStatus : Type 0 where
  machine_available : MachineStatus
  machine_running : MachineStatus
  machine_down : MachineStatus
  machine_in_maintenance : MachineStatus
  machine_offline : MachineStatus

-- `MachineStatus.is_operable`
abbrev pub is_operable : MachineStatus → Bool
is_operable machine_available = true
is_operable machine_running = true
is_operable _ = false

-- The place of a process in the enumeration.
abbrev process_number : ProcessType → ℕ
process_number cnc_machining = 0
process_number additive_3d_printing = 1
process_number support_removal = 2
process_number deburring = 3
process_number finishing = 4
process_number heat_treatment = 5
process_number surface_treatment = 6
process_number inspection = 7
process_number assembly = 8
process_number packing = 9
process_number other_process = 10

-- `a == b` of two processes.
abbrev pub same_process : ProcessType → ProcessType → Bool
same_process a b = process_number a == process_number b
