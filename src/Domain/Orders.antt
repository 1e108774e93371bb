-- ===== src/Domain/Orders.antt =====
-- `Order` and `Operation` of backend/app/domain/models.py. Quantities are natural numbers of a fixed
-- unit; the fields that no modelled part reads (texts, money, dates of the past) are left out. Of
-- `Order.attributes` there are the three dimensions of the part, when all are known.
use athena_order_priority.Prelude.{
  ℕ, ◌-◌, Bool, ◌&&◌, ◌||◌, List, Option, none, some, ltb, ◌==◌, Dict,
}
use athena_order_priority.Domain.Window.{Instant}
use athena_order_priority.Domain.Keys.{Key}
use athena_order_priority.Domain.Status.{
  ProcessType, OrderStatus, has_open_status, OperationStatus, has_done_status,
}

pub record Order : Type 0 where
  pub order_id : Key
  pub customer_id : Key
  pub part_family : Option Key
  pub order_date : Option Instant
  pub received_date : Option Instant
  pub requested_delivery_date : Option Instant
  pub promised_delivery_date : Option Instant
  pub revised_delivery_date : Option Instant
  pub quantity : ℕ
  pub completed_quantity : ℕ
  pub cancelled_quantity : ℕ
  pub order_status : OrderStatus
  pub erp_priority : Option ℕ
  pub required_material_id : Option Key
  pub process_type : ProcessType
  pub order_machine_group : Option Key
  pub required_machine_id : Option Key
  pub tooling_requirement : List Key
  pub part_size : Option (List ℕ)
  pub estimated_setup : Option ℕ

-- `a or b` of two optional values that are true whenever they are there.
abbrev pub or_else {ℓ} : {A : Type ℓ} → Option A → Option A → Option A
or_else none b = b
or_else (some a) b = some a

-- `Order.pending_quantity`
unfoldable pub pending_quantity : Order → ℕ
pending_quantity o = o.quantity - o.completed_quantity - o.cancelled_quantity

-- `Order.due_date`
unfoldable pub due_date : Order → Option Instant
due_date o =
    or_else o.revised_delivery_date (or_else o.promised_delivery_date o.requested_delivery_date)

-- `Order.is_open`
unfoldable pub is_open : Order → Bool
unfolding pending_quantity
is_open o = has_open_status o.order_status && ltb 0 (pending_quantity o)

pub record Operation : Type 0 where
  pub operation_id : Key
  pub order : Key
  pub sequence : ℕ
  pub machine_id : Option Key
  pub op_quantity : ℕ
  pub op_completed_quantity : ℕ
  pub operation_status : OperationStatus
  pub operation_type : ProcessType
  pub op_machine_group : Option Key
  pub eligible_machine_ids : List Key
  pub op_material_id : Option Key
  pub tooling_ids : List Key
  pub setup_family : Option Key
  pub setup : Option ℕ
  pub cycle : Option ℕ
  pub machine_cycle : Dict ℕ

-- `Operation.is_done`
unfoldable pub is_done : Operation → Bool
is_done op = has_done_status op.operation_status || (op.op_quantity - op.op_completed_quantity == 0)
