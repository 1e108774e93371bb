-- ===== src/Domain/Results.antt =====
-- `ScheduleEntry` of backend/app/domain/results.py. Durations are counts of microseconds; the texts, the
-- quantity and the priority score are left out.
use athena_order_priority.Prelude.{ℕ, Bool, Option}
use athena_order_priority.Domain.Window.{Instant}
use athena_order_priority.Domain.Keys.{Key}

pub record ScheduleEntry : Type 0 where
  pub entry_id : Key
  pub machine_id : Key
  pub order_id : Key
  pub operation_id : Key
  pub sequence_on_machine : ℕ
  pub setup_start : Instant
  pub start : Instant
  pub end : Instant
  pub setup_minutes : ℕ
  pub run_minutes : ℕ
  pub is_last_operation : Bool
  pub expected_completion : Option Instant
  pub due_date : Option Instant
  pub locked : Bool
  pub setup_family : Option Key
  pub material_id : Option Key
  pub customer_id : Option Key
