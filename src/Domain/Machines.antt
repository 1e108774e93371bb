-- ===== src/Domain/Machines.antt =====
-- `Machine`, `Material` and `Tooling` of backend/app/domain/models.py. The quantities of
-- `Machine.attributes` that are read are fields; the envelope is its three dimensions, and
-- the efficiency a fraction.
use athena_order_priority.Prelude.{ℕ, Bool, ◌||◌, List, ◌++◌, Option, any, leb, then_by}
use athena_order_priority.Domain.Window.{Instant, TimeWindow}
use athena_order_priority.Domain.Keys.{Key}
use athena_order_priority.Domain.Status.{ProcessType, same_process, MachineStatus}

pub record Machine : Type 0 where
  pub machine_id : Key
  pub process_type : ProcessType
  pub machine_group : Key
  pub status : MachineStatus
  pub maintenance_windows : List TimeWindow
  pub planned_downtime : List TimeWindow
  pub unplanned_downtime : List TimeWindow
  pub compatible_materials : List Key
  pub compatible_processes : List ProcessType
  pub max_part_size : Option (List ℕ)
  pub tooling_configuration : List Key
  pub current_material_id : Option Key
  pub current_setup_family : Option Key
  pub available_from : Option Instant
  pub preferred_rank : ℕ
  pub efficiency : ℕ × ℕ
  pub min_batch : Option ℕ
  pub max_batch : Option ℕ

-- `Machine.all_downtime`
abbrev pub all_downtime : Machine → List TimeWindow
all_downtime m = m.maintenance_windows ++ (m.planned_downtime ++ m.unplanned_downtime)

-- `Machine.supports_process`
unfoldable pub supports_process : Machine → ProcessType → Bool
unfolding any
supports_process m process =
    same_process process m.process_type || any (same_process process) m.compatible_processes

-- The order of `(preferred_rank, machine_id)`.
abbrev pub machine_le : Machine → Machine → Bool
machine_le m n = then_by m.preferred_rank n.preferred_rank (leb m.machine_id n.machine_id)

pub record Material : Type 0 where
  pub material_id : Key
  pub compatible_machine_ids : List Key

pub record Tooling : Type 0 where
  pub tooling_id : Key
  pub fits_machine_ids : List Key
  pub setup : ℕ
