-- ===== src/Scheduling/Setup.antt =====
-- backend/app/engines/scheduling/setup.py and `estimate_setup` of
-- backend/app/engines/constraints/soft.py: the changeover before an operation. Durations are counts of
-- microseconds and a factor is a fraction; a scaled duration is rounded down. Reasons are left out.
use athena_order_priority.Prelude.{
  ℕ, ◌+◌, ◌*◌, ◌/◌, Bool, true, false, ◌&&◌, List, [], ◌∷◌, Option, none, some, leb, if◌then◌else◌,
  get, sort_by, Dict,
}
use athena_order_priority.Domain.Keys.{Key, is_in, same}
use athena_order_priority.Domain.Machines.{Machine, Tooling}
use athena_order_priority.Domain.Orders.{Order, Operation, or_else}
use athena_order_priority.Domain.Snapshot.{PlanningSnapshot}
use athena_order_priority.Constraints.Hard.{required_tooling_ids, is_in_progress}
use athena_order_priority.Scheduling.Batching.{MachineState}
use athena_order_priority.Scheduling.Timeline.{
  SetupBasis, same_family, same_material, unknown, changeover,
}

pub record SetupRules : Type 0 where
  pub same_family_factor : ℕ × ℕ
  pub same_material_factor : ℕ × ℕ
  pub default_setup : ℕ

pub data SetupSource : Type 0 where
  from_operation : SetupSource
  from_order : SetupSource
  from_default : SetupSource

pub record SetupEstimate : Type 0 where
  pub minutes : ℕ
  pub base_minutes : ℕ
  pub factor : ℕ × ℕ
  pub basis : SetupBasis
  pub tooling_minutes : ℕ
  pub base_source : SetupSource

abbrev estimated : Option Order → Option ℕ
estimated none = none
estimated (some o) = o.estimated_setup

abbrev base_from : Option ℕ → Option ℕ → SetupRules → ℕ × SetupSource
base_from (some m) order rules = (m, from_operation)
base_from none (some m) rules = (m, from_order)
base_from none none rules = (rules.default_setup, from_default)

-- `base_setup_minutes`, with where it comes from; setups are not negative here.
unfoldable pub base_setup : Operation → Option Order → SetupRules → ℕ × SetupSource
base_setup op order rules = base_from op.setup (estimated order) rules

-- `_effective_state`: the family, the material and the mounted tooling.
abbrev pub effective_state : Machine → Option MachineState → Option Key × Option Key × List Key
effective_state m none = (m.current_setup_family, m.current_material_id, m.tooling_configuration)
effective_state m (some s) = (s.current_setup_family, s.current_material_id, s.mounted_tooling)

abbrev material_needed : Option Order → Option Key
material_needed none = none
material_needed (some o) = o.required_material_id

abbrev pub operation_material : Operation → Option Order → Option Key
operation_material op order = or_else op.op_material_id (material_needed order)

abbrev is_unknown : Option Key → Option Key → Bool
is_unknown none none = true
is_unknown _ _ = false

-- The factor and its basis, from the family and the material on the machine.
unfoldable pub factor_for :
    Operation → Option Key → Option Key → Option Key → SetupRules → (ℕ × ℕ) × SetupBasis
factor_for op op_material family material rules =
    if same op.setup_family family
    then (rules.same_family_factor, same_family)
    else if same op_material material
    then (rules.same_material_factor, same_material)
    else if is_unknown family material
    then ((1, 1), unknown)
    else ((1, 1), changeover)

abbrev unmounted : Option Tooling → Bool → ℕ
unmounted none mounted = 0
unmounted (some tool) true = 0
unmounted (some tool) false = tool.setup

-- The loop over the required tooling.
unfoldable pub tooling_setup : Dict Tooling → List Key → List Key → ℕ
unfolding get is_in
tooling_setup tooling mounted [] = 0
tooling_setup tooling mounted (k ∷ ks) =
    unmounted (get k tooling) (is_in k mounted) + tooling_setup tooling mounted ks

abbrev tooling_of : Option PlanningSnapshot → Dict Tooling
tooling_of none = []
tooling_of (some s) = s.tooling

-- `base * factor`
abbrev pub scaled : ℕ → ℕ × ℕ → ℕ
scaled base factor = base * factor.0 / factor.1

unfoldable pub estimate_setup :
    Operation
    → Option Order
    → Machine
    → Option MachineState
    → SetupRules
    → Option PlanningSnapshot
    → SetupEstimate
unfolding base_setup factor_for tooling_setup required_tooling_ids sort_by
estimate_setup op order m state rules s =
    let base = base_setup op order rules in
    let now = effective_state m state in
    let chosen = factor_for op (operation_material op order) now.0 now.1 rules in
    let tooling =
      tooling_setup (tooling_of s) now.2 (sort_by leb (required_tooling_ids op order)) in
    record {
      minutes = scaled base.0 chosen.0 + tooling;
      base_minutes = base.0;
      factor = chosen.0;
      basis = chosen.1;
      tooling_minutes = tooling;
      base_source = base.1;
    }

abbrev pub is_in_progress_on : Operation → Key → Bool
is_in_progress_on op k = is_in_progress op.operation_status && same op.machine_id (some k)

abbrev order_in : Key → Option PlanningSnapshot → Option Order
order_in k none = none
order_in k (some s) = get k s.orders

-- `compute_setup` without a prepared context.
unfoldable pub compute_setup :
    Operation
    → Machine
    → MachineState
    → SetupRules
    → Option Order
    → Option PlanningSnapshot
    → SetupEstimate
unfolding estimate_setup get
compute_setup op m state rules order s =
    if is_in_progress_on op m.machine_id
    then (record {
      minutes = 0;
      base_minutes = 0;
      factor = (0, 1);
      basis = same_family;
      tooling_minutes = 0;
      base_source = from_operation;
    })
    else estimate_setup op (or_else order (order_in op.order s)) m (some state) rules s
