-- ===== src/Constraints/Soft.antt =====
-- backend/app/engines/constraints/soft.py: the preferences, as costs. A cost is an integer in the unit
-- of a duration (the source's minute-equivalents), rates are fractions, and products are rounded
-- down. Messages and details are left out.
use athena_order_priority.Prelude.{
  ℕ, ◌-◌, ◌*◌, ◌/◌, ℤ, pos, neg, ◌+ℤ◌, Bool, false, not, ◌&&◌, Option, none, some, ltb, ◌==◌,
  if◌then◌else◌, is_nil, length, filter, Dict, get,
}
use athena_order_priority.Domain.Keys.{Key, same, is_subset}
use athena_order_priority.Domain.Machines.{Machine}
use athena_order_priority.Domain.Orders.{Order, Operation, or_else}
use athena_order_priority.Domain.Snapshot.{PlanningSnapshot}
use athena_order_priority.Constraints.Hard.{this_order, required_tooling_ids}
use athena_order_priority.Scheduling.Batching.{
  MachineState, Dimension, by_material, by_part_family, by_tool, BatchingConfig,
}
use athena_order_priority.Scheduling.Setup.{SetupRules, estimate_setup, operation_material, scaled}

pub record MachinePreferenceRules : Type 0 where
  pub preferred_machine_cost : ℤ
  pub non_preferred_machine_cost : ℤ
  pub utilization_balance_cost : ℕ × ℕ
  pub energy_cost_per_hour : Dict (ℕ × ℕ)

pub record SoftConfig : Type 0 where
  pub setup_rules : SetupRules
  pub setup_penalty : ℕ × ℕ
  pub preferences : MachinePreferenceRules
  pub batching_config : BatchingConfig

-- `op.run_minutes_on(machine)`
abbrev cycle_on : Option ℕ → Option ℕ → Option ℕ
cycle_on none default = default
cycle_on (some cycle) default = some cycle

abbrev run_of : Option ℕ → ℕ → ℕ × ℕ → Option ℕ
run_of none quantity efficiency = none
run_of (some cycle) quantity efficiency = some (
    if ltb 0 efficiency.0 then cycle * quantity * efficiency.1 / efficiency.0 else cycle * quantity)

unfoldable pub run_minutes_on : Operation → Machine → Option ℕ
unfolding get
run_minutes_on op m =
    run_of (cycle_on (get m.machine_id op.machine_cycle) op.cycle)
      (op.op_quantity - op.op_completed_quantity) m.efficiency

-- What a soft constraint reads besides the operation and the machine.
pub record SoftContext : Type 0 where
  pub snapshot : PlanningSnapshot
  pub order : Option Order
  pub machine_state : Option MachineState
  pub group_average_load : Option ℕ

-- `_order_of`
unfoldable pub order_for : Operation → SoftContext → Option Order
unfolding get
order_for op ctx = or_else (this_order op.order ctx.order) (get op.order ctx.snapshot.orders)

-- `PreferredMachine.penalty`
abbrev preferred_cost : MachinePreferenceRules → Option Key → Key → ℤ
preferred_cost rules none k = pos 0
preferred_cost rules (some j) k =
    if j == k then rules.preferred_machine_cost else rules.non_preferred_machine_cost

-- `SetupChangeover.penalty`
unfoldable pub setup_cost : SoftConfig → Operation → Machine → SoftContext → ℤ
unfolding estimate_setup order_for
setup_cost config op m ctx = pos (
    scaled
      (estimate_setup op (order_for op ctx) m ctx.machine_state config.setup_rules
        (some ctx.snapshot)).minutes
      config.setup_penalty)

-- `UtilizationBalance.penalty`: a cost for each percent above the average.
abbrev balance_cost : ℕ × ℕ → Option MachineState → Option ℕ → ℤ
balance_cost rate none average = pos 0
balance_cost rate (some s) none = pos 0
balance_cost rate (some s) (some average) =
    if average == 0
    then pos 0
    else pos ((s.scheduled_minutes - average) * 100 * rate.0 / (average * rate.1))

-- The microseconds of an hour.
abbrev pub hour_length : ℕ
hour_length = 3_600_000_000

-- `EnergyCost.penalty`
abbrev energy_cost : Option (ℕ × ℕ) → Option ℕ → ℤ
energy_cost none run = pos 0
energy_cost (some rate) none = pos 0
energy_cost (some rate) (some run) = pos (rate.0 * run / (rate.1 * hour_length))

abbrev customer_id_of : Option Order → Option Key
customer_id_of none = none
customer_id_of (some o) = some o.customer_id

abbrev last_customer : Option MachineState → Option Key
last_customer none = none
last_customer (some s) = s.last_customer_id

-- `CustomerSequencePreference.penalty`
unfoldable pub customer_cost : ℕ → Operation → SoftContext → ℤ
unfolding order_for neg
customer_cost bonus op ctx =
    if same (customer_id_of (order_for op ctx)) (last_customer ctx.machine_state)
    then neg (pos bonus)
    else pos 0

abbrev family_of_part : Option Order → Option Key
family_of_part none = none
family_of_part (some o) = o.part_family

-- A dimension that the job shares with the machine's last one.
unfoldable pub matches : Operation → Option Order → MachineState → Dimension → Bool
unfolding required_tooling_ids is_subset
matches op order s by_material = same (operation_material op order) s.current_material_id
matches op order s by_part_family = same (family_of_part order) s.last_part_family
matches op order s by_tool =
    let tools = required_tooling_ids op order in
    not (is_nil tools) && is_subset tools s.mounted_tooling
matches op order s _ = false

-- The bonus of the dimensions that are shared.
unfoldable pub matched_cost : ℕ → BatchingConfig → Operation → Option Order → MachineState → ℤ
unfolding matches filter neg
matched_cost bonus config op order s =
    neg (pos (bonus * length (filter (matches op order s) config.dimensions)))

-- `BatchPreference.penalty`
unfoldable pub batch_cost : ℕ → BatchingConfig → Operation → SoftContext → ℤ
unfolding matched_cost order_for
batch_cost bonus config op ctx = elim ctx.machine_state [
  | none ↦ pos 0
  | some s ↦ if config.enabled then matched_cost bonus config op (order_for op ctx) s else pos 0
]

-- `batch_bonus_minutes`
abbrev pub batch_bonus : SoftConfig → ℕ
batch_bonus config =
    scaled (scaled config.setup_rules.default_setup config.setup_rules.same_material_factor)
      config.setup_penalty

-- `soft_cost` of the default soft constraints, in their order.
unfoldable pub soft_cost : SoftConfig → Operation → Machine → SoftContext → ℤ
unfolding ◌+ℤ◌ get setup_cost run_minutes_on customer_cost batch_cost
soft_cost config op m ctx =
    preferred_cost config.preferences op.machine_id m.machine_id
    +ℤ setup_cost config op m ctx
    +ℤ balance_cost config.preferences.utilization_balance_cost ctx.machine_state
        ctx.group_average_load
    +ℤ energy_cost (get m.machine_id config.preferences.energy_cost_per_hour) (run_minutes_on op m)
    +ℤ customer_cost (batch_bonus config) op ctx
    +ℤ batch_cost (batch_bonus config) config.batching_config op ctx
