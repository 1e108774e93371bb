-- ===== src/Constraints/Hard.antt =====
-- backend/app/engines/constraints/hard.py: the nine hard constraints. A violation is the constraint that
-- is violated; its message and details are left out.
use athena_order_priority.Prelude.{
  ℕ, ◌-◌, Bool, true, false, not, ◌&&◌, ◌||◌, List, [], ◌∷◌, Option, none, some, ltb, leb, ◌==◌,
  min, if◌then◌else◌, is_nil, any, get, sort_by,
}
use athena_order_priority.Domain.Window.{Instant, TimeWindow}
use athena_order_priority.Domain.Keys.{Key, is_in}
use athena_order_priority.Domain.Status.{
  ProcessType, other_process, same_process, OperationStatus, op_in_progress, is_operable,
}
use athena_order_priority.Domain.Machines.{
  Machine, Material, Tooling, all_downtime, supports_process,
}
use athena_order_priority.Domain.Orders.{Order, Operation, or_else}
use athena_order_priority.Domain.Snapshot.{PlanningSnapshot}
use athena_order_priority.Constraints.Pins.{pinned_machine_for_order}

pub record ConstraintContext : Type 0 where
  pub snapshot : PlanningSnapshot
  pub at : Instant
  pub order : Option Order

-- The order of the context when it is the one of the operation.
abbrev pub this_order : Key → Option Order → Option Order
this_order k none = none
this_order k (some o) = if o.order_id == k then some o else none

-- `_order_of`
unfoldable pub order_of : Operation → ConstraintContext → Option Order
unfolding get
order_of op ctx = or_else (this_order op.order ctx.order) (get op.order ctx.snapshot.orders)

abbrev is_other : ProcessType → Bool
is_other other_process = true
is_other _ = false

unfoldable pub is_primary_operation : Operation → Option Order → Bool
is_primary_operation op none = true
is_primary_operation op (some o) =
    is_other o.process_type || same_process op.operation_type o.process_type

-- `machine_id is not None and machine_id != other`
abbrev pub is_another : Option Key → Key → Bool
is_another none k = false
is_another (some j) k = not (j == k)

-- A field of the order for its primary operations.
abbrev pub for_primary {ℓ} : {A : Type ℓ} → (Order → Option A) → Operation → Option Order → Option A
for_primary field op none = none
for_primary field op (some o) = if is_primary_operation op (some o) then field o else none

-- The restriction to a list that is not empty.
abbrev pub is_excluded : Key → List Key → Bool
is_excluded k [] = false
is_excluded k (j ∷ js) = not (is_in k (j ∷ js))

abbrev pub is_in_progress : OperationStatus → Bool
is_in_progress op_in_progress = true
is_in_progress _ = false

-- `ExplicitEligibility.check`
unfoldable pub explicit_eligibility_fails : Operation → Machine → ConstraintContext → Bool
unfolding order_of is_primary_operation is_in
explicit_eligibility_fails op m ctx =
    is_excluded m.machine_id op.eligible_machine_ids
    || is_another (for_primary (λ o. o.required_machine_id) op (order_of op ctx)) m.machine_id
    || is_another op.machine_id m.machine_id && is_in_progress op.operation_status

-- `op.machine_group or (order.machine_group if ... else None)`
unfoldable pub required_group : Operation → Option Order → Option Key
unfolding is_primary_operation
required_group op order =
    or_else op.op_machine_group (for_primary (λ o. o.order_machine_group) op order)

-- `MachineGroup.check`
unfoldable pub machine_group_fails : Operation → Machine → ConstraintContext → Bool
unfolding order_of required_group
machine_group_fails op m ctx =
    is_nil op.eligible_machine_ids
    && is_another (required_group op (order_of op ctx)) m.machine_group

abbrev order_material : Option Order → Option Key
order_material none = none
order_material (some o) = o.required_material_id

abbrev material_excludes : Key → Option Material → Bool
material_excludes k none = false
material_excludes k (some material) = is_excluded k material.compatible_machine_ids

abbrev pub material_fails : Machine → PlanningSnapshot → Option Key → Bool
material_fails m s none = false
material_fails m s (some k) =
    is_excluded k m.compatible_materials || material_excludes m.machine_id (get k s.materials)

-- `MaterialCompatibility.check`
unfoldable pub material_compatibility_fails : Operation → Machine → ConstraintContext → Bool
unfolding order_of get is_in
material_compatibility_fails op m ctx =
    material_fails m ctx.snapshot (or_else op.op_material_id (order_material (order_of op ctx)))

abbrev or_none : Option (List Key) → List Key
or_none none = []
or_none (some ks) = ks

abbrev tools_or : List Key → List Key → List Key
tools_or [] others = others
tools_or (k ∷ ks) others = k ∷ ks

unfoldable pub required_tooling_ids : Operation → Option Order → List Key
unfolding is_primary_operation
required_tooling_ids op order =
    tools_or op.tooling_ids (or_none (for_primary (λ o. some o.tooling_requirement) op order))

abbrev tool_excludes : Key → Option Tooling → Bool
tool_excludes k none = false
tool_excludes k (some tool) = is_excluded k tool.fits_machine_ids

-- `ToolingCompatibility.check`
unfoldable pub tooling_compatibility_fails : Operation → Machine → ConstraintContext → Bool
unfolding order_of required_tooling_ids any get is_in
tooling_compatibility_fails op m ctx =
    any (λ t. tool_excludes m.machine_id (get t ctx.snapshot.tooling))
      (required_tooling_ids op (order_of op ctx))

abbrev earlier : Option Instant → Instant → Instant
earlier none t = t
earlier (some u) t = min u t

-- `min` of the ends after `at`
unfoldable pub first_end : Instant → List TimeWindow → Option Instant
first_end at [] = none
first_end at (w ∷ ws) =
    let later = first_end at ws in if ltb at w.end then some (earlier later w.end) else later

unfoldable pub maintenance_end_after : Machine → Instant → Option Instant
unfolding first_end
maintenance_end_after m at = first_end at (all_downtime m)

abbrev no_return : Option Instant → Bool
no_return none = true
no_return (some t) = false

-- `MachineOperable.check`
unfoldable pub machine_operable_fails : Machine → Instant → Bool
unfolding maintenance_end_after
machine_operable_fails m at = not (is_operable m.status) && no_return (maintenance_end_after m at)

-- `all(p <= e for p, e in zip(part, envelope))`
unfoldable pub fits : List ℕ → List ℕ → Bool
fits [] es = true
fits (p ∷ ps) [] = true
fits (p ∷ ps) (e ∷ es) = leb p e && fits ps es

abbrev largest_first : List ℕ → List ℕ
largest_first = sort_by (λ a b. leb b a)

abbrev exceeds_envelope : Option (List ℕ) → Option (List ℕ) → Bool
exceeds_envelope none part = false
exceeds_envelope (some envelope) none = false
exceeds_envelope (some envelope) (some part) =
    not (fits (largest_first part) (largest_first envelope))

abbrev part_of : Option Order → Option (List ℕ)
part_of none = none
part_of (some o) = o.part_size

-- `PartSize.check`
unfoldable pub part_size_fails : Operation → Machine → ConstraintContext → Bool
unfolding order_of fits sort_by
part_size_fails op m ctx = exceeds_envelope m.max_part_size (part_of (order_of op ctx))

abbrev below : ℕ → Option ℕ → Bool
below q none = false
below q (some least) = ltb 0 q && ltb q least

abbrev above : ℕ → Option ℕ → Bool
above q none = false
above q (some most) = ltb most q

-- `QuantityRestriction.check`
unfoldable pub quantity_restriction_fails : Operation → Machine → Bool
quantity_restriction_fails op m =
    let q = op.op_quantity - op.op_completed_quantity in below q m.min_batch || above q m.max_batch

-- The pinned machine is known and cannot run the process.
abbrev pub cannot_run : ProcessType → Option Machine → Bool
cannot_run process none = false
cannot_run process (some m) = not (supports_process m process)

abbrev pub pinned_elsewhere : Operation → Machine → PlanningSnapshot → Option Key → Bool
pinned_elsewhere op m s none = false
pinned_elsewhere op m s (some k) =
    not (k == m.machine_id) && not (cannot_run op.operation_type (get k s.machines))

-- `LockedMachineAssignment.check`
unfoldable pub locked_machine_assignment_fails : Operation → Machine → ConstraintContext → Bool
unfolding pinned_machine_for_order get supports_process
locked_machine_assignment_fails op m ctx =
    pinned_elsewhere op m ctx.snapshot (pinned_machine_for_order ctx.snapshot op.order ctx.at)

pub data HardConstraint : Type 0 where
  process_capability : HardConstraint
  explicit_eligibility : HardConstraint
  machine_group : HardConstraint
  material_compatibility : HardConstraint
  tooling_compatibility : HardConstraint
  machine_operable : HardConstraint
  part_size : HardConstraint
  quantity_restriction : HardConstraint
  locked_machine_assignment : HardConstraint

-- `constraint.check(op, machine, ctx) is not None`
unfoldable pub fails : HardConstraint → Operation → Machine → ConstraintContext → Bool
fails process_capability op m ctx = not (supports_process m op.operation_type)
fails explicit_eligibility op m ctx = explicit_eligibility_fails op m ctx
fails machine_group op m ctx = machine_group_fails op m ctx
fails material_compatibility op m ctx = material_compatibility_fails op m ctx
fails tooling_compatibility op m ctx = tooling_compatibility_fails op m ctx
fails machine_operable op m ctx = machine_operable_fails m ctx.at
fails part_size op m ctx = part_size_fails op m ctx
fails quantity_restriction op m ctx = quantity_restriction_fails op m
fails locked_machine_assignment op m ctx = locked_machine_assignment_fails op m ctx

-- `default_hard_constraints`
abbrev pub default_hard_constraints : List HardConstraint
default_hard_constraints =
    process_capability ∷ explicit_eligibility ∷ machine_group ∷ material_compatibility
    ∷ tooling_compatibility ∷ machine_operable ∷ part_size ∷ quantity_restriction
    ∷ locked_machine_assignment ∷ []
