-- ===== src/Constraints/Eligibility.antt =====
-- backend/app/engines/constraints/eligibility.py: the candidate machines of an operation, and the hard
-- constraints on each. The index that caches machines by process is left out.
pub mod Laws
use athena_order_priority.Prelude.{
  ℕ, Bool, true, false, not, ◌&&◌, ◌||◌, List, [], ◌∷◌, ◌++◌, Option, none, some, if◌then◌else◌,
  filter, is_nil, map, get, sort_by, leb, Dict,
}
use athena_order_priority.Domain.Window.{Instant}
use athena_order_priority.Domain.Keys.{Key}
use athena_order_priority.Domain.Machines.{Machine, machine_le}
use athena_order_priority.Domain.Orders.{Order, Operation, or_else}
use athena_order_priority.Domain.Snapshot.{
  PlanningSnapshot, machines_in_group, machines_for_process,
}
use athena_order_priority.Constraints.Hard.{
  ConstraintContext, HardConstraint, fails, for_primary, required_group, is_primary_operation,
}

abbrev pub listed : Option Machine → List Machine → List Machine
listed none ms = ms
listed (some m) ms = m ∷ ms

-- The known machines of a list of ids.
unfoldable pub known_machines : PlanningSnapshot → List Key → List Machine
unfolding get
known_machines s [] = []
known_machines s (k ∷ ks) = listed (get k s.machines) (known_machines s ks)

-- The machines of the group, or those of the process.
abbrev pub group_or_process : PlanningSnapshot → Operation → Option Key → List Machine
group_or_process s op none = machines_for_process s op.operation_type
group_or_process s op (some group) = machines_in_group s group

abbrev pub required_or : PlanningSnapshot → Option Key → List Machine → List Machine
required_or s none others = others
required_or s (some k) others = listed (get k s.machines) []

abbrev pub explicit_or : PlanningSnapshot → List Key → List Machine → List Machine
explicit_or s [] others = others
explicit_or s (k ∷ ks) others = sort_by machine_le (known_machines s (sort_by leb (k ∷ ks)))

-- `candidate_machines(...).machines`
unfoldable pub candidate_machines : Operation → Option Order → PlanningSnapshot → List Machine
unfolding known_machines sort_by get is_primary_operation required_group machines_in_group
    machines_for_process
candidate_machines op order s = explicit_or s op.eligible_machine_ids (
    required_or s (for_primary (λ o. o.required_machine_id) op order)
      (group_or_process s op (required_group op order)))

unfoldable pub check_hard :
    Operation → Machine → ConstraintContext → List HardConstraint → List HardConstraint
unfolding filter
check_hard op m ctx hard = filter (λ c. fails c op m ctx) hard

pub record EligibilityResult : Type 0 where
  pub eligible : List Key
  pub rejected : Dict (List HardConstraint)

-- One machine is added to the result of the later ones.
abbrev pub add_machine : Machine → List HardConstraint → EligibilityResult → EligibilityResult
add_machine m [] r = record { eligible = m.machine_id ∷ r.eligible; rejected = r.rejected }
add_machine m (v ∷ vs) r = record {
  eligible = r.eligible;
  rejected = (m.machine_id, v ∷ vs) ∷ r.rejected;
}

-- The loop over the candidates.
unfoldable pub evaluate_machines :
    Operation → ConstraintContext → List HardConstraint → List Machine → EligibilityResult
unfolding check_hard
evaluate_machines op ctx hard [] = record { eligible = []; rejected = [] }
evaluate_machines op ctx hard (m ∷ ms) =
    add_machine m (check_hard op m ctx hard) (evaluate_machines op ctx hard ms)

unfoldable pub evaluate_eligibility :
    Operation → PlanningSnapshot → Instant → List HardConstraint → Option Order → EligibilityResult
unfolding evaluate_machines candidate_machines get
evaluate_eligibility op s at hard given =
    let order = or_else given (get op.order s.orders) in
    evaluate_machines op (record { snapshot = s; at = at; order = order }) hard
      (candidate_machines op order s)
