-- ===== src/Constraints/Eligibility/Laws.antt =====
-- The theorems about the eligible machines (backend/app/engines/constraints/eligibility.py).
use athena_order_priority.Prelude.{
  ◌≡◌, refl, ap, sym, ◌∙◌, true, false, ◌&&◌, List, [], ◌∷◌, Option, none, some, ◌==◌, filter,
  filter-none, is_nil, map, Dict, get, All, Has, Has-filter, Has-sort_by, any, any-sort_by, sort_by,
  leb, Bool-cases, inl, inr, arith,
}
use athena_order_priority.Domain.Window.{Instant}
use athena_order_priority.Domain.Keys.{Key, is_in}
use athena_order_priority.Domain.Status.{op_in_progress}
use athena_order_priority.Domain.Machines.{Machine, machine_le, supports_process}
use athena_order_priority.Domain.Orders.{Order, Operation, or_else}
use athena_order_priority.Domain.Snapshot.{
  PlanningSnapshot, all_machines, machines_in_group, machines_for_process,
}
use athena_order_priority.Constraints.Pins.{pinned_machine_for_order}
use athena_order_priority.Constraints.Hard.{
  ConstraintContext, HardConstraint, default_hard_constraints, fails, for_primary, required_group,
  order_of, is_another, is_excluded, is_in_progress, cannot_run, pinned_elsewhere,
  explicit_eligibility_fails, machine_group_fails, locked_machine_assignment_fails,
}
use athena_order_priority.Constraints.Eligibility.{
  known_machines, listed, group_or_process, required_or, explicit_or, candidate_machines,
  check_hard, add_machine, evaluate_machines, evaluate_eligibility,
}

module _ (op : Operation) (ctx : ConstraintContext) (hard : List HardConstraint) where
  -- What holds of the machines without violations holds of the eligible ones.
  eligible-All :
      (P : Key → Type 0) (ms : List Machine)
      → ((m : Machine) → check_hard op m ctx hard ≡ [] → P m.machine_id)
      → All P (evaluate_machines op ctx hard ms).eligible
  unfolding evaluate_machines
  eligible-All P [] h = tt
  eligible-All P (m ∷ ms) h = go (eligible-All P ms h) (check_hard op m ctx hard) refl
    where
      go :
          All P (evaluate_machines op ctx hard ms).eligible
          → (vs : List HardConstraint) → check_hard op m ctx hard ≡ vs
          → All P (add_machine m vs (evaluate_machines op ctx hard ms)).eligible
      go later [] e = (h m e, later)
      go later (v ∷ vs) e = later

  -- A candidate without violations is eligible.
  eligible-Has :
      (ms : List Machine) (m : Machine)
      → check_hard op m ctx hard ≡ []
      → Has m ms
      → is_in m.machine_id (evaluate_machines op ctx hard ms).eligible ≡ true
  unfolding evaluate_machines is_in any
  eligible-Has [] m e h = absurd (h tt)
  eligible-Has (n ∷ ms) m e (inl same) =
      let clean : check_hard op n ctx hard ≡ [] = ap (λ x. check_hard op x ctx hard) same ∙ e in
      let here : (m.machine_id == n.machine_id) ≡ true =
        ground (arith, ap (λ x. x.machine_id) same) in
      rw clean (rw here refl)
  eligible-Has (n ∷ ms) m e (inr h) = go (eligible-Has ms m e h) (check_hard op n ctx hard)
    where
      go :
          is_in m.machine_id (evaluate_machines op ctx hard ms).eligible ≡ true
          → (vs : List HardConstraint)
          → is_in m.machine_id (add_machine n vs (evaluate_machines op ctx hard ms)).eligible ≡ true
      go later [] = ground (arith, later)
      go later (v ∷ vs) = later

-- What a machine without violations of the default constraints satisfies.
no_failure :
    (op : Operation) (m : Machine) (ctx : ConstraintContext)
    → check_hard op m ctx default_hard_constraints ≡ []
    → (supports_process m op.operation_type ≡ true)
      × (explicit_eligibility_fails op m ctx ≡ false)
      × (machine_group_fails op m ctx ≡ false)
      × (locked_machine_assignment_fails op m ctx ≡ false)
unfolding check_hard fails
no_failure op m ctx e =
    let all = filter-none (λ c. fails c op m ctx) default_hard_constraints e in
    (ground (arith, all.0), all.1.0, all.1.1.0, all.1.1.1.1.1.1.1.1.0)

get-Has :
    (k : Key) (m : Machine) (d : Dict Machine) → get k d ≡ some m → Has m (map (λ entry. entry.1) d)
unfolding get
get-Has k m [] e = absurd (ground (arith, e))
get-Has k m (entry ∷ rest) e = elim (Bool-cases (k == entry.0)) [
  | inl h ↦ let same : some entry.1 ≡ some m = rw h at e in inl cc
  | inr h ↦ inr (get-Has k m rest (rw h at e))
]

known-Has :
    (s : PlanningSnapshot) (m : Machine) (ks : List Key)
    → get m.machine_id s.machines ≡ some m
    → is_in m.machine_id ks ≡ true
    → Has m (known_machines s ks)
unfolding known_machines is_in any
known-Has s m [] e h = absurd (ground (arith, h))
known-Has s m (k ∷ ks) e h = elim (Bool-cases (m.machine_id == k)) [
  | inl t ↦
      let is : m.machine_id ≡ k = ground (arith, t) in
      let found : get k s.machines ≡ some m = ap (λ j. get j s.machines) (sym is) ∙ e in
      rw found (inl refl)
  | inr t ↦ go (get k s.machines) (known-Has s m ks e (ground (arith, t, h)))
]
  where
    go : (o : Option Machine) → Has m (known_machines s ks) → Has m (listed o (known_machines s ks))
    go none g = g
    go (some n) g = inr g

module _ (op : Operation) (s : PlanningSnapshot) (m : Machine)
    (known : get m.machine_id s.machines ≡ some m) where
  group-Has :
      (g : Option Key)
      → is_another g m.machine_group ≡ false
      → supports_process m op.operation_type ≡ true
      → Has m (group_or_process s op g)
  unfolding machines_in_group machines_for_process
  group-Has none e h =
      Has-sort_by machine_le m (filter (λ n. supports_process n op.operation_type) (all_machines s))
        (Has-filter (λ n. supports_process n op.operation_type) m (all_machines s) h
          (get-Has m.machine_id m s.machines known))
  group-Has (some g) e h =
      Has-sort_by machine_le m (filter (λ n. n.machine_group == g) (all_machines s)) (
        Has-filter (λ n. n.machine_group == g) m (all_machines s) (ground (arith, e))
          (get-Has m.machine_id m s.machines known))

  required-Has :
      (r : Option Key) (others : List Machine)
      → is_another r m.machine_id ≡ false
      → Has m others
      → Has m (required_or s r others)
  required-Has none others e h = h
  required-Has (some k) others e h =
      let is : m.machine_id ≡ k = ground (arith, e) in
      let found : get k s.machines ≡ some m = ap (λ j. get j s.machines) (sym is) ∙ known in
      rw found (inl refl)

  explicit-Has :
      (ks : List Key) (others : List Machine)
      → is_excluded m.machine_id ks ≡ false
      → (is_nil ks ≡ true → Has m others)
      → Has m (explicit_or s ks others)
  unfolding is_in
  explicit-Has [] others e h = h refl
  explicit-Has (k ∷ ks) others e h =
      let listed_in : is_in m.machine_id (k ∷ ks) ≡ true = ground (arith, e) in
      let still : is_in m.machine_id (sort_by leb (k ∷ ks)) ≡ true =
        any-sort_by leb (λ j. m.machine_id == j) (k ∷ ks) ∙ listed_in in
      Has-sort_by machine_le m (known_machines s (sort_by leb (k ∷ ks)))
        (known-Has s m (sort_by leb (k ∷ ks)) known still)

  -- The narrowing passes over no machine that violates nothing.
  candidate-Has :
      (at : Instant) (order : Order)
      → order.order_id ≡ op.order
      → check_hard op m
          (record { snapshot = s; at = at; order = some order })
          default_hard_constraints
        ≡ []
      → Has m (candidate_machines op (some order) s)
  unfolding candidate_machines explicit_eligibility_fails machine_group_fails order_of
  candidate-Has at order of clean =
      let ctx : ConstraintContext = record { snapshot = s; at = at; order = some order } in
      let (runs, explicit, group, _) = no_failure op m ctx clean in
      let this : (order.order_id == op.order) ≡ true = ground (arith, of) in
      let is : order_of op ctx ≡ some order = rw this refl in
      let excluded : is_excluded m.machine_id op.eligible_machine_ids ≡ false =
        ground (arith, explicit) in
      let required : is_another (for_primary (λ o. o.required_machine_id) op (order_of op ctx))
            m.machine_id
          ≡ false =
        ground (arith, explicit) in
      explicit-Has op.eligible_machine_ids
        (required_or s (for_primary (λ o. o.required_machine_id) op (some order))
          (group_or_process s op (required_group op (some order))))
        excluded
        (λ nil.
          required-Has (for_primary (λ o. o.required_machine_id) op (some order))
            (group_or_process s op (required_group op (some order)))
            (ap (λ o. is_another (for_primary (λ x. x.required_machine_id) op o) m.machine_id)
                (sym is)
              ∙ required)
            (group-Has (required_group op (some order))
              (ap (λ o. is_another (required_group op o) m.machine_group) (sym is)
                ∙ ground (arith, group, nil))
              runs))

-- The narrowing to candidates loses nothing: for an operation given with its order, every machine of
-- the snapshot that violates none of the default hard constraints is eligible.
pub evaluate_eligibility_complete :
    (op : Operation) (s : PlanningSnapshot) (at : Instant) (order : Order) (m : Machine)
    → order.order_id ≡ op.order
    → get m.machine_id s.machines ≡ some m
    → check_hard op m
        (record { snapshot = s; at = at; order = some order })
        default_hard_constraints
      ≡ []
    → is_in m.machine_id
        (evaluate_eligibility op s at default_hard_constraints (some order)).eligible
      ≡ true
unfolding evaluate_eligibility
evaluate_eligibility_complete op s at order m of known clean =
    let ctx : ConstraintContext = record { snapshot = s; at = at; order = some order } in
    eligible-Has op ctx default_hard_constraints (candidate_machines op (some order) s) m clean
      (candidate-Has op s m known at order of clean)

pinned_only :
    (op : Operation) (ctx : ConstraintContext) (k : Key) (m : Machine)
    → pinned_machine_for_order ctx.snapshot op.order ctx.at ≡ some k
    → cannot_run op.operation_type (get k ctx.snapshot.machines) ≡ false
    → check_hard op m ctx default_hard_constraints ≡ []
    → m.machine_id ≡ k
unfolding locked_machine_assignment_fails
pinned_only op ctx k m pinned runs clean =
    let free : pinned_elsewhere op m ctx.snapshot (some k) ≡ false =
      rw pinned at (no_failure op m ctx clean).3 in
    ground (arith, free, runs)

-- When an order is pinned to a machine that is unknown or can run the process of the operation, no
-- other machine is eligible.
pub evaluate_eligibility-pinned :
    (op : Operation) (s : PlanningSnapshot) (at : Instant) (given : Option Order) (k : Key)
    → pinned_machine_for_order s op.order at ≡ some k
    → cannot_run op.operation_type (get k s.machines) ≡ false
    → All (λ j. j ≡ k) (evaluate_eligibility op s at default_hard_constraints given).eligible
unfolding evaluate_eligibility
evaluate_eligibility-pinned op s at given k pinned runs =
    let order = or_else given (get op.order s.orders) in
    let ctx : ConstraintContext = record { snapshot = s; at = at; order = order } in
    eligible-All op ctx default_hard_constraints (λ j. j ≡ k) (candidate_machines op order s)
      (λ m. pinned_only op ctx k m pinned runs)

running_only :
    (op : Operation) (ctx : ConstraintContext) (k : Key) (m : Machine)
    → op.machine_id ≡ some k
    → op.operation_status ≡ op_in_progress
    → check_hard op m ctx default_hard_constraints ≡ []
    → m.machine_id ≡ k
unfolding explicit_eligibility_fails
running_only op ctx k m on running clean =
    let fine = (no_failure op m ctx clean).1 in
    let stays : (is_another op.machine_id m.machine_id && is_in_progress op.operation_status)
        ≡ false =
      ground (arith, fine) in
    let there : (is_another (some k) m.machine_id && is_in_progress op_in_progress) ≡ false =
      ap (λ o. is_another o m.machine_id && is_in_progress op_in_progress) (sym on)
      ∙ ap (λ t. is_another op.machine_id m.machine_id && is_in_progress t) (sym running)
      ∙ stays in
    ground (arith, there)

-- No machine but the one that an operation in progress runs on is eligible for it.
pub evaluate_eligibility-running :
    (op : Operation) (s : PlanningSnapshot) (at : Instant) (given : Option Order) (k : Key)
    → op.machine_id ≡ some k
    → op.operation_status ≡ op_in_progress
    → All (λ j. j ≡ k) (evaluate_eligibility op s at default_hard_constraints given).eligible
unfolding evaluate_eligibility
evaluate_eligibility-running op s at given k on running =
    let order = or_else given (get op.order s.orders) in
    let ctx : ConstraintContext = record { snapshot = s; at = at; order = order } in
    eligible-All op ctx default_hard_constraints (λ j. j ≡ k) (candidate_machines op order s)
      (λ m. running_only op ctx k m on running)
