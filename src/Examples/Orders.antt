-- ===== src/Examples/Orders.antt =====
-- Two orders of one customer, their results, and the planner's overlays on them.
use athena_order_priority.Prelude.{
  ℕ, ◌*◌, pos, negsuc, true, false, List, [], ◌∷◌, none, some, Dict,
}
use athena_order_priority.Domain.Status.{
  cnc_machining, released, ready, increase_priority, set_priority, force_next, order_lock,
  sequence_lock, time_slot_lock, on_hold,
}
use athena_order_priority.Domain.Orders.{Order}
use athena_order_priority.Domain.Overlays.{PriorityOverride, ScheduleLock}
use athena_order_priority.Domain.Snapshot.{PlanningSnapshot}
use athena_order_priority.Priority.{point}
use athena_order_priority.Priority.Adjustments.{PriorityProfile, FairnessConfig}
use athena_order_priority.Priority.Engine.{AdjustmentInputs, Factor, bonus}
use athena_order_priority.Priority.Ranking.{PriorityResult}

abbrev pub first_order : Order
first_order = record {
  order_id = 1;
  customer_id = 7;
  part_family = none;
  order_date = some 0;
  received_date = none;
  requested_delivery_date = some 900;
  promised_delivery_date = none;
  revised_delivery_date = none;
  quantity = 5;
  completed_quantity = 1;
  cancelled_quantity = 0;
  order_status = released;
  erp_priority = some 1;
  required_material_id = none;
  process_type = cnc_machining;
  order_machine_group = none;
  required_machine_id = none;
  tooling_requirement = [];
  part_size = none;
  estimated_setup = none;
}

abbrev pub second_order : Order
second_order = record first_order { order_id = 2; erp_priority = none }

abbrev pub held_order : Order
held_order = record first_order { order_id = 3; order_status = on_hold }

abbrev pub orders : Dict Order
orders = (1, first_order) ∷ (2, second_order) ∷ (3, held_order) ∷ []

abbrev pub share_rules : FairnessConfig
share_rules = record {
  fairness_enabled = true;
  max_wait = 1000;
  starvation_boost_points = 25;
  max_share = 500_000;
  top_n = 2;
}

abbrev pub profile : PriorityProfile
profile = record {
  erp_priority_points = (1, pos (10 * point)) ∷ [];
  aging_config = record { aging_enabled = true; start_after = 5; rate = 2; max_points = 20 };
  fairness_config = share_rules;
  max_boost_points = pos (60 * point);
  blocked_order_cap = some (pos (3 * point));
}

abbrev pub raised : PriorityOverride
raised = record {
  override_id = 11;
  order_id = 1;
  override_type = increase_priority;
  target_machine_id = none;
  created_at = 20;
  value = some (negsuc 4);
  expires_at = none;
  active = true;
}

abbrev pub fixed : PriorityOverride
fixed = record raised { override_id = 12; override_type = set_priority; created_at = 10 }

abbrev pub forced : PriorityOverride
forced = record raised {
  override_id = 13;
  override_type = force_next;
  created_at = 5;
  value = none;
}

abbrev pub inputs : AdjustmentInputs
inputs = record {
  now = 100;
  profile = profile;
  customer_rules = [];
  expedites = [];
  overrides = (1, raised ∷ fixed ∷ forced ∷ []) ∷ (2, fixed ∷ raised ∷ []) ∷ [];
}

abbrev pub factors : List Factor
factors = record { kind = bonus; weight = 500; raw_score = pos 40 } ∷ []

abbrev pub result : ℕ → ℕ → PriorityResult
result k score = record {
  order_id = k;
  score = pos score;
  base_score = pos score;
  adjustments = [];
  readiness = ready;
  blocked = false;
  forced_next = false;
  rank = none;
}

abbrev pub order_first : ScheduleLock
order_first = record {
  lock_id = 31;
  lock_type = order_lock;
  created_at = 9;
  reason = [];
  order_id = some 1;
  machine_id = some 4;
  window = none;
  sequence_order_ids = [];
  active = true;
}

abbrev pub in_sequence : ScheduleLock
in_sequence = record order_first {
  lock_id = 32;
  lock_type = sequence_lock;
  created_at = 8;
  order_id = none;
  sequence_order_ids = 2 ∷ 1 ∷ [];
}

abbrev pub slot : ScheduleLock
slot = record order_first {
  lock_id = 33;
  lock_type = time_slot_lock;
  window = some (record { start = 200; end = 300; reason = [] });
}

abbrev pub snapshot : PlanningSnapshot
snapshot = record {
  orders = orders;
  operations = [];
  machines = [];
  materials = [];
  tooling = [];
  locks = order_first ∷ in_sequence ∷ slot ∷ [];
  overrides = raised ∷ fixed ∷ forced ∷ [];
  expedites = [];
}
