-- ===== src/Scheduling/Assignment.antt =====
-- `rank_machines` of backend/app/engines/scheduling/machine_assignment.py: the machines that an operation
-- may go to, the best first. Costs are integers in the unit of a duration; a rejection is the
-- candidate without instants, and reasons are left out.
pub mod Laws
pub mod Costs
pub mod Ranks
use athena_order_priority.Prelude.{
  ℕ, suc, ◌+◌, ◌-◌, ℤ, pos, leq, ◌+ℤ◌, ◌⊖◌, Bool, true, false, List, [], ◌∷◌, ◌++◌, Option, none,
  some, max, leb, ◌==◌, if◌then◌else◌, then_by, sort_by, map, Dict, get,
}
use athena_order_priority.Domain.Window.{Instant, TimeWindow}
use athena_order_priority.Domain.Keys.{Key}
use athena_order_priority.Domain.Machines.{Machine}
use athena_order_priority.Domain.Orders.{Order, Operation}
use athena_order_priority.Domain.Snapshot.{PlanningSnapshot}
use athena_order_priority.Calendar.Machine.{MachineCalendar}
use athena_order_priority.Calendar.Work.{Found, found, never_working, spent, ◌>>=◌}
use athena_order_priority.Constraints.Soft
use athena_order_priority.Constraints.Soft.{SoftConfig, soft_cost, run_minutes_on}
use athena_order_priority.Scheduling.Batching.{MachineState}
use athena_order_priority.Scheduling.Slots.{SlotPlacement, find_slot}
use athena_order_priority.Scheduling.Timeline.{MachineTimeline}

pub record MachineCandidate : Type 0 where
  pub machine_id : Key
  pub rank : ℕ
  pub expected_start : Option Instant
  pub expected_end : Option Instant
  pub setup_minutes : ℕ
  pub run_minutes : ℕ
  pub soft_cost : ℤ
  pub recommended : Bool

-- A candidate with its slot and what it is sorted by.
pub record Scored : Type 0 where
  pub candidate : MachineCandidate
  pub slot : SlotPlacement
  pub total_cost : ℤ
  pub preferred_rank : ℕ

-- What the loop collects: the scored machines, and those it rejects.
pub record Scores : Type 0 where
  pub scored : List Scored
  pub rejected : List MachineCandidate

abbrev pub rejected_candidate : Key → MachineCandidate
rejected_candidate k = record {
  machine_id = k;
  rank = 0;
  expected_start = none;
  expected_end = none;
  setup_minutes = 0;
  run_minutes = 0;
  soft_cost = pos 0;
  recommended = false;
}

abbrev pub later_start : Option Instant → Instant → Instant
later_start none t = t
later_start (some u) t = max t u

abbrev pub windows_or_none : Option (List TimeWindow) → List TimeWindow
windows_or_none none = []
windows_or_none (some ws) = ws

abbrev pub rejecting : Machine → Scores → Scores
rejecting m r = record {
  scored = r.scored;
  rejected = rejected_candidate m.machine_id ∷ r.rejected;
}

abbrev pub scoring : Scored → Scores → Scores
scoring x r = record { scored = x ∷ r.scored; rejected = r.rejected }

module _ (op : Operation) (order : Option Order) (states : Dict MachineState)
    (calendars : Dict MachineCalendar) (config : SoftConfig) (now : Instant) (s : PlanningSnapshot)
    (release : Option Instant) (reserved : Dict (List TimeWindow)) (average : Option ℕ)
    (timelines : Dict MachineTimeline) (tail_only : Bool) where
  abbrev pub score_slot : Machine → ℕ → SlotPlacement → Scored
  score_slot m run slot =
      let cost = Soft.soft_cost config op m (record {
        snapshot = s;
        order = order;
        machine_state = some slot.state;
        group_average_load = average;
      }) in
      record {
        candidate = record {
          machine_id = m.machine_id;
          rank = 0;
          expected_start = some slot.setup_start;
          expected_end = some slot.end;
          setup_minutes = slot.estimate.minutes;
          run_minutes = run;
          soft_cost = cost;
          recommended = false;
        };
        slot = slot;
        total_cost = (slot.end ⊖ now) +ℤ cost;
        preferred_rank = m.preferred_rank;
      }

  -- The slot of the operation on a machine.
  unfoldable pub slot_on : Machine → MachineState → MachineCalendar → ℕ → Found SlotPlacement
  unfolding find_slot get
  slot_on m state calendar run =
      find_slot op order m state calendar config.setup_rules
        (later_start m.available_from (later_start release now)) run
        (windows_or_none (get m.machine_id reserved)) (some s) (get m.machine_id timelines)
        tail_only

  -- The body of the loop on a machine whose state, calendar and run time are known.
  abbrev pub score_known :
      Machine → Option MachineState → Option MachineCalendar → Option ℕ → Scores → Found Scores
  score_known m none calendar run r = found (rejecting m r)
  score_known m (some state) none run r = found (rejecting m r)
  score_known m (some state) (some calendar) none r = found (rejecting m r)
  score_known m (some state) (some calendar) (some run) r =
      slot_on m state calendar run >>= λ slot. found (scoring (score_slot m run slot) r)

  unfoldable pub score_machine : Machine → Scores → Found Scores
  unfolding get run_minutes_on slot_on soft_cost ◌+ℤ◌
  score_machine m r =
      score_known m (get m.machine_id states) (get m.machine_id calendars) (run_minutes_on op m) r

  -- The loop over the eligible machines; the results stand in their order.
  unfoldable pub score_machines : List Machine → Found Scores
  unfolding score_machine
  score_machines [] = found (record { scored = []; rejected = [] })
  score_machines (m ∷ ms) = score_machines ms >>= score_machine m

-- `(s.total_cost, s.preferred_rank, s.candidate.machine_id)`
abbrev pub scored_le : Scored → Scored → Bool
scored_le a b =
    if leq a.total_cost b.total_cost
    then if leq b.total_cost a.total_cost
      then then_by a.preferred_rank b.preferred_rank
          (leb a.candidate.machine_id b.candidate.machine_id)
      else true
    else false

abbrev pub id_le : MachineCandidate → MachineCandidate → Bool
id_le a b = leb a.machine_id b.machine_id

-- The ranks from a number on; rank 1 is recommended.
unfoldable pub number_ranks : ℕ → List Scored → List MachineCandidate
number_ranks n [] = []
number_ranks n (x ∷ xs) =
    record x.candidate { rank = n; recommended = n == 1 } ∷ number_ranks (suc n) xs

abbrev pub in_ranks : Scores → List MachineCandidate
in_ranks r = number_ranks 1 (sort_by scored_le r.scored) ++ sort_by id_le r.rejected

unfoldable pub rank_machines :
    Operation
    → Option Order
    → List Machine
    → Dict MachineState
    → Dict MachineCalendar
    → SoftConfig
    → Instant
    → PlanningSnapshot
    → Option Instant
    → Dict (List TimeWindow)
    → Option ℕ
    → Dict MachineTimeline
    → Bool
    → Found (List MachineCandidate)
unfolding score_machines number_ranks sort_by
rank_machines op order eligible states calendars config now s release reserved average timelines
      tail_only =
    score_machines op order states calendars config now s release reserved average timelines
      tail_only eligible
    >>= λ r. found (in_ranks r)
