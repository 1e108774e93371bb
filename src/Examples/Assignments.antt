-- ===== src/Examples/Assignments.antt =====
-- The machines of an operation, ranked.
use athena_order_priority.Prelude.{
  ◌≡◌, pos, false, Dict, All, List, [], ◌∷◌, none, some, arith, get, ◌==◌, subst, Bool-cases, inl,
  inr,
}
use athena_order_priority.Domain.Keys.{Key}
use athena_order_priority.Calendar.Machine.{MachineCalendar}
use athena_order_priority.Calendar.Work.{found}
use athena_order_priority.Calendar.Work.Laws.{IsLively}
use athena_order_priority.Constraints.Soft.{SoftConfig}
use athena_order_priority.Scheduling.Batching.{MachineState}
use athena_order_priority.Scheduling.Timeline.{MachineTimeline, new_timeline}
use athena_order_priority.Scheduling.Timeline.Gaps.{IsRecorded}
use athena_order_priority.Scheduling.Slots.Laws.{gaps_of}
use athena_order_priority.Scheduling.Assignment.{MachineCandidate, rank_machines}
use athena_order_priority.Scheduling.Assignment.Laws.{rank_machines-IsRanking}
use athena_order_priority.Scheduling.Assignment.Ranks.{IsRanking}
use athena_order_priority.Examples.Plant.{lathe, lathe-IsLively, hour}
use athena_order_priority.Examples.Slots.{rules, mill_state, empty_timeline}
use athena_order_priority.Examples.Eligibilities.{mill, other_mill, operation, plant}

abbrev config : SoftConfig
config = record {
  setup_rules = rules;
  setup_penalty = (1, 1);
  preferences = record {
    preferred_machine_cost = pos 0;
    non_preferred_machine_cost = pos hour;
    utilization_balance_cost = (1, 1);
    energy_cost_per_hour = [];
  };
  batching_config = record {
    enabled = false;
    dimensions = [];
    min_priority_gap = 0;
    max_delay = 0;
  };
}

abbrev calendars : Dict MachineCalendar
calendars = (4, lathe) ∷ (5, lathe) ∷ []

abbrev states : Dict MachineState
states = (4, mill_state) ∷ []

abbrev timelines : Dict MachineTimeline
timelines = (4, empty_timeline) ∷ []

is_lathe : (k : Key) (c : MachineCalendar) → get k calendars ≡ some c → lathe ≡ c
unfolding get
is_lathe k c e = elim (Bool-cases (k == 4)) [
  | inl t ↦ let same : some lathe ≡ some c = rw t at e in cc
  | inr t ↦ elim (Bool-cases (k == 5)) [
    | inl u ↦ let same : some lathe ≡ some c = rw u at (rw t at e) in cc
    | inr u ↦ absurd (ground (arith, rw u at (rw t at e)))
  ]
]

calendars-IsLively : (k : Key) (c : MachineCalendar) → get k calendars ≡ some c → IsLively c
calendars-IsLively k c e = let is = is_lathe k c e in subst (λ x. IsLively x) is lathe-IsLively

timelines-IsRecorded :
    (k : Key) (c : MachineCalendar)
    → get k calendars ≡ some c
    → All (IsRecorded c) (gaps_of (get k timelines))
unfolding get new_timeline
timelines-IsRecorded k c e = elim (Bool-cases (k == 4)) [ inl t ↦ rw t tt | inr t ↦ rw t tt ]

rank_machines-IsRanking_example :
    (cs : List MachineCandidate) × (rank_machines operation none
        (other_mill ∷ mill ∷ [])
        states
        calendars
        config
        0
        plant
        none
        []
        none
        timelines
        false
      ≡ found cs)
    × IsRanking 0 (other_mill ∷ mill ∷ []) cs
rank_machines-IsRanking_example =
    rank_machines-IsRanking operation none (other_mill ∷ mill ∷ []) states calendars config 0 plant
      none [] none timelines false calendars-IsLively timelines-IsRecorded
