-- ===== src/Scheduling/Slots.antt =====
-- `find_slot` of backend/app/engines/scheduling/machine_assignment.py: the earliest slot of a job on a
-- machine, in a gap of its timeline or after its last job. Durations are counts of microseconds.
pub mod Laws
pub mod Spans
use athena_order_priority.Prelude.{
  ℕ, ◌+◌, ◌*◌, Bool, true, false, not, ◌&&◌, ◌||◌, List, [], ◌∷◌, Option, none, some, max, ltb, leb,
  if◌then◌else◌, is_nil,
}
use athena_order_priority.Domain.Window.{Instant, TimeWindow}
use athena_order_priority.Domain.Machines.{Machine}
use athena_order_priority.Domain.Orders.{Order, Operation}
use athena_order_priority.Domain.Snapshot.{PlanningSnapshot}
use athena_order_priority.Calendar.Machine.{MachineCalendar}
use athena_order_priority.Calendar.Work.{Found, found, never_working, spent, ◌>>=◌}
use athena_order_priority.Scheduling.Batching.{MachineState}
use athena_order_priority.Scheduling.Placement.{Span, place_span}
use athena_order_priority.Scheduling.Setup.{
  SetupRules, SetupEstimate, compute_setup, operation_material,
}
use athena_order_priority.Scheduling.Timeline.{
  Gap, MachineTimeline, state_before, gaps_from, successor_setup_holds,
}

pub record SlotPlacement : Type 0 where
  pub setup_start : Instant
  pub end : Instant
  pub estimate : SetupEstimate
  pub state : MachineState
  pub in_gap : Bool
  pub gap_end : Option Instant

-- `_WORK_EPS`, a millionth of a minute.
abbrev pub work_eps : ℕ
work_eps = 60

-- The slot of a span that the job takes in a gap.
abbrev pub gap_slot : Gap → SetupEstimate → MachineState → Span → SlotPlacement
gap_slot gap estimate pred span = record {
  setup_start = span.setup_start;
  end = span.end;
  estimate = estimate;
  state = pred;
  in_gap = true;
  gap_end = some gap.end;
}

abbrev pub tail_slot : SetupEstimate → MachineState → Span → SlotPlacement
tail_slot estimate state span = record {
  setup_start = span.setup_start;
  end = span.end;
  estimate = estimate;
  state = state;
  in_gap = false;
  gap_end = none;
}

-- `same_family_setup_factor <= same_material_setup_factor`
abbrev pub family_is_cheaper : SetupRules → Bool
family_is_cheaper rules =
    leb (rules.same_family_factor.0 * rules.same_material_factor.1)
      (rules.same_material_factor.0 * rules.same_family_factor.1)

module _ (op : Operation) (order : Option Order) (m : Machine) (state : MachineState)
    (c : MachineCalendar) (rules : SetupRules) (floor : Instant) (run : ℕ)
    (reserved : List TimeWindow) (s : Option PlanningSnapshot) where
  -- The end of a round: the job overruns the gap, or takes the span.
  abbrev pub settle_gap :
      Gap → SetupEstimate → MachineState → Found SlotPlacement → Span → Found SlotPlacement
  settle_gap gap estimate pred rest span =
      if (ltb gap.start (max floor gap.start) || not (is_nil reserved)) && ltb gap.end span.end
      then rest
      else found (gap_slot gap estimate pred span)

  -- The walk over a gap whose setup rule holds, when its working time is enough.
  unfoldable pub walk_gap :
      Gap → SetupEstimate → MachineState → Found SlotPlacement → Found SlotPlacement
  unfolding place_span
  walk_gap gap estimate pred rest =
      if leb (estimate.minutes + run) (gap.work_minutes + work_eps)
      then place_span c (estimate.minutes + run) reserved (max floor gap.start)
        >>= settle_gap gap estimate pred rest
      else rest

  -- One round of the loop over the gaps; `rest` is what the later ones give.
  unfoldable pub probe_gap : MachineTimeline → Gap → Found SlotPlacement → Found SlotPlacement
  unfolding walk_gap compute_setup state_before successor_setup_holds
  probe_gap timeline gap rest =
      let pred = state_before timeline gap state in
      let walk = walk_gap gap (compute_setup op m pred rules order s) pred rest in
      if leb run gap.work_minutes
        && successor_setup_holds gap op.setup_family (operation_material op order)
            (family_is_cheaper rules)
      then walk
      else rest

  -- After the machine's last job.
  unfoldable pub place_tail : Found SlotPlacement
  unfolding compute_setup place_span
  place_tail =
      let estimate = compute_setup op m state rules order s in
      place_span c (estimate.minutes + run) reserved (max floor state.next_free) >>= λ span.
      found (tail_slot estimate state span)

  unfoldable pub probe_gaps : MachineTimeline → List Gap → Found SlotPlacement
  unfolding probe_gap place_tail
  probe_gaps timeline [] = place_tail
  probe_gaps timeline (gap ∷ gaps) = probe_gap timeline gap (probe_gaps timeline gaps)

  abbrev gaps_or_tail : Option MachineTimeline → Bool → Found SlotPlacement
  gaps_or_tail none tail_only = place_tail
  gaps_or_tail (some timeline) true = place_tail
  gaps_or_tail (some timeline) false = probe_gaps timeline (gaps_from timeline floor)

  unfoldable pub find_slot : Option MachineTimeline → Bool → Found SlotPlacement
  unfolding probe_gaps place_tail gaps_from
  find_slot timeline tail_only = gaps_or_tail timeline tail_only
