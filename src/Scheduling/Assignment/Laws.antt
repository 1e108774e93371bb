-- ===== src/Scheduling/Assignment/Laws.antt =====
-- The theorems about the ranked machines (backend/app/engines/scheduling/machine_assignment.py).
use mathlib.Core.List.{perm_middle}
use mathlib.Core.List.Perm
use athena_order_priority.Prelude.{
  ℕ, ◌≡◌, refl, subst, Bool, List, [], ◌∷◌, Option, none, some, All, Dict, get, arith,
}
use athena_order_priority.Domain.Window.{Instant, TimeWindow}
use athena_order_priority.Domain.Keys.{Key}
use athena_order_priority.Domain.Machines.{Machine}
use athena_order_priority.Domain.Orders.{Order, Operation}
use athena_order_priority.Domain.Snapshot.{PlanningSnapshot}
use athena_order_priority.Calendar.Machine.{MachineCalendar}
use athena_order_priority.Calendar.Work.{Found, found, never_working, spent, ◌>>=◌}
use athena_order_priority.Constraints.Soft.{SoftConfig, run_minutes_on}
use athena_order_priority.Scheduling.Batching.{MachineState}
use athena_order_priority.Scheduling.Slots.Laws.{gaps_of, find_slot-IsFeasible}
use athena_order_priority.Scheduling.Timeline.{MachineTimeline}
use athena_order_priority.Scheduling.Timeline.Gaps.{IsRecorded}
use athena_order_priority.Calendar.Work.Laws.{IsLively}
use athena_order_priority.Scheduling.Assignment.{
  MachineCandidate, Scores, rejecting, scoring, score_slot, slot_on, later_start, windows_or_none,
  score_known, score_machine, score_machines, in_ranks, rank_machines,
}
use athena_order_priority.Scheduling.Assignment.Ranks.{
  ids, scored_ids, IsScores, IsRanking, in_ranks-IsRanking,
}

after_found {ℓ κ} :
    {A : Type ℓ} {B : Type κ} (a : Found A) (f : A → Found B) (b : B)
    → (a >>= f) ≡ found b
    → (x : A) × (a ≡ found x) × (f x ≡ found b)
after_found (found x) f b e = (x, refl, e)
after_found never_working f b e = absurd (ground (arith, e))
after_found spent f b e = absurd (ground (arith, e))

module _ (op : Operation) (order : Option Order) (states : Dict MachineState)
    (calendars : Dict MachineCalendar) (config : SoftConfig) (now : Instant) (s : PlanningSnapshot)
    (release : Option Instant) (reserved : Dict (List TimeWindow)) (average : Option ℕ)
    (timelines : Dict MachineTimeline) (tail_only : Bool) where
  rejecting-IsScores :
      (m : Machine) (ms : List Machine) (r : Scores)
      → IsScores now ms r
      → IsScores now (m ∷ ms) (rejecting m r)
  rejecting-IsScores m ms r h = (
    Perm.trans (perm_middle (scored_ids r.scored) (ids r.rejected)) (Perm.cons m.machine_id h.0),
    h.1,
    (refl, h.2),
  )

  score_known-IsScores :
      (m : Machine) (ms : List Machine) (state : Option MachineState)
      (calendar : Option MachineCalendar) (run : Option ℕ) (r after : Scores)
      → IsScores now ms r
      → score_known op order states calendars config now s release reserved average timelines
          tail_only m state calendar run r
        ≡ found after
      → IsScores now (m ∷ ms) after
  score_known-IsScores m ms none calendar run r after h e =
      let is : rejecting m r ≡ after = cc in
      subst (IsScores now (m ∷ ms)) is (rejecting-IsScores m ms r h)
  score_known-IsScores m ms (some state) none run r after h e =
      let is : rejecting m r ≡ after = cc in
      subst (IsScores now (m ∷ ms)) is (rejecting-IsScores m ms r h)
  score_known-IsScores m ms (some state) (some calendar) none r after h e =
      let is : rejecting m r ≡ after = cc in
      subst (IsScores now (m ∷ ms)) is (rejecting-IsScores m ms r h)
  score_known-IsScores m ms (some state) (some calendar) (some run) r after h e =
      let (slot, _, e1) =
        after_found
          (slot_on op order states calendars config now s release reserved average timelines
            tail_only m state calendar run)
          (λ slot. found (
            scoring
              (score_slot op order states calendars config now s release reserved average timelines
                tail_only m run slot)
              r))
          after e in
      let x =
        score_slot op order states calendars config now s release reserved average timelines
          tail_only m run slot in
      let is : scoring x r ≡ after = cc in
      subst (IsScores now (m ∷ ms)) is (Perm.cons m.machine_id h.0, ((refl, refl), h.1), h.2)

  score_machines-IsScores :
      (ms : List Machine) (r : Scores)
      → score_machines op order states calendars config now s release reserved average timelines
          tail_only ms
        ≡ found r
      → IsScores now ms r
  unfolding score_machines score_machine
  score_machines-IsScores [] r e =
      let is : record { scored = []; rejected = [] } ≡ r = cc in
      subst (IsScores now []) is (Perm.rfl, tt, tt)
  score_machines-IsScores (m ∷ ms) r e =
      let (before, rest, e1) =
        after_found
          (score_machines op order states calendars config now s release reserved average timelines
            tail_only ms)
          (score_machine op order states calendars config now s release reserved average timelines
            tail_only m)
          r e in
      score_known-IsScores m ms (get m.machine_id states) (get m.machine_id calendars)
        (run_minutes_on op m) before r (score_machines-IsScores ms before rest) e1

module _ (op : Operation) (order : Option Order) (states : Dict MachineState)
    (calendars : Dict MachineCalendar) (config : SoftConfig) (now : Instant) (s : PlanningSnapshot)
    (release : Option Instant) (reserved : Dict (List TimeWindow)) (average : Option ℕ)
    (timelines : Dict MachineTimeline) (tail_only : Bool)
    (lively : (k : Key) (c : MachineCalendar) → get k calendars ≡ some c → IsLively c)
    (recorded : (k : Key) (c : MachineCalendar)
      → get k calendars ≡ some c
      → All (IsRecorded c) (gaps_of (get k timelines))) where
  score_known_total :
      (m : Machine) (state : Option MachineState) (calendar : Option MachineCalendar)
      (run : Option ℕ) (r : Scores)
      → get m.machine_id calendars ≡ calendar
      → (after : Scores) × (score_known op order states calendars config now s release reserved
            average timelines tail_only m state calendar run r
          ≡ found after)
  unfolding slot_on
  score_known_total m none calendar run r e = (rejecting m r, refl)
  score_known_total m (some state) none run r e = (rejecting m r, refl)
  score_known_total m (some state) (some calendar) none r e = (rejecting m r, refl)
  score_known_total m (some state) (some calendar) (some run) r e =
      let (slot, found_it, _) =
        find_slot-IsFeasible op order m state calendar config.setup_rules
          (later_start m.available_from (later_start release now)) run
          (windows_or_none (get m.machine_id reserved)) (some s) (get m.machine_id timelines)
          tail_only (lively m.machine_id calendar e) (recorded m.machine_id calendar e) in
      (
        scoring
            (score_slot op order states calendars config now s release reserved average timelines
              tail_only m run slot)
            r,
        rw found_it refl,
      )

  score_machines_total :
      (ms : List Machine)
      → (r : Scores) × (score_machines op order states calendars config now s release reserved
            average timelines tail_only ms
          ≡ found r)
  unfolding score_machines score_machine
  score_machines_total [] = (record { scored = []; rejected = [] }, refl)
  score_machines_total (m ∷ ms) =
      let (r, e) = score_machines_total ms in
      let (after, last) =
        score_known_total m (get m.machine_id states) (get m.machine_id calendars)
          (run_minutes_on op m) r refl in
      (after, rw e last)

-- When no calendar has `max_search_days` days in a row without working time, and the timelines' gaps
-- record their working time, `rank_machines` returns. Its candidates are the eligible machines, each
-- as often as it was given: first those with a slot, ranked 1, 2, ... and in the order of their cost
-- (the time until the end of the slot and the soft cost), and then those without one.
pub rank_machines-IsRanking :
    (op : Operation) (order : Option Order) (eligible : List Machine) (states : Dict MachineState)
    (calendars : Dict MachineCalendar) (config : SoftConfig) (now : Instant) (s : PlanningSnapshot)
    (release : Option Instant) (reserved : Dict (List TimeWindow)) (average : Option ℕ)
    (timelines : Dict MachineTimeline) (tail_only : Bool)
    → ((k : Key) (c : MachineCalendar) → get k calendars ≡ some c → IsLively c)
    → ((k : Key) (c : MachineCalendar)
        → get k calendars ≡ some c
        → All (IsRecorded c) (gaps_of (get k timelines)))
    → (cs : List MachineCandidate) × (rank_machines op order eligible states calendars config now s
          release reserved average timelines tail_only
        ≡ found cs)
      × IsRanking now eligible cs
unfolding rank_machines
rank_machines-IsRanking op order eligible states calendars config now s release reserved average
      timelines tail_only lively recorded =
    let (r, e) =
      score_machines_total op order states calendars config now s release reserved average timelines
        tail_only lively recorded eligible in
    (
      in_ranks r,
      rw e refl,
      in_ranks-IsRanking now eligible r (
          score_machines-IsScores op order states calendars config now s release reserved average
            timelines tail_only eligible r e),
    )
