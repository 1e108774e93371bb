-- ===== src/Scheduling/Slots/Laws.antt =====
-- The theorems about the slot of a job (backend/app/engines/scheduling/machine_assignment.py).
use athena_order_priority.Prelude.{
  ℕ, zero, suc, ◌+◌, ◌≡◌, refl, subst, ◌≤◌, Bool, true, false, not, ◌&&◌, ◌||◌, List, [], ◌∷◌,
  Option, none, some, max, ltb, leb, is_nil, All, Has, drop, bisect_right, Bool-cases, ◌⊎◌, inl,
  inr, arith,
}
use athena_order_priority.Domain.Window.{Instant, TimeWindow}
use athena_order_priority.Domain.Machines.{Machine}
use athena_order_priority.Domain.Orders.{Order, Operation}
use athena_order_priority.Domain.Snapshot.{PlanningSnapshot}
use athena_order_priority.Calendar.Machine.{MachineCalendar}
use athena_order_priority.Calendar.Work.{Found, found, working_between}
use athena_order_priority.Calendar.Work.Laws.{IsLively}
use athena_order_priority.Scheduling.Batching.{MachineState}
use athena_order_priority.Scheduling.Placement.{Span, place_span}
use athena_order_priority.Scheduling.Setup.{
  SetupRules, SetupEstimate, compute_setup, operation_material,
}
use athena_order_priority.Scheduling.Timeline.{
  Gap, MachineTimeline, state_before, gaps_from, gap_ends, successor_setup_holds,
}
use athena_order_priority.Scheduling.Timeline.Gaps.{IsRecorded}
use athena_order_priority.Scheduling.Slots.{
  SlotPlacement, gap_slot, tail_slot, family_is_cheaper, walk_gap, probe_gap, place_tail,
  probe_gaps, find_slot, work_eps,
}
use athena_order_priority.Scheduling.Slots.Spans.{IsClear, place_span_total, span-over}

-- The end is within the gap; or, without reserved windows and from the start of the gap on, the job
-- has at most `work_eps` of working time after it.
abbrev pub Closes : MachineCalendar → List TimeWindow → Instant → Gap → Instant → Type 0
Closes c reserved floor gap end =
    (end ≤ gap.end)
    ⊎ ((reserved ≡ []) × (floor ≤ gap.start) × (working_between c gap.end end ≤ work_eps))

-- In one of the gaps, or after the machine's last job.
abbrev pub IsInPlace :
    (Gap → Instant → Type 0) → List Gap → Instant → Bool → Instant → Instant → Type 0
IsInPlace closes gaps next_free true start end =
    (gap : Gap) × Has gap gaps × (gap.start ≤ start) × closes gap end
IsInPlace closes gaps next_free false start end = next_free ≤ start

abbrev pub IsFeasible :
    MachineCalendar → List TimeWindow → List Gap → Instant → Instant → SlotPlacement → Type 0
IsFeasible c reserved gaps floor next_free slot =
    IsClear c reserved floor slot.setup_start slot.end
    × IsInPlace (Closes c reserved floor) gaps next_free slot.in_gap slot.setup_start slot.end

IsInPlace-there :
    (closes : Gap → Instant → Type 0) (gap : Gap) (gaps : List Gap) (next_free : Instant) (b : Bool)
    (start end : Instant)
    → IsInPlace closes gaps next_free b start end
    → IsInPlace closes (gap ∷ gaps) next_free b start end
IsInPlace-there closes gap gaps next_free true start end (g, has, lo, hi) = (g, inr has, lo, hi)
IsInPlace-there closes gap gaps next_free false start end h = h

module _ (op : Operation) (order : Option Order) (m : Machine) (state : MachineState)
    (c : MachineCalendar) (rules : SetupRules) (floor : Instant) (run : ℕ)
    (reserved : List TimeWindow) (s : Option PlanningSnapshot) (lively : IsLively c) where
  -- A result that is there, and feasible.
  abbrev Finds : List Gap → Found SlotPlacement → Type 0
  Finds gaps r =
      (slot : SlotPlacement) × (r ≡ found slot)
      × IsFeasible c reserved gaps floor state.next_free slot

  Finds-there :
      (gap : Gap) (gaps : List Gap) (r : Found SlotPlacement) → Finds gaps r → Finds (gap ∷ gaps) r
  Finds-there gap gaps r (slot, e, feasible) = (
    slot,
    e,
    (
      feasible.0,
      IsInPlace-there (Closes c reserved floor) gap gaps state.next_free slot.in_gap
          slot.setup_start slot.end feasible.1,
    ),
  )

  place_tail-Finds : Finds [] (place_tail op order m state c rules floor run reserved s)
  unfolding place_tail
  place_tail-Finds =
      let estimate = compute_setup op m state rules order s in
      let (p, e, clear) =
        place_span_total c lively (estimate.minutes + run) reserved (max floor state.next_free) in
      (
        tail_slot estimate state p,
        rw e refl,
        ((omega (arith, clear.0), clear.1, clear.2, clear.3), omega (arith, clear.0)),
      )

  -- A span that is not refused closes the gap.
  gap_end-reached :
      (gap : Gap) (estimate : SetupEstimate) (p : Span) (windows : List TimeWindow)
      → IsRecorded c gap
      → estimate.minutes + run ≤ gap.work_minutes + work_eps
      → place_span c (estimate.minutes + run) windows (max floor gap.start) ≡ found p
      → ((ltb gap.start (max floor gap.start) || not (is_nil windows)) && ltb gap.end p.end) ≡ false
      → Closes c windows floor gap p.end
  gap_end-reached gap estimate p (w ∷ ws) recorded room e kept = inl (ground (arith, kept))
  gap_end-reached gap estimate p [] recorded room e kept =
      elim (Bool-cases (ltb gap.start (max floor gap.start))) [
        | inl moved ↦ inl (ground (arith, kept, moved))
        | inr here ↦
            let at : max floor gap.start ≡ gap.start = ground (arith, here) in
            inr (
              refl,
              ground (arith, here),
              span-over c lively (estimate.minutes + run) gap.start gap.end work_eps p
                  (subst (λ t. place_span c (estimate.minutes + run) [] t ≡ found p) at e)
                  (omega (arith, recorded.0, room)) (omega (arith, recorded.0, recorded.1)),
            )
      ]

  walk_gap-Finds :
      (gap : Gap) (gaps : List Gap) (estimate : SetupEstimate) (pred : MachineState)
      (rest : Found SlotPlacement)
      → IsRecorded c gap
      → Finds gaps rest
      → Finds
          (gap ∷ gaps)
          (walk_gap op order m state c rules floor run reserved s gap estimate pred rest)
  unfolding walk_gap
  walk_gap-Finds gap gaps estimate pred rest recorded later =
      elim (Bool-cases (leb (estimate.minutes + run) (gap.work_minutes + work_eps))) [
        | inr short ↦ rw short (Finds-there gap gaps rest later)
        | inl long ↦
            let (p, e, clear) =
              place_span_total c lively (estimate.minutes + run) reserved (max floor gap.start) in
            elim (Bool-cases (
              (ltb gap.start (max floor gap.start) || not (is_nil reserved))
              && ltb gap.end p.end)) [
                | inl over ↦ rw long (rw e (rw over (Finds-there gap gaps rest later)))
                | inr kept ↦
                    let ends =
                      gap_end-reached gap estimate p reserved recorded (ground (arith, long)) e
                        kept in
                    rw long (
                      rw e (
                        rw kept (
                          gap_slot gap estimate pred p,
                          refl,
                          (
                            (omega (arith, clear.0), clear.1, clear.2, clear.3),
                            (gap, inl refl, omega (arith, clear.0), ends),
                          ),
                        )))
              ]
      ]

  probe_gaps-Finds :
      (timeline : MachineTimeline) (gaps : List Gap)
      → All (IsRecorded c) gaps
      → Finds gaps (probe_gaps op order m state c rules floor run reserved s timeline gaps)
  unfolding probe_gaps probe_gap
  probe_gaps-Finds timeline [] h = place_tail-Finds
  probe_gaps-Finds timeline (gap ∷ gaps) h =
      let later = probe_gaps-Finds timeline gaps h.1 in
      let rest = probe_gaps op order m state c rules floor run reserved s timeline gaps in
      let pred = state_before timeline gap state in
      elim (Bool-cases (
        leb run gap.work_minutes
        && successor_setup_holds gap op.setup_family (operation_material op order)
            (family_is_cheaper rules))) [
              | inl fits ↦ rw fits (
                  walk_gap-Finds gap gaps (compute_setup op m pred rules order s) pred rest h.0
                    later)
              | inr unfit ↦ rw unfit (Finds-there gap gaps rest later)
            ]

Has-drop : (n : ℕ) (gaps : List Gap) (g : Gap) → Has g (drop n gaps) → Has g gaps
unfolding drop
Has-drop zero gaps g h = h
Has-drop (suc n) [] g h = h
Has-drop (suc n) (x ∷ gaps) g h = inr (Has-drop n gaps g h)

All-drop :
    (c : MachineCalendar) (n : ℕ) (gaps : List Gap)
    → All (IsRecorded c) gaps
    → All (IsRecorded c) (drop n gaps)
unfolding drop
All-drop c zero gaps h = h
All-drop c (suc n) [] h = h
All-drop c (suc n) (x ∷ gaps) h = All-drop c n gaps h.1

IsInPlace-drop :
    (closes : Gap → Instant → Type 0) (n : ℕ) (gaps : List Gap) (next_free : Instant) (b : Bool)
    (start end : Instant)
    → IsInPlace closes (drop n gaps) next_free b start end
    → IsInPlace closes gaps next_free b start end
IsInPlace-drop closes n gaps next_free true start end (g, has, lo, hi) =
    (g, Has-drop n gaps g has, lo, hi)
IsInPlace-drop closes n gaps next_free false start end h = h

abbrev pub gaps_of : Option MachineTimeline → List Gap
gaps_of none = []
gaps_of (some timeline) = timeline.gaps

-- On a calendar where no `max_search_days` days in a row are without working time, and a timeline
-- whose gaps record their working time, `find_slot` finds a slot. It starts its setup at a working
-- instant not before `floor`, runs forward and meets none of the reserved windows. It starts after
-- the machine's last job, or in one of the gaps of the timeline and not before it, and then it ends
-- in the gap or, without reserved windows and when `floor` is not after the start of the gap, has
-- at most `_WORK_EPS` of working time after the gap.
pub find_slot-IsFeasible :
    (op : Operation) (order : Option Order) (m : Machine) (state : MachineState)
    (c : MachineCalendar) (rules : SetupRules) (floor : Instant) (run : ℕ)
    (reserved : List TimeWindow) (s : Option PlanningSnapshot) (timeline : Option MachineTimeline)
    (tail_only : Bool)
    → IsLively c
    → All (IsRecorded c) (gaps_of timeline)
    → (slot : SlotPlacement) × (find_slot op order m state c rules floor run reserved s timeline
          tail_only
        ≡ found slot)
      × IsFeasible c reserved (gaps_of timeline) floor state.next_free slot
unfolding find_slot gaps_from
find_slot-IsFeasible op order m state c rules floor run reserved s none tail_only lively h =
    place_tail-Finds op order m state c rules floor run reserved s lively
find_slot-IsFeasible op order m state c rules floor run reserved s (some timeline) true lively h =
    let (slot, e, feasible) =
      place_tail-Finds op order m state c rules floor run reserved s lively in
    (slot, e, (feasible.0, from_none slot.in_gap slot.setup_start slot.end feasible.1))
  where
    from_none :
        (b : Bool) (start end : Instant)
        → IsInPlace (Closes c reserved floor) [] state.next_free b start end
        → IsInPlace (Closes c reserved floor) timeline.gaps state.next_free b start end
    from_none true start end (g, has, _, _) = absurd (has tt)
    from_none false start end later = later
find_slot-IsFeasible op order m state c rules floor run reserved s (some timeline) false lively h =
    let n = bisect_right (gap_ends timeline.gaps) floor in
    let (slot, e, feasible) =
      probe_gaps-Finds op order m state c rules floor run reserved s lively timeline
        (drop n timeline.gaps) (All-drop c n timeline.gaps h) in
    (
      slot,
      e,
      (
        feasible.0,
        IsInPlace-drop (Closes c reserved floor) n timeline.gaps state.next_free slot.in_gap
            slot.setup_start slot.end feasible.1,
      ),
    )
