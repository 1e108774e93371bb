-- ===== src/Scheduling/Timeline/Gaps.antt =====
-- The theorems about the gaps of a timeline (backend/app/engines/scheduling/timeline.py).
use athena_order_priority.Prelude.{
  ℕ, zero, suc, ◌-◌, ◌≡◌, refl, ◌<◌, List, [], ◌∷◌, Option, none, some, ltb, ◌==◌, if◌then◌else◌,
  All, Bool-cases, bisect_right, inl, inr, arith,
}
use athena_order_priority.Domain.Window.{Instant}
use athena_order_priority.Calendar.Machine.{MachineCalendar}
use athena_order_priority.Calendar.Work.{working_between}
use athena_order_priority.Scheduling.Timeline.{
  BusySlot, Gap, MachineTimeline, gap_ends, before, insert_at, remove_at, close_gap, close_for,
  add_gap, gap_before, gap_after, insert,
}

-- The working time of the gap is recorded, and there is some.
abbrev pub IsRecorded : MachineCalendar → Gap → Type 0
IsRecorded c gap = (gap.work_minutes ≡ working_between c gap.start gap.end) × (0 < gap.work_minutes)

module _ (c : MachineCalendar) where
  All-insert_at :
      (n : ℕ) (g : Gap) (gs : List Gap)
      → IsRecorded c g
      → All (IsRecorded c) gs
      → All (IsRecorded c) (insert_at n g gs)
  unfolding insert_at
  All-insert_at n g [] p h = (p, tt)
  All-insert_at zero g (x ∷ xs) p h = (p, h)
  All-insert_at (suc n) g (x ∷ xs) p h = (h.0, All-insert_at n g xs p h.1)

  All-remove_at :
      (n : ℕ) (gs : List Gap) → All (IsRecorded c) gs → All (IsRecorded c) (remove_at n gs)
  unfolding remove_at
  All-remove_at n [] h = h
  All-remove_at zero (x ∷ xs) h = h.1
  All-remove_at (suc n) (x ∷ xs) h = (h.0, All-remove_at n xs h.1)

  close_for-All :
      (next : Option BusySlot) (gs : List Gap)
      → All (IsRecorded c) gs
      → All (IsRecorded c) (close_for next gs)
  unfolding close_gap
  close_for-All none gs h = h
  close_for-All (some next) gs h = go (before (bisect_right (gap_ends gs) next.setup_start) gs)
    where
      go :
          (o : Option Gap)
          → All (IsRecorded c) (elim o [
            | none ↦ gs
            | some g ↦
                if g.end == next.setup_start
                then remove_at (bisect_right (gap_ends gs) next.setup_start - 1) gs
                else gs
          ])
      go none = h
      go (some g) = elim (Bool-cases (g.end == next.setup_start)) [
        | inl e ↦ rw e (All-remove_at _ gs h)
        | inr e ↦ rw e h
      ]

  add_gap-All :
      (start end : Instant) (prev : Option BusySlot) (next : BusySlot) (gs : List Gap)
      → All (IsRecorded c) gs
      → All (IsRecorded c) (add_gap c start end prev next gs)
  unfolding add_gap
  add_gap-All start end prev next gs h = elim (Bool-cases (working_between c start end == 0)) [
    | inl e ↦ rw e h
    | inr e ↦ rw e (All-insert_at _ _ gs (refl, ground (arith, e)) h)
  ]

  gap_before-All :
      (left : Instant) (prev : Option BusySlot) (slot : BusySlot) (gs : List Gap)
      → All (IsRecorded c) gs
      → All (IsRecorded c) (gap_before c left prev slot gs)
  unfolding gap_before
  gap_before-All left prev slot gs h = elim (Bool-cases (ltb left slot.setup_start)) [
    | inl e ↦ rw e (add_gap-All left slot.setup_start prev slot gs h)
    | inr e ↦ rw e h
  ]

  gap_after-All :
      (slot : BusySlot) (next : Option BusySlot) (gs : List Gap)
      → All (IsRecorded c) gs
      → All (IsRecorded c) (gap_after c slot next gs)
  unfolding gap_after
  gap_after-All slot none gs h = h
  gap_after-All slot (some next) gs h = elim (Bool-cases (ltb slot.end next.setup_start)) [
    | inl e ↦ rw e (add_gap-All slot.end next.setup_start (some slot) next gs h)
    | inr e ↦ rw e h
  ]

-- `insert` keeps that every gap records its working time, which is not 0.
pub insert-IsRecorded :
    (slot : BusySlot) (m : MachineTimeline)
    → All (IsRecorded m.calendar) m.gaps
    → All (IsRecorded m.calendar) (insert slot m).gaps
unfolding insert
insert-IsRecorded slot m h =
    gap_after-All m.calendar slot _ _
      (gap_before-All m.calendar _ _ slot _ (close_for-All m.calendar _ m.gaps h))
