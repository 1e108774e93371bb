-- ===== src/Scheduling/Slots/Spans.antt =====
-- The spans a slot takes (backend/app/engines/scheduling/machine_assignment.py).
use athena_order_priority.Prelude.{
  ℕ, zero, suc, ◌+◌, ◌≡◌, subst, ◌≤◌, ◌<◌, true, false, List, [], All, arith,
}
use athena_order_priority.Domain.Window.{Instant, TimeWindow}
use athena_order_priority.Calendar.Machine.{MachineCalendar, is_working}
use athena_order_priority.Calendar.Work.{found, working_between}
use athena_order_priority.Calendar.Work.Next.{Starts, next_working_time-Starts}
use athena_order_priority.Calendar.Work.Laws.{
  IsLively, add_work_total, Ends-of_found, next_working_time_total,
}
use athena_order_priority.Calendar.Work.Within.{Starts-within, none-back, work-over}
use athena_order_priority.Scheduling.Placement.{
  Span, meets, work_from, span_at, span_loop, place_span,
}
use athena_order_priority.Scheduling.Placement.Laws.{
  to_span, place_on_calendar-IsPlaced, place_span-place_on_calendar,
}

-- A span from `t` on, at a working instant and clear of the reserved windows.
abbrev pub IsClear : MachineCalendar → List TimeWindow → Instant → Instant → Instant → Type 0
IsClear c reserved t start end =
    (t ≤ start)
    × (is_working c start ≡ true)
    × (start ≤ end)
    × All (λ w. meets start end w ≡ false) reserved

module _ (c : MachineCalendar) (lively : IsLively c) where
  pub place_span_total :
      (m : ℕ) (reserved : List TimeWindow) (t : Instant)
      → (p : Span) × (place_span c m reserved t ≡ found p)
        × IsClear c reserved t p.setup_start p.end
  place_span_total m reserved t =
      let (p, e, placed) = place_on_calendar-IsPlaced c lively zero m reserved t in
      let all : zero + m ≡ m = omega arith in
      (
        to_span p,
        subst (λ n. place_span c n reserved t ≡ found (to_span p)) all
            (place_span-place_on_calendar c lively zero m reserved t p e),
        (placed.0.0, placed.0.1, omega (arith, placed.0.2, placed.0.3), placed.1),
      )

  -- Without reserved windows, a span for which a stretch has the working time but for `k` has at
  -- most `k` of it after the stretch.
  pub span-over :
      (m : ℕ) (t e k : Instant) (p : Span)
      → place_span c m [] t ≡ found p
      → m ≤ working_between c t e + k
      → 0 < working_between c t e
      → working_between c e p.end ≤ k
  unfolding place_span span_loop span_at work_from
  span-over zero t e k p h room some_room =
      let (s, es) = next_working_time_total c t lively in
      let starts = subst (Starts c t) es (next_working_time-Starts c t) in
      let same : found (record { setup_start = s; end = s }) ≡ found p = rw es at h in
      let is : s ≡ p.end = cc in
      let inside = Starts-within c t s e starts some_room in
      omega (arith, none-back c e p.end (omega (arith, inside, is)))
  span-over (suc n) t e k p h room some_room =
      let (s, es) = next_working_time_total c t lively in
      let starts = subst (Starts c t) es (next_working_time-Starts c t) in
      let (u, eu) = add_work_total c s n lively in
      let same : found (record { setup_start = s; end = u }) ≡ found p = rw eu at (rw es at h) in
      let is : u ≡ p.end = cc in
      subst (λ x. working_between c e x ≤ k) is
        (work-over c t s (suc n) u e k starts (Ends-of_found c s n u eu) room some_room)
