-- ===== src/Scheduling/Placement.antt =====
-- `place_on_calendar` and `place_span` of backend/app/engines/scheduling/machine_assignment.py: the
-- earliest placement of a job that meets no reserved window.
pub mod Laws
use athena_order_priority.Prelude.{
  ℕ, zero, suc, ◌+◌, ◌≤◌, ◌<◌, Bool, true, false, ◌&&◌, List, [], ◌∷◌, Option, none, some, ltb,
  length, if◌then◌else◌,
}
use athena_order_priority.Domain.Window.{Instant, TimeWindow}
use athena_order_priority.Calendar.Machine.{MachineCalendar}
use athena_order_priority.Calendar.Work.{Found, found, spent, ◌>>=◌, next_working_time, add_work}

pub record Placement : Type 0 where
  pub setup_start : Instant
  pub start : Instant
  pub end : Instant

-- `w.start < end and setup_start < w.end`
abbrev pub meets : Instant → Instant → TimeWindow → Bool
meets setup_start end w = ltb w.start end && ltb setup_start w.end

-- The first reserved window that the job meets.
unfoldable pub conflict : Instant → Instant → List TimeWindow → Option TimeWindow
conflict setup_start end [] = none
conflict setup_start end (w ∷ ws) =
    let rest = conflict setup_start end ws in if meets setup_start end w then some w else rest

-- `add_work_minutes(t, m) if m > 0 else t`
unfoldable pub work_from : MachineCalendar → Instant → ℕ → Found Instant
work_from c t zero = found t
work_from c t (suc m) = add_work c t (suc m)

-- The placement tried from `t`, before the reserved windows are looked at.
unfoldable pub try_at : MachineCalendar → ℕ → ℕ → Instant → Found Placement
unfolding work_from
try_at c setup run t = do
  setup_start ← next_working_time c t
  start ← work_from c setup_start setup
  end ← work_from c start run
  found (record { setup_start = setup_start; start = start; end = end })

-- The end of a round: the placement, or the next round from the end of the window met.
unfoldable pub settle : List TimeWindow → (Instant → Found Placement) → Placement → Found Placement
unfolding conflict
settle reserved again p = elim (conflict p.setup_start p.end reserved) [
  | none ↦ found p
  | some w ↦ again w.end
]

module _ (c : MachineCalendar) (setup run : ℕ) (reserved : List TimeWindow) where
  -- The `for` loop; the last placement is returned when its rounds are used up.
  unfoldable pub place_loop : ℕ → Instant → Found Placement
  unfolding try_at settle
  place_loop zero t = try_at c setup run t
  place_loop (suc rounds) t = try_at c setup run t >>= settle reserved (place_loop rounds)

  -- `len(reserved) + 1` rounds; the round after the last window is the last one.
  unfoldable pub place_on_calendar : Instant → Found Placement
  unfolding place_loop
  place_on_calendar earliest = place_loop (length reserved) earliest

pub record Span : Type 0 where
  pub setup_start : Instant
  pub end : Instant

unfoldable pub span_at : MachineCalendar → ℕ → Instant → Found Span
unfolding work_from
span_at c minutes t = do
  setup_start ← next_working_time c t
  end ← work_from c setup_start minutes
  found (record { setup_start = setup_start; end = end })

unfoldable pub span_settle : List TimeWindow → (Instant → Found Span) → Span → Found Span
unfolding conflict
span_settle reserved again p = elim (conflict p.setup_start p.end reserved) [
  | none ↦ found p
  | some w ↦ again w.end
]

module _ (c : MachineCalendar) (minutes : ℕ) (reserved : List TimeWindow) where
  unfoldable pub span_loop : ℕ → Instant → Found Span
  unfolding span_at span_settle
  span_loop zero t = span_at c minutes t
  span_loop (suc rounds) t = span_at c minutes t >>= span_settle reserved (span_loop rounds)

  unfoldable pub place_span : Instant → Found Span
  unfolding span_loop
  place_span earliest = span_loop (length reserved) earliest
