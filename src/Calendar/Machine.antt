-- ===== src/Calendar/Machine.antt =====
-- `MachineCalendar` of backend/app/engines/calendar/calendar.py: the working segments of one UTC
-- day, and the queries that read them day by day. `_day_cache` only repeats what `day` returns.
pub mod Laws
use athena_order_priority.Prelude.{
  ℕ, zero, suc, ◌+◌, ◌-◌, ◌*◌, ◌/◌, ◌≤◌, ◌<◌, Bool, true, false, ◌&&◌, ◌||◌, List, [], ◌∷◌, ◌++◌,
  map, min, max, ltb, leb, ◌==◌, any, filter, if◌then◌else◌, not, is_nil, Option, none, some,
}
use athena_order_priority.Domain.Window.{Instant, Text, TimeWindow, codes}
use athena_order_priority.Calendar.Segments.{Segment, merge_segments, subtract_segments, covers}
use athena_order_priority.Calendar.Windows.{windows_in}
use athena_order_priority.Calendar.Shifts.{
  Zone, CalendarSpec, day_length, to_segment, utc_day_segments,
}

pub record MachineCalendar : Type 0 where
  pub zone : Zone
  pub spec : CalendarSpec
  pub downtime_windows : List TimeWindow
  pub available_from : Option Instant
  pub max_search_days : ℕ

-- `self._downtime`
unfoldable pub downtime : MachineCalendar → List Segment
downtime c = merge_segments (map (to_segment (codes "downtime")) c.downtime_windows)

-- The window before `available_from` in the range, if there is one.
unfoldable pub not_yet : Option Instant → Instant → Instant → List Segment
not_yet none lo hi = []
not_yet (some a) lo hi =
    if ltb lo a
    then record { start = lo; end = min a hi; reason = codes "before_available_from" } ∷ []
    else []

unfoldable pub blockers_in : MachineCalendar → Instant → Instant → List Segment
unfolding not_yet downtime
blockers_in c lo hi =
    merge_segments (not_yet c.available_from lo hi ++ windows_in (downtime c) lo hi)

-- `date.toordinal()` of an instant.
abbrev pub ordinal : Instant → ℕ
ordinal t = t / day_length

-- `_day`. Where the day has no working segments the blockers are not looked up; subtracting no
-- blockers changes nothing.
unfoldable pub day : MachineCalendar → ℕ → List Segment
unfolding blockers_in
day c n =
    let lo = n * day_length in
    let working = utc_day_segments c.zone c.spec n in
    let open_time = subtract_segments working (blockers_in c lo (lo + day_length)) in
    if is_nil working then working else open_time

unfoldable pub is_working : MachineCalendar → Instant → Bool
unfolding day covers
is_working c t = covers (day c (ordinal t)) t
