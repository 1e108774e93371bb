-- ===== src/Calendar/Shifts.antt =====
-- `ShiftPattern` of backend/app/engines/calendar/calendar.py, and the parts of `Shift` and
-- `CalendarSpec` (backend/app/domain/models.py) that it reads. A date is its ordinal; the instants
-- of ordinal `n` are `n * day_length` and the day's microseconds after it. The conversion of a
-- local date and time of day to UTC is zoneinfo's, an argument (`Zone`). The per-day caches only
-- repeat what these functions return, since the pattern is not changed after its construction.
pub mod Laws
use athena_order_priority.Prelude.{
  ℕ, zero, suc, ◌+◌, ◌-◌, ◌*◌, ◌%◌, ◌≤◌, ◌<◌, Bool, true, false, ◌&&◌, ◌||◌, List, [], ◌∷◌, ◌++◌,
  map, min, max, ltb, leb, ◌==◌, any, filter, if◌then◌else◌, not, is_nil,
}
use athena_order_priority.Domain.Window.{Instant, Text, TimeWindow, or_text, codes}
use athena_order_priority.Calendar.Segments.{Segment, merge_segments}
use athena_order_priority.Calendar.Windows.{windows_in}

-- 24 hours in microseconds.
abbrev pub day_length : ℕ
day_length = 86_400_000_000

-- `zone date time_of_day`: the UTC instant of a local date and time.
abbrev pub Zone : Type 0
Zone = ℕ → ℕ → Instant

pub record Shift : Type 0 where
  pub name : Text
  pub start : ℕ
  pub end : ℕ
  pub weekdays : List ℕ

unfoldable pub crosses_midnight : Shift → Bool
crosses_midnight s = leb s.end s.start

pub record CalendarSpec : Type 0 where
  pub shifts : List Shift
  pub holidays : List ℕ
  pub overtime_windows : List TimeWindow
  pub extra_working_days : List ℕ

-- `d.weekday()`: 0 is Monday, and ordinal 1 is one.
abbrev pub weekday : ℕ → ℕ
weekday d = (d + 6) % 7

unfoldable pub active_shifts : CalendarSpec → ℕ → List Shift
unfolding any filter
active_shifts spec d =
    if any (◌==◌ d) spec.extra_working_days
    then spec.shifts
    else if any (◌==◌ d) spec.holidays
    then []
    else filter (λ (s : Shift). any (◌==◌ (weekday d)) s.weekdays) spec.shifts

unfoldable pub shift_segment : Zone → ℕ → Shift → Segment
unfolding crosses_midnight
shift_segment zone d s =
    let end_day : ℕ = if crosses_midnight s then d + 1 else d in
    record {
      start = zone d s.start;
      end = zone end_day s.end;
      reason = or_text s.name (codes "shift");
    }

-- The loop of `_local_date_segments`.
unfoldable pub shift_segments : Zone → ℕ → List Shift → List Segment
unfolding shift_segment
shift_segments zone d [] = []
shift_segments zone d (s ∷ rest) =
    let seg = shift_segment zone d s in
    let more = shift_segments zone d rest in if ltb seg.start seg.end then seg ∷ more else more

unfoldable pub local_date_segments : Zone → CalendarSpec → ℕ → List Segment
unfolding shift_segments active_shifts
local_date_segments zone spec d = shift_segments zone d (active_shifts spec d)

-- A window as a segment; the default stands for a missing reason.
abbrev pub to_segment : Text → TimeWindow → Segment
to_segment default w = record { start = w.start; end = w.end; reason = or_text w.reason default }

-- `self._overtime`
unfoldable pub overtime : CalendarSpec → List Segment
overtime spec = merge_segments (map (to_segment (codes "overtime")) spec.overtime_windows)

-- The part of the segments that lies in the range, where there is any.
unfoldable pub clip_proper : Instant → Instant → List Segment → List Segment
clip_proper lo hi [] = []
clip_proper lo hi (s ∷ rest) =
    let cs = max s.start lo in
    let ce = min s.end hi in
    let more = clip_proper lo hi rest in
    if ltb cs ce then record { start = cs; end = ce; reason = s.reason } ∷ more else more

-- The local dates `range(ordinal - 2, ordinal + 2)`.
abbrev pub nearby_dates : ℕ → List ℕ
nearby_dates n = (n - 2) ∷ (n - 1) ∷ n ∷ (n + 1) ∷ []

unfoldable pub clipped_dates : Zone → CalendarSpec → Instant → Instant → List ℕ → List Segment
unfolding clip_proper
clipped_dates zone spec lo hi [] = []
clipped_dates zone spec lo hi (d ∷ ds) =
    clip_proper lo hi (local_date_segments zone spec d) ++ clipped_dates zone spec lo hi ds

unfoldable pub utc_day_segments : Zone → CalendarSpec → ℕ → List Segment
unfolding clipped_dates overtime
utc_day_segments zone spec n =
    let lo = n * day_length in
    let hi = lo + day_length in
    merge_segments
      (clipped_dates zone spec lo hi (nearby_dates n) ++ windows_in (overtime spec) lo hi)

unfoldable pub has_working_time : CalendarSpec → Bool
unfolding overtime
has_working_time spec = not (is_nil spec.shifts) || not (is_nil (overtime spec))
