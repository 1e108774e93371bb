-- ===== src/Examples/Plant.antt =====
-- A machine that works from 08:00 to 16:00 UTC every day, but for an hour of downtime on day 3.
use athena_order_priority.Prelude.{
  ℕ, ◌+◌, ◌*◌, ◌≡◌, refl, ◌∙◌, true, false, [], ◌∷◌, none, any, ◌==◌, filter, ◌%◌, arith,
}
use athena_order_priority.Domain.Window.{TimeWindow, codes}
use athena_order_priority.Calendar.Segments.{covers, merge_segments, subtract_segments}
use athena_order_priority.Calendar.Windows.{windows_in}
use athena_order_priority.Calendar.Shifts.{
  Zone, shift_segments, Shift, CalendarSpec, day_length, active_shifts, local_date_segments,
  utc_day_segments,
}
use athena_order_priority.Calendar.Shifts.Laws.{covers-utc_day_segments, shift_covers, IsZone}
use athena_order_priority.Calendar.Machine.{MachineCalendar, is_working, day, ordinal, downtime}
use athena_order_priority.Calendar.Machine.Laws.{is_working_lem}
use athena_order_priority.Calendar.Work.{next_working_time, add_work, working_between, found}
use athena_order_priority.Calendar.Work.Laws.{IsLively}

abbrev pub hour : ℕ
hour = 3_600_000_000

abbrev pub utc : Zone
utc d time = d * day_length + time

abbrev pub early_shift : Shift
early_shift = record {
  name = codes "early";
  start = 28_800_000_000;
  end = 57_600_000_000;
  weekdays = 0 ∷ 1 ∷ 2 ∷ 3 ∷ 4 ∷ 5 ∷ 6 ∷ [];
}

abbrev pub spec : CalendarSpec
spec = record {
  shifts = early_shift ∷ [];
  holidays = [];
  overtime_windows = [];
  extra_working_days = [];
}

abbrev pub repair : TimeWindow
repair = record {
  start = 3 * day_length + 10 * hour;
  end = 3 * day_length + 11 * hour;
  reason = [];
}

abbrev pub lathe : MachineCalendar
lathe = record {
  zone = utc;
  spec = spec;
  downtime_windows = repair ∷ [];
  available_from = none;
  max_search_days = 60;
}

-- All that a run of the calendar computes with.
unfoldable pub calendar_run : Unit {0}
unfolding windows_in add_work next_working_time working_between is_working day utc_day_segments
    merge_segments subtract_segments local_date_segments covers
calendar_run = tt

next_on_day_3 : next_working_time lathe (3 * day_length) ≡ found (3 * day_length + 8 * hour)
unfolding calendar_run
next_on_day_3 = refl

-- Five hours from 08:00 pass over the repair.
pub add_on_day_3 :
    add_work lathe (3 * day_length + 8 * hour) (5 * hour) ≡ found (3 * day_length + 14 * hour)
unfolding calendar_run
add_on_day_3 = refl

-- Every weekday is one of the shift's.
every_weekday : (d : ℕ) → any (◌==◌ ((d + 6) % 7)) early_shift.weekdays ≡ true
unfolding any
every_weekday d = ground arith

always_active : (n : ℕ) → active_shifts spec n ≡ early_shift ∷ []
unfolding active_shifts any filter
always_active n = ground (arith, every_weekday n)

pub shift_at_eight : (n : ℕ) → shift_covers utc spec (n * day_length + 8 * hour) n ≡ true
shift_at_eight n =
    unfold local_date_segments in
    rw (always_active n) (unfold shift_segments covers any in ground arith)

repair_only :
    downtime lathe
    ≡ record { start = repair.start; end = repair.end; reason = codes "downtime" } ∷ []
unfolding downtime merge_segments
repair_only = refl

no_repair : (n : ℕ) → covers (downtime lathe) (n * day_length + 8 * hour) ≡ false
no_repair n = rw repair_only (unfold covers any in ground arith)

works_at_eight : (n : ℕ) → is_working lathe (n * day_length + 8 * hour) ≡ true
works_at_eight n =
    let t = n * day_length + 8 * hour in
    let here : ordinal t ≡ n = omega arith in
    is_working_lem lathe t
    ∙ rw here (
        rw (covers-utc_day_segments utc spec t n (omega arith) (omega arith))
          (rw (no_repair n) (unfold any in ground (arith, shift_at_eight n))))

pub lathe-IsLively : IsLively lathe
lathe-IsLively x idle =
    let n = ordinal x + 1 in
    cc (works_at_eight n, idle (n * day_length + 8 * hour) (omega arith) (omega arith))

pub utc-IsZone : IsZone utc
utc-IsZone = record { east = λ d time. omega arith; west = λ d time. omega arith }
