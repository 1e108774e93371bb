-- ===== src/Examples/Calendars.antt =====
-- The theorems on calendars and placements, on the machine of `Plant`.
use athena_order_priority.Prelude.{
  ℕ, suc, ◌+◌, ◌-◌, ◌*◌, ◌≡◌, refl, true, ◌&&◌, ◌||◌, not, List, [], ◌∷◌, any, none, arith,
}
use athena_order_priority.Domain.Window.{Instant}
use athena_order_priority.Calendar.Segments.{
  Segment, covers, merge_segments, subtract_segments, IsSeparated, Fits,
}
use athena_order_priority.Calendar.Segments.Merge.{merge_segments_lem}
use athena_order_priority.Calendar.Segments.Subtract.{subtract_segments_lem}
use athena_order_priority.Calendar.Shifts.{day_length, utc_day_segments, nearby_dates, overtime}
use athena_order_priority.Calendar.Shifts.Laws.{
  shift_covers, shift_covers-nearby, covers-utc_day_segments,
}
use athena_order_priority.Calendar.Machine.{is_working, ordinal, downtime}
use athena_order_priority.Calendar.Machine.Laws.{is_early, is_working_lem}
use athena_order_priority.Calendar.Work.{add_work, next_working_time, working_between, found}
use athena_order_priority.Calendar.Work.Count.{count, working_between-count}
use athena_order_priority.Calendar.Work.Add.{Ends, add_work-Ends}
use athena_order_priority.Calendar.Work.Next.{Starts, next_working_time-Starts}
use athena_order_priority.Calendar.Work.Laws.{working_between-add_work, add_work-add}
use athena_order_priority.Scheduling.Placement.{Placement, place_on_calendar, place_span}
use athena_order_priority.Scheduling.Placement.Laws.{
  IsPlaced, to_span, place_on_calendar-IsPlaced, place_span-place_on_calendar,
}
use athena_order_priority.Examples.Plant.{
  hour, utc, spec, repair, lathe, calendar_run, lathe-IsLively, utc-IsZone, add_on_day_3,
  shift_at_eight,
}

abbrev seg : ℕ → ℕ → Segment
seg a b = record { start = a; end = b; reason = [] }

abbrev mixed : List Segment
mixed = seg 7 9 ∷ seg 3 3 ∷ seg 1 4 ∷ seg 4 6 ∷ []

merge_segments_example :
    IsSeparated (merge_segments mixed)
    × ((t : Instant) → covers (merge_segments mixed) t ≡ covers mixed t)
merge_segments_example = merge_segments_lem mixed

subtract_segments_example :
    Fits 0 20 (subtract_segments (seg 1 9 ∷ []) (seg 3 5 ∷ []))
    × ((t : Instant)
        → covers (subtract_segments (seg 1 9 ∷ []) (seg 3 5 ∷ [])) t
          ≡ (covers (seg 1 9 ∷ []) t && not (covers (seg 3 5 ∷ []) t)))
subtract_segments_example =
    subtract_segments_lem 0 20 (seg 1 9 ∷ []) (seg 3 5 ∷ []) (omega arith) (omega arith)

shift_covers-nearby_example :
    covers (utc_day_segments utc spec 5) (5 * day_length + 8 * hour) ≡ true
shift_covers-nearby_example =
    shift_covers-nearby utc spec (5 * day_length + 8 * hour) 5 5 utc-IsZone (omega arith)
      (omega arith) (omega arith) (omega arith) (shift_at_eight 5)

covers-utc_day_segments_example :
    covers (utc_day_segments utc spec 5) (5 * day_length + 8 * hour) ≡ (
      any (shift_covers utc spec (5 * day_length + 8 * hour)) (nearby_dates 5)
      || covers (overtime spec) (5 * day_length + 8 * hour))
covers-utc_day_segments_example =
    covers-utc_day_segments utc spec (5 * day_length + 8 * hour) 5 (omega arith) (omega arith)

abbrev during_repair : Instant
during_repair = 3 * day_length + 10 * hour

is_working_example : is_working lathe during_repair ≡ (
    covers (utc_day_segments utc spec (ordinal during_repair)) during_repair
    && not (is_early none during_repair || covers (downtime lathe) during_repair))
is_working_example = is_working_lem lathe during_repair

working_between-count_example :
    working_between lathe 0 day_length ≡ count (is_working lathe) 0 (day_length - 0)
working_between-count_example = working_between-count lathe 0 day_length

add_work-Ends_example : Ends lathe (3 * day_length) 7 (add_work lathe (3 * day_length) 7)
add_work-Ends_example = add_work-Ends lathe (3 * day_length) 6

next_working_time-Starts_example :
    Starts lathe during_repair (next_working_time lathe during_repair)
next_working_time-Starts_example = next_working_time-Starts lathe during_repair

add_work_from_2 :
    add_work lathe (3 * day_length + 14 * hour) hour ≡ found (3 * day_length + 15 * hour)
unfolding calendar_run
add_work_from_2 = refl

add_work-add_example :
    add_work lathe (3 * day_length + 8 * hour) (18_000_000_000 + 3_600_000_000)
    ≡ found (3 * day_length + 15 * hour)
add_work-add_example =
    add_work-add lathe (3 * day_length + 8 * hour) 17_999_999_999 3_599_999_999
      (3 * day_length + 14 * hour) (3 * day_length + 15 * hour) lathe-IsLively add_on_day_3
      add_work_from_2

working_between-add_work_example :
    (u : Instant) × (add_work lathe during_repair (suc 9) ≡ found u)
    × (working_between lathe during_repair u ≡ suc 9)
working_between-add_work_example = working_between-add_work lathe during_repair 9 lathe-IsLively

place_on_calendar-IsPlaced_example :
    (p : Placement) × (place_on_calendar lathe 5 9 (repair ∷ []) during_repair ≡ found p)
    × IsPlaced lathe (repair ∷ []) during_repair p
place_on_calendar-IsPlaced_example =
    place_on_calendar-IsPlaced lathe lathe-IsLively 5 9 (repair ∷ []) during_repair

abbrev placed : Placement
placed = record {
  setup_start = 3 * day_length + 11 * hour;
  start = 3 * day_length + 12 * hour;
  end = 3 * day_length + 13 * hour;
}

place_runs : place_on_calendar lathe hour hour (repair ∷ []) during_repair ≡ found placed
unfolding calendar_run place_on_calendar
place_runs = refl

place_span-place_on_calendar_example :
    place_span lathe (hour + hour) (repair ∷ []) during_repair ≡ found (to_span placed)
place_span-place_on_calendar_example =
    place_span-place_on_calendar lathe lathe-IsLively hour hour (repair ∷ []) during_repair placed
      place_runs
