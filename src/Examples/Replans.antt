-- ===== src/Examples/Replans.antt =====
-- The stability rules on two small schedules.
use athena_order_priority.Prelude.{
  ◌+◌, ◌≡◌, refl, Bool, true, false, List, [], ◌∷◌, none, All, length, filter,
}
use athena_order_priority.Replanning.Stability
use athena_order_priority.Domain.Results.{ScheduleEntry}
use athena_order_priority.Replanning.Stability.{by_key, is_new}
use athena_order_priority.Replanning.Stability.Laws.{
  report, pending, planned, holds, apply_stability-count, apply_stability-frozen,
}

abbrev always : ScheduleEntry → Bool
always e = true

abbrev pub cut : ScheduleEntry
cut = record {
  entry_id = 1;
  machine_id = 4;
  order_id = 1;
  operation_id = 1;
  sequence_on_machine = 1;
  setup_start = 110;
  start = 112;
  end = 150;
  setup_minutes = 2;
  run_minutes = 38;
  is_last_operation = false;
  expected_completion = none;
  due_date = none;
  setup_family = none;
  material_id = none;
  customer_id = none;
  locked = false;
}

abbrev pub drill : ScheduleEntry
drill = record cut { entry_id = 2; operation_id = 2; setup_start = 300; start = 300; end = 340 }

abbrev drill_late : ScheduleEntry
drill_late = record drill { setup_start = 400; start = 400; end = 440 }

abbrev polish : ScheduleEntry
polish = record drill { entry_id = 3; operation_id = 3 }

abbrev before : List ScheduleEntry
before = cut ∷ drill ∷ []

abbrev after : List ScheduleEntry
after = cut ∷ drill_late ∷ polish ∷ []

apply_stability-count_example :
    ((report always always 100 60 1 true none before after).unchanged_entries
        + (report always always 100 60 1 true none before after).moved_entries
        + (report always always 100 60 1 true none before after).removed_entries
        + (report always always 100 60 1 true none before after).frozen_violations
      ≡ length (by_key (pending always always 100 60 1 true none before after)))
    × ((report always always 100 60 1 true none before after).added_entries
        ≡ length (
            filter
              (is_new (pending always always 100 60 1 true none before after))
              (by_key (planned always always 100 60 1 true none before after))))
apply_stability-count_example = apply_stability-count always always 100 60 1 true none before after

one_moved : (report always always 100 60 1 true none before after).moved_entries ≡ 1
unfolding Stability.apply_stability
one_moved = refl

apply_stability-frozen_example :
    All
      (λ entry.
        holds always always 100 60 1 true
          (planned always always 100 60 1 true none before after)
          entry
        ≡ true)
      (by_key (pending always always 100 60 1 true none before after))
unfolding Stability.apply_stability
apply_stability-frozen_example =
    apply_stability-frozen always always 100 60 1 true none before after refl
