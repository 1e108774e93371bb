-- ===== src/Replanning/Stability/Laws.antt =====
-- The theorems about the report of `apply_stability` (backend/app/engines/replanning/stability.py).
use athena_order_priority.Prelude.{
  ℕ, suc, ◌+◌, ◌≡◌, refl, sym, ◌∙◌, Bool, true, false, not, ◌||◌, List, [], ◌∷◌, Option, none, some,
  All, length, filter, Dict, get, if◌then◌else◌, Bool-cases, inl, inr, arith,
}
use athena_order_priority.Domain.Results.{ScheduleEntry}
use athena_order_priority.Replanning.Stability.{
  StabilityReport, Verdict, stays, goes, shifts, violates, has_moved, judge, count_verdict,
  count_frozen, is_frozen, reconcile_one, reconcile, by_key, by_operation, pending_by_operation,
  is_new, add_new, apply_stability, empty_report,
}

-- How many previous entries the report has counted.
abbrev counted : StabilityReport → ℕ
counted r = r.unchanged_entries + r.moved_entries + r.removed_entries + r.frozen_violations

counted-count_verdict :
    (old : ScheduleEntry) (v : Verdict) (b : Bool) (r : StabilityReport)
    → counted (count_verdict old v (count_frozen b r)) ≡ suc (counted r)
unfolding count_verdict
counted-count_verdict old stays true r = omega arith
counted-count_verdict old stays false r = omega arith
counted-count_verdict old goes true r = omega arith
counted-count_verdict old goes false r = omega arith
counted-count_verdict old (shifts new) true r = omega arith
counted-count_verdict old (shifts new) false r = omega arith
counted-count_verdict old (violates new) true r = omega arith
counted-count_verdict old (violates new) false r = omega arith

-- The entry is where it was, up to the tolerance.
abbrev pub keeps : ℕ → ScheduleEntry → Option ScheduleEntry → Bool
keeps tolerance old none = false
keeps tolerance old (some new) = not (has_moved tolerance old new)

violations-count_verdict :
    (tolerance : ℕ) (b : Bool) (old : ScheduleEntry) (new : Option ScheduleEntry)
    (r : StabilityReport)
    → (count_verdict old (judge tolerance b old new) (count_frozen b r)).frozen_violations
      ≡ r.frozen_violations + (if not b || keeps tolerance old new then 0 else 1)
unfolding count_verdict judge
violations-count_verdict tolerance true old none r = omega arith
violations-count_verdict tolerance false old none r = omega arith
violations-count_verdict tolerance true old (some new) r =
    elim (Bool-cases (has_moved tolerance old new)) [
      | inl e ↦ rw e (omega arith)
      | inr e ↦ rw e (omega arith)
    ]
violations-count_verdict tolerance false old (some new) r =
    elim (Bool-cases (has_moved tolerance old new)) [
      | inl e ↦ rw e (omega arith)
      | inr e ↦ rw e (omega arith)
    ]

module _ (relevant can_run : ScheduleEntry → Bool) (now window tolerance : ℕ) (restore : Bool)
    (proposed : Dict ScheduleEntry) where
  abbrev run :
      Dict ScheduleEntry
      → StabilityReport × Dict ScheduleEntry
      → StabilityReport × Dict ScheduleEntry
  run = reconcile relevant can_run now window tolerance restore proposed

  counted-reconcile :
      (entries : Dict ScheduleEntry) (s : StabilityReport × Dict ScheduleEntry)
      → counted (run entries s).0 ≡ counted s.0 + length entries
  unfolding reconcile reconcile_one
  counted-reconcile [] s = omega arith
  counted-reconcile (entry ∷ rest) s =
      let old = entry.1 in
      let frozen = is_frozen relevant can_run now window tolerance old in
      let v = judge tolerance frozen old (get old.operation_id proposed) in
      let one = counted-count_verdict old v frozen s.0 in
      let more =
        counted-reconcile rest
          (reconcile_one relevant can_run now window tolerance restore proposed old s) in
      omega (arith, one, more)

  -- A frozen entry is where it was in the proposed schedule.
  abbrev pub holds : ℕ × ScheduleEntry → Bool
  holds entry =
      not (is_frozen relevant can_run now window tolerance entry.1)
      || keeps tolerance entry.1 (get entry.1.operation_id proposed)

  violations-reconcile :
      (entries : Dict ScheduleEntry) (s : StabilityReport × Dict ScheduleEntry)
      → (run entries s).0.frozen_violations ≡ 0
      → (s.0.frozen_violations ≡ 0) × All (λ entry. holds entry ≡ true) entries
  unfolding reconcile reconcile_one
  violations-reconcile [] s h = (h, tt)
  violations-reconcile (entry ∷ rest) s h =
      let old = entry.1 in
      let (first, all) =
        violations-reconcile rest
          (reconcile_one relevant can_run now window tolerance restore proposed old s) h in
      let one =
        violations-count_verdict tolerance (is_frozen relevant can_run now window tolerance old) old
          (get old.operation_id proposed) s.0 in
      let none_before : (s.0.frozen_violations ≡ 0) × (holds entry ≡ true) =
        ground (arith, first, one) in
      (none_before.0, (none_before.1, all))

add_new_lem :
    (entries : List (ℕ × ScheduleEntry)) (r : StabilityReport)
    → (counted (add_new entries r) ≡ counted r)
      × ((add_new entries r).frozen_violations ≡ r.frozen_violations)
      × ((add_new entries r).added_entries ≡ r.added_entries + length entries)
unfolding add_new
add_new_lem [] r = (refl, refl, omega arith)
add_new_lem (entry ∷ rest) r = let (a, b, c) = add_new_lem rest _ in (a, b, c ∙ omega arith)

added-count_verdict :
    (old : ScheduleEntry) (v : Verdict) (b : Bool) (r : StabilityReport)
    → (count_verdict old v (count_frozen b r)).added_entries ≡ r.added_entries
unfolding count_verdict
added-count_verdict old stays true r = refl
added-count_verdict old stays false r = refl
added-count_verdict old goes true r = refl
added-count_verdict old goes false r = refl
added-count_verdict old (shifts new) true r = refl
added-count_verdict old (shifts new) false r = refl
added-count_verdict old (violates new) true r = refl
added-count_verdict old (violates new) false r = refl

module _ (relevant can_run : ScheduleEntry → Bool) (now window tolerance : ℕ) (restore : Bool)
    (max_moves : Option ℕ) (previous proposed : List ScheduleEntry) where
  abbrev pub report : StabilityReport
  report =
      (apply_stability relevant can_run now window tolerance restore max_moves previous proposed).0

  -- The first pending entry of the previous schedule and the last of the proposed one, by operation.
  abbrev pub pending : Dict ScheduleEntry
  pending = pending_by_operation relevant can_run now window tolerance previous []

  abbrev pub planned : Dict ScheduleEntry
  planned = by_operation proposed []

  added-reconcile :
      (entries : Dict ScheduleEntry) (s : StabilityReport × Dict ScheduleEntry)
      → (run relevant can_run now window tolerance restore planned entries s).0.added_entries
        ≡ s.0.added_entries
  unfolding reconcile reconcile_one
  added-reconcile [] s = refl
  added-reconcile (entry ∷ rest) s =
      let old = entry.1 in
      let frozen = is_frozen relevant can_run now window tolerance old in
      let v = judge tolerance frozen old (get old.operation_id planned) in
      added-reconcile rest
        (reconcile_one relevant can_run now window tolerance restore planned old s)
      ∙ added-count_verdict old v frozen s.0

  -- Each operation with a pending entry in the previous schedule is counted once, by the first such
  -- entry, as unchanged, moved, removed or a violation of the frozen window, and each operation of
  -- the proposed schedule without a pending entry in the previous one is counted as added.
  pub apply_stability-count :
      (report.unchanged_entries + report.moved_entries + report.removed_entries
          + report.frozen_violations
        ≡ length (by_key pending))
      × (report.added_entries ≡ length (filter (is_new pending) (by_key planned)))
  unfolding apply_stability
  apply_stability-count =
      let s =
        reconcile relevant can_run now window tolerance restore planned (by_key pending)
          (empty_report, []) in
      let (a, b, c) = add_new_lem (filter (is_new pending) (by_key planned)) s.0 in
      (
        a
            ∙ counted-reconcile relevant can_run now window tolerance restore planned
                (by_key pending) (empty_report, [])
            ∙ omega arith,
        c ∙ omega (arith, added-reconcile (by_key pending) (empty_report, [])),
      )

  -- When no violation is counted, the first pending entry of every operation in the previous
  -- schedule, if it starts in the frozen window on a machine that can run, has an entry of the
  -- operation in the proposed schedule, the last one, on its machine and at its start up to the
  -- tolerance.
  pub apply_stability-frozen :
      report.frozen_violations ≡ 0
      → All
          (λ entry. holds relevant can_run now window tolerance restore planned entry ≡ true)
          (by_key pending)
  unfolding apply_stability
  apply_stability-frozen h =
      let s =
        reconcile relevant can_run now window tolerance restore planned (by_key pending)
          (empty_report, []) in
      let (a, b, c) = add_new_lem (filter (is_new pending) (by_key planned)) s.0 in
      (violations-reconcile relevant can_run now window tolerance restore planned (by_key pending)
        (empty_report, []) (sym b ∙ h)).1
