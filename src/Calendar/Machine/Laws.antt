-- ===== src/Calendar/Machine/Laws.antt =====
-- The theorems about the working segments of a day and `is_working` (backend/app/engines/calendar/calendar.py).
use athena_order_priority.Prelude.{
  ℕ, ◌+◌, ◌*◌, ◌≡◌, refl, ◌∙◌, ap, ap₂, ◌≤◌, ◌<◌, Bool, true, false, ◌&&◌, ◌||◌, not, List, [], ◌∷◌,
  inl, inr, ltb, any, any-append, Bool-cases, is_nil, Option, none, some, arith,
}
use athena_order_priority.Calendar.Segments.{Instant, Segment, covers, holds, Fits, IsDisjoint}
use athena_order_priority.Calendar.Segments.Merge.{
  covers-merge_segments, merge_segments-IsSeparated, merge_segments-IsDisjoint,
}
use athena_order_priority.Calendar.Segments.Subtract.{
  covers-subtract_segments, subtract_segments-Fits,
}
use athena_order_priority.Calendar.Windows.{covers-windows_in}
use athena_order_priority.Calendar.Shifts.{day_length, utc_day_segments}
use athena_order_priority.Calendar.Shifts.Laws.{utc_day_segments-Fits}
use athena_order_priority.Calendar.Machine.{
  MachineCalendar, downtime, not_yet, blockers_in, ordinal, day, is_working,
}

-- The instant lies before `available_from`.
abbrev pub is_early : Option Instant → Instant → Bool
is_early none t = false
is_early (some a) t = ltb t a

covers-not_yet :
    (a : Option Instant) (t lo hi : Instant)
    → lo ≤ t
    → t < hi
    → covers (not_yet a lo hi) t ≡ is_early a t
unfolding covers any not_yet
covers-not_yet none t lo hi h k = refl
covers-not_yet (some a) t lo hi h k = ground arith

module _ (c : MachineCalendar) where
  blockers_in-IsDisjoint : (lo hi : Instant) → IsDisjoint (blockers_in c lo hi)
  unfolding blockers_in
  blockers_in-IsDisjoint lo hi = merge_segments-IsDisjoint _

  covers-blockers_in :
      (t lo hi : Instant)
      → lo ≤ t
      → t < hi
      → covers (blockers_in c lo hi) t ≡ (is_early c.available_from t || covers (downtime c) t)
  covers-blockers_in t lo hi h k =
      unfold blockers_in in
      (covers-merge_segments t _
        ∙ unfold covers in
          any-append (holds t) (not_yet c.available_from lo hi) _
          ∙ ap₂ ◌||◌ (covers-not_yet c.available_from t lo hi h k)
              (covers-windows_in t lo hi _ (unfold downtime in merge_segments-IsSeparated _) h k))

  pub day-Fits : (n : ℕ) → Fits (n * day_length) (n * day_length + day_length) (day c n)
  unfolding day
  day-Fits n = elim (Bool-cases (is_nil (utc_day_segments c.zone c.spec n))) [
    | inl e ↦ rw e (utc_day_segments-Fits c.zone c.spec n)
    | inr e ↦ rw e (
        subtract_segments-Fits _ _ _ _ (blockers_in-IsDisjoint _ _)
          (utc_day_segments-Fits c.zone c.spec n))
  ]

  covers-nil : (l : List Segment) (t : Instant) → is_nil l ≡ true → covers l t ≡ false
  unfolding covers any
  covers-nil [] t e = refl
  covers-nil (x ∷ xs) t e = cc

  covers-day :
      (t : Instant) (n : ℕ)
      → n * day_length ≤ t
      → t < n * day_length + day_length
      → covers (day c n) t ≡ (
          covers (utc_day_segments c.zone c.spec n) t
          && not (is_early c.available_from t || covers (downtime c) t))
  unfolding day
  covers-day t n h k =
      let pattern = utc_day_segments c.zone c.spec n in
      elim (Bool-cases (is_nil pattern)) [
        | inl e ↦ rw e (rw (covers-nil pattern t e) refl)
        | inr e ↦ rw e (
            covers-subtract_segments t pattern _ (blockers_in-IsDisjoint _ _)
            ∙ ap (λ b. covers pattern t && not b) (covers-blockers_in t _ _ h k))
      ]

  -- The machine works at exactly the instants of its shift pattern (shifts and overtime) that no
  -- downtime window covers and that do not lie before `available_from`.
  pub is_working_lem :
      (t : Instant)
      → is_working c t ≡ (
          covers (utc_day_segments c.zone c.spec (ordinal t)) t
          && not (is_early c.available_from t || covers (downtime c) t))
  unfolding is_working
  is_working_lem t = covers-day t (ordinal t) (omega arith) (omega arith)
