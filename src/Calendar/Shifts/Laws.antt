-- ===== src/Calendar/Shifts/Laws.antt =====
-- The theorems about `utc_day_segments` and the local dates it looks at
-- (backend/app/engines/calendar/calendar.py).
use athena_order_priority.Prelude.{
  ℕ, ◌+◌, ◌-◌, ◌*◌, ◌≡◌, refl, ◌∙◌, ap₂, ◌≤◌, ◌<◌, Bool, true, ◌||◌, List, [], ◌∷◌, inl, inr, min,
  max, ltb, ◌==◌, ◌⊎◌, All, All-filter, All-append, any, any-append, Bool-cases, arith,
}
use athena_order_priority.Calendar.Segments.{Instant, Segment, covers, holds, IsWithin, Fits}
use athena_order_priority.Calendar.Segments.Merge.{
  covers-merge_segments, merge_segments-IsSeparated, merge_segments-Fits,
}
use athena_order_priority.Calendar.Windows.{windows_in, covers-windows_in, windows_in-IsWithin}
use athena_order_priority.Calendar.Shifts.{
  Zone, Shift, CalendarSpec, day_length, active_shifts, shift_segment, shift_segments,
  crosses_midnight, local_date_segments, overtime, clip_proper, clipped_dates, nearby_dates,
  utc_day_segments,
}

covers-clip_proper :
    (t lo hi : Instant) (l : List Segment)
    → lo ≤ t
    → t < hi
    → covers (clip_proper lo hi l) t ≡ covers l t
unfolding clip_proper covers any
covers-clip_proper t lo hi [] h k = refl
covers-clip_proper t lo hi (s ∷ rest) h k = ground (arith, covers-clip_proper t lo hi rest h k)

clip_proper-IsWithin : (lo hi : Instant) (l : List Segment) → IsWithin lo hi (clip_proper lo hi l)
unfolding clip_proper
clip_proper-IsWithin lo hi [] = tt
clip_proper-IsWithin lo hi (s ∷ rest) = elim (Bool-cases (ltb (max s.start lo) (min s.end hi))) [
  | inl e ↦ rw e ((omega arith, omega arith), clip_proper-IsWithin lo hi rest)
  | inr e ↦ rw e (clip_proper-IsWithin lo hi rest)
]

module _ (zone : Zone) (spec : CalendarSpec) where
  -- Some shift of the local date covers the instant.
  abbrev pub shift_covers : Instant → ℕ → Bool
  shift_covers t d = covers (local_date_segments zone spec d) t

  covers-clipped_dates :
      (t lo hi : Instant) (ds : List ℕ)
      → lo ≤ t
      → t < hi
      → covers (clipped_dates zone spec lo hi ds) t ≡ any (shift_covers t) ds
  unfolding clipped_dates covers any
  covers-clipped_dates t lo hi [] h k = refl
  covers-clipped_dates t lo hi (d ∷ ds) h k =
      any-append (holds t) (clip_proper lo hi (local_date_segments zone spec d)) _
      ∙ ap₂ ◌||◌ (covers-clip_proper t lo hi _ h k) (covers-clipped_dates t lo hi ds h k)

  clipped_dates-IsWithin :
      (lo hi : Instant) (ds : List ℕ) → IsWithin lo hi (clipped_dates zone spec lo hi ds)
  unfolding clipped_dates
  clipped_dates-IsWithin lo hi [] = tt
  clipped_dates-IsWithin lo hi (d ∷ ds) =
      All-append _ (clip_proper lo hi (local_date_segments zone spec d)) _
        (clip_proper-IsWithin lo hi _) (clipped_dates-IsWithin lo hi ds)

  pub utc_day_segments-Fits :
      (n : ℕ) → Fits (n * day_length) (n * day_length + day_length) (utc_day_segments zone spec n)
  unfolding utc_day_segments
  utc_day_segments-Fits n = merge_segments-Fits _ _ _ (
      All-append _ (clipped_dates zone spec _ _ (nearby_dates n)) _
        (clipped_dates-IsWithin _ _ (nearby_dates n)) (windows_in-IsWithin _ _ (overtime spec)))

  overtime-covers :
      (t lo hi : Instant)
      → lo ≤ t
      → t < hi
      → covers (windows_in (overtime spec) lo hi) t ≡ covers (overtime spec) t
  unfolding overtime
  overtime-covers t lo hi = covers-windows_in t lo hi _ (merge_segments-IsSeparated _)

  -- An instant of a UTC day is covered by the segments of the day exactly when a shift of one of the
  -- four nearby local dates or the overtime covers it.
  pub covers-utc_day_segments :
      (t : Instant) (n : ℕ)
      → n * day_length ≤ t
      → t < n * day_length + day_length
      → covers (utc_day_segments zone spec n) t
        ≡ (any (shift_covers t) (nearby_dates n) || covers (overtime spec) t)
  covers-utc_day_segments t n h k =
      unfold utc_day_segments in
      (covers-merge_segments t _
        ∙ unfold covers in
          any-append (holds t) (clipped_dates zone spec _ _ (nearby_dates n)) _
          ∙ ap₂ ◌||◌ (covers-clipped_dates t _ _ (nearby_dates n) h k) (overtime-covers t _ _ h k))

-- A zone's offset from UTC lies between -12 and +14 hours.
pub record IsZone (zone : Zone) : Type 0 where
  pub east : (d time : ℕ) → d * day_length + time ≤ zone d time + 50_400_000_000
  pub west : (d time : ℕ) → zone d time ≤ d * day_length + time + 43_200_000_000

-- Times of day.
abbrev pub IsTimed : Shift → Type 0
IsTimed s = (s.start < day_length) × (s.end < day_length)

module _ (zone : Zone) (z : IsZone zone) (t : Instant) (d : ℕ) where
  shift_segment-near :
      (s : Shift)
      → IsTimed s
      → holds t (shift_segment zone d s) ≡ true
      → (d * day_length ≤ t + 50_400_000_000)
        × (t < d * day_length + day_length + day_length + 43_200_000_000)
  unfolding shift_segment crosses_midnight
  shift_segment-near s timed h =
      ground (arith, z.east d s.start, z.west d s.end, z.west (d + 1) s.end)

  shift_segments-near :
      (l : List Shift)
      → All IsTimed l
      → covers (shift_segments zone d l) t ≡ true
      → (d * day_length ≤ t + 50_400_000_000)
        × (t < d * day_length + day_length + day_length + 43_200_000_000)
  unfolding shift_segments covers any
  shift_segments-near [] a h = cc
  shift_segments-near (s ∷ rest) a h = elim (Bool-cases (holds t (shift_segment zone d s))) [
    | inl e ↦ shift_segment-near s a.0 e
    | inr e ↦ shift_segments-near rest a.1 (ground arith)
  ]

active_shifts-IsTimed :
    (spec : CalendarSpec) (d : ℕ) → All IsTimed spec.shifts → All IsTimed (active_shifts spec d)
active_shifts-IsTimed spec d a = elim (Bool-cases (any (◌==◌ d) spec.extra_working_days)) [
  | inl e ↦ unfold active_shifts in rw e a
  | inr e ↦ elim (Bool-cases (any (◌==◌ d) spec.holidays)) [
    | inl e' ↦ unfold active_shifts in rw (e, e') tt
    | inr e' ↦ unfold active_shifts in rw (e, e') (All-filter _ IsTimed spec.shifts a)
  ]
]

any-of_four :
    (p : ℕ → Bool) (d a b c e : ℕ) (r : Bool)
    → p d ≡ true
    → (d ≡ a) ⊎ (d ≡ b) ⊎ (d ≡ c) ⊎ (d ≡ e)
    → (any p (a ∷ b ∷ c ∷ e ∷ []) || r) ≡ true
unfolding any
any-of_four p d a b c e r h which = ground arith

-- Whichever local date a covering shift belongs to, the UTC day of the instant looks at it.
pub shift_covers-nearby :
    (zone : Zone) (spec : CalendarSpec) (t : Instant) (d n : ℕ)
    → IsZone zone
    → All IsTimed spec.shifts
    → n * day_length ≤ t
    → t < n * day_length + day_length
    → 2 ≤ n
    → shift_covers zone spec t d ≡ true
    → covers (utc_day_segments zone spec n) t ≡ true
shift_covers-nearby zone spec t d n z a h k far c =
    covers-utc_day_segments zone spec t n h k ∙ found
  where
    near :
        (d * day_length ≤ t + 50_400_000_000)
        × (t < d * day_length + day_length + day_length + 43_200_000_000)
    near =
        shift_segments-near zone z t d (active_shifts spec d) (active_shifts-IsTimed spec d a)
          (unfold local_date_segments in c)

    which : (d ≡ n - 2) ⊎ (d ≡ n - 1) ⊎ (d ≡ n) ⊎ (d ≡ n + 1)
    which = omega (arith, near)

    found : (any (shift_covers zone spec t) (nearby_dates n) || covers (overtime spec) t) ≡ true
    found = any-of_four (shift_covers zone spec t) d _ _ _ _ _ c which
