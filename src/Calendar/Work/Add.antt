-- ===== src/Calendar/Work/Add.antt =====
-- The theorems about the day walk of `add_work_minutes` (backend/app/engines/calendar/calendar.py).
use athena_order_priority.Prelude.{
  ℕ, zero, suc, ◌+◌, ◌-◌, ◌*◌, ◌≡◌, refl, sym, ◌∙◌, ◌≤◌, ◌<◌, Bool, true, false, inl, inr, ltb,
  ltb→lt, Bool-cases, if◌then◌else◌, arith,
}
use athena_order_priority.Calendar.Segments.{Instant, covers}
use athena_order_priority.Calendar.Shifts.{day_length}
use athena_order_priority.Calendar.Machine.{MachineCalendar, day, ordinal, is_working}
use athena_order_priority.Calendar.Machine.Laws.{day-Fits}
use athena_order_priority.Calendar.Work.{
  Found, found, never_working, spent, Progress, done, left, after_day, add_loop, add_work,
}
use athena_order_priority.Calendar.Work.Count.{
  bit, count, count-add, count-cong, covers-outside, covers-inside,
}
use athena_order_priority.Calendar.Work.Consume.{
  Consumed, consume-Consumed, Bounded, consume-Bounded,
}

-- No working instant in `[a, b)`.
abbrev pub IsIdle : MachineCalendar → Instant → Instant → Type 0
IsIdle c a b = (t : Instant) → a ≤ t → t < b → is_working c t ≡ false

-- Where `m` working microseconds from `start` on end.
abbrev pub Ends : MachineCalendar → Instant → ℕ → Found Instant → Type 0
Ends c start m (found u) =
    (start < u) × (count (is_working c) start (u - start) ≡ m) × (is_working c (u - 1) ≡ true)
Ends c start m never_working =
    (x : Instant) × (start ≤ x) × IsIdle c x (x + c.max_search_days * day_length)
Ends c start m spent = ⊥

mul_mono : (a b k : ℕ) → a ≤ b → a * k ≤ b * k
mul_mono a b k h = grind arith

-- The fuel falls with the work left, or with the empty days that may still come.
fuel_step :
    (r r' days fuel empty : ℕ) (consumed : Bool)
    → r' + bit consumed ≤ r + bit false
    → empty ≤ days
    → r * (days + 2) + days + 1 ≤ suc fuel + empty
    → r' * (days + 2) + days + 1 ≤ fuel + (if consumed then 0 else empty + 1)
fuel_step r r' days fuel empty true h e f =
    let less = mul_mono (r' + 1) r (days + 2) (omega arith) in omega (arith, less)
fuel_step r r' days fuel empty false h e f =
    let less = mul_mono r' r (days + 2) (omega arith) in omega (arith, less)

module _ (c : MachineCalendar) where
  -- From the cursor to the end of its day, the working instants are those that the day covers.
  pub day-is_working :
      (cursor n t : ℕ)
      → IsIdle c cursor (n * day_length)
      → cursor ≤ t
      → t < n * day_length + day_length
      → is_working c t ≡ covers (day c n) t
  day-is_working cursor n t idle h k = elim (Bool-cases (ltb t (n * day_length))) [
    | inl e ↦
        idle t h (ground arith)
        ∙ sym (covers-outside t _ _ (day c n) (day-Fits c n).1 (inl (ground arith)))
    | inr e ↦ let same : ordinal t ≡ n = ground arith in unfold is_working in rw same refl
  ]

  count-day :
      (cursor n u : ℕ)
      → IsIdle c cursor (n * day_length)
      → cursor ≤ u
      → u ≤ n * day_length + day_length
      → count (is_working c) cursor (u - cursor) ≡ count (covers (day c n)) cursor (u - cursor)
  count-day cursor n u idle h k =
      count-cong (is_working c) (covers (day c n)) cursor (u - cursor)
        (λ t x y. day-is_working cursor n t idle x (omega arith))

module _ (c : MachineCalendar) (start m : ℕ) where
  abbrev max_days : ℕ
  max_days = c.max_search_days

  record Walk (remaining cursor n empty : ℕ) : Type 0 where
    ahead : start ≤ cursor
    worked : count (is_working c) start (cursor - start) + remaining ≡ m
    some_left : 0 < remaining
    idle : IsIdle c cursor (n * day_length)
    recent : cursor + empty * day_length ≤ n * day_length + day_length

  count-split :
      (cursor u : ℕ)
      → start ≤ cursor
      → cursor ≤ u
      → count (is_working c) start (u - start)
        ≡ count (is_working c) start (cursor - start) + count (is_working c) cursor (u - cursor)
  count-split cursor u h k =
      let parts : u - start ≡ cursor - start + (u - cursor) = omega arith in
      let at : start + (cursor - start) ≡ cursor = omega arith in
      rw parts (count-add (is_working c) start (cursor - start) (u - cursor) ∙ rw at refl)

  Walk-done :
      (remaining cursor n empty u : ℕ)
      → Walk remaining cursor n empty
      → Consumed (day c n) cursor remaining false (done u)
      → Ends c start m (found u)
  Walk-done remaining cursor n empty u w k =
      let within = covers-inside (u - 1) _ _ (day c n) (day-Fits c n).1 k.2 in
      (
        omega (arith, w.ahead, k.0),
        omega (
          arith,
          count-split cursor u w.ahead (omega (arith, k.0)),
          w.worked,
          k.1,
          count-day c cursor n u w.idle (omega (arith, k.0)) (omega (arith, within)),
        ),
        day-is_working c cursor n (u - 1) w.idle (omega (arith, k.0)) within.1 ∙ k.2,
      )

  Walk-left :
      (remaining cursor n empty remaining' cursor' : ℕ) (consumed : Bool)
      → Walk remaining cursor n empty
      → Consumed (day c n) cursor remaining false (left remaining' cursor' consumed)
      → Bounded (n * day_length + day_length) cursor false (left remaining' cursor' consumed)
      → Walk remaining' cursor' (n + 1) (if consumed then 0 else empty + 1)
  Walk-left remaining cursor n empty remaining' cursor' consumed w k b = record {
    ahead = omega (arith, w.ahead, k.0);
    worked =
        let same : count (is_working c) cursor (cursor' - cursor)
            ≡ count (covers (day c n)) cursor (cursor' - cursor) =
          count-day c cursor n cursor' w.idle k.0 (omega (arith, b.0, w.recent)) in
        omega (arith, count-split cursor cursor' w.ahead k.0, w.worked, k.1, same);
    some_left = k.2;
    idle = λ t x y. day-is_working c cursor n t w.idle (omega (arith, k.0)) (omega arith) ∙ k.4 t x;
    recent = elim b.1 [
      | inl e ↦ rw e (omega (arith, b.0, w.recent))
      | inr e ↦ rw (e.0, e.1) (omega (arith, w.recent))
    ];
  }

  loop-step :
      (fuel remaining cursor n empty : ℕ) (again : ℕ → Instant → ℕ → Found Instant) (p : Progress)
      → Walk remaining cursor n empty
      → empty ≤ max_days
      → remaining * (max_days + 2) + max_days + 1 ≤ suc fuel + empty
      → Consumed (day c n) cursor remaining false p
      → Bounded (n * day_length + day_length) cursor false p
      → ((remaining' cursor' empty' : ℕ)
          → Walk remaining' cursor' (n + 1) empty'
          → empty' ≤ max_days
          → remaining' * (max_days + 2) + max_days + 1 ≤ fuel + empty'
          → Ends c start m (again remaining' cursor' empty'))
      → Ends c start m (after_day max_days empty again p)
  unfolding after_day
  loop-step fuel remaining cursor n empty again (done u) w e f k b ih =
      Walk-done remaining cursor n empty u w k
  loop-step fuel remaining cursor n empty again (left remaining' cursor' consumed) w e f k b ih =
      let empty' : ℕ = if consumed then 0 else empty + 1 in
      let next = Walk-left remaining cursor n empty remaining' cursor' consumed w k b in
      elim (Bool-cases (ltb max_days empty')) [
        | inl over ↦ rw over (
          cursor',
          next.ahead,
          λ t x y. next.idle t x (omega (arith, next.recent, ltb→lt _ _ over, y)),
        )
        | inr more ↦ rw more (
            ih remaining' cursor' empty' next (ground arith)
              (fuel_step remaining remaining' max_days fuel empty consumed k.3 e f))
      ]

  add_loop-Ends :
      (fuel remaining cursor n empty : ℕ)
      → Walk remaining cursor n empty
      → empty ≤ max_days
      → remaining * (max_days + 2) + max_days + 1 ≤ fuel + empty
      → Ends c start m (add_loop (day c) max_days fuel remaining cursor n empty)
  unfolding add_loop
  add_loop-Ends zero remaining cursor n empty w e f = absurd (omega arith)
  add_loop-Ends (suc fuel) remaining cursor n empty w e f =
      loop-step fuel remaining cursor n empty _ _ w e f
        (consume-Consumed remaining cursor false (day c n) (day-Fits c n).0 w.some_left)
        (consume-Bounded _ _ remaining cursor false (day c n) (day-Fits c n).1)
        (λ remaining' cursor' empty' w' e' f'.
          add_loop-Ends fuel remaining' cursor' (n + 1) empty' w' e' f')

module _ (c : MachineCalendar) (start m : ℕ) where
  -- The walk never runs out of fuel. It ends at the instant by which `m` working microseconds have
  -- passed, the last of them just before; or it gives up, and then `max_search_days` days without
  -- working time lie ahead.
  pub add_work-Ends : Ends c start (suc m) (add_work c start (suc m))
  unfolding add_work
  add_work-Ends =
      add_loop-Ends c start (suc m) _ (suc m) start (ordinal start) 0 begin (omega arith)
        (omega arith)
    where
      begin : Walk c start (suc m) (suc m) start (ordinal start) 0
      begin = record {
        ahead = omega arith;
        worked =
            let none : start - start ≡ 0 = omega arith in rw none (unfold count in omega arith);
        some_left = omega arith;
        idle = λ t x y. absurd (omega arith);
        recent = omega arith;
      }
