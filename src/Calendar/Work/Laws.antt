-- ===== src/Calendar/Work/Laws.antt =====
-- The promises of the calendar's queries, in terms of one another.
use athena_order_priority.Prelude.{
  ℕ, suc, ◌+◌, ◌-◌, ◌*◌, ◌≡◌, refl, ◌∙◌, ap, ◌≤◌, ◌<◌, true, inl, inr, ltb, leb, Bool-cases, arith,
  subst,
}
use athena_order_priority.Calendar.Segments.{Instant}
use athena_order_priority.Calendar.Shifts.{day_length}
use athena_order_priority.Calendar.Machine.{MachineCalendar, is_working}
use athena_order_priority.Calendar.Work.{
  Found, found, never_working, spent, add_work, next_working_time, working_between,
}
use athena_order_priority.Calendar.Work.Count.{bit, count, count-add, working_between-count}
use athena_order_priority.Calendar.Work.Add.{Ends, IsIdle, add_work-Ends}
use athena_order_priority.Calendar.Work.Next.{Starts, next_working_time-Starts}

-- No stretch of `max_search_days` days is without working time.
abbrev pub IsLively : MachineCalendar → Type 0
IsLively c = (x : Instant) → ¬ IsIdle c x (x + c.max_search_days * day_length)

module _ (c : MachineCalendar) where
  Ends-found :
      (t m : ℕ) (r : Found Instant) → IsLively c → Ends c t m r → (u : Instant) × (r ≡ found u)
  Ends-found t m (found u) lively e = (u, refl)
  Ends-found t m never_working lively e = absurd (lively e.0 e.2)
  Ends-found t m spent lively e = absurd e

  -- On a lively calendar work always ends.
  pub add_work_total : (t m : ℕ) → IsLively c → (u : Instant) × (add_work c t (suc m) ≡ found u)
  add_work_total t m lively = Ends-found t (suc m) _ lively (add_work-Ends c t m)

  pub Ends-of_found : (t m u : ℕ) → add_work c t (suc m) ≡ found u → Ends c t (suc m) (found u)
  Ends-of_found t m u e = subst (Ends c t (suc m)) e (add_work-Ends c t m)

  pub count-snoc :
      (t u : ℕ)
      → t < u
      → count (is_working c) t (u - t)
        ≡ count (is_working c) t (u - 1 - t) + bit (is_working c (u - 1))
  unfolding count
  count-snoc t u h =
      let n = u - 1 - t in
      let length : u - t ≡ suc n = omega arith in
      let last : t + n ≡ u - 1 = omega arith in rw length (rw last refl)

  pub count_mono : (t m n : ℕ) → m ≤ n → count (is_working c) t m ≤ count (is_working c) t n
  count_mono t m n h =
      let parts : n ≡ m + (n - m) = omega arith in
      rw parts (omega (arith, count-add (is_working c) t m (n - m)))

  end-not_later :
      (t m u v : ℕ)
      → t < u
      → count (is_working c) t (u - t) ≡ m
      → t < v
      → count (is_working c) t (v - t) ≡ m
      → is_working c (v - 1) ≡ true
      → v ≤ u
  end-not_later t m u v hu cu hv cv last = elim (Bool-cases (leb v u)) [
    | inl e ↦ ground arith
    | inr e ↦
        let before = count_mono t (u - t) (v - 1 - t) (ground arith) in
        let one : bit (is_working c (v - 1)) ≡ 1 = ap bit last in
        absurd (omega (arith, before, count-snoc t v hv, one))
  ]

  -- The end of work is the only instant with these three properties.
  Ends-unique : (t m u v : ℕ) → Ends c t m (found u) → Ends c t m (found v) → u ≡ v
  Ends-unique t m u v eu ev =
      let later = end-not_later t m u v eu.0 eu.1 ev.0 ev.1 ev.2 in
      let earlier = end-not_later t m v u ev.0 ev.1 eu.0 eu.1 eu.2 in omega arith

  Ends-add :
      (t a b u v : ℕ) → Ends c t a (found u) → Ends c u b (found v) → Ends c t (a + b) (found v)
  Ends-add t a b u v first second =
      let parts : v - t ≡ u - t + (v - u) = omega (arith, first.0, second.0) in
      let at : t + (u - t) ≡ u = omega (arith, first.0) in
      (
        omega (arith, first.0, second.0),
        rw parts
            (count-add (is_working c) t (u - t) (v - u) ∙ rw at (omega (arith, first.1, second.1))),
        second.2,
      )

  -- On a lively calendar working time is additive: `a` and then `b` microseconds of work end where
  -- `a + b` microseconds end.
  pub add_work-add :
      (t a b u v : ℕ)
      → IsLively c
      → add_work c t (suc a) ≡ found u
      → add_work c u (suc b) ≡ found v
      → add_work c t (suc a + suc b) ≡ found v
  add_work-add t a b u v lively first second =
      let both =
        Ends-add t (suc a) (suc b) u v (Ends-of_found t a u first) (Ends-of_found u b v second) in
      let sum : suc a + suc b ≡ suc (a + suc b) = omega arith in
      let (w, e) = add_work_total t (a + suc b) lively in
      rw sum (
        e
        ∙ ap found (
            Ends-unique t (suc (a + suc b)) w v (Ends-of_found t (a + suc b) w e) (rw sum at both)))

  -- Work that is longer ends later.
  pub add_work_mono :
      (t a b u v : ℕ)
      → add_work c t (suc a) ≡ found u
      → add_work c t (suc b) ≡ found v
      → a < b
      → u < v
  add_work_mono t a b u v first second h =
      let eu = Ends-of_found t a u first in
      let ev = Ends-of_found t b v second in
      elim (Bool-cases (ltb u v)) [
        | inl e ↦ ground arith
        | inr e ↦
            let more = count_mono t (v - t) (u - t) (ground arith) in
            absurd (omega (arith, more, eu.1, ev.1))
      ]

  -- On a lively calendar there is a next working instant.
  pub next_working_time_total :
      (t : ℕ) → IsLively c → (u : Instant) × (next_working_time c t ≡ found u)
  next_working_time_total t lively = go (next_working_time c t) (next_working_time-Starts c t)
    where
      go : (r : Found Instant) → Starts c t r → (u : Instant) × (r ≡ found u)
      go (found u) e = (u, refl)
      go never_working e = absurd (lively e.0 e.2)
      go spent e = absurd e

  -- On a lively calendar (no `max_search_days` days in a row without working time) a positive amount
  -- of work always ends, and the working time between its start and its end is that amount.
  pub working_between-add_work :
      (t m : ℕ)
      → IsLively c
      → (u : Instant) × (add_work c t (suc m) ≡ found u) × (working_between c t u ≡ suc m)
  working_between-add_work t m lively =
      let (u, e) = add_work_total t m lively in
      (u, e, working_between-count c t u ∙ (Ends-of_found t m u e).1)
