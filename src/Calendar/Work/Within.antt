-- ===== src/Calendar/Work/Within.antt =====
-- Work that a stretch of time has room for ends within it (backend/app/engines/calendar/calendar.py).
use athena_order_priority.Prelude.{
  ℕ, ◌+◌, ◌-◌, ◌≡◌, ◌∙◌, sym, ap, ◌≤◌, ◌<◌, false, inl, inr, ltb, leb, Bool-cases, arith,
}
use athena_order_priority.Calendar.Machine.{MachineCalendar, is_working}
use athena_order_priority.Calendar.Work.{found, working_between}
use athena_order_priority.Calendar.Work.Count.{
  count, count-add, count-cong, count_none, working_between-count,
}
use athena_order_priority.Calendar.Work.Add.{Ends, IsIdle}
use athena_order_priority.Calendar.Work.Next.{Starts}

module _ (c : MachineCalendar) where
  count-IsIdle : (t n : ℕ) → IsIdle c t (t + n) → count (is_working c) t n ≡ 0
  count-IsIdle t n idle =
      count-cong (is_working c) (λ x. false) t n (λ x a b. idle x a b) ∙ count_none t n

  -- Work that starts at the next working instant ends where it ends from before.
  Ends-before : (t s m u : ℕ) → Starts c t (found s) → Ends c s m (found u) → Ends c t m (found u)
  Ends-before t s m u starts ends =
      let parts : u - t ≡ s - t + (u - s) = omega (arith, starts.0, ends.0) in
      let at : t + (s - t) ≡ s = omega (arith, starts.0) in
      let idle : count (is_working c) t (s - t) ≡ 0 =
        count-IsIdle t (s - t) (λ x a b. starts.2 x a (rw at at b)) in
      (
        omega (arith, starts.0, ends.0),
        rw parts (count-add (is_working c) t (s - t) (u - s) ∙ rw at (omega (arith, idle, ends.1))),
        ends.2,
      )

  -- A working instant comes before the end of a stretch with working time.
  pub Starts-within : (t s e : ℕ) → Starts c t (found s) → 0 < working_between c t e → s < e
  Starts-within t s e starts room = elim (Bool-cases (ltb s e)) [
    | inl h ↦ ground arith
    | inr h ↦
        let none_yet : count (is_working c) t (e - t) ≡ 0 =
          count-IsIdle t (e - t) (λ x a b. starts.2 x a (ground (arith, a, b, starts.0))) in
        absurd (omega (arith, room, working_between-count c t e, none_yet))
  ]

  -- What the work has beyond the stretch is what the stretch has too little of.
  work-beyond :
      (t s m u e : ℕ)
      → Starts c t (found s)
      → Ends c s m (found u)
      → t ≤ e
      → e ≤ u
      → working_between c t e + working_between c e u ≡ m
  work-beyond t s m u e starts ends le ge =
      let parts : u - t ≡ e - t + (u - e) = omega (arith, le, ge) in
      let at : t + (e - t) ≡ e = omega (arith, le) in
      let all : count (is_working c) t (e - t + (u - e)) ≡ m =
        rw parts at (Ends-before t s m u starts ends).1 in
      let two : count (is_working c) t (e - t) + count (is_working c) e (u - e) ≡ m =
        rw at at (sym (count-add (is_working c) t (e - t) (u - e)) ∙ all) in
      omega (arith, two, working_between-count c t e, working_between-count c e u)

  -- The working time between an instant and an earlier one is none.
  pub none-back : (e u : ℕ) → u ≤ e → working_between c e u ≡ 0
  unfolding count
  none-back e u h =
      let back : u - e ≡ 0 = omega (arith, h) in
      working_between-count c e u ∙ ap (count (is_working c) e) back

  -- Work that a stretch has room for, but for `k`, has at most `k` after its end.
  pub work-over :
      (t s m u e k : ℕ)
      → Starts c t (found s)
      → Ends c s m (found u)
      → m ≤ working_between c t e + k
      → 0 < working_between c t e
      → working_between c e u ≤ k
  work-over t s m u e k starts ends room some_room = elim (Bool-cases (leb u e)) [
    | inl h ↦ omega (arith, none-back e u (ground (arith, h)))
    | inr h ↦
        let before : t ≤ e = ground (arith, Starts-within t s e starts some_room, starts.0) in
        omega (arith, room, work-beyond t s m u e starts ends before (ground (arith, h)))
  ]
