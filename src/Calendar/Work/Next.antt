-- ===== src/Calendar/Work/Next.antt =====
-- The theorems about the day walk of `next_working_time` (backend/app/engines/calendar/calendar.py).
use athena_order_priority.Prelude.{
  ℕ, zero, suc, ◌+◌, ◌*◌, ◌≡◌, refl, ◌∙◌, ◌≤◌, ◌<◌, true, false, List, [], ◌∷◌, Option, none, some,
  inl, inr, max, ltb, ltb→lt, any, is_nil, Bool-cases, arith,
}
use athena_order_priority.Calendar.Segments.{Instant, Segment, covers, holds, IsDisjoint, IsWithin}
use athena_order_priority.Calendar.Shifts.{day_length}
use athena_order_priority.Calendar.Machine.{MachineCalendar, day, ordinal, is_working}
use athena_order_priority.Calendar.Machine.Laws.{day-Fits}
use athena_order_priority.Calendar.Work.{
  Found, found, never_working, spent, first_after, next_day, next_loop, next_working_time,
}
use athena_order_priority.Calendar.Work.Count.{covers-cons, covers-none_behind, covers-inside}
use athena_order_priority.Calendar.Work.Add.{IsIdle, day-is_working}

-- Where the first working instant from `t` on is.
abbrev pub Starts : MachineCalendar → Instant → Found Instant → Type 0
Starts c t (found u) = (t ≤ u) × (is_working c u ≡ true) × IsIdle c t u
Starts c t never_working = (x : Instant) × (t ≤ x) × IsIdle c x (x + c.max_search_days * day_length)
Starts c t spent = ⊥

abbrev Hit : List Segment → Instant → Option Instant → Type 0
Hit l t (some u) =
    (t ≤ u) × (covers l u ≡ true) × ((x : Instant) → t ≤ x → x < u → covers l x ≡ false)
Hit l t none = (x : Instant) → t ≤ x → covers l x ≡ false

Hit-passed :
    (s : Segment) (rest : List Segment) (t : Instant) (o : Option Instant)
    → s.end ≤ t
    → Hit rest t o
    → Hit (s ∷ rest) t o
Hit-passed s rest t (some u) h k = (
  k.0,
  rw (covers-cons u s rest, k.1) (ground arith),
  λ x p q. rw (covers-cons x s rest, k.2 x p q) (ground arith),
)
Hit-passed s rest t none h k = λ x p. rw (covers-cons x s rest, k x p) (ground arith)

first_after-Hit : (t : Instant) (l : List Segment) → IsDisjoint l → Hit l t (first_after t l)
unfolding first_after
first_after-Hit t [] d = λ x p. unfold covers any in refl
first_after-Hit t (s ∷ rest) d = elim (Bool-cases (ltb t s.end)) [
  | inl e ↦
      let here : holds (max s.start t) s ≡ true = ground (arith, d.0) in
      rw e (
        omega arith,
        rw (covers-cons (max s.start t) s rest, here) refl,
        λ x p q.
            let none = covers-none_behind x s.end rest d.1 (ground (arith, d.0)) in
            rw (covers-cons x s rest, none) (ground arith),
      )
  | inr e ↦ rw e (Hit-passed s rest t _ (ground arith) (first_after-Hit t rest d.2))
]

-- A day that starts after `t` and has no segment to go to has none at all.
first_after-none :
    (t lo hi : Instant) (l : List Segment)
    → IsDisjoint l
    → IsWithin lo hi l
    → t ≤ lo
    → first_after t l ≡ none
    → is_nil l ≡ true
unfolding first_after
first_after-none t lo hi [] d w h e = refl
first_after-none t lo hi (s ∷ rest) d w h e =
    let later : ltb t s.end ≡ true = ground (arith, d.0, w.0) in absurd (ground (arith, later))

module _ (c : MachineCalendar) (t : Instant) where
  step-Starts :
      (n empty : ℕ) (again : ℕ → Found Instant) (o : Option Instant)
      → IsIdle c t (n * day_length)
      → t ≤ n * day_length + day_length
      → t + empty * day_length ≤ (n + 1) * day_length + day_length
      → Hit (day c n) t o
      → (o ≡ none
          → IsIdle c t ((n + 1) * day_length)
          → empty ≤ c.max_search_days
          → Starts c t (again empty))
      → Starts c t (next_day c.max_search_days empty again o)
  unfolding next_day
  step-Starts n empty again (some u) idle near recent hit ih =
      let inside = covers-inside u _ _ (day c n) (day-Fits c n).1 hit.1 in
      (
        hit.0,
        day-is_working c t n u idle hit.0 inside.1 ∙ hit.1,
        λ x p q. day-is_working c t n x idle p (omega (arith, inside)) ∙ hit.2 x p q,
      )
  step-Starts n empty again none idle near recent hit ih =
      let idle' : IsIdle c t ((n + 1) * day_length) =
        λ x p q. day-is_working c t n x idle p (omega arith) ∙ hit x p in
      elim (Bool-cases (ltb c.max_search_days empty)) [
        | inl over ↦ rw over (t, omega arith, λ x p q. idle' x p (omega (arith, ltb→lt _ _ over)))
        | inr more ↦ rw more (ih refl idle' (ground arith))
      ]

  abbrev later : ℕ → ℕ → ℕ → Found Instant
  later fuel n empty = next_loop (day c) c.max_search_days fuel t (n + 1) empty

  next_loop-Starts :
      (fuel n empty : ℕ)
      → IsIdle c t (n * day_length)
      → t ≤ n * day_length
      → t + empty * day_length ≤ n * day_length + day_length
      → empty ≤ c.max_search_days
      → c.max_search_days + 1 ≤ fuel + empty
      → Starts c t (next_loop (day c) c.max_search_days fuel t n empty)
  unfolding next_loop
  next_loop-Starts zero n empty idle h recent e f = absurd (omega arith)
  next_loop-Starts (suc fuel) n empty idle h recent e f =
      let hit = first_after-Hit t (day c n) (day-Fits c n).0 in
      elim (Bool-cases (is_nil (day c n))) [
        | inl no_work ↦ rw no_work (
            step-Starts n (empty + 1) (later fuel n) _ idle (omega arith) (omega arith) hit
              (λ o idle' more.
                next_loop-Starts fuel (n + 1) (empty + 1) idle' (omega arith) (omega arith) more
                  (omega arith)))
        | inr work ↦ rw work (
            step-Starts n 0 (later fuel n) _ idle (omega arith) (omega arith) hit (λ o idle' more.
              let none_left =
                first_after-none t _ _ (day c n) (day-Fits c n).0 (day-Fits c n).1 h o in
              absurd (ground (arith, none_left, work))))
      ]

  -- The first day, which may have segments behind `t` only.
  first_day-Starts :
      (fuel : ℕ)
      → c.max_search_days + 2 ≤ fuel
      → Starts c t (next_loop (day c) c.max_search_days (suc fuel) t (ordinal t) 0)
  unfolding next_loop
  first_day-Starts fuel f =
      step-Starts (ordinal t) _ (later fuel (ordinal t)) _ (λ x p q. absurd (omega arith))
        (omega arith) (ground arith)
        (first_after-Hit t (day c (ordinal t)) (day-Fits c (ordinal t)).0)
        (λ o idle more.
          next_loop-Starts fuel (ordinal t + 1) _ idle (omega arith) (ground arith) more
            (ground arith))

  -- `next_working_time` never runs out of fuel. It returns the first working instant from `t` on, or
  -- gives up, and then `max_search_days` days without working time lie ahead.
  pub next_working_time-Starts : Starts c t (next_working_time c t)
  unfolding next_working_time
  next_working_time-Starts =
      let fuel : c.max_search_days + 3 ≡ suc (c.max_search_days + 2) = omega arith in
      rw fuel (first_day-Starts (c.max_search_days + 2) (omega arith))
