-- ===== src/Calendar/Work.antt =====
-- `next_working_time`, `add_work_minutes` and `working_minutes_between` of `MachineCalendar`
-- (backend/app/engines/calendar/calendar.py). A duration is its count of microseconds, so the float
-- tolerance of `add_work_minutes` (a billionth of a minute, less than a microsecond) makes no
-- difference. The walk over the days is on fuel: `spent` marks a walk that ran out of it.
pub mod Count
pub mod Consume
pub mod Add
pub mod Next
pub mod Laws
pub mod Within
use athena_order_priority.Prelude.{
  ℕ, zero, suc, ◌+◌, ◌-◌, ◌*◌, ◌≤◌, ◌<◌, Bool, true, false, ◌&&◌, ◌||◌, List, [], ◌∷◌, ◌++◌, min,
  max, ltb, leb, ◌==◌, if◌then◌else◌, Option, none, some, is_nil,
}
use athena_order_priority.Domain.Window.{Instant, Text, TimeWindow}
use athena_order_priority.Calendar.Segments.{Segment, text_eq}
use athena_order_priority.Calendar.Windows.{windows_in}
use athena_order_priority.Calendar.Machine.{MachineCalendar, day, ordinal, not_yet, downtime}

-- `never_working` is the ConfigurationError of a calendar without working time.
pub data Found {ℓ} (A : Type ℓ) : Type ℓ where
  found : A → Found A
  never_working : Found A
  spent : Found A

infixl 5 ◌>>=◌
abbrev pub ◌>>=◌ {ℓ κ} : {A : Type ℓ} {B : Type κ} → Found A → (A → Found B) → Found B
found a >>= f = f a
never_working >>= f = never_working
spent >>= f = spent

-- The inner loop of `next_working_time`: the first segment that ends after `t`.
unfoldable pub first_after : Instant → List Segment → Option Instant
first_after t [] = none
first_after t (s ∷ rest) =
    let more = first_after t rest in if ltb t s.end then some (max s.start t) else more

-- What the inner loop of `add_work_minutes` leaves: the end of the work, or the work left and the
-- cursor behind the day.
pub data Progress : Type 0 where
  done : Instant → Progress
  left : (remaining : ℕ) (cursor : Instant) (consumed : Bool) → Progress

unfoldable pub consume : ℕ → Instant → Bool → List Segment → Progress
consume remaining cursor consumed [] = left remaining cursor consumed
consume remaining cursor consumed (s ∷ rest) =
    let passed = consume remaining cursor consumed rest in
    let start = max s.start cursor in
    let available = s.end - start in
    let more = consume (remaining - available) s.end true rest in
    if leb s.end cursor
    then passed
    else if leb remaining available
    then done (start + remaining)
    else more

-- The sum of `hi - lo` over the segments of one day, clipped to `[a, b)`.
unfoldable pub worked : Instant → Instant → List Segment → ℕ
worked a b [] = 0
worked a b (s ∷ rest) =
    let lo = max s.start a in
    let hi = min s.end b in (if ltb lo hi then hi - lo else 0) + worked a b rest

-- The end of a round of `next_working_time`: `again` is the next round.
unfoldable pub next_day : ℕ → ℕ → (ℕ → Found Instant) → Option Instant → Found Instant
next_day max_search empty again (some u) = found u
next_day max_search empty again none =
    let rest = again empty in if ltb max_search empty then never_working else rest

-- The walks read the calendar only through its days.
unfoldable pub next_loop : (ℕ → List Segment) → ℕ → ℕ → Instant → ℕ → ℕ → Found Instant
unfolding first_after next_day
next_loop days max_search zero t n empty = spent
next_loop days max_search (suc fuel) t n empty =
    next_day max_search (if is_nil (days n) then empty + 1 else 0)
      (λ empty'. next_loop days max_search fuel t (n + 1) empty') (first_after t (days n))

-- The end of a round of `add_work_minutes`: `again` is the next round.
unfoldable pub after_day : ℕ → ℕ → (ℕ → Instant → ℕ → Found Instant) → Progress → Found Instant
after_day max_search empty again (done u) = found u
after_day max_search empty again (left remaining cursor consumed) =
    let empty' : ℕ = if consumed then 0 else empty + 1 in
    let rest = again remaining cursor empty' in
    if ltb max_search empty' then never_working else rest

unfoldable pub add_loop : (ℕ → List Segment) → ℕ → ℕ → ℕ → Instant → ℕ → ℕ → Found Instant
unfolding consume after_day
add_loop days max_search zero remaining cursor n empty = spent
add_loop days max_search (suc fuel) remaining cursor n empty =
    after_day max_search empty
      (λ remaining' cursor' empty'. add_loop days max_search fuel remaining' cursor' (n + 1) empty')
      (consume remaining cursor false (days n))

-- The clipped segments of `count` days from the ordinal on.
unfoldable pub worked_days : (ℕ → List Segment) → Instant → Instant → ℕ → ℕ → ℕ
unfolding worked
worked_days days a b n zero = 0
worked_days days a b n (suc count) = worked a b (days n) + worked_days days a b (n + 1) count

unfoldable pub next_working_time : MachineCalendar → Instant → Found Instant
unfolding next_loop
next_working_time c t = next_loop (day c) c.max_search_days (c.max_search_days + 3) t (ordinal t) 0

-- Durations are not negative here; a negative one is a ValidationError in the code.
unfoldable pub add_work : MachineCalendar → Instant → ℕ → Found Instant
unfolding add_loop next_working_time
add_work c start zero = next_working_time c start
add_work c start (suc m) =
    add_loop (day c) c.max_search_days (suc m * (c.max_search_days + 2) + c.max_search_days + 2)
      (suc m) start (ordinal start) 0

unfoldable pub working_between : MachineCalendar → Instant → Instant → ℕ
unfolding worked_days
working_between c a b =
    if leb b a then 0 else worked_days (day c) a b (ordinal a) (ordinal b + 1 - ordinal a)
