-- ===== src/Calendar/Work/Count.antt =====
-- The reference for working time, the number of working microseconds in a range, and
-- `working_minutes_between` (backend/app/engines/calendar/calendar.py).
use athena_order_priority.Prelude.{
  ℕ, zero, suc, ◌+◌, ◌-◌, ◌*◌, ◌≡◌, refl, sym, ◌∙◌, ap, ap₂, subst, ◌≤◌, ◌<◌, Bool, true, false,
  ◌&&◌, ◌||◌, List, [], ◌∷◌, inl, inr, min, max, ltb, leb, ◌==◌, ==_iff, ◌⊎◌, All, any, Bool-cases,
  if◌then◌else◌, arith,
}
use athena_order_priority.Calendar.Segments.{Instant, Segment, covers, holds, IsDisjoint, IsWithin}
use athena_order_priority.Calendar.Shifts.{day_length}
use athena_order_priority.Calendar.Machine.{MachineCalendar, day, ordinal, is_working}
use athena_order_priority.Calendar.Machine.Laws.{day-Fits}
use athena_order_priority.Calendar.Work.{worked, worked_days, working_between}

abbrev pub bit : Bool → ℕ
bit true = 1
bit false = 0

-- How many of the `n` instants from `a` on pass the test.
unfoldable pub count : (Instant → Bool) → Instant → ℕ → ℕ
count p a zero = 0
count p a (suc n) = count p a n + bit (p (a + n))

pub count-add :
    (p : Instant → Bool) (a m n : ℕ) → count p a (m + n) ≡ count p a m + count p (a + m) n
unfolding count
count-add p a m zero = let e : m + 0 ≡ m = omega arith in rw e (omega arith)
count-add p a m (suc n) =
    let e : m + suc n ≡ suc (m + n) = omega arith in
    let f : a + (m + n) ≡ a + m + n = omega arith in
    rw (e, count) (rw f (omega (arith, count-add p a m n)))

pub count-cong :
    (p q : Instant → Bool) (a n : ℕ)
    → ((t : Instant) → a ≤ t → t < a + n → p t ≡ q t)
    → count p a n ≡ count q a n
unfolding count
count-cong p q a zero h = refl
count-cong p q a (suc n) h =
    ap₂ ◌+◌ (count-cong p q a n (λ t x y. h t x (omega arith)))
      (ap bit (h (a + n) (omega arith) (omega arith)))

pub count_or :
    (p q r : Instant → Bool) (a n : ℕ)
    → ((t : Instant) → bit (r t) ≡ bit (p t) + bit (q t))
    → count r a n ≡ count p a n + count q a n
unfolding count
count_or p q r a zero h = refl
count_or p q r a (suc n) h = omega (arith, count_or p q r a n h, h (a + n))

pub count_none : (a n : ℕ) → count (λ t. false) a n ≡ 0
unfolding count
count_none a zero = refl
count_none a (suc n) = omega (arith, count_none a n)

pub covers-cons :
    (t : Instant) (s : Segment) (l : List Segment) → covers (s ∷ l) t ≡ (holds t s || covers l t)
unfolding covers any
covers-cons t s l = refl

-- Disjoint segments count an instant at most once.
pub covers-none_behind :
    (t m : Instant) (l : List Segment)
    → All (λ (s : Segment). m ≤ s.start) l
    → t < m
    → covers l t ≡ false
unfolding covers any
covers-none_behind t m [] a h = refl
covers-none_behind t m (s ∷ rest) a h = ground (arith, covers-none_behind t m rest a.1 h)

pub bits :
    (s : Segment) (rest : List Segment)
    → IsDisjoint (s ∷ rest)
    → (t : Instant) → bit (covers (s ∷ rest) t) ≡ bit (holds t s) + bit (covers rest t)
bits s rest d t = elim (Bool-cases (holds t s)) [
  | inl e ↦
      let none = covers-none_behind t s.end rest d.1 (ground arith) in
      rw (covers-cons t s rest, e, none) (omega arith)
  | inr e ↦ rw (covers-cons t s rest, e) (omega arith)
]

clipped : (lo hi : ℕ) → (if ltb lo hi then hi - lo else 0) ≡ hi - lo
clipped lo hi = ground arith

-- The instants of one segment in the range.
pub count-holds :
    (s : Segment) (a n : ℕ) → count (λ t. holds t s) a n ≡ min s.end (a + n) - max s.start a
unfolding count
count-holds s a zero = omega arith
count-holds s a (suc n) = ground (arith, count-holds s a n)

-- `worked` is what the overlaps of the segments with the range add up to.
worked-count :
    (a n : ℕ) (l : List Segment) → IsDisjoint l → worked a (a + n) l ≡ count (covers l) a n
unfolding worked
worked-count a n [] d = unfold covers any in sym (count_none a n)
worked-count a n (s ∷ rest) d =
    let split = count_or (λ t. holds t s) (covers rest) (covers (s ∷ rest)) a n (bits s rest d) in
    omega (
      arith,
      split,
      count-holds s a n,
      worked-count a n rest d.2,
      clipped (max s.start a) (min s.end (a + n)),
    )

pub covers-outside :
    (t lo hi : Instant) (l : List Segment)
    → IsWithin lo hi l
    → (t < lo) ⊎ (hi ≤ t)
    → covers l t ≡ false
unfolding covers any
covers-outside t lo hi [] w h = refl
covers-outside t lo hi (s ∷ rest) w h = ground (arith, covers-outside t lo hi rest w.1 h)

pub covers-inside :
    (t lo hi : Instant) (l : List Segment)
    → IsWithin lo hi l
    → covers l t ≡ true
    → (lo ≤ t) × (t < hi)
unfolding covers any
covers-inside t lo hi [] w h = cc
covers-inside t lo hi (s ∷ rest) w h = elim (Bool-cases (holds t s)) [
  | inl e ↦ ground arith
  | inr e ↦ covers-inside t lo hi rest w.1 (ground arith)
]

module _ (c : MachineCalendar) where
  -- The working instants of `k` days from the ordinal `d` on.
  in_days : ℕ → ℕ → Instant → Bool
  in_days d k t = leb d (ordinal t) && ltb (ordinal t) (d + k) && is_working c t

  in_days-suc :
      (d k : ℕ) (t : Instant)
      → bit (in_days d (suc k) t) ≡ bit (covers (day c d) t) + bit (in_days (d + 1) k t)
  unfolding in_days is_working
  in_days-suc d k t = elim (Bool-cases (d == ordinal t)) [
    | inl e ↦ let same : d ≡ ordinal t = (==_iff _ _).0 e in rw same (ground arith)
    | inr e ↦
        let other : (t < d * day_length) ⊎ (d * day_length + day_length ≤ t) = ground arith in
        let none : covers (day c d) t ≡ false =
          covers-outside t (d * day_length) (d * day_length + day_length) (day c d) (day-Fits c d).1
            other in
        rw none (ground arith)
  ]

  worked_days-count : (a n d k : ℕ) → worked_days (day c) a (a + n) d k ≡ count (in_days d k) a n
  unfolding worked_days
  worked_days-count a n d zero = sym (
      count-cong (in_days d 0) (λ t. false) a n (λ t h k. unfold in_days in ground arith)
      ∙ count_none a n)
  worked_days-count a n d (suc k) =
      let split =
        count_or (covers (day c d)) (in_days (d + 1) k) (in_days d (suc k)) a n (in_days-suc d k) in
      omega
        (arith, split, worked-count a n (day c d) (day-Fits c d).0, worked_days-count a n (d + 1) k)

  range-count :
      (a n : ℕ)
      → worked_days (day c) a (a + n) (ordinal a) (ordinal (a + n) + 1 - ordinal a)
        ≡ count (is_working c) a n
  range-count a n =
      worked_days-count a n (ordinal a) (ordinal (a + n) + 1 - ordinal a)
      ∙ count-cong (in_days (ordinal a) (ordinal (a + n) + 1 - ordinal a)) (is_working c) a n
          (λ t h k. unfold in_days in ground arith)

  -- `working_minutes_between` counts the working instants of the range.
  pub working_between-count :
      (a b : Instant) → working_between c a b ≡ count (is_working c) a (b - a)
  working_between-count a b = elim (Bool-cases (leb b a)) [
    | inl e ↦
        let none : b - a ≡ 0 = ground arith in
        unfold working_between in rw (e, none) (unfold count in refl)
    | inr e ↦
        let whole : b ≡ a + (b - a) = ground arith in
        unfold working_between in
        rw e (
          subst
            (λ x.
              worked_days (day c) a x (ordinal a) (ordinal x + 1 - ordinal a)
              ≡ count (is_working c) a (b - a))
            (sym whole) (range-count a (b - a)))
  ]
