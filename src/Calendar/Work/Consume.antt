-- ===== src/Calendar/Work/Consume.antt =====
-- The theorems about one day of `add_work_minutes` (backend/app/engines/calendar/calendar.py).
use athena_order_priority.Prelude.{
  ℕ, ◌+◌, ◌-◌, ◌≡◌, refl, ◌∙◌, ◌≤◌, ◌<◌, Bool, true, false, List, [], ◌∷◌, inl, inr, min, max, leb,
  leb→le, ◌⊎◌, any, Bool-cases, arith,
}
use athena_order_priority.Calendar.Segments.{Instant, Segment, covers, holds, IsDisjoint, IsWithin}
use athena_order_priority.Calendar.Work.{Progress, done, left, consume}
use athena_order_priority.Calendar.Work.Count.{
  bit, count, count-add, count_or, count-holds, count-cong, count_none, bits, covers-cons,
  covers-none_behind,
}

-- From `cursor`, with `remaining` to do: the work ends at `u`, or the day ends first.
abbrev pub Consumed : List Segment → Instant → ℕ → Bool → Progress → Type 0
Consumed l cursor remaining flag (done u) =
    (cursor < u) × (count (covers l) cursor (u - cursor) ≡ remaining) × (covers l (u - 1) ≡ true)
Consumed l cursor remaining flag (left remaining' cursor' consumed) =
    (cursor ≤ cursor')
    × (count (covers l) cursor (cursor' - cursor) + remaining' ≡ remaining)
    × (0 < remaining')
    × (remaining' + bit consumed ≤ remaining + bit flag)
    × ((t : Instant) → cursor' ≤ t → covers l t ≡ false)

module _ (s : Segment) (rest : List Segment) (d : IsDisjoint (s ∷ rest)) where
  count-head :
      (cursor n : ℕ)
      → count (covers (s ∷ rest)) cursor n
        ≡ min s.end (cursor + n) - max s.start cursor + count (covers rest) cursor n
  count-head cursor n = omega (
    arith,
    count_or (λ t. holds t s) (covers rest) (covers (s ∷ rest)) cursor n (bits s rest d),
    count-holds s cursor n,
  )

  -- No later segment starts before this one ends.
  count-gap : (cursor n : ℕ) → cursor + n ≤ s.end → count (covers rest) cursor n ≡ 0
  count-gap cursor n h =
      count-cong (covers rest) (λ t. false) cursor n
        (λ t x y. covers-none_behind t s.end rest d.1 (omega arith))
      ∙ count_none cursor n

  count-tail :
      (cursor u : ℕ)
      → cursor ≤ s.end
      → s.end ≤ u
      → count (covers rest) cursor (u - cursor) ≡ count (covers rest) s.end (u - s.end)
  count-tail cursor u h k =
      let parts : u - cursor ≡ s.end - cursor + (u - s.end) = omega arith in
      let at : cursor + (s.end - cursor) ≡ s.end = omega arith in
      rw parts (
        count-add (covers rest) cursor (s.end - cursor) (u - s.end)
        ∙ rw at (omega (arith, count-gap cursor (s.end - cursor) (omega arith))))

  covers-later : (t : Instant) → s.end ≤ t → covers (s ∷ rest) t ≡ covers rest t
  covers-later t h = rw (covers-cons t s rest) (ground arith)

  -- The segment lies before the cursor.
  Consumed-passed :
      (cursor remaining : ℕ) (flag : Bool) (p : Progress)
      → s.end ≤ cursor
      → Consumed rest cursor remaining flag p
      → Consumed (s ∷ rest) cursor remaining flag p
  Consumed-passed cursor remaining flag (done u) h k = (
    k.0,
    omega (arith, k.1, count-head cursor (u - cursor)),
    covers-later (u - 1) (omega (arith, k.0)) ∙ k.2,
  )
  Consumed-passed cursor remaining flag (left remaining' cursor' consumed) h k = (
    k.0,
    omega (arith, k.1, count-head cursor (cursor' - cursor)),
    k.2,
    k.3,
    λ t x. covers-later t (omega (arith, k.0)) ∙ k.4 t x,
  )

  -- The work ends in the segment.
  Consumed-here :
      (cursor remaining : ℕ) (flag : Bool)
      → cursor < s.end
      → 0 < remaining
      → remaining ≤ s.end - max s.start cursor
      → Consumed (s ∷ rest) cursor remaining flag (done (max s.start cursor + remaining))
  Consumed-here cursor remaining flag h pos fits =
      let u = max s.start cursor + remaining in
      let last : holds (u - 1) s ≡ true = ground arith in
      (
        omega arith,
        omega (arith, count-head cursor (u - cursor), count-gap cursor (u - cursor) (omega arith)),
        rw (covers-cons (u - 1) s rest, last) refl,
      )

  -- The segment is used up.
  Consumed-through :
      (cursor remaining : ℕ) (flag : Bool) (p : Progress)
      → cursor < s.end
      → s.end - max s.start cursor < remaining
      → Consumed rest s.end (remaining - (s.end - max s.start cursor)) true p
      → Consumed (s ∷ rest) cursor remaining flag p
  Consumed-through cursor remaining flag (done u) h more k = (
    omega (arith, k.0),
    omega (
      arith,
      k.1,
      count-head cursor (u - cursor),
      count-tail cursor u (omega arith) (omega (arith, k.0)),
    ),
    covers-later (u - 1) (omega (arith, k.0)) ∙ k.2,
  )
  Consumed-through cursor remaining flag (left remaining' cursor' consumed) h more k = (
    omega (arith, k.0),
    omega (
      arith,
      k.1,
      count-head cursor (cursor' - cursor),
      count-tail cursor cursor' (omega arith) k.0,
    ),
    k.2,
    omega (arith, k.3, d.0),
    λ t x. covers-later t (omega (arith, k.0)) ∙ k.4 t x,
  )

pub consume-Consumed :
    (remaining cursor : ℕ) (flag : Bool) (l : List Segment)
    → IsDisjoint l
    → 0 < remaining
    → Consumed l cursor remaining flag (consume remaining cursor flag l)
unfolding consume
consume-Consumed remaining cursor flag [] d pos =
    (omega arith, omega (arith, count_nil), pos, omega arith, λ t x. unfold covers any in refl)
  where
    count_nil : count (covers []) cursor (cursor - cursor) ≡ 0
    count_nil = unfold covers any in count_none cursor (cursor - cursor)
consume-Consumed remaining cursor flag (s ∷ rest) d pos = elim (Bool-cases (leb s.end cursor)) [
  | inl e ↦ rw e (
      Consumed-passed s rest d cursor remaining flag _ (leb→le _ _ e)
        (consume-Consumed remaining cursor flag rest d.2 pos))
  | inr e ↦
      let available = s.end - max s.start cursor in
      elim (Bool-cases (leb remaining available)) [
        | inl e' ↦
            rw (e, e')
              (Consumed-here s rest d cursor remaining flag (ground arith) pos (ground arith))
        | inr e' ↦
            rw (e, e')
              (Consumed-through s rest d cursor remaining flag _ (ground arith) (ground arith)
                (consume-Consumed (remaining - available) s.end true rest d.2 (ground arith)))
      ]
]

-- Where the loop leaves the cursor when the day ends before the work.
abbrev pub Bounded : Instant → Instant → Bool → Progress → Type 0
Bounded hi cursor flag (done u) = Unit
Bounded hi cursor flag (left remaining' cursor' consumed) =
    (cursor' ≤ max cursor hi) × ((consumed ≡ true) ⊎ ((consumed ≡ flag) × (cursor' ≡ cursor)))

Bounded-through :
    (hi cursor end : ℕ) (flag : Bool) (p : Progress)
    → end ≤ hi
    → Bounded hi end true p
    → Bounded hi cursor flag p
Bounded-through hi cursor end flag (done u) h b = tt
Bounded-through hi cursor end flag (left remaining' cursor' consumed) h b =
    (omega (arith, b.0), elim (b.1) [ inl e ↦ inl e | inr e ↦ inl (e.0) ])

pub consume-Bounded :
    (lo hi remaining cursor : ℕ) (flag : Bool) (l : List Segment)
    → IsWithin lo hi l
    → Bounded hi cursor flag (consume remaining cursor flag l)
unfolding consume
consume-Bounded lo hi remaining cursor flag [] w = (omega arith, inr (refl, refl))
consume-Bounded lo hi remaining cursor flag (s ∷ rest) w = elim (Bool-cases (leb s.end cursor)) [
  | inl e ↦ rw e (consume-Bounded lo hi remaining cursor flag rest w.1)
  | inr e ↦ elim (Bool-cases (leb remaining (s.end - max s.start cursor))) [
    | inl e' ↦ rw (e, e') tt
    | inr e' ↦
        rw (e, e')
          (Bounded-through hi cursor s.end flag _ w.0.1
            (consume-Bounded lo hi (remaining - (s.end - max s.start cursor)) s.end true rest w.1))
  ]
]
