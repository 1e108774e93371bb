-- ===== src/Calendar/Segments/Subtract.antt =====
-- The theorems about `subtract_segments` (backend/app/engines/calendar/calendar.py).
use athena_order_priority.Prelude.{
  ◌≡◌, refl, ap₂, ◌∙◌, ◌≤◌, ◌<◌, max, false, ◌||◌, ◌&&◌, not, List, [], ◌∷◌, ◌++◌, inl, inr, ltb,
  leb, All, All-append, All-weaken, any, any-append, Bool-cases, if◌then◌else◌, arith,
}
use athena_order_priority.Calendar.Segments.{
  Instant, Segment, Text, piece, cut, cut_all, subtract_segments, covers, holds, IsDisjoint,
  IsWithin, Fits,
}

-- Blockers as `merge_segments` gives them, from a first one on.
abbrev AreAfter : Instant → List Segment → Type 0
AreAfter p l = All (λ (t : Segment). p ≤ t.start) l

covers-none : (t p : Instant) (l : List Segment) → AreAfter p l → t < p → covers l t ≡ false
unfolding covers any
covers-none t p [] a h = refl
covers-none t p (s ∷ rest) a h = ground (arith, covers-none t p rest a.1 h)

covers-cons :
    (t : Instant) (s : Segment) (l : List Segment) → covers (s ∷ l) t ≡ (holds t s || covers l t)
unfolding covers any
covers-cons t s l = refl

covers-piece :
    (t cursor end : Instant) (reason : Text)
    → covers (piece cursor end reason) t ≡ (leb cursor t && ltb t end)
unfolding covers any piece
covers-piece t cursor end reason = ground arith

covers-append :
    (t : Instant) (xs ys : List Segment) → covers (xs ++ ys) t ≡ (covers xs t || covers ys t)
unfolding covers
covers-append t xs ys = any-append (holds t) xs ys

-- What is left of the segment behind a blocker.
abbrev behind : Instant → Instant → Text → List Segment → List Segment
behind next end reason bs = if leb end next then [] else cut next end reason bs

covers-behind :
    (t next end : Instant) (reason : Text) (bs : List Segment)
    → covers (cut next end reason bs) t ≡ (leb next t && ltb t end && not (covers bs t))
    → covers (behind next end reason bs) t ≡ (leb next t && ltb t end && not (covers bs t))
covers-behind t next end reason bs ih = elim (Bool-cases (leb end next)) [
  | inl e ↦ rw e (unfold covers any in ground arith)
  | inr e ↦ rw e ih
]

-- The pieces of one segment cover its instants from `cursor` on that no blocker covers.
covers-cut :
    (t cursor end : Instant) (reason : Text) (bs : List Segment)
    → IsDisjoint bs
    → covers (cut cursor end reason bs) t ≡ (leb cursor t && ltb t end && not (covers bs t))
unfolding cut
covers-cut t cursor end reason [] d = rw covers-piece (unfold covers any in ground arith)
covers-cut t cursor end reason (b ∷ bs) d =
    let none = covers-none t b.end bs d.1 in
    rw (covers-cons t b bs) (elim (Bool-cases (leb b.end cursor)) [
      | inl e ↦ rw (e) (rw (covers-cut t cursor end reason bs d.2) (ground (arith, none)))
      | inr e ↦ elim (Bool-cases (leb end b.start)) [
        | inl e' ↦ rw (e, e') (rw covers-piece (ground (arith, none, covers-none t b.start bs)))
        | inr e' ↦
            rw (e, e')
              (covers-append t (piece cursor b.start reason) _
                ∙ ap₂ ◌||◌ (covers-piece t cursor b.start reason) (
                    covers-behind t (max cursor b.end) end reason bs
                      (covers-cut t (max cursor b.end) end reason bs d.2))
                ∙ ground (arith, none))
      ]
    ])

covers-cut_all :
    (t : Instant) (bs segments : List Segment)
    → IsDisjoint bs
    → covers (cut_all bs segments) t ≡ (covers segments t && not (covers bs t))
unfolding cut_all
covers-cut_all t bs [] d = unfold covers any in refl
covers-cut_all t bs (s ∷ rest) d =
    covers-append t (cut s.start s.end s.reason bs) _
    ∙ rw
        (covers-cut t s.start s.end s.reason bs d, covers-cut_all t bs rest d, covers-cons t s rest)
        (ground arith)

pub covers-subtract_segments :
    (t : Instant) (segments blockers : List Segment)
    → IsDisjoint blockers
    → covers (subtract_segments segments blockers) t
      ≡ (covers segments t && not (covers blockers t))
unfolding subtract_segments
covers-subtract_segments t segments [] d = unfold covers any in ground arith
covers-subtract_segments t segments (b ∷ bs) d = covers-cut_all t (b ∷ bs) segments d

IsDisjoint-append :
    (m : Instant) (xs ys : List Segment)
    → IsDisjoint xs
    → IsDisjoint ys
    → All (λ (s : Segment). s.end ≤ m) xs
    → AreAfter m ys
    → IsDisjoint (xs ++ ys)
IsDisjoint-append m [] ys dx dy bx by = dy
IsDisjoint-append m (x ∷ xs) ys dx dy bx by = (
  dx.0,
  All-append (λ (s : Segment). x.end ≤ s.start) xs ys dx.1
      (All-weaken (λ (s : Segment). m ≤ s.start) (λ (s : Segment). x.end ≤ s.start) ys
        (λ s h. omega arith) by),
  IsDisjoint-append m xs ys dx.2 dy bx.1 by,
)

piece-Fits : (lo hi : Instant) (reason : Text) → Fits lo hi (piece lo hi reason)
unfolding piece
piece-Fits lo hi reason = ground arith

IsWithin-weaken :
    (lo hi lo' hi' : Instant) (l : List Segment)
    → lo' ≤ lo
    → hi ≤ hi'
    → IsWithin lo hi l
    → IsWithin lo' hi' l
IsWithin-weaken lo hi lo' hi' l p q =
    All-weaken (λ (s : Segment). (lo ≤ s.start) × (s.end ≤ hi)) _ l
      (λ s h. (omega arith, omega arith))

Fits-append :
    (lo m n hi : Instant) (xs ys : List Segment)
    → lo ≤ n
    → m ≤ n
    → m ≤ hi
    → Fits lo m xs
    → Fits n hi ys
    → Fits lo hi (xs ++ ys)
Fits-append lo m n hi xs ys p q r fx fy = (
  IsDisjoint-append m xs ys fx.0 fy.0
      (All-weaken (λ (s : Segment). (lo ≤ s.start) × (s.end ≤ m)) _ xs (λ s h. h.1) fx.1)
      (All-weaken (λ (s : Segment). (n ≤ s.start) × (s.end ≤ hi)) _ ys (λ s h. omega arith) fy.1),
  All-append _ xs ys (IsWithin-weaken lo m lo hi xs (omega arith) r fx.1)
      (IsWithin-weaken n hi lo hi ys p (omega arith) fy.1),
)

Fits-behind :
    (next end : Instant) (reason : Text) (bs : List Segment)
    → Fits next end (cut next end reason bs)
    → Fits next end (behind next end reason bs)
Fits-behind next end reason bs ih = elim (Bool-cases (leb end next)) [
  | inl e ↦ rw e (tt, tt)
  | inr e ↦ rw e ih
]

ends :
    (m lo hi : Instant) (l : List Segment)
    → All (λ (t : Segment). m ≤ t.start) l
    → IsWithin lo hi l
    → IsWithin m hi l
ends m lo hi [] a w = tt
ends m lo hi (x ∷ xs) a w = ((a.0, w.0.1), ends m lo hi xs a.1 w.1)

cut-Fits :
    (cursor end : Instant) (reason : Text) (bs : List Segment)
    → IsDisjoint bs
    → Fits cursor end (cut cursor end reason bs)
unfolding cut
cut-Fits cursor end reason [] d = piece-Fits cursor end reason
cut-Fits cursor end reason (b ∷ bs) d = elim (Bool-cases (leb b.end cursor)) [
  | inl e ↦ rw e (cut-Fits cursor end reason bs d.2)
  | inr e ↦ elim (Bool-cases (leb end b.start)) [
    | inl e' ↦ rw (e, e') (piece-Fits cursor end reason)
    | inr e' ↦
        let next = max cursor b.end in
        rw (e, e')
          (Fits-append cursor b.start next end (piece cursor b.start reason)
            (behind next end reason bs) (omega arith) (omega (arith, d.0)) (ground arith)
            (piece-Fits cursor b.start reason)
            (Fits-behind next end reason bs (cut-Fits next end reason bs d.2)))
  ]
]

cut_all-Fits :
    (lo hi : Instant) (bs segments : List Segment)
    → IsDisjoint bs
    → Fits lo hi segments
    → Fits lo hi (cut_all bs segments)
unfolding cut_all
cut_all-Fits lo hi bs [] d f = (tt, tt)
cut_all-Fits lo hi bs (s ∷ rest) d f =
    let ahead : IsWithin s.end hi rest = ends s.end lo hi rest f.0.1 f.1.1 in
    Fits-append lo s.end s.end hi (cut s.start s.end s.reason bs) (cut_all bs rest) (omega arith)
      (omega arith) (omega arith)
      (
        (cut-Fits s.start s.end s.reason bs d).0,
        IsWithin-weaken s.start s.end lo s.end _ (omega arith) (omega arith)
            (cut-Fits s.start s.end s.reason bs d).1,
      )
      (cut_all-Fits s.end hi bs rest d (f.0.2, ahead))

pub subtract_segments-Fits :
    (lo hi : Instant) (segments blockers : List Segment)
    → IsDisjoint blockers
    → Fits lo hi segments
    → Fits lo hi (subtract_segments segments blockers)
unfolding subtract_segments
subtract_segments-Fits lo hi segments [] d f = f
subtract_segments-Fits lo hi segments (b ∷ bs) d f = cut_all-Fits lo hi (b ∷ bs) segments d f

-- For segments that are non-empty, disjoint, in the order of time and within the bounds, and for
-- blockers that are non-empty, disjoint and in the order of time, the result is again non-empty,
-- disjoint, in order and within the bounds, and covers exactly the instants that the segments cover
-- and no blocker covers.
pub subtract_segments_lem :
    (lo hi : Instant) (segments blockers : List Segment)
    → Fits lo hi segments
    → IsDisjoint blockers
    → Fits lo hi (subtract_segments segments blockers)
      × ((t : Instant)
          → covers (subtract_segments segments blockers) t
            ≡ (covers segments t && not (covers blockers t)))
subtract_segments_lem lo hi segments blockers f d = (
  subtract_segments-Fits lo hi segments blockers d f,
  λ t. covers-subtract_segments t segments blockers d,
)
