-- ===== src/Calendar/Segments/Merge.antt =====
-- The theorems about `merge_segments` (backend/app/engines/calendar/calendar.py).
use athena_order_priority.Prelude.{
  ◌≡◌, refl, ◌∙◌, ◌≤◌, ◌<◌, true, List, [], ◌∷◌, inl, inr, leb, All, All-sort_by, any-sort_by,
  All-weaken, IsSortedBy, IsOrder, sort_by, sort_by-IsSortedBy, any, filter, All-filter, filter-All,
  Bool-cases, arith,
}
use athena_order_priority.Calendar.Segments.{
  Instant, Segment, segment_le, is_proper, merge_into, merge_sorted, merge_segments, covers, holds,
  IsSeparated, IsDisjoint, IsWithin, Fits,
}

segment_le-IsOrder : IsOrder segment_le
unfolding segment_le
segment_le-IsOrder = record { total = λ x y h. ground arith; trans = λ x y z h k. ground arith }

-- In the order of their starts, each non-empty.
abbrev IsPrepared : List Segment → Type 0
IsPrepared [] = Unit
IsPrepared (s ∷ rest) =
    (s.start < s.end) × All (λ (t : Segment). s.start ≤ t.start) rest × IsPrepared rest

IsPrepared-sorted :
    (l : List Segment) → IsSortedBy segment_le l → All (λ s. is_proper s ≡ true) l → IsPrepared l
unfolding segment_le
IsPrepared-sorted [] h p = tt
IsPrepared-sorted (s ∷ rest) h p = (
  ground arith,
  All-weaken (λ t. segment_le s t ≡ true) (λ (t : Segment). s.start ≤ t.start) rest
      (λ t e. ground arith) h.0,
  IsPrepared-sorted rest h.1 p.1,
)

All-merge_into :
    (p : Instant) (last : Segment) (rest : List Segment)
    → p < last.start
    → All (λ (t : Segment). p < t.start) rest
    → All (λ (t : Segment). p < t.start) (merge_into last rest)
unfolding merge_into
All-merge_into p last [] h a = (h, tt)
All-merge_into p last (s ∷ rest) h a = elim (Bool-cases (leb s.start last.end)) [
  | inl e ↦ rw e (All-merge_into p _ rest h a.1)
  | inr e ↦ rw e (h, All-merge_into p s rest a.0 a.1)
]

All-start_lt :
    (p q : Instant) (l : List Segment)
    → p < q
    → All (λ (t : Segment). q ≤ t.start) l
    → All (λ (t : Segment). p < t.start) l
All-start_lt p q l h = All-weaken (λ t. q ≤ t.start) (λ t. p < t.start) l (λ t k. omega arith)

merge_into-IsSeparated :
    (last : Segment) (rest : List Segment)
    → IsPrepared (last ∷ rest)
    → IsSeparated (merge_into last rest)
unfolding merge_into
merge_into-IsSeparated last [] h = (h.0, tt, tt)
merge_into-IsSeparated last (s ∷ rest) h = elim (Bool-cases (leb s.start last.end)) [
  | inl e ↦ rw e (merge_into-IsSeparated _ rest (ground arith, h.1.1, h.2.2))
  | inr e ↦ rw e (
    h.0,
    All-merge_into last.end s rest (ground arith)
        (All-start_lt last.end s.start rest (ground arith) h.2.1),
    merge_into-IsSeparated s rest h.2,
  )
]

covers-merge_into :
    (t : Instant) (last : Segment) (rest : List Segment)
    → IsPrepared (last ∷ rest)
    → covers (merge_into last rest) t ≡ covers (last ∷ rest) t
unfolding merge_into covers
covers-merge_into t last [] h = refl
covers-merge_into t last (s ∷ rest) h = elim (Bool-cases (leb s.start last.end)) [
  | inl e ↦ rw e (covers-merge_into t _ rest (ground arith, h.1.1, h.2.2) ∙ ground arith)
  | inr e ↦ rw (e, covers-merge_into t s rest h.2) refl
]

covers-proper : (t : Instant) (l : List Segment) → covers (filter is_proper l) t ≡ covers l t
unfolding covers any filter
covers-proper t [] = refl
covers-proper t (s ∷ rest) = ground (arith, covers-proper t rest)

prepared : (l : List Segment) → IsPrepared (sort_by segment_le (filter is_proper l))
prepared l =
    IsPrepared-sorted _ (sort_by-IsSortedBy segment_le segment_le-IsOrder _)
      (All-sort_by segment_le _ _ (filter-All is_proper l))

merge_sorted-IsSeparated : (l : List Segment) → IsPrepared l → IsSeparated (merge_sorted l)
unfolding merge_sorted
merge_sorted-IsSeparated [] h = tt
merge_sorted-IsSeparated (s ∷ rest) h = merge_into-IsSeparated s rest h

covers-merge_sorted :
    (t : Instant) (l : List Segment) → IsPrepared l → covers (merge_sorted l) t ≡ covers l t
unfolding merge_sorted
covers-merge_sorted t [] h = refl
covers-merge_sorted t (s ∷ rest) h = covers-merge_into t s rest h

pub merge_segments-IsSeparated : (l : List Segment) → IsSeparated (merge_segments l)
unfolding merge_segments
merge_segments-IsSeparated l = merge_sorted-IsSeparated _ (prepared l)

pub covers-merge_segments :
    (t : Instant) (l : List Segment) → covers (merge_segments l) t ≡ covers l t
unfolding merge_segments covers
covers-merge_segments t l =
    covers-merge_sorted t _ (prepared l)
    ∙ any-sort_by segment_le (holds t) (filter is_proper l)
    ∙ covers-proper t l

IsWithin-merge_into :
    (lo hi : Instant) (last : Segment) (rest : List Segment)
    → IsWithin lo hi (last ∷ rest)
    → IsWithin lo hi (merge_into last rest)
unfolding merge_into
IsWithin-merge_into lo hi last [] w = w
IsWithin-merge_into lo hi last (s ∷ rest) w = elim (Bool-cases (leb s.start last.end)) [
  | inl e ↦ rw e (IsWithin-merge_into lo hi _ rest ((w.0.0, omega (arith, w.0.1, w.1.0.1)), w.1.1))
  | inr e ↦ rw e (w.0, IsWithin-merge_into lo hi s rest w.1)
]

IsWithin-merge_sorted :
    (lo hi : Instant) (l : List Segment) → IsWithin lo hi l → IsWithin lo hi (merge_sorted l)
unfolding merge_sorted
IsWithin-merge_sorted lo hi [] w = tt
IsWithin-merge_sorted lo hi (s ∷ rest) w = IsWithin-merge_into lo hi s rest w

pub IsDisjoint-of_IsSeparated : (l : List Segment) → IsSeparated l → IsDisjoint l
IsDisjoint-of_IsSeparated [] h = tt
IsDisjoint-of_IsSeparated (s ∷ rest) h = (
  h.0,
  All-weaken (λ (t : Segment). s.end < t.start) (λ t. s.end ≤ t.start) rest (λ t k. omega arith)
      h.1,
  IsDisjoint-of_IsSeparated rest h.2,
)

pub merge_segments-IsDisjoint : (l : List Segment) → IsDisjoint (merge_segments l)
merge_segments-IsDisjoint l = IsDisjoint-of_IsSeparated _ (merge_segments-IsSeparated l)

pub merge_segments-Fits :
    (lo hi : Instant) (l : List Segment) → IsWithin lo hi l → Fits lo hi (merge_segments l)
merge_segments-Fits lo hi l w = (merge_segments-IsDisjoint l, within)
  where
    within : IsWithin lo hi (merge_segments l)
    within =
        unfold merge_segments in
        IsWithin-merge_sorted lo hi _ (All-sort_by segment_le _ _ (All-filter is_proper _ l w))

-- For every list of segments, the merged list is in the order of time, its segments are not empty
-- and each ends before every later one starts, and it covers exactly the instants that the given
-- segments cover.
pub merge_segments_lem :
    (l : List Segment)
    → IsSeparated (merge_segments l) × ((t : Instant) → covers (merge_segments l) t ≡ covers l t)
merge_segments_lem l = (merge_segments-IsSeparated l, λ t. covers-merge_segments t l)
