-- ===== src/Calendar/Segments.antt =====
-- Working and blocking segments of backend/app/engines/calendar/calendar.py: `merge_segments` and
-- `subtract_segments`. An instant is its count of microseconds; a reason is the list of its code
-- points.
pub mod Merge
pub mod Subtract
pub use athena_order_priority.Domain.Window.{Instant, Text}
use athena_order_priority.Prelude.{
  ℕ, ◌≡◌, ◌≤◌, ◌<◌, Bool, true, false, ◌&&◌, ◌||◌, List, [], ◌∷◌, ◌++◌, max, ltb, leb, ◌==◌,
  if◌then◌else◌, filter, any, sort_by, All,
}

pub record Segment : Type 0 where
  pub start : Instant
  pub end : Instant
  pub reason : Text

unfoldable pub text_eq : Text → Text → Bool
text_eq [] [] = true
text_eq (a ∷ as') (b ∷ bs) = a == b && text_eq as' bs
text_eq _ _ = false

abbrev pub is_empty : Text → Bool
is_empty [] = true
is_empty (c ∷ cs) = false

-- `word == part` for some part of `text.split("+")`; `part` holds the part read so far, reversed
-- by appending at its end.
unfoldable pub in_split : Text → Text → Text → Bool
unfolding text_eq
in_split word part [] = text_eq word part
in_split word part (c ∷ cs) =
    if c == b'+'
    then text_eq word part || in_split word [] cs
    else in_split word (part ++ c ∷ []) cs

unfoldable pub join_reasons : Text → Text → Text
unfolding in_split
join_reasons a b =
    if is_empty a
    then b
    else if is_empty b || text_eq a b || in_split b [] a
    then a
    else a ++ b'+' ∷ b

-- The sort key `(start, end)`.
unfoldable pub segment_le : Segment → Segment → Bool
segment_le s t = ltb s.start t.start || (s.start == t.start && leb s.end t.end)

abbrev pub is_proper : Segment → Bool
is_proper s = ltb s.start s.end

-- The loop of `merge_segments`; `last` is `merged[-1]`, which it may still extend.
unfoldable pub merge_into : Segment → List Segment → List Segment
merge_into last [] = last ∷ []
merge_into last (s ∷ rest) =
    let joined =
      merge_into
        (record {
          start = last.start;
          end = max last.end s.end;
          reason = join_reasons last.reason s.reason;
        })
        rest in
    let apart = last ∷ merge_into s rest in if leb s.start last.end then joined else apart

unfoldable pub merge_sorted : List Segment → List Segment
unfolding merge_into
merge_sorted [] = []
merge_sorted (s ∷ rest) = merge_into s rest

unfoldable pub merge_segments : List Segment → List Segment
unfolding merge_sorted segment_le filter sort_by
merge_segments segments = merge_sorted (sort_by segment_le (filter is_proper segments))

-- `if cursor < end: out.append((cursor, end, reason))`
unfoldable pub piece : Instant → Instant → Text → List Segment
piece cursor end reason =
    if ltb cursor end then record { start = cursor; end = end; reason = reason } ∷ [] else []

-- The inner loop of `subtract_segments` over the blockers that are left, from `cursor`; `end` and
-- `reason` are those of the segment.
unfoldable pub cut : Instant → Instant → Text → List Segment → List Segment
cut cursor end reason [] = piece cursor end reason
cut cursor end reason (b ∷ bs) =
    let skipped = cut cursor end reason bs in
    let next = max cursor b.end in
    let more = cut next end reason bs in
    if leb b.end cursor
    then skipped
    else if leb end b.start
    then piece cursor end reason
    else piece cursor b.start reason ++ (if leb end next then [] else more)

unfoldable pub cut_all : List Segment → List Segment → List Segment
unfolding cut piece
cut_all blockers [] = []
cut_all blockers (s ∷ rest) = cut s.start s.end s.reason blockers ++ cut_all blockers rest

unfoldable pub subtract_segments : List Segment → List Segment → List Segment
unfolding cut_all
subtract_segments segments [] = segments
subtract_segments segments (b ∷ bs) = cut_all (b ∷ bs) segments

-- `s <= t < e` for some segment of the list.
abbrev pub holds : Instant → Segment → Bool
holds t s = leb s.start t && ltb t s.end

unfoldable pub covers : List Segment → Instant → Bool
unfolding any
covers segments t = any (holds t) segments

-- Non-empty segments, each ending before every later one starts.
abbrev pub IsSeparated : List Segment → Type 0
IsSeparated [] = Unit
IsSeparated (s ∷ rest) =
    (s.start < s.end) × All (λ (t : Segment). s.end < t.start) rest × IsSeparated rest

-- Non-empty segments that may touch and do not overlap, in the order of time.
abbrev pub IsDisjoint : List Segment → Type 0
IsDisjoint [] = Unit
IsDisjoint (s ∷ rest) =
    (s.start < s.end) × All (λ (t : Segment). s.end ≤ t.start) rest × IsDisjoint rest

-- All pieces lie within the bounds.
abbrev pub IsWithin : Instant → Instant → List Segment → Type 0
IsWithin lo hi l = All (λ (s : Segment). (lo ≤ s.start) × (s.end ≤ hi)) l

-- Segments that are disjoint and lie within the bounds.
abbrev pub Fits : Instant → Instant → List Segment → Type 0
Fits lo hi l = IsDisjoint l × IsWithin lo hi l
