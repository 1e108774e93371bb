-- ===== src/Calendar/Windows.antt =====
-- The window look-up that `_overtime_in`, `_blockers_in` and `downtime_windows` share: `bisect_right`
-- on the ends of merged windows, then a walk that clips each window to the range.
use athena_order_priority.Prelude.{
  ◌≡◌, refl, ◌∙◌, ◌≤◌, ◌<◌, false, List, [], ◌∷◌, map, min, max, ltb, leb, All, any, bisect_right,
  drop, inl, inr, Bool-cases, if◌then◌else◌, arith,
}
use athena_order_priority.Calendar.Segments.{Instant, Segment, covers, IsSeparated, IsWithin}

abbrev pub ends : List Segment → List Instant
ends l = map (λ (s : Segment). s.end) l

-- `while idx < len(l) and l[idx][0] < hi: out.append((max(s, lo), min(e, hi), r)); idx += 1`
unfoldable pub clip : Instant → Instant → List Segment → List Segment
clip lo hi [] = []
clip lo hi (s ∷ rest) =
    let more = clip lo hi rest in
    if ltb s.start hi
    then record { start = max s.start lo; end = min s.end hi; reason = s.reason } ∷ more
    else []

unfoldable pub windows_in : List Segment → Instant → Instant → List Segment
unfolding clip bisect_right drop
windows_in l lo hi = clip lo hi (drop (bisect_right (ends l) lo) l)

-- The suffix from the first window that ends after `lo`.
after : Instant → List Segment → List Segment
after lo [] = []
after lo (s ∷ rest) = let more = after lo rest in if leb s.end lo then more else s ∷ rest

drop-bisect_right :
    (lo : Instant) (l : List Segment) → drop (bisect_right (ends l) lo) l ≡ after lo l
unfolding drop bisect_right after
drop-bisect_right lo [] = refl
drop-bisect_right lo (s ∷ rest) = ground (arith, drop-bisect_right lo rest)

covers-none_from :
    (t hi : Instant) (l : List Segment)
    → All (λ (s : Segment). hi ≤ s.start) l
    → t < hi
    → covers l t ≡ false
unfolding covers any
covers-none_from t hi [] a h = refl
covers-none_from t hi (s ∷ rest) a h = ground (arith, covers-none_from t hi rest a.1 h)

All-start_le :
    (hi : Instant) (s : Segment) (l : List Segment)
    → hi ≤ s.start
    → IsSeparated (s ∷ l)
    → All (λ (u : Segment). hi ≤ u.start) l
All-start_le hi s [] h d = tt
All-start_le hi s (u ∷ l) h d = (omega arith, All-start_le hi u l (omega arith) d.2)

covers-after : (t lo : Instant) (l : List Segment) → lo ≤ t → covers (after lo l) t ≡ covers l t
unfolding covers any after
covers-after t lo [] h = refl
covers-after t lo (s ∷ rest) h = ground (arith, covers-after t lo rest h)

covers-clip :
    (t lo hi : Instant) (l : List Segment)
    → IsSeparated l
    → lo ≤ t
    → t < hi
    → covers (clip lo hi l) t ≡ covers l t
unfolding covers any clip
covers-clip t lo hi [] d h k = refl
covers-clip t lo hi (s ∷ rest) d h k = elim (Bool-cases (ltb s.start hi)) [
  | inl e ↦ rw (e, covers-clip t lo hi rest d.2 h k) (ground arith)
  | inr e ↦
      rw e (ground (arith, covers-none_from t hi rest (All-start_le hi s rest (ground arith) d) k))
]

after-IsSeparated : (lo : Instant) (l : List Segment) → IsSeparated l → IsSeparated (after lo l)
unfolding after
after-IsSeparated lo [] d = tt
after-IsSeparated lo (s ∷ rest) d = elim (Bool-cases (leb s.end lo)) [
  | inl e ↦ rw e (after-IsSeparated lo rest d.2)
  | inr e ↦ rw e d
]

clip-IsWithin : (lo hi : Instant) (l : List Segment) → IsWithin lo hi (clip lo hi l)
unfolding clip
clip-IsWithin lo hi [] = tt
clip-IsWithin lo hi (s ∷ rest) = elim (Bool-cases (ltb s.start hi)) [
  | inl e ↦ rw e ((omega arith, omega arith), clip-IsWithin lo hi rest)
  | inr e ↦ rw e tt
]

pub windows_in-IsWithin : (lo hi : Instant) (l : List Segment) → IsWithin lo hi (windows_in l lo hi)
unfolding windows_in
windows_in-IsWithin lo hi l = clip-IsWithin lo hi _

-- The look-up finds every window that covers an instant of the range.
pub covers-windows_in :
    (t lo hi : Instant) (l : List Segment)
    → IsSeparated l
    → lo ≤ t
    → t < hi
    → covers (windows_in l lo hi) t ≡ covers l t
unfolding windows_in
covers-windows_in t lo hi l d h k =
    rw drop-bisect_right
      (covers-clip t lo hi (after lo l) (after-IsSeparated lo l d) h k ∙ covers-after t lo l h)
