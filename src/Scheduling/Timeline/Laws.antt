-- ===== src/Scheduling/Timeline/Laws.antt =====
-- The theorems about `MachineTimeline.insert` (backend/app/engines/scheduling/timeline.py).
use athena_order_priority.Prelude.{
  ℕ, zero, suc, ◌≤◌, ◌<◌, ◌⊎◌, inl, inr, List, [], ◌∷◌, max, leb, All, All-weaken, Bool-cases,
  bisect_right, arith,
}
use athena_order_priority.Scheduling.Timeline.{BusySlot, MachineTimeline, starts, insert_at, insert}

-- Each slot takes time and ends before every later one starts.
abbrev pub AreApart : List BusySlot → Type 0
AreApart [] = Unit
AreApart (s ∷ ss) = (s.setup_start < s.end) × All (λ t. s.end ≤ t.setup_start) ss × AreApart ss

abbrev pub IsApart : BusySlot → BusySlot → Type 0
IsApart s t = (s.end ≤ t.setup_start) ⊎ (t.end ≤ s.setup_start)

All-insert_at {κ} :
    (P : BusySlot → Type κ) (n : ℕ) (s : BusySlot) (ss : List BusySlot)
    → P s
    → All P ss
    → All P (insert_at n s ss)
unfolding insert_at
All-insert_at P n s [] p h = (p, tt)
All-insert_at P zero s (t ∷ ts) p h = (p, h)
All-insert_at P (suc n) s (t ∷ ts) p h = (h.0, All-insert_at P n s ts p h.1)

insert_at-AreApart :
    (s : BusySlot) (ss : List BusySlot)
    → s.setup_start < s.end
    → AreApart ss
    → All (IsApart s) ss
    → AreApart (insert_at (bisect_right (starts ss) s.setup_start) s ss)
unfolding insert_at bisect_right
insert_at-AreApart s [] long h apart = (long, tt, tt)
insert_at-AreApart s (t ∷ ts) long h apart = elim (Bool-cases (leb t.setup_start s.setup_start)) [
  | inl e ↦
      let ends : t.end ≤ s.setup_start = ground (arith, apart.0, e, long) in
      rw e (
        h.0,
        All-insert_at (λ u. t.end ≤ u.setup_start) _ s ts ends h.1,
        insert_at-AreApart s ts long h.2 apart.1,
      )
  | inr e ↦
      let ends : s.end ≤ t.setup_start = ground (arith, apart.0, e, h.0) in
      rw e (
        long,
        (
          ends,
          All-weaken (λ u. t.end ≤ u.setup_start) (λ u. s.end ≤ u.setup_start) ts
              (λ u k. ground (arith, k, ends, h.0)) h.1,
        ),
        h,
      )
]

-- The slots are apart and in order, and the tail starts after all of them.
pub record IsTimeline (m : MachineTimeline) : Type 0 where
  pub slots_apart : AreApart m.slots
  pub tail_last : All (λ s. s.end ≤ m.tail_end) m.slots

-- A slot that takes time and is apart from the slots of a timeline goes to its place in their
-- order: the slots stay apart, and the tail starts after all of them.
pub insert-IsTimeline :
    (s : BusySlot) (m : MachineTimeline)
    → IsTimeline m
    → s.setup_start < s.end
    → All (IsApart s) m.slots
    → IsTimeline (insert s m)
unfolding insert
insert-IsTimeline s m h long apart = record {
  slots_apart = insert_at-AreApart s m.slots long h.slots_apart apart;
  tail_last =
      All-insert_at (λ t. t.end ≤ max s.end m.tail_end)
        (bisect_right (starts m.slots) s.setup_start) s m.slots (omega arith)
        (All-weaken (λ t. t.end ≤ m.tail_end) (λ t. t.end ≤ max s.end m.tail_end) m.slots
          (λ t k. omega (arith, k)) h.tail_last);
}
