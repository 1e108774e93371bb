-- ===== src/Scheduling/Sequences.antt =====
-- `apply_sequence_locks` of backend/app/engines/scheduling/candidates.py, for items with an order.
pub mod Laws
use athena_order_priority.Prelude.{
  ℕ, zero, suc, List, [], ◌∷◌, ◌++◌, Option, none, some, ltb, leb, if◌then◌else◌, length, sort_by,
  Dict, get, put,
}
use athena_order_priority.Domain.Keys.{Key}
use athena_order_priority.Domain.Overlays.{ScheduleLock}
use athena_order_priority.Scheduling.Locks.{LockIndex}

-- The candidates, and `position`: the place of each by its order.
pub record Arrangement (A : Type 0) : Type 0 where
  pub candidates : List A
  pub position : Dict ℕ

abbrev cons_place : Option ℕ → List ℕ → List ℕ
cons_place none places = places
cons_place (some i) places = i ∷ places

-- The places of the listed orders that are candidates.
unfoldable pub places_of : Dict ℕ → List Key → List ℕ
unfolding get
places_of d [] = []
places_of d (k ∷ ks) = cons_place (get k d) (places_of d ks)

module _ {A : Type 0} where
  -- `candidates[i]`, as a list that is empty out of range.
  unfoldable pub item_at : ℕ → List A → List A
  item_at i [] = []
  item_at zero (c ∷ cs) = c ∷ []
  item_at (suc i) (c ∷ cs) = item_at i cs

  unfoldable pub items_at : List ℕ → List A → List A
  unfolding item_at
  items_at [] cs = []
  items_at (i ∷ is) cs = item_at i cs ++ items_at is cs

  -- `candidates[i] = item`
  unfoldable pub set_at : ℕ → A → List A → List A
  set_at i item [] = []
  set_at zero item (c ∷ cs) = item ∷ cs
  set_at (suc i) item (c ∷ cs) = c ∷ set_at i item cs

module _ {A : Type 0} (order_id : A → Key) where
  unfoldable pub positions_from : ℕ → List A → Dict ℕ → Dict ℕ
  unfolding put
  positions_from i [] d = d
  positions_from i (c ∷ cs) d = positions_from (suc i) cs (put (order_id c) i d)

  -- The loop over the slots and the items.
  unfoldable pub assign : List ℕ → List A → Arrangement A → Arrangement A
  unfolding set_at put
  assign [] items a = a
  assign (slot ∷ slots) [] a = a
  assign (slot ∷ slots) (item ∷ items) a = assign slots items (record {
    candidates = set_at slot item a.candidates;
    position = put (order_id item) slot a.position;
  })

  -- One round of the loop over the locks.
  unfoldable pub apply_sequence_lock : ScheduleLock → Arrangement A → Arrangement A
  unfolding places_of sort_by items_at assign
  apply_sequence_lock l a =
      let places = places_of a.position l.sequence_order_ids in
      if ltb (length places) 2
      then a
      else assign (sort_by leb places) (items_at places a.candidates) a

  unfoldable pub apply_each : List ScheduleLock → Arrangement A → Arrangement A
  unfolding apply_sequence_lock
  apply_each [] a = a
  apply_each (l ∷ ls) a = apply_each ls (apply_sequence_lock l a)

  abbrev pub arrange : List A → Arrangement A
  arrange cs = record { candidates = cs; position = positions_from 0 cs [] }

  unfoldable pub apply_sequence_locks : List A → LockIndex → List A
  unfolding positions_from apply_each
  apply_sequence_locks cs locks =
      let after = apply_each locks.sequence_locks (arrange cs) in after.candidates
