-- ===== src/Scheduling/Sequences/Laws.antt =====
-- The theorems about `apply_sequence_locks` (backend/app/engines/scheduling/candidates.py).
use athena_order_priority.Prelude.{
  ℕ, zero, suc, ◌≡◌, refl, ap, ◌∙◌, List, [], ◌∷◌, length, ltb, leb, All, All-append, Bool-cases,
  inl, inr, sort_by,
}
use athena_order_priority.Domain.Keys.{Key}
use athena_order_priority.Domain.Overlays.{ScheduleLock}
use athena_order_priority.Scheduling.Locks.{LockIndex}
use athena_order_priority.Scheduling.Sequences.{
  Arrangement, places_of, item_at, items_at, set_at, assign, apply_sequence_lock, apply_each,
  arrange, apply_sequence_locks,
}

module _ {A : Type 0} where
  All-item_at : (P : A → Type 0) (i : ℕ) (cs : List A) → All P cs → All P (item_at i cs)
  unfolding item_at
  All-item_at P i [] h = tt
  All-item_at P zero (c ∷ cs) h = (h.0, tt)
  All-item_at P (suc i) (c ∷ cs) h = All-item_at P i cs h.1

  All-items_at : (P : A → Type 0) (is : List ℕ) (cs : List A) → All P cs → All P (items_at is cs)
  unfolding items_at
  All-items_at P [] cs h = tt
  All-items_at P (i ∷ is) cs h =
      All-append P (item_at i cs) (items_at is cs) (All-item_at P i cs h) (All-items_at P is cs h)

  All-set_at :
      (P : A → Type 0) (i : ℕ) (item : A) (cs : List A)
      → P item
      → All P cs
      → All P (set_at i item cs)
  unfolding set_at
  All-set_at P i item [] p h = tt
  All-set_at P zero item (c ∷ cs) p h = (p, h.1)
  All-set_at P (suc i) item (c ∷ cs) p h = (h.0, All-set_at P i item cs p h.1)

  length-set_at : (i : ℕ) (item : A) (cs : List A) → length (set_at i item cs) ≡ length cs
  unfolding set_at
  length-set_at i item [] = refl
  length-set_at zero item (c ∷ cs) = refl
  length-set_at (suc i) item (c ∷ cs) = ap suc (length-set_at i item cs)

module _ {A : Type 0} (order_id : A → Key) where
  All-assign :
      (P : A → Type 0) (slots : List ℕ) (items : List A) (a : Arrangement A)
      → All P items
      → All P a.candidates
      → All P (assign order_id slots items a).candidates
  unfolding assign
  All-assign P [] items a p h = h
  All-assign P (slot ∷ slots) [] a p h = h
  All-assign P (slot ∷ slots) (item ∷ items) a p h =
      All-assign P slots items _ p.1 (All-set_at P slot item a.candidates p.0 h)

  length-assign :
      (slots : List ℕ) (items : List A) (a : Arrangement A)
      → length (assign order_id slots items a).candidates ≡ length a.candidates
  unfolding assign
  length-assign [] items a = refl
  length-assign (slot ∷ slots) [] a = refl
  length-assign (slot ∷ slots) (item ∷ items) a =
      length-assign slots items _ ∙ length-set_at slot item a.candidates

  All-apply_each :
      (P : A → Type 0) (ls : List ScheduleLock) (a : Arrangement A)
      → All P a.candidates
      → All P (apply_each order_id ls a).candidates
  unfolding apply_each apply_sequence_lock
  All-apply_each P [] a h = h
  All-apply_each P (l ∷ ls) a h =
      All-apply_each P ls (apply_sequence_lock order_id l a)
        (elim (Bool-cases (ltb (length places) 2)) [
          | inl e ↦ rw e h
          | inr e ↦ rw e (
              All-assign P (sort_by leb places) (items_at places a.candidates) a
                (All-items_at P places a.candidates h) h)
        ])
    where
      places : List ℕ
      places = places_of a.position l.sequence_order_ids

  length-apply_each :
      (ls : List ScheduleLock) (a : Arrangement A)
      → length (apply_each order_id ls a).candidates ≡ length a.candidates
  unfolding apply_each apply_sequence_lock
  length-apply_each [] a = refl
  length-apply_each (l ∷ ls) a =
      length-apply_each ls (apply_sequence_lock order_id l a)
      ∙ elim (Bool-cases (ltb (length places) 2)) [
        | inl e ↦ rw e refl
        | inr e ↦ rw e (length-assign (sort_by leb places) (items_at places a.candidates) a)
      ]
    where
      places : List ℕ
      places = places_of a.position l.sequence_order_ids

  pub All-apply_sequence_locks :
      (P : A → Type 0) (cs : List A) (locks : LockIndex)
      → All P cs
      → All P (apply_sequence_locks order_id cs locks)
  unfolding apply_sequence_locks
  All-apply_sequence_locks P cs locks h =
      All-apply_each P locks.sequence_locks (arrange order_id cs) h

  pub length-apply_sequence_locks :
      (cs : List A) (locks : LockIndex)
      → length (apply_sequence_locks order_id cs locks) ≡ length cs
  unfolding apply_sequence_locks
  length-apply_sequence_locks cs locks =
      length-apply_each locks.sequence_locks (arrange order_id cs)
