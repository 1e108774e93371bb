-- ===== src/Scheduling/Locks.antt =====
-- backend/app/engines/scheduling/locks.py: the planner's locks as the scheduler sees them.
pub mod Laws
use athena_order_priority.Prelude.{
  ℕ, suc, Bool, true, false, not, ◌&&◌, ◌||◌, List, [], ◌∷◌, ◌++◌, Option, none, some, ltb, leb,
  ◌==◌, if◌then◌else◌, then_by, sort_by, length, map, Dict, get, put, get_list, append_at,
  set_default,
}
use athena_order_priority.Domain.Window.{Instant, Text, TimeWindow, or_text}
use athena_order_priority.Domain.Keys.{Key, is_in}
use athena_order_priority.Domain.Status.{
  LockType, order_lock, machine_lock, sequence_lock, time_slot_lock,
}
use athena_order_priority.Domain.Overlays.{ScheduleLock}
use athena_order_priority.Domain.Snapshot.{PlanningSnapshot, active_locks, has_ended}

-- When a lock was created, and its id.
abbrev pub LockKey : Type 0
LockKey = Instant × Key

abbrev pub key_of : ScheduleLock → LockKey
key_of l = (l.created_at, l.lock_id)

abbrev pub key_before : LockKey → LockKey → Bool
key_before a b = then_by a.0 b.0 (leb a.1 b.1)

pub record LockIndex : Type 0 where
  pub reserved : Dict (List TimeWindow)
  pub pinned : Dict (Key × LockKey)
  pub order_locked : Dict LockKey
  pub slot_locks : Dict ScheduleLock
  pub sequence_locks : List ScheduleLock
  pub frozen_machines : List Key

abbrev pub no_locks : LockIndex
no_locks = record {
  reserved = [];
  pinned = [];
  order_locked = [];
  slot_locks = [];
  sequence_locks = [];
  frozen_machines = [];
}

-- `index.order_locked.setdefault(order_id, (created, lock.lock_id))` for each of the orders.
unfoldable pub lock_orders : LockKey → List Key → Dict LockKey → Dict LockKey
unfolding set_default
lock_orders key [] d = d
lock_orders key (o ∷ os) d = lock_orders key os (set_default o key d)

-- The orders of an optional id.
abbrev pub listed : Option Key → List Key
listed none = []
listed (some o) = o ∷ []

unfoldable pub add_sequence : ScheduleLock → LockIndex → LockIndex
unfolding lock_orders
add_sequence l x = record {
  reserved = x.reserved;
  pinned = x.pinned;
  order_locked = lock_orders (key_of l) l.sequence_order_ids x.order_locked;
  slot_locks = x.slot_locks;
  sequence_locks = x.sequence_locks ++ l ∷ [];
  frozen_machines = x.frozen_machines;
}

-- `TimeWindow(start, end, lock.reason or lock.lock_id)`; the id stands for itself as a text.
abbrev pub reserved_window : ScheduleLock → TimeWindow → TimeWindow
reserved_window l w = record {
  start = w.start;
  end = w.end;
  reason = or_text l.reason (l.lock_id ∷ []);
}

abbrev slot_for : Option Key → ScheduleLock → Dict ScheduleLock → Dict ScheduleLock
slot_for none l d = d
slot_for (some o) l d = set_default o l d

-- A window that is kept free on a machine, for the order when the lock names one.
unfoldable pub reserve : Key → TimeWindow → Option Key → ScheduleLock → LockIndex → LockIndex
unfolding append_at set_default lock_orders
reserve m w o l x = record {
  reserved = append_at m (reserved_window l w) x.reserved;
  pinned = x.pinned;
  order_locked = lock_orders (key_of l) (listed o) x.order_locked;
  slot_locks = slot_for o l x.slot_locks;
  sequence_locks = x.sequence_locks;
  frozen_machines = x.frozen_machines;
}

unfoldable pub freeze : Key → LockIndex → LockIndex
unfolding is_in
freeze m x = record {
  reserved = x.reserved;
  pinned = x.pinned;
  order_locked = x.order_locked;
  slot_locks = x.slot_locks;
  sequence_locks = x.sequence_locks;
  frozen_machines = if is_in m x.frozen_machines then x.frozen_machines else m ∷ x.frozen_machines;
}

-- The newer of two pins stays.
abbrev newer : Option (Key × LockKey) → LockKey → Bool
newer none key = true
newer (some current) key = not (key_before key current.1)

unfoldable pub pin : Option Key → Key → ScheduleLock → Dict (Key × LockKey) → Dict (Key × LockKey)
unfolding get put
pin none o l d = d
pin (some m) o l d = if newer (get o d) (key_of l) then put o (m, key_of l) d else d

-- An order that goes first, on a machine when the lock names one.
unfoldable pub lock_order : Option Key → Key → ScheduleLock → LockIndex → LockIndex
unfolding pin lock_orders
lock_order m o l x = record {
  reserved = x.reserved;
  pinned = pin m o l x.pinned;
  order_locked = lock_orders (key_of l) (listed (some o)) x.order_locked;
  slot_locks = x.slot_locks;
  sequence_locks = x.sequence_locks;
  frozen_machines = x.frozen_machines;
}

-- The branches on a lock's type, window, machine and order.
unfoldable pub index_by :
    LockType → Option TimeWindow → Option Key → Option Key → ScheduleLock → LockIndex → LockIndex
unfolding add_sequence reserve freeze lock_order
index_by sequence_lock w m o l x =
    if ltb 1 (length l.sequence_order_ids) then add_sequence l x else x
index_by time_slot_lock (some w) (some m) o l x = reserve m w o l x
index_by time_slot_lock (some w) none o l x = x
index_by machine_lock (some w) (some m) o l x = reserve m w o l x
index_by machine_lock (some w) none o l x = x
index_by machine_lock none (some m) none l x = freeze m x
index_by machine_lock none none none l x = x
index_by machine_lock none m (some o) l x = lock_order m o l x
index_by time_slot_lock none m none l x = x
index_by time_slot_lock none m (some o) l x = lock_order m o l x
index_by order_lock w m none l x = x
index_by order_lock w m (some o) l x = lock_order m o l x

-- One round of the loop.
unfoldable pub index_lock : Instant → LockIndex → ScheduleLock → LockIndex
unfolding index_by
index_lock now x l =
    if has_ended l.window now then x else index_by l.lock_type l.window l.machine_id l.order_id l x

unfoldable pub index_locks : Instant → LockIndex → List ScheduleLock → LockIndex
unfolding index_lock
index_locks now x [] = x
index_locks now x (l ∷ ls) = index_locks now (index_lock now x l) ls

-- `(w.start, w.end)`
abbrev pub window_before : TimeWindow → TimeWindow → Bool
window_before v w = then_by v.start w.start (leb v.end w.end)

-- The active locks in the order of their creation.
unfoldable pub locks_by_creation : PlanningSnapshot → Instant → List ScheduleLock
unfolding sort_by active_locks
locks_by_creation s now = sort_by (λ k l. key_before (key_of k) (key_of l)) (active_locks s now)

-- `sorted(windows, key=...)` for each machine.
unfoldable pub sort_windows : Dict (List TimeWindow) → Dict (List TimeWindow)
unfolding sort_by
sort_windows d = map (λ entry. (entry.0, sort_by window_before entry.1)) d

unfoldable pub build_lock_index : PlanningSnapshot → Instant → LockIndex
unfolding index_locks locks_by_creation sort_windows
build_lock_index s now =
    let x = index_locks now no_locks (locks_by_creation s now) in
    record {
      reserved = sort_windows x.reserved;
      pinned = x.pinned;
      order_locked = x.order_locked;
      slot_locks = x.slot_locks;
      sequence_locks = x.sequence_locks;
      frozen_machines = x.frozen_machines;
    }

-- `sequence_order_ids.index(order_id)`
unfoldable pub index_of : Key → List Key → Option ℕ
index_of k [] = none
index_of k (j ∷ js) =
    let later = index_of k js in
    if k == j then some 0 else (elim later [ none ↦ none | some n ↦ some (suc n) ])

-- `sequence_position`: the first sequence lock that lists the order.
unfoldable pub sequence_position : Key → List ScheduleLock → Option (Key × ℕ)
unfolding index_of
sequence_position k [] = none
sequence_position k (l ∷ ls) =
    let later = sequence_position k ls in
    elim (index_of k l.sequence_order_ids) [ none ↦ later | some n ↦ some (l.lock_id, n) ]
