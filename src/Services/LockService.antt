-- ===== src/Services/LockService.antt =====
-- `LockService` of backend/app/services/lock_service.py, over the locks that are stored. The reason
-- comes stripped, and the audit trail is left out.
pub mod Laws
use athena_order_priority.Prelude.{
  ℕ, ◌+◌, Bool, true, false, not, ◌&&◌, ◌||◌, List, [], ◌∷◌, ◌++◌, Option, none, some, ltb, leb,
  ◌==◌, if◌then◌else◌, any, length, filter, Dict, get, is_nil,
}
use athena_order_priority.Domain.Window.{Instant, Text, TimeWindow, overlaps, codes}
use athena_order_priority.Domain.Keys.{Key, is_in, equal}
use athena_order_priority.Domain.Status.{
  LockType, order_lock, machine_lock, sequence_lock, time_slot_lock,
}
use athena_order_priority.Domain.Orders.{Order, is_open}
use athena_order_priority.Domain.Overlays.{ScheduleLock}
use athena_order_priority.Domain.Snapshot.{has_ended}
use athena_order_priority.Services.Outcomes.{
  Outcome, done, validation_error, conflict_error, not_found, ◌>>=◌, require, has_reason,
}

-- What a call of `create` asks for, with the `lock_id` it is given.
pub record LockRequest : Type 0 where
  pub lock_id : Key
  pub lock_type : LockType
  pub reason : Text
  pub order_id : Option Key
  pub machine_id : Option Key
  pub window_start : Option Instant
  pub window_end : Option Instant
  pub sequence_order_ids : List Key

-- `len(set(sequence)) == len(sequence)`
unfoldable pub all_distinct : List Key → Bool
unfolding is_in
all_distinct [] = true
all_distinct (k ∷ ks) = not (is_in k ks) && all_distinct ks

-- `_open_order`
unfoldable pub check_open_order : Dict Order → Key → Outcome (Unit {0})
unfolding get is_open
check_open_order orders k = elim (get k orders) [
  | none ↦ not_found
  | some o ↦ require (is_open o) conflict_error
]

unfoldable pub check_open_orders : Dict Order → List Key → Outcome (Unit {0})
unfolding check_open_order
check_open_orders orders [] = done tt
check_open_orders orders (k ∷ ks) = do check_open_order orders k; check_open_orders orders ks
  where
    infixl 5 ◌>>◌
    ◌>>◌ : Outcome (Unit {0}) → Outcome (Unit {0}) → Outcome (Unit {0})
    a >> b = a >>= λ u. b

abbrev start_or : Option Instant → Instant → Instant
start_or none now = now
start_or (some t) now = t

abbrev end_or : Option Instant → Instant → ℕ → Instant
end_or none start minutes = start + minutes
end_or (some t) start minutes = t

-- The end of `_window`: the checks of a window.
unfoldable pub check_window : Instant → Instant → Instant → Outcome (Option TimeWindow)
check_window start end now =
    if leb end start
    then validation_error
    else if leb end now
    then validation_error
    else done (some (record { start = start; end = end; reason = codes "locked" }))

-- `_window`; `minutes` is `lock_window_minutes`. A window without a given start and end is not checked.
unfoldable pub lock_window :
    Option Instant → Option Instant → Instant → ℕ → Bool → Outcome (Option TimeWindow)
unfolding check_window
lock_window none none now minutes false = done none
lock_window none none now minutes true =
    done (some (record { start = now; end = now + minutes; reason = codes "locked" }))
lock_window none (some e) now minutes required = check_window now e now
lock_window (some s) e now minutes required = check_window s (end_or e s minutes) now

-- `lock_type in (LockType.MACHINE, LockType.TIME_SLOT)`
abbrev pub is_reservation : LockType → Bool
is_reservation machine_lock = true
is_reservation time_slot_lock = true
is_reservation _ = false

-- Two windows that are both there and overlap.
unfoldable pub both_overlap : Option TimeWindow → Option TimeWindow → Bool
unfolding overlaps
both_overlap none w = false
both_overlap (some v) none = false
both_overlap (some v) (some w) = overlaps v w

abbrev pub is_order_lock : LockType → Bool
is_order_lock order_lock = true
is_order_lock _ = false

abbrev pub is_sequence_lock : LockType → Bool
is_sequence_lock sequence_lock = true
is_sequence_lock _ = false

-- The test of `_check_conflicts` on one lock that is in force.
unfoldable pub conflicts : ScheduleLock → ScheduleLock → Bool
unfolding both_overlap any is_in
conflicts new other =
    is_reservation new.lock_type
      && is_reservation other.lock_type
      && equal other.machine_id new.machine_id
      && both_overlap other.window new.window
    || is_order_lock new.lock_type
      && is_order_lock other.lock_type
      && equal other.order_id new.order_id
    || is_sequence_lock new.lock_type
      && is_sequence_lock other.lock_type
      && any (λ k. is_in k other.sequence_order_ids) new.sequence_order_ids

-- The row is active and its window has not ended.
unfoldable pub in_force : Instant → ScheduleLock → Bool
in_force now l = l.active && not (has_ended l.window now)

-- `self._locks.list_active(now)`, in the order of the store.
unfoldable pub list_active : Instant → List ScheduleLock → List ScheduleLock
unfolding filter in_force
list_active now store = filter (in_force now) store

-- `_check_conflicts`
unfoldable pub check_conflicts : ScheduleLock → List ScheduleLock → Outcome (Unit {0})
unfolding any conflicts
check_conflicts new active = require (not (any (conflicts new) active)) conflict_error

-- `self._machines.get(machine_id)`
abbrev check_machine : List Key → Option Key → Outcome (Unit {0})
check_machine machines none = done tt
check_machine machines (some m) = require (is_in m machines) not_found

abbrev check_order : Dict Order → Option Key → Outcome (Unit {0})
check_order orders none = done tt
check_order orders (some o) = check_open_order orders o

abbrev is_given : Option Key → Bool
is_given none = false
is_given (some k) = true

-- The checks by the type of the lock, and its window.
unfoldable pub window_by_type :
    Dict Order → LockRequest → LockType → Instant → ℕ → Outcome (Option TimeWindow)
unfolding lock_window all_distinct check_open_orders
window_by_type orders r order_lock now minutes =
    require (is_given r.order_id) validation_error >>= λ u.
    lock_window r.window_start r.window_end now minutes false
window_by_type orders r machine_lock now minutes =
    require (is_given r.machine_id) validation_error >>= λ u.
    lock_window r.window_start r.window_end now minutes true
window_by_type orders r time_slot_lock now minutes =
    require (is_given r.machine_id) validation_error >>= λ u.
    lock_window r.window_start r.window_end now minutes true
window_by_type orders r sequence_lock now minutes =
    require (ltb 1 (length r.sequence_order_ids) && all_distinct r.sequence_order_ids)
      validation_error
    >>= λ u. check_open_orders orders r.sequence_order_ids >>= λ u.
        lock_window r.window_start r.window_end now minutes false

-- The lock that a request with its window makes.
abbrev pub new_lock : LockRequest → Instant → Option TimeWindow → ScheduleLock
new_lock r now window = record {
  lock_id = r.lock_id;
  lock_type = r.lock_type;
  created_at = now;
  reason = r.reason;
  order_id = r.order_id;
  machine_id = r.machine_id;
  window = window;
  sequence_order_ids = r.sequence_order_ids;
  active = true;
}

-- The new lock is checked against those in force and stored.
unfoldable pub add_lock : Instant → ScheduleLock → List ScheduleLock → Outcome (List ScheduleLock)
unfolding check_conflicts list_active
add_lock now new store = check_conflicts new (list_active now store) >>= λ u. done (new ∷ store)

-- What `create` does before the conflicts are looked at.
unfoldable pub checked_window :
    Dict Order → List Key → ℕ → Instant → LockRequest → Outcome (Option TimeWindow)
unfolding window_by_type check_open_order is_in
checked_window orders machines minutes now r =
    require (has_reason r.reason) validation_error >>= λ u.
    check_machine machines r.machine_id >>= λ u.
    check_order orders r.order_id >>= λ u. window_by_type orders r r.lock_type now minutes

unfoldable pub create :
    Dict Order
    → List Key
    → ℕ
    → Instant
    → LockRequest
    → List ScheduleLock
    → Outcome (List ScheduleLock)
unfolding checked_window add_lock
create orders machines minutes now r store =
    checked_window orders machines minutes now r >>= λ window.
    add_lock now (new_lock r now window) store

-- The first lock of the id, when there is one.
unfoldable pub find_lock : Key → List ScheduleLock → Option ScheduleLock
find_lock k [] = none
find_lock k (l ∷ ls) = let later = find_lock k ls in if k == l.lock_id then some l else later

abbrev pub released : ScheduleLock → ScheduleLock
released l = record {
  lock_id = l.lock_id;
  lock_type = l.lock_type;
  created_at = l.created_at;
  reason = l.reason;
  order_id = l.order_id;
  machine_id = l.machine_id;
  window = l.window;
  sequence_order_ids = l.sequence_order_ids;
  active = false;
}

-- `row.active = False`
unfoldable pub release : Key → List ScheduleLock → List ScheduleLock
release k [] = []
release k (l ∷ ls) = let rest = release k ls in if k == l.lock_id then released l ∷ ls else l ∷ rest

-- What `unlock` does before the lock is released.
unfoldable pub check_unlock : Key → Text → List ScheduleLock → Outcome (Unit {0})
unfolding find_lock
check_unlock k reason store = require (has_reason reason) validation_error >>= λ u.
    elim (find_lock k store) [ none ↦ not_found | some l ↦ require l.active conflict_error ]

unfoldable pub unlock : Key → Text → List ScheduleLock → Outcome (List ScheduleLock)
unfolding check_unlock release
unlock k reason store = check_unlock k reason store >>= λ u. done (release k store)
