-- ===== src/Scheduling/Frozen.antt =====
-- `reproduce_frozen_entries` of backend/app/engines/scheduling/state.py: the entries of the previous
-- schedule that a run keeps. Its warnings are left out.
pub mod Laws
use athena_order_priority.Prelude.{
  ℕ, ◌+◌, Bool, true, false, not, ◌&&◌, ◌||◌, List, [], ◌∷◌, ◌++◌, Option, none, some, ltb, leb,
  ◌==◌, max, map, if◌then◌else◌, Dict, get, put, sort_by, then_by, any,
}
use athena_order_priority.Domain.Window.{Instant}
use athena_order_priority.Domain.Keys.{Key, is_in}
use athena_order_priority.Domain.Orders.{Order, Operation, is_open, is_done}
use athena_order_priority.Domain.Results.{ScheduleEntry}
use athena_order_priority.Domain.Snapshot.{PlanningSnapshot}
use athena_order_priority.Scheduling.Batching.{MachineState}
use athena_order_priority.Scheduling.Locks.{LockIndex, LockKey}
use athena_order_priority.Scheduling.Timeline.{MachineTimeline}
use athena_order_priority.Scheduling.State.{apply_entry_to_state, add_entry}

-- `snapshot.operations.get(operation_id)`
unfoldable pub find_operation : Key → List Operation → Option Operation
find_operation k [] = none
find_operation k (op ∷ ops) =
    let later = find_operation k ops in if k == op.operation_id then some op else later

abbrev order_is_open : Option Order → Bool
order_is_open none = false
order_is_open (some o) = is_open o

abbrev pending_or_open : Option Operation → Option Order → Bool
pending_or_open none order = order_is_open order
pending_or_open (some op) order = not (is_done op)

-- `_operation_is_pending`
unfoldable pub operation_is_pending : PlanningSnapshot → ScheduleEntry → Bool
unfolding find_operation get is_open is_done
operation_is_pending s e =
    pending_or_open (find_operation e.operation_id s.operations) (get e.order_id s.orders)

abbrev pub is_there {ℓ} : {A : Type ℓ} → Option A → Bool
is_there none = false
is_there (some a) = true

-- No pin, or one to the machine.
abbrev pub pinned_on : Option (Key × LockKey) → Key → Bool
pinned_on none m = true
pinned_on (some pin) m = pin.0 == m

-- The entry belongs to the lock window, to a locked order or to a locked machine.
unfoldable pub in_scope : LockIndex → Instant → ScheduleEntry → Bool
unfolding get is_in
in_scope locks window_end e =
    ltb e.setup_start window_end
    || is_there (get e.order_id locks.order_locked)
    || is_in e.machine_id locks.frozen_machines

-- The entry may be kept, as far as the snapshot and the locks say.
unfoldable pub may_keep : PlanningSnapshot → LockIndex → Instant → Instant → ScheduleEntry → Bool
unfolding in_scope get is_open operation_is_pending
may_keep s locks now window_end e =
    in_scope locks window_end e
    && not (leb e.end now)
    && order_is_open (get e.order_id s.orders)
    && operation_is_pending s e

-- `sorted(previous_entries, key=lambda e: (e.machine_id, e.setup_start, e.operation_id))`
abbrev pub entry_le : ScheduleEntry → ScheduleEntry → Bool
entry_le e f =
    then_by e.machine_id f.machine_id
      (then_by e.setup_start f.setup_start (leb e.operation_id f.operation_id))

-- The result, with the states and timelines that the loop changes, and `seen`.
pub record FrozenResult : Type 0 where
  pub entries : List ScheduleEntry
  pub states : Dict MachineState
  pub timelines : Dict MachineTimeline
  pub seen : List Key

-- `timeline is None or frozen.setup_start >= timeline.tail_end`
abbrev is_tail : Option MachineTimeline → Instant → Bool
is_tail none t = true
is_tail (some m) t = leb m.tail_end t

abbrev with_entry :
    Option MachineTimeline
    → ScheduleEntry
    → Option Operation
    → Option Order
    → Dict MachineTimeline
    → Dict MachineTimeline
with_entry none e op order timelines = timelines
with_entry (some m) e op order timelines = put e.machine_id (add_entry e op order none m) timelines

abbrev pub locked_entry : ScheduleEntry → ScheduleEntry
locked_entry e = record e { locked = true }

-- The entry is kept, and its machine's state and timeline follow.
unfoldable pub keep : PlanningSnapshot → MachineState → ScheduleEntry → FrozenResult → FrozenResult
unfolding find_operation get put apply_entry_to_state add_entry
keep s state e r =
    let op = find_operation e.operation_id s.operations in
    let order = get e.order_id s.orders in
    let timeline = get e.machine_id r.timelines in
    record {
      entries = r.entries ++ locked_entry e ∷ [];
      states =
          put e.machine_id
            (apply_entry_to_state state (locked_entry e) op order (is_tail timeline e.setup_start))
            r.states;
      timelines = with_entry timeline (locked_entry e) op order r.timelines;
      seen = e.operation_id ∷ r.seen;
    }

abbrev pub keep_on :
    PlanningSnapshot → Option MachineState → Bool → ScheduleEntry → FrozenResult → FrozenResult
keep_on s none pinned e r = r
keep_on s (some state) false e r = r
keep_on s (some state) true e r = keep s state e r

-- One round of the loop.
unfoldable pub reproduce_one :
    PlanningSnapshot → LockIndex → Instant → Instant → FrozenResult → ScheduleEntry → FrozenResult
unfolding is_in may_keep get keep
reproduce_one s locks now window_end r e =
    if is_in e.operation_id r.seen
    then r
    else if may_keep s locks now window_end e
    then keep_on s (get e.machine_id r.states)
        (pinned_on (get e.order_id locks.pinned) e.machine_id) e r
    else r

unfoldable pub reproduce_each :
    PlanningSnapshot
    → LockIndex
    → Instant
    → Instant
    → FrozenResult
    → List ScheduleEntry
    → FrozenResult
unfolding reproduce_one
reproduce_each s locks now window_end r [] = r
reproduce_each s locks now window_end r (e ∷ es) =
    reproduce_each s locks now window_end (reproduce_one s locks now window_end r e) es

-- `window` is `lock_window_minutes`.
unfoldable pub reproduce_frozen_entries :
    List ScheduleEntry
    → PlanningSnapshot
    → Dict MachineState
    → Dict MachineTimeline
    → LockIndex
    → Instant
    → ℕ
    → FrozenResult
unfolding reproduce_each sort_by
reproduce_frozen_entries previous s states timelines locks now window =
    reproduce_each s locks now (now + window)
      (record { entries = []; states = states; timelines = timelines; seen = [] })
      (sort_by entry_le previous)
