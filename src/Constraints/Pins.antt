-- ===== src/Constraints/Pins.antt =====
-- `pinned_machine_for_order` of backend/app/engines/constraints/hard.py. Which lock or override pins is
-- left out of the result.
pub mod Laws
use athena_order_priority.Prelude.{
  ℕ, Bool, true, false, not, ◌&&◌, ◌||◌, List, [], ◌∷◌, Option, none, some, ltb, ◌==◌,
  if◌then◌else◌,
}
use athena_order_priority.Domain.Window.{Instant}
use athena_order_priority.Domain.Keys.{Key, same}
use athena_order_priority.Domain.Status.{
  LockType, order_lock, machine_lock, OverrideType, lock_machine_assignment,
}
use athena_order_priority.Domain.Overlays.{ScheduleLock, PriorityOverride, override_is_active_at}
use athena_order_priority.Domain.Snapshot.{PlanningSnapshot, has_ended}

-- When a decision was made, and the machine it names.
abbrev pub Pin : Type 0
Pin = Instant × Key

-- `lock.lock_type in (LockType.ORDER, LockType.MACHINE)`
abbrev pub may_pin : LockType → Bool
may_pin order_lock = true
may_pin machine_lock = true
may_pin _ = false

abbrev is_assignment : OverrideType → Bool
is_assignment lock_machine_assignment = true
is_assignment _ = false

-- The candidate, when there is a machine and the tests hold.
abbrev pub pin_when : Bool → Instant → Option Key → Option Pin
pin_when false at machine = none
pin_when true at none = none
pin_when true at (some m) = some (at, m)

unfoldable pub lock_pin : Key → Instant → ScheduleLock → Option Pin
lock_pin k at l =
    pin_when (l.active && same l.order_id k && may_pin l.lock_type && not (has_ended l.window at))
      l.created_at l.machine_id
  where
    same : Option Key → Key → Bool
    same none k = false
    same (some j) k = j == k

unfoldable pub override_pin : Key → Instant → PriorityOverride → Option Pin
unfolding override_is_active_at
override_pin k at o =
    pin_when (o.order_id == k && is_assignment o.override_type && override_is_active_at o at)
      o.created_at o.target_machine_id

-- `if best is None or candidate[0] > best[0]`
abbrev pub later_pin : Option Pin → Option Pin → Option Pin
later_pin best none = best
later_pin none (some c) = some c
later_pin (some b) (some c) = if ltb b.0 c.0 then some c else some b

-- The loop over the decisions.
unfoldable pub latest_pin {ℓ} : {A : Type ℓ} → (A → Option Pin) → Option Pin → List A → Option Pin
latest_pin pin best [] = best
latest_pin pin best (x ∷ xs) = latest_pin pin (later_pin best (pin x)) xs

abbrev pub unless_pinned : Option Pin → Option Pin → Option Pin
unless_pinned (some b) other = some b
unless_pinned none other = other

abbrev pub pinned_machine : Option Pin → Option Key
pinned_machine none = none
pinned_machine (some b) = some b.1

unfoldable pub pinned_machine_for_order : PlanningSnapshot → Key → Instant → Option Key
unfolding latest_pin lock_pin override_pin
pinned_machine_for_order s k at = pinned_machine (
    unless_pinned (latest_pin (lock_pin k at) none s.locks)
      (latest_pin (override_pin k at) none s.overrides))
