-- ===== src/Domain/Overlays.antt =====
-- The planner's overlays of backend/app/domain/models.py: locks, priority overrides, expedites and
-- customer rules. Points are integers of a fixed unit.
use athena_order_priority.Prelude.{ℤ, Bool, true, ◌&&◌, List, Option, none, some, ltb, leb}
use athena_order_priority.Domain.Window.{Instant, Text, TimeWindow}
use athena_order_priority.Domain.Keys.{Key}
use athena_order_priority.Domain.Status.{LockType, OverrideType}

pub record ScheduleLock : Type 0 where
  pub lock_id : Key
  pub lock_type : LockType
  pub created_at : Instant
  pub reason : Text
  pub order_id : Option Key
  pub machine_id : Option Key
  pub window : Option TimeWindow
  pub sequence_order_ids : List Key
  pub active : Bool

pub record PriorityOverride : Type 0 where
  pub override_id : Key
  pub order_id : Key
  pub override_type : OverrideType
  pub target_machine_id : Option Key
  pub created_at : Instant
  pub value : Option ℤ
  pub expires_at : Option Instant
  pub active : Bool

-- `expires_at is None or now < expires_at`
abbrev pub not_expired : Option Instant → Instant → Bool
not_expired none now = true
not_expired (some e) now = ltb now e

-- `PriorityOverride.is_active_at`
unfoldable pub override_is_active_at : PriorityOverride → Instant → Bool
override_is_active_at o now = o.active && not_expired o.expires_at now

pub record Expedite : Type 0 where
  pub expedite_id : Key
  pub order_id : Key
  pub boost_points : ℤ
  pub starts_at : Instant
  pub expires_at : Instant
  pub active : Bool

-- `Expedite.is_active_at`
unfoldable pub expedite_is_active_at : Expedite → Instant → Bool
expedite_is_active_at e now = e.active && (leb e.starts_at now && ltb now e.expires_at)

pub record CustomerRule : Type 0 where
  pub customer_id : Key
  pub priority_boost_points : ℤ
  pub active : Bool
