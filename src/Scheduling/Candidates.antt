-- ===== src/Scheduling/Candidates.antt =====
-- backend/app/engines/scheduling/candidates.py: which open orders the scheduler considers, and in what
-- order. Messages are left out.
pub mod Release
pub mod Laws
use athena_order_priority.Prelude.{
  ℕ, zero, suc, ℤ, Bool, true, false, not, ◌&&◌, ◌||◌, List, [], ◌∷◌, ◌++◌, Option, none, some, max,
  ltb, leb, if◌then◌else◌, then_by, filter, any, sort_by, Dict, get, put, length, take, drop, map,
}
use athena_order_priority.Domain.Window.{Instant}
use athena_order_priority.Domain.Keys.{Key}
use athena_order_priority.Domain.Status.{
  ReadinessState, waiting_previous_operation, machine_unavailable, OperationStatus, op_in_progress,
  is_schedulable,
}
use athena_order_priority.Domain.Orders.{Order, Operation, due_date}
use athena_order_priority.Domain.Snapshot.{
  PlanningSnapshot, open_orders, pending_operations_for_order,
}
use athena_order_priority.Priority.Ranking.{PriorityResult, score_before, due_before}
use athena_order_priority.Constraints.Readiness.{Blocker}
use athena_order_priority.Domain.Overlays.{ScheduleLock}
use athena_order_priority.Scheduling.Sequences.{apply_sequence_locks}
use athena_order_priority.Scheduling.Locks.{LockKey, LockIndex}

pub record ReadinessAssessment : Type 0 where
  pub state : ReadinessState
  pub blockers : List Blocker

pub data Bucket : Type 0 where
  bucket_in_progress : Bucket
  bucket_locked : Bucket
  bucket_forced : Bucket
  bucket_normal : Bucket

abbrev pub bucket_number : Bucket → ℕ
bucket_number bucket_in_progress = 0
bucket_number bucket_locked = 1
bucket_number bucket_forced = 2
bucket_number bucket_normal = 3

pub record OrderCandidate : Type 0 where
  pub order : Order
  pub priority : PriorityResult
  pub release : Instant
  pub bucket : Bucket
  pub lock_key : Option LockKey
  pub in_progress : Bool

pub data ReasonCode : Type 0 where
  status_not_schedulable : ReasonCode
  no_priority : ReasonCode
  blocked_reason : ReasonCode
  run_limit : ReasonCode

pub record UnscheduledItem : Type 0 where
  pub order_id : Key
  pub reason_code : ReasonCode

-- An order without a lock stands behind every lock.
abbrev pub lock_before : Option LockKey → Option LockKey → Bool → Bool
lock_before none none rest = rest
lock_before none (some b) rest = false
lock_before (some a) none rest = true
lock_before (some a) (some b) rest = then_by a.0 b.0 (then_by a.1 b.1 rest)

-- The comparison of two `sort_key`s.
unfoldable pub candidate_before : OrderCandidate → OrderCandidate → Bool
unfolding due_date
candidate_before c d = then_by (bucket_number c.bucket) (bucket_number d.bucket) (
    lock_before c.lock_key d.lock_key (
      score_before c.priority.score d.priority.score
        (due_before (due_date c.order) (due_date d.order) (leb c.order.order_id d.order.order_id))))

-- `b.state in STRUCTURAL_STATES`
abbrev pub is_structural : ReadinessState → Bool
is_structural waiting_previous_operation = true
is_structural machine_unavailable = true
is_structural _ = false

unfoldable pub real_blockers : List Blocker → List Blocker
unfolding filter
real_blockers bs = filter (λ b. not (is_structural b.state)) bs

-- The real blockers of an order's assessment, when there is one.
unfoldable pub blockers_of : Option ReadinessAssessment → List Blocker
unfolding real_blockers
blockers_of none = []
blockers_of (some a) = real_blockers a.blockers

-- The latest of `now` and the instants at which the blockers resolve; none when one is not known.
unfoldable pub release_after : Instant → List Blocker → Option Instant
release_after now [] = some now
release_after now (b ∷ bs) =
    let rest = release_after now bs in
    elim b.resolves_at [
      | none ↦ none
      | some r ↦ elim rest [ none ↦ none | some t ↦ some (max r t) ]
    ]

-- `_has_in_progress_operation`
unfoldable pub has_in_progress_operation : PlanningSnapshot → Key → Bool
unfolding any pending_operations_for_order
has_in_progress_operation s k =
    any (λ op. is_running op.operation_status && is_there op.machine_id)
      (pending_operations_for_order s k)
  where
    is_running : OperationStatus → Bool
    is_running op_in_progress = true
    is_running _ = false

    is_there : Option Key → Bool
    is_there none = false
    is_there (some m) = true

abbrev pub bucket_of : Bool → Option LockKey → Bool → Bucket
bucket_of true lock forced = bucket_in_progress
bucket_of false (some key) forced = bucket_locked
bucket_of false none true = bucket_forced
bucket_of false none false = bucket_normal

pub data Choice : Type 0 where
  candidate : OrderCandidate → Choice
  left_out : UnscheduledItem → Choice

abbrev drop_order : Order → ReasonCode → Choice
drop_order o code = left_out (record { order_id = o.order_id; reason_code = code })

-- When an order's real blockers let it start: at once without them, at their resolution when the
-- configuration allows it, or not.
unfoldable pub release_of : Bool → Instant → List Blocker → Option Instant
unfolding release_after
release_of schedule_blocked now [] = some now
release_of schedule_blocked now (b ∷ bs) =
    if schedule_blocked then release_after now (b ∷ bs) else none

abbrev beyond_limit : OrderCandidate → UnscheduledItem
beyond_limit c = record { order_id = c.order.order_id; reason_code = run_limit }

-- The cut at `max_orders_per_run`, and the end of the function.
unfoldable pub limit_run :
    Option ℕ
    → List OrderCandidate
    → List UnscheduledItem
    → List OrderCandidate × List UnscheduledItem
unfolding take drop
limit_run none cs items = (cs, items)
limit_run (some n) cs items =
    if ltb n (length cs) then (take n cs, items ++ map beyond_limit (drop n cs)) else (cs, items)

module _ (s : PlanningSnapshot) (priorities : Dict PriorityResult) (schedule_blocked : Bool)
    (assessments : Dict ReadinessAssessment) (now : Instant) (locks : LockIndex) where
  abbrev make_candidate : Order → PriorityResult → Instant → Choice
  make_candidate o p release = candidate (record {
    order = o;
    priority = p;
    release = release;
    bucket =
        bucket_of (has_in_progress_operation s o.order_id) (get o.order_id locks.order_locked)
          p.forced_next;
    lock_key = get o.order_id locks.order_locked;
    in_progress = has_in_progress_operation s o.order_id;
  })

  -- One round of the loop.
  unfoldable pub choose : Order → Choice
  unfolding get release_of blockers_of has_in_progress_operation
  choose o =
      if not (is_schedulable o.order_status)
      then drop_order o status_not_schedulable
      else elim (get o.order_id priorities) [
        | none ↦ drop_order o no_priority
        | some p ↦
            elim (release_of schedule_blocked now (blockers_of (get o.order_id assessments))) [
              | none ↦ drop_order o blocked_reason
              | some release ↦ make_candidate o p release
            ]
      ]

  -- The loop: the candidates and the items left out.
  unfoldable pub split : List Order → List OrderCandidate × List UnscheduledItem
  unfolding choose
  split [] = ([], [])
  split (o ∷ os) =
      let rest = split os in
      elim (choose o) [ candidate c ↦ (c ∷ rest.0, rest.1) | left_out u ↦ (rest.0, u ∷ rest.1) ]

  unfoldable pub select_candidates : Option ℕ → List OrderCandidate × List UnscheduledItem
  unfolding split sort_by candidate_before open_orders apply_sequence_locks limit_run
  select_candidates max_orders =
      let parts = split (open_orders s) in
      limit_run max_orders
        (apply_sequence_locks (λ c. c.order.order_id) (sort_by candidate_before parts.0) locks)
        parts.1
