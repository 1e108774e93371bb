-- ===== src/Scheduling/Batching.antt =====
-- backend/app/engines/scheduling/batching.py: which queued job a machine takes next. Scores and
-- durations are natural numbers of a fixed unit (durations and `max_delay_hours` in microseconds),
-- and a `reason` is the constructor of the message, not its text.
pub mod Laws
use athena_order_priority.Prelude.{
  ℕ, zero, suc, ◌+◌, Bool, true, false, ◌||◌, not, ◌&&◌, List, [], ◌∷◌, ◌++◌, Option, none, some,
  ltb, if◌then◌else◌, filter, is_nil, length,
}
use athena_order_priority.Domain.Window.{Instant}
use athena_order_priority.Domain.Keys.{Key, same, is_subset}
use athena_order_priority.Calendar.Machine.{MachineCalendar}
use athena_order_priority.Calendar.Work.{Found, found, never_working, spent, ◌>>=◌, add_work}

pub record BatchCandidate : Type 0 where
  pub order_id : Key
  pub operation_id : Key
  pub score : ℕ
  pub duration : ℕ
  pub due_date : Option Instant
  pub setup_family : Option Key
  pub material_id : Option Key
  pub part_family : Option Key
  pub customer_id : Option Key
  pub tooling_ids : List Key
  pub forced_next : Bool
  pub locked : Bool

-- `MachineState` of backend/app/engines/constraints/base.py.
pub record MachineState : Type 0 where
  pub machine_id : Key
  pub next_free : Instant
  pub current_setup_family : Option Key
  pub current_material_id : Option Key
  pub mounted_tooling : List Key
  pub scheduled_minutes : ℕ
  pub last_customer_id : Option Key
  pub last_part_family : Option Key

-- A name of `config.batching.dimensions`; `other` is a name without a test.
pub data Dimension : Type 0 where
  by_setup_family : Dimension
  by_material : Dimension
  by_part_family : Dimension
  by_tool : Dimension
  by_customer : Dimension
  other : Dimension

pub record BatchingConfig : Type 0 where
  pub enabled : Bool
  pub dimensions : List Dimension
  pub min_priority_gap : ℕ
  pub max_delay : ℕ

pub data Reason : Type 0 where
  disabled : Reason
  head_fixed : Reason
  head_shares : Reason
  pulled : Reason
  none_close : Reason

pub record BatchDecision : Type 0 where
  pub chosen : BatchCandidate
  pub reason : Reason
  pub pulled_forward : Bool
  pub matched_dimensions : List Dimension
  pub bypassed : ℕ

-- The branches of the loop over `config.batching.dimensions`.
unfoldable pub shares : BatchCandidate → MachineState → Dimension → Bool
unfolding is_subset
shares c s by_setup_family = false
shares c s by_material = same c.material_id s.current_material_id
shares c s by_part_family = same c.part_family s.last_part_family
shares c s by_tool = not (is_nil c.tooling_ids) && is_subset c.tooling_ids s.mounted_tooling
shares c s by_customer = same c.customer_id s.last_customer_id
shares c s other = false

unfoldable pub shared_dimensions : BatchCandidate → MachineState → BatchingConfig → List Dimension
unfolding shares filter
shared_dimensions c s config =
    let rest = filter (shares c s) config.dimensions in
    if same c.setup_family s.current_setup_family then by_setup_family ∷ rest else rest

-- `_finish`
unfoldable pub finish : MachineState → Option MachineCalendar → ℕ → Found Instant
finish s none minutes = found (s.next_free + minutes)
finish s (some calendar) minutes = add_work calendar s.next_free minutes

-- One bypassed job: its order, when its due date is missed.
unfoldable pub late : Key → Instant → Instant → Option Key
late order due end = if ltb due end then some order else none

-- The loop returns at the first order that is late.
abbrev pub unless_late {ℓ} : {A : Type ℓ} → (Key → A) → A → Option Key → A
unless_late f after none = after
unless_late f after (some order) = f order

module _ (s : MachineState) (calendar : Option MachineCalendar) (extra : ℕ) where
  -- The test of one job of the loop, `cumulative` being the sum up to it.
  unfoldable pub check_job : BatchCandidate → ℕ → Found (Option Key)
  unfolding finish late
  check_job job cumulative = elim job.due_date [
    | none ↦ found none
    | some due ↦ finish s calendar (cumulative + extra) >>= λ end. found (late job.order_id due end)
  ]

  -- `_due_dates_hold`, from the sum `cumulative` on.
  unfoldable pub due_dates_hold : List BatchCandidate → ℕ → Found (Option Key)
  unfolding check_job
  due_dates_hold [] cumulative = found none
  due_dates_hold (job ∷ jobs) cumulative =
      let after = due_dates_hold jobs (cumulative + job.duration) in
      check_job job (cumulative + job.duration) >>= unless_late (λ order. found (some order)) after

abbrev pub head_of : BatchCandidate → Reason → BatchDecision
head_of head reason = record {
  chosen = head;
  reason = reason;
  pulled_forward = false;
  matched_dimensions = [];
  bypassed = 0;
}

-- The decision to pull `c` forward over the jobs of `passed`.
unfoldable pub pull :
    MachineState → BatchingConfig → List BatchCandidate → BatchCandidate → BatchDecision
unfolding shared_dimensions
pull s config passed c = record {
  chosen = c;
  reason = pulled;
  pulled_forward = true;
  matched_dimensions = shared_dimensions c s config;
  bypassed = length passed;
}

-- The tests on one job of the loop that only skip it; `next` is the rest of the loop.
unfoldable pub try_pull :
    MachineState
    → BatchingConfig
    → Option MachineCalendar
    → List BatchCandidate
    → BatchCandidate
    → Found BatchDecision
    → Found BatchDecision
unfolding pull due_dates_hold
try_pull s config calendar passed c next =
    if is_nil (shared_dimensions c s config)
    then next
    else if ltb config.max_delay c.duration
    then next
    else due_dates_hold s calendar c.duration passed 0
      >>= unless_late (λ order. next) (found (pull s config passed c))

module _ (head : BatchCandidate) (s : MachineState) (config : BatchingConfig)
    (calendar : Option MachineCalendar) where
  -- The loop of `pick_next`: `passed` is `queue[:index]`.
  unfoldable pub scan : List BatchCandidate → List BatchCandidate → Found BatchDecision
  unfolding try_pull
  scan passed [] = found (head_of head none_close)
  scan passed (c ∷ cs) =
      let next = scan (passed ++ c ∷ []) cs in
      if c.forced_next || c.locked
      then found (head_of head none_close)
      else if ltb (c.score + config.min_priority_gap) head.score
      then found (head_of head none_close)
      else try_pull s config calendar passed c next

unfoldable pub pick_next :
    List BatchCandidate
    → MachineState
    → BatchingConfig
    → Option MachineCalendar
    → Found (Option BatchDecision)
unfolding scan shared_dimensions
pick_next [] s config calendar = found none
pick_next (head ∷ rest) s config calendar =
    let matched = shared_dimensions head s config in
    if not config.enabled
    then found (some (head_of head disabled))
    else if head.forced_next || head.locked
    then found (some (head_of head head_fixed))
    else if not (is_nil matched)
    then found (
        some (record {
          chosen = head;
          reason = head_shares;
          pulled_forward = false;
          matched_dimensions = matched;
          bypassed = 0;
        }))
    else scan head s config calendar (head ∷ []) rest >>= λ d. found (some d)
