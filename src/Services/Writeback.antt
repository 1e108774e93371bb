-- ===== src/Services/Writeback.antt =====
-- The gateways of backend/app/integration/writeback.py and `WritebackService` of
-- backend/app/services/writeback_service.py. The texts of a receipt and the identifiers it is given
-- are left out.
use athena_order_priority.Prelude.{
  ℕ, Bool, true, false, not, ◌&&◌, ◌||◌, List, Option, none, some, length, if◌then◌else◌,
}
use athena_order_priority.Domain.Window.{Instant}
use athena_order_priority.Domain.Keys.{Key}
use athena_order_priority.Domain.Status.{
  WritebackMode, read_only, approval, writeback, controlled_auto,
}
use athena_order_priority.Domain.Results.{ScheduleEntry}
use athena_order_priority.Services.Outcomes.{
  Outcome, done, validation_error, conflict_error, integration_error, configuration_error, ◌>>=◌,
  require,
}

pub data WritebackStatus : Type 0 where
  sent : WritebackStatus
  skipped_read_only : WritebackStatus
  rejected_by_rules : WritebackStatus
  failed : WritebackStatus

pub record WritebackReceipt : Type 0 where
  pub mode : WritebackMode
  pub status : WritebackStatus
  pub attempted_at : Instant
  pub entries_published : ℕ
  pub approved_by : Option Key

abbrev is_auto : WritebackMode → Bool
is_auto controlled_auto = true
is_auto _ = false

abbrev given {ℓ} : {A : Type ℓ} → Option A → Bool
given none = false
given (some a) = true

-- `check_publish_preconditions`
unfoldable pub check_publish_preconditions :
    WritebackMode → Option Key → Option (List ScheduleEntry → Bool) → Outcome (Unit {0})
check_publish_preconditions approval approved_by rule = require (given approved_by) validation_error
check_publish_preconditions controlled_auto approved_by rule =
    require (given rule) configuration_error
check_publish_preconditions read_only approved_by rule = done tt
check_publish_preconditions writeback approved_by rule = done tt

-- `ReadOnlyWritebackGateway.publish`
abbrev pub read_only_publish : Instant → WritebackMode → Option Key → WritebackReceipt
read_only_publish now mode approved_by = record {
  mode = mode;
  status = skipped_read_only;
  attempted_at = now;
  entries_published = 0;
  approved_by = approved_by;
}

abbrev rule_allows : Option (List ScheduleEntry → Bool) → List ScheduleEntry → Bool
rule_allows none entries = true
rule_allows (some rule) entries = rule entries

-- The receipt of `MockWritebackGateway.publish` when the preconditions hold.
unfoldable pub mock_receipt :
    Option (List ScheduleEntry → Bool)
    → Instant
    → List ScheduleEntry
    → WritebackMode
    → Option Key
    → WritebackReceipt
mock_receipt rule now entries mode approved_by =
    if is_auto mode && not (rule_allows rule entries)
    then (record {
      mode = mode;
      status = rejected_by_rules;
      attempted_at = now;
      entries_published = 0;
      approved_by = none;
    })
    else (record {
      mode = mode;
      status = sent;
      attempted_at = now;
      entries_published = length entries;
      approved_by = approved_by;
    })

-- `MockWritebackGateway.publish`
unfoldable pub mock_publish :
    Option (List ScheduleEntry → Bool)
    → Instant
    → List ScheduleEntry
    → WritebackMode
    → Option Key
    → Outcome WritebackReceipt
unfolding check_publish_preconditions mock_receipt
mock_publish rule now entries read_only approved_by =
    done (read_only_publish now read_only approved_by)
mock_publish rule now entries approval approved_by =
    check_publish_preconditions approval approved_by rule >>= λ u.
    done (mock_receipt rule now entries approval approved_by)
mock_publish rule now entries writeback approved_by =
    check_publish_preconditions writeback approved_by rule >>= λ u.
    done (mock_receipt rule now entries writeback approved_by)
mock_publish rule now entries controlled_auto approved_by =
    check_publish_preconditions controlled_auto approved_by rule >>= λ u.
    done (mock_receipt rule now entries controlled_auto approved_by)

-- `effective_mode`
abbrev pub effective_mode : WritebackMode → Bool → WritebackMode
effective_mode controlled_auto false = approval
effective_mode controlled_auto true = controlled_auto
effective_mode mode auto = mode

-- `gateway.publish`, of the gateway that the configured mode selects
unfoldable pub gateway_publish :
    WritebackMode
    → (List ScheduleEntry → Bool)
    → Instant
    → List ScheduleEntry
    → WritebackMode
    → Option Key
    → Outcome WritebackReceipt
unfolding mock_publish
gateway_publish read_only rule now entries mode user = done (read_only_publish now mode user)
gateway_publish configured rule now entries mode user =
    mock_publish (some rule) now entries mode user

-- `receipt.status in ("failed", "rejected_by_rules")`
abbrev pub is_refused : WritebackStatus → Bool
is_refused failed = true
is_refused rejected_by_rules = true
is_refused _ = false

-- `WritebackService.publish`; the store gets the receipt from the caller. An error drops it, as the
-- session is rolled back.
unfoldable pub send :
    WritebackMode
    → (List ScheduleEntry → Bool)
    → Instant
    → List ScheduleEntry
    → Option Key
    → Bool
    → Outcome WritebackReceipt
unfolding gateway_publish
send configured rule now entries user auto =
    require (not auto || is_auto configured) conflict_error >>= λ u.
    gateway_publish configured rule now entries (effective_mode configured auto) user >>= λ receipt.
    require (not (is_refused receipt.status)) integration_error >>= λ u. done receipt
