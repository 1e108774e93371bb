-- ===== src/Services/Schedule.antt =====
-- The state machine of schedule versions: `approve`, `reject` and `publish` of `ScheduleService`
-- (backend/app/services/schedule_service.py). Reasons come stripped; the audit trail is left out. A
-- call reads the clock as `now`.
pub mod Calls
pub mod Approval
pub mod Invariant
pub mod Progress
pub mod Ways
pub mod Lifecycle
use athena_order_priority.Prelude.{
  ℕ, Bool, ◌||◌, List, [], ◌∷◌, Option, none, some, ◌==◌, map, if◌then◌else◌,
}
use athena_order_priority.Domain.Window.{Instant, Text}
use athena_order_priority.Domain.Keys.{Key}
use athena_order_priority.Domain.Status.{
  ScheduleStatus, draft, approved, published, superseded, rejected, WritebackMode,
}
use athena_order_priority.Domain.Results.{ScheduleEntry}
use athena_order_priority.Services.Outcomes.{
  Outcome, done, validation_error, conflict_error, ◌>>=◌, require, has_reason,
}
use athena_order_priority.Services.Writeback.{WritebackReceipt, send}
use athena_order_priority.Services.Versions.{
  ScheduleVersion, same_status, create_version, get_version, update, set_status, supersede_others,
  list_versions,
}

-- The version that `generate` stores; its entries are what the engines plan.
unfoldable pub generate :
    List ScheduleEntry → Option Key → Instant → List ScheduleVersion → List ScheduleVersion
unfolding create_version
generate entries user now store = create_version entries user now draft store

-- The checks of a call: a reason, a stored version, and one of the statuses that may go on.
unfoldable pub checked_version :
    (ScheduleStatus → Bool) → ℕ → Text → List ScheduleVersion → Outcome ScheduleVersion
unfolding get_version
checked_version may_go n reason store = require (has_reason reason) validation_error >>= λ u.
    get_version n store >>= λ v. require (may_go v.status) conflict_error >>= λ u. done v

-- The body of the loop of `_supersede`.
unfoldable pub supersede_one :
    ℕ → Instant → ScheduleVersion → List ScheduleVersion → Outcome (List ScheduleVersion)
unfolding set_status
supersede_one keep at v store =
    if v.version_number == keep
    then done store
    else set_status v.version_number superseded none at store

unfoldable pub supersede_each :
    ℕ → Instant → List ScheduleVersion → List ScheduleVersion → Outcome (List ScheduleVersion)
unfolding supersede_one
supersede_each keep at [] store = done store
supersede_each keep at (v ∷ vs) store = supersede_one keep at v store >>= supersede_each keep at vs

-- `_supersede`
unfoldable pub supersede :
    ScheduleStatus → ℕ → Instant → List ScheduleVersion → Outcome (List ScheduleVersion)
unfolding supersede_each list_versions
supersede status keep at store = supersede_each keep at (list_versions status 1000 store) store

abbrev pub is_draft : ScheduleStatus → Bool
is_draft s = same_status s draft

abbrev pub is_approved : ScheduleStatus → Bool
is_approved s = same_status s approved

abbrev pub is_rejectable : ScheduleStatus → Bool
is_rejectable s = is_draft s || is_approved s

-- `approve` after its checks.
unfoldable pub approve_checked :
    ℕ → Option Key → Instant → List ScheduleVersion → Outcome (List ScheduleVersion)
unfolding supersede set_status
approve_checked n user now store = supersede approved n now store >>= set_status n approved user now

unfoldable pub approve :
    ℕ → Option Key → Text → Instant → List ScheduleVersion → Outcome (List ScheduleVersion)
unfolding checked_version approve_checked
approve n user reason now store =
    checked_version is_draft n reason store >>= λ v. approve_checked n user now store

-- `update_details(version_number, {"rejected_by": ..., "rejection_reason": ...})`
abbrev pub add_rejection : Option Key → Text → ScheduleVersion → ScheduleVersion
add_rejection user reason v = record v { rejected_by = user; rejection_reason = some reason }

unfoldable pub reject :
    ℕ → Option Key → Text → Instant → List ScheduleVersion → Outcome (List ScheduleVersion)
unfolding checked_version set_status update
reject n user reason now store = checked_version is_rejectable n reason store >>= λ v.
    set_status n rejected user now store >>= λ changed.
    done (update n (add_rejection user reason) changed)

-- `update_details(version_number, {RECEIPT_KEY: receipt})`
abbrev pub add_receipt : WritebackReceipt → ScheduleVersion → ScheduleVersion
add_receipt receipt v = record v { receipt = some receipt }

-- What `publish` stores once the gateway has taken the schedule.
unfoldable pub publish_sent :
    ℕ
    → Option Key
    → Instant
    → List ScheduleVersion
    → WritebackReceipt
    → Outcome (List ScheduleVersion)
unfolding set_status supersede_others update
publish_sent n user now store receipt =
    set_status n published user now (supersede_others n now (update n (add_receipt receipt) store))

unfoldable pub publish :
    WritebackMode
    → (List ScheduleEntry → Bool)
    → ℕ
    → Option Key
    → Text
    → Bool
    → Instant
    → List ScheduleVersion
    → Outcome (List ScheduleVersion)
unfolding checked_version send publish_sent
publish mode rule n user reason auto now store = checked_version is_approved n reason store >>= λ v.
    send mode rule now v.entries user auto >>= publish_sent n user now store
