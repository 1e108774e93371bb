-- ===== src/Services/Versions.antt =====
-- `ScheduleRepository` of backend/app/db/repositories/schedule.py: the stored schedule versions. The
-- store is the list of rows, the last one added first; a query is a function of it.
pub mod Laws
pub mod Live
use athena_order_priority.Prelude.{
  ℕ, ◌+◌, Bool, true, false, not, ◌&&◌, ◌||◌, List, [], ◌∷◌, Option, none, some, max, leb, ◌==◌,
  if◌then◌else◌, filter, map, zero, suc, sort_by,
}
use athena_order_priority.Domain.Window.{Instant, Text}
use athena_order_priority.Domain.Keys.{Key}
use athena_order_priority.Domain.Orders.{or_else}
use athena_order_priority.Domain.Status.{
  ScheduleStatus, draft, approved, published, superseded, rejected,
}
use athena_order_priority.Domain.Results.{ScheduleEntry}
use athena_order_priority.Services.Outcomes.{
  Outcome, done, not_found, conflict_error, validation_error, ◌>>=◌, require,
}
use athena_order_priority.Services.Writeback.{WritebackReceipt}

pub record ScheduleVersion : Type 0 where
  pub version_number : ℕ
  pub status : ScheduleStatus
  pub entries : List ScheduleEntry
  pub generated_by : Option Key
  pub generated_at : Instant
  pub approved_by : Option Key
  pub approved_at : Option Instant
  pub published_by : Option Key
  pub published_at : Option Instant
  pub superseded_at : Option Instant
  pub receipt : Option WritebackReceipt
  pub rejected_by : Option Key
  pub rejection_reason : Option Text

-- `a == b` of two statuses.
abbrev pub same_status : ScheduleStatus → ScheduleStatus → Bool
same_status draft draft = true
same_status approved approved = true
same_status published published = true
same_status superseded superseded = true
same_status rejected rejected = true
same_status _ _ = false

-- `to in SCHEDULE_TRANSITIONS[from]`
abbrev pub allowed : ScheduleStatus → ScheduleStatus → Bool
allowed draft approved = true
allowed draft rejected = true
allowed draft superseded = true
allowed approved published = true
allowed approved rejected = true
allowed approved superseded = true
allowed published superseded = true
allowed _ _ = false

-- `func.max(ScheduleVersionRow.version_number)`, 0 when there is none
unfoldable pub highest : List ScheduleVersion → ℕ
highest [] = 0
highest (v ∷ vs) = max v.version_number (highest vs)

unfoldable pub next_version_number : List ScheduleVersion → ℕ
unfolding highest
next_version_number store = highest store + 1

-- The row that `create_version` adds for the entries of a result.
unfoldable pub new_version :
    ℕ → List ScheduleEntry → Option Key → Instant → ScheduleStatus → ScheduleVersion
new_version number entries generated_by generated_at status = record {
  version_number = number;
  status = status;
  entries = entries;
  generated_by = generated_by;
  generated_at = generated_at;
  approved_by = none;
  approved_at = none;
  published_by = none;
  published_at = none;
  superseded_at = none;
  receipt = none;
  rejected_by = none;
  rejection_reason = none;
}

unfoldable pub create_version :
    List ScheduleEntry
    → Option Key
    → Instant
    → ScheduleStatus
    → List ScheduleVersion
    → List ScheduleVersion
unfolding new_version next_version_number
create_version entries generated_by generated_at status store =
    new_version (next_version_number store) entries generated_by generated_at status ∷ store

-- The row of a version number.
unfoldable pub find : ℕ → List ScheduleVersion → Option ScheduleVersion
find n [] = none
find n (v ∷ vs) = let later = find n vs in if n == v.version_number then some v else later

abbrev pub or_missing : Option ScheduleVersion → Outcome ScheduleVersion
or_missing none = not_found
or_missing (some v) = done v

-- `_version_row`
unfoldable pub get_version : ℕ → List ScheduleVersion → Outcome ScheduleVersion
get_version n store = or_missing (find n store)

-- The fields of the row of a version number are set.
unfoldable pub update :
    ℕ → (ScheduleVersion → ScheduleVersion) → List ScheduleVersion → List ScheduleVersion
update n f [] = []
update n f (v ∷ vs) =
    let rest = update n f vs in if n == v.version_number then f v ∷ vs else v ∷ rest

-- The status is set, and who set it and when.
abbrev pub stamp : ScheduleStatus → Option Key → Instant → ScheduleVersion → ScheduleVersion
stamp approved user at v = record v { status = approved; approved_by = user; approved_at = some at }
stamp published user at v = record v {
  status = published;
  published_by = user;
  published_at = some at;
}
stamp superseded user at v = record v { status = superseded; superseded_at = some at }
stamp draft user at v = record v { status = draft }
stamp rejected user at v = record v { status = rejected }

-- `set_status` on the row that it found.
unfoldable pub change_status :
    ScheduleStatus
    → Option Key
    → Instant
    → List ScheduleVersion
    → ScheduleVersion
    → Outcome (List ScheduleVersion)
unfolding update
change_status status user at store v =
    if same_status v.status status
    then done store
    else if allowed v.status status
    then done (update v.version_number (stamp status user at) store)
    else conflict_error

unfoldable pub set_status :
    ℕ
    → ScheduleStatus
    → Option Key
    → Instant
    → List ScheduleVersion
    → Outcome (List ScheduleVersion)
unfolding get_version change_status
set_status n status user at store = get_version n store >>= change_status status user at store

abbrev pub is_live : ScheduleVersion → Bool
is_live v = same_status v.status published || same_status v.status approved

abbrev pub supersede_unless : ℕ → Instant → ScheduleVersion → ScheduleVersion
supersede_unless keep at v =
    if not (v.version_number == keep) && is_live v then stamp superseded none at v else v

-- `supersede_others`
unfoldable pub supersede_others : ℕ → Instant → List ScheduleVersion → List ScheduleVersion
supersede_others keep at [] = []
supersede_others keep at (v ∷ vs) = supersede_unless keep at v ∷ supersede_others keep at vs

-- `order_by(ScheduleVersionRow.version_number.desc())`
abbrev pub newest_first : ScheduleVersion → ScheduleVersion → Bool
newest_first v w = leb w.version_number v.version_number

abbrev pub has_status : ScheduleStatus → ScheduleVersion → Bool
has_status status v = same_status v.status status

-- `stmt.limit(n)`
unfoldable pub limited {ℓ} : {A : Type ℓ} → ℕ → List A → List A
limited zero xs = []
limited (suc n) [] = []
limited (suc n) (x ∷ xs) = x ∷ limited n xs

-- `list_versions` of one status from the first one on; `validate_paging` refuses a limit of 0.
unfoldable pub list_versions : ScheduleStatus → ℕ → List ScheduleVersion → List ScheduleVersion
unfolding filter sort_by limited
list_versions status limit store =
    limited limit (sort_by newest_first (filter (has_status status) store))

abbrev pub first {ℓ} : {A : Type ℓ} → List A → Option A
first [] = none
first (x ∷ xs) = some x

-- `get_latest(status)`
unfoldable pub get_latest : ScheduleStatus → List ScheduleVersion → Option ScheduleVersion
unfolding list_versions
get_latest status store = first (list_versions status 1 store)

unfoldable pub get_current : List ScheduleVersion → Option ScheduleVersion
unfolding get_latest
get_current store =
    or_else (get_latest published store)
      (or_else (get_latest approved store) (get_latest draft store))
