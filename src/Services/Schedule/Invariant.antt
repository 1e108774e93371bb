-- ===== src/Services/Schedule/Invariant.antt =====
-- The theorems about one approved and one published version at most
-- (backend/app/services/schedule_service.py).
use athena_order_priority.Prelude.{
  ℕ, ◌≡◌, refl, subst, ap, sym, ◌∙◌, Bool, true, List, Option, some, ◌==◌, filter, arith,
}
use athena_order_priority.Domain.Window.{Instant, Text}
use athena_order_priority.Domain.Keys.{Key}
use athena_order_priority.Domain.Status.{draft, approved, published, rejected, WritebackMode}
use athena_order_priority.Domain.Results.{ScheduleEntry}
use athena_order_priority.Services.Outcomes.{done}
use athena_order_priority.Services.Writeback.{WritebackReceipt}
use athena_order_priority.Services.Versions.{
  ScheduleVersion, allowed, has_status, same_status, find, update, stamp, supersede_others,
  supersede_unless, create_version,
}
use athena_order_priority.Services.Versions.Laws.{
  IsDescending, count, bit, create_version-IsDescending, update-IsDescending, find-update,
  count-update, count-update_same, find-count, find-number,
}
use athena_order_priority.Services.Versions.Live.{
  supersede_others-IsDescending, supersede_others-find, supersede_others-live, count-live,
}
use athena_order_priority.Services.Schedule.{
  generate, approve, reject, add_rejection, publish, publish_sent, add_receipt,
}
use athena_order_priority.Services.Schedule.Calls.{
  Changes, is_there, is_changed, set_status-Changes, set_status-done, reject-done, publish-done,
}
use athena_order_priority.Services.Schedule.Approval.{IsValid, is_approved_lem, approve-stamped}

generate-IsValid :
    (entries : List ScheduleEntry) (user : Option Key) (now : Instant)
    (store : List ScheduleVersion)
    → IsValid store
    → IsValid (generate entries user now store)
unfolding generate create_version filter
generate-IsValid entries user now store valid =
    (create_version-IsDescending entries user now draft store valid.0, valid.1, valid.2)

rejected-IsValid :
    (v : ScheduleVersion) (user : Option Key) (now : Instant) (store after : List ScheduleVersion)
    → find v.version_number store ≡ some v
    → IsValid store
    → Changes v rejected user now store after
    → IsValid after
rejected-IsValid v user now store after found valid (is_there _ same) = subst IsValid same valid
rejected-IsValid v user now store after found valid (is_changed _ same) =
    let f = stamp rejected user now in
    subst IsValid same (
      update-IsDescending v.version_number f (λ x. refl) store valid.0,
      omega (arith, valid.1, count-update (has_status approved) v.version_number f store v found),
      omega (arith, valid.2, count-update (has_status published) v.version_number f store v found),
    )

-- A change that keeps the number and the status of a row.
update-IsValid :
    (n : ℕ) (f : ScheduleVersion → ScheduleVersion) (store : List ScheduleVersion)
    → ((v : ScheduleVersion) → (f v).version_number ≡ v.version_number)
    → ((v : ScheduleVersion) → (f v).status ≡ v.status)
    → IsValid store
    → IsValid (update n f store)
update-IsValid n f store number status valid = (
  update-IsDescending n f number store valid.0,
  omega (
    arith,
    valid.1,
    count-update_same (has_status approved) n f store
        (λ v. ap (λ s. same_status s approved) (status v)),
  ),
  omega (
    arith,
    valid.2,
    count-update_same (has_status published) n f store
        (λ v. ap (λ s. same_status s published) (status v)),
  ),
)

reject-IsValid :
    (n : ℕ) (user : Option Key) (reason : Text) (now : Instant) (store after : List ScheduleVersion)
    → IsValid store
    → reject n user reason now store ≡ done after
    → IsValid after
reject-IsValid n user reason now store after valid e =
    let (v, between, found, _, changed, stored) = reject-done n user reason now store after e in
    let (w, found_w, set) = set_status-Changes n rejected user now store between changed in
    let here : find w.version_number store ≡ some w =
      subst (λ k. find k store ≡ some w) (sym (find-number n store w found_w)) found_w in
    subst IsValid stored (
      update-IsValid n (add_rejection user reason) between (λ x. refl) (λ x. refl)
        (rejected-IsValid w user now store between here valid set))

-- What `publish` leaves: the version is published, and no other is live.
abbrev pub IsPublished : ℕ → ScheduleVersion → List ScheduleVersion → Type 0
IsPublished n v store =
    IsDescending store
    × (find n store ≡ some v)
    × (count (has_status approved) store ≡ 0)
    × (count (has_status published) store ≡ 1)
    × (v.status ≡ published)

supersede_unless-keep :
    (n : ℕ) (now : Instant) (v : ScheduleVersion)
    → v.version_number ≡ n
    → supersede_unless n now v ≡ v
supersede_unless-keep n now v e =
    let here : (v.version_number == n) ≡ true = ground (arith, e) in rw here refl

published-IsPublished :
    (n : ℕ) (user : Option Key) (now : Instant) (store : List ScheduleVersion) (v : ScheduleVersion)
    → IsDescending store
    → find n store ≡ some v
    → v.status ≡ approved
    → IsPublished n
        (stamp published user now v)
        (update n (stamp published user now) (supersede_others n now store))
published-IsPublished n user now store v down found is =
    let f = stamp published user now in
    let others = supersede_others n now store in
    let there : find n others ≡ some v =
      supersede_others-find n now n store v found
      ∙ ap some (supersede_unless-keep n now v (find-number n store v found)) in
    let down_others = supersede_others-IsDescending n now store down in
    let is_one = ap (λ s. same_status s approved) is in
    let was : bit (has_status approved v) ≡ 1 = ap bit is_one in
    let free : bit (has_status published v) ≡ 0 = ap (λ s. bit (same_status s published)) is in
    let some_approved = find-count (has_status approved) n others v there is_one in
    let live = supersede_others-live n now store down in
    (
      update-IsDescending n f (λ x. refl) others down_others,
      find-update n f (λ x. refl) others v there,
      omega (
        arith,
        live,
        was,
        count-live others,
        count-update (has_status approved) n f others v there,
      ),
      omega (
        arith,
        live,
        free,
        some_approved,
        count-live others,
        count-update (has_status published) n f others v there,
      ),
      refl,
    )

pub publish_sent-stored :
    (n : ℕ) (user : Option Key) (now : Instant) (store : List ScheduleVersion)
    (receipt : WritebackReceipt) (v : ScheduleVersion)
    → find n store ≡ some v
    → v.status ≡ approved
    → publish_sent n user now store receipt
      ≡ done (
          update n
            (stamp published user now)
            (supersede_others n now (update n (add_receipt receipt) store)))
unfolding publish_sent
publish_sent-stored n user now store receipt v found is =
    let w = add_receipt receipt v in
    let number = find-number n store v found in
    let there =
      supersede_others-find n now n (update n (add_receipt receipt) store) w
        (find-update n (add_receipt receipt) (λ x. refl) store v found)
      ∙ ap some (supersede_unless-keep n now w number) in
    set_status-done n published user now
      (supersede_others n now (update n (add_receipt receipt) store)) w there number
      (ap (λ s. same_status s published) is) (ap (λ s. allowed s published) is)

pub publish-IsPublished :
    (mode : WritebackMode) (rule : List ScheduleEntry → Bool) (n : ℕ) (user : Option Key)
    (reason : Text) (auto : Bool) (now : Instant) (store after : List ScheduleVersion)
    → IsValid store
    → publish mode rule n user reason auto now store ≡ done after
    → (v : ScheduleVersion) × IsPublished n v after
publish-IsPublished mode rule n user reason auto now store after valid e =
    let (v, receipt, found, may, _, stored) =
      publish-done mode rule n user reason auto now store after e in
    let is = is_approved_lem v.status may in
    let kept = update n (add_receipt receipt) store in
    let result : done (update n (stamp published user now) (supersede_others n now kept))
        ≡ done after =
      sym (publish_sent-stored n user now store receipt v found is) ∙ stored in
    let same : update n (stamp published user now) (supersede_others n now kept) ≡ after = cc in
    let w = add_receipt receipt v in
    (
      stamp published user now w,
      subst (IsPublished n (stamp published user now w)) same (
          published-IsPublished n user now kept w
            (update-IsDescending n (add_receipt receipt) (λ x. refl) store valid.0)
            (find-update n (add_receipt receipt) (λ x. refl) store v found) is),
    )

-- One call of the service that succeeds.
pub data Call : List ScheduleVersion → List ScheduleVersion → Type 0 where
  generating :
      (entries : List ScheduleEntry) (user : Option Key) (now : Instant)
      (store : List ScheduleVersion)
      → Call store (generate entries user now store)
  approving :
      (n : ℕ) (user : Option Key) (reason : Text) (now : Instant)
      (store after : List ScheduleVersion)
      → approve n user reason now store ≡ done after
      → Call store after
  rejecting :
      (n : ℕ) (user : Option Key) (reason : Text) (now : Instant)
      (store after : List ScheduleVersion)
      → reject n user reason now store ≡ done after
      → Call store after
  publishing :
      (mode : WritebackMode) (rule : List ScheduleEntry → Bool) (n : ℕ) (user : Option Key)
      (reason : Text) (auto : Bool) (now : Instant) (store after : List ScheduleVersion)
      → publish mode rule n user reason auto now store ≡ done after
      → Call store after

-- Any number of such calls.
pub data Calls : List ScheduleVersion → List ScheduleVersion → Type 0 where
  no_call : (store : List ScheduleVersion) → Calls store store
  and_then :
      (store between after : List ScheduleVersion)
      → Calls store between
      → Call between after
      → Calls store after

Call-IsValid :
    (store after : List ScheduleVersion) → Call store after → IsValid store → IsValid after
Call-IsValid store _ (generating entries user now _) valid =
    generate-IsValid entries user now store valid
Call-IsValid store after (approving n user reason now _ _ e) valid =
    let (v, _, _, valid_after) = approve-stamped n user reason now store after valid e in
    valid_after
Call-IsValid store after (rejecting n user reason now _ _ e) valid =
    reject-IsValid n user reason now store after valid e
Call-IsValid store after (publishing mode rule n user reason auto now _ _ e) valid =
    let (v, is) = publish-IsPublished mode rule n user reason auto now store after valid e in
    (is.0, omega (arith, is.2), omega (arith, is.3))

-- Successful calls of `generate`, `approve`, `reject` and `publish`, in any order, keep that the
-- version numbers fall from the newest row to the oldest, that at most one version is approved, and
-- that at most one is published.
pub Calls-IsValid :
    (store after : List ScheduleVersion) → IsValid store → Calls store after → IsValid after
Calls-IsValid store _ valid (no_call _) = valid
Calls-IsValid store after valid (and_then _ between _ calls call) =
    Call-IsValid between after call (Calls-IsValid store between valid calls)
