-- ===== src/Services/Schedule/Lifecycle.antt =====
-- The theorems about the way of a version through its statuses
-- (backend/app/services/schedule_service.py).
use athena_order_priority.Prelude.{
  ℕ, ◌≡◌, refl, subst, sym, Bool, List, [], ◌∷◌, Option, none, some, ◌==◌, Bool-cases, inl, inr,
  arith,
}
use athena_order_priority.Domain.Window.{Instant, Text}
use athena_order_priority.Domain.Keys.{Key}
use athena_order_priority.Domain.Status.{
  ScheduleStatus, approved, published, superseded, rejected, WritebackMode,
}
use athena_order_priority.Domain.Results.{ScheduleEntry}
use athena_order_priority.Services.Outcomes.{done, after_bind}
use athena_order_priority.Services.Versions.{
  ScheduleVersion, find, update, stamp, set_status, list_versions, supersede_others,
}
use athena_order_priority.Services.Versions.Laws.{find-number}
use athena_order_priority.Services.Schedule.{
  generate, supersede, supersede_each, supersede_one, approve, reject, add_rejection, publish,
  publish_sent, add_receipt,
}
use athena_order_priority.Services.Schedule.Calls.{
  Changes, is_there, is_changed, set_status-Changes, approve-done, reject-done, publish-done,
}
use athena_order_priority.Services.Schedule.Invariant.{
  Call, generating, approving, rejecting, publishing, Calls, no_call, and_then,
}
use athena_order_priority.Services.Schedule.Ways.{
  Leads, stays, moves, Follows, absent, drafted, goes_on, Follows-refl, Follows-trans, AllFollow,
  AllFollow-trans, stamp-number, stamp-status, update-AllFollow, kept-AllFollow,
  supersede_others-AllFollow, create_version-AllFollow,
}

set_status-AllFollow :
    (n : ℕ) (status : ScheduleStatus) (user : Option Key) (at : Instant)
    (store after : List ScheduleVersion)
    → set_status n status user at store ≡ done after
    → AllFollow store after
set_status-AllFollow n status user at store after e =
    let (v, found, set) = set_status-Changes n status user at store after e in
    go v (subst (λ j. find j store ≡ some v) (sym (find-number n store v found)) found) set
  where
    go :
        (v : ScheduleVersion)
        → find v.version_number store ≡ some v
        → Changes v status user at store after
        → AllFollow store after
    go v found (is_there _ same) = subst (AllFollow store) same (λ k. Follows-refl (find k store))
    go v found (is_changed may same) = subst (AllFollow store) same (
        update-AllFollow v.version_number (stamp status user at) store v
          (stamp-number status user at) found
          (subst (Leads v.status) (sym (stamp-status status user at v))
            (moves v.status status status may (stays status))))

supersede_one-AllFollow :
    (keep : ℕ) (at : Instant) (x : ScheduleVersion) (store after : List ScheduleVersion)
    → supersede_one keep at x store ≡ done after
    → AllFollow store after
unfolding supersede_one
supersede_one-AllFollow keep at x store after e = elim (Bool-cases (x.version_number == keep)) [
  | inl t ↦
      let stored : done store ≡ done after = rw t at e in
      let same : store ≡ after = cc in
      subst (AllFollow store) same (λ k. Follows-refl (find k store))
  | inr t ↦ set_status-AllFollow x.version_number superseded none at store after (rw t at e)
]

supersede_each-AllFollow :
    (keep : ℕ) (at : Instant) (xs store after : List ScheduleVersion)
    → supersede_each keep at xs store ≡ done after
    → AllFollow store after
unfolding supersede_each
supersede_each-AllFollow keep at [] store after e =
    let same : store ≡ after = cc in subst (AllFollow store) same (λ k. Follows-refl (find k store))
supersede_each-AllFollow keep at (x ∷ xs) store after e =
    let (between, one, rest) =
      after_bind (supersede_one keep at x store) (supersede_each keep at xs) after e in
    AllFollow-trans store between after (supersede_one-AllFollow keep at x store between one)
      (supersede_each-AllFollow keep at xs between after rest)

approve-AllFollow :
    (n : ℕ) (user : Option Key) (reason : Text) (now : Instant) (store after : List ScheduleVersion)
    → approve n user reason now store ≡ done after
    → AllFollow store after
unfolding supersede
approve-AllFollow n user reason now store after e =
    let (v, between, _, _, cleared, stamped) = approve-done n user reason now store after e in
    AllFollow-trans store between after
      (supersede_each-AllFollow n now (list_versions approved 1000 store) store between cleared)
      (set_status-AllFollow n approved user now between after stamped)

reject-AllFollow :
    (n : ℕ) (user : Option Key) (reason : Text) (now : Instant) (store after : List ScheduleVersion)
    → reject n user reason now store ≡ done after
    → AllFollow store after
reject-AllFollow n user reason now store after e =
    let (v, between, found, _, changed, stored) = reject-done n user reason now store after e in
    let (w, found_w) =
      still_there (find n store) (find n between) v found
        (set_status-AllFollow n rejected user now store between changed n) in
    subst (AllFollow store) stored (
      AllFollow-trans store between (update n (add_rejection user reason) between)
        (set_status-AllFollow n rejected user now store between changed)
        (kept-AllFollow n (add_rejection user reason) between w (λ x. refl) (λ x. refl) found_w))
  where
    still_there :
        (a b : Option ScheduleVersion) (v : ScheduleVersion)
        → a ≡ some v
        → Follows a b
        → (w : ScheduleVersion) × (b ≡ some w)
    still_there _ _ v h absent = absurd (ground (arith, h))
    still_there _ _ v h (drafted w g) = (w, refl)
    still_there _ _ v h (goes_on u w g) = (w, refl)

publish-AllFollow :
    (mode : WritebackMode) (rule : List ScheduleEntry → Bool) (n : ℕ) (user : Option Key)
    (reason : Text) (auto : Bool) (now : Instant) (store after : List ScheduleVersion)
    → publish mode rule n user reason auto now store ≡ done after
    → AllFollow store after
unfolding publish_sent
publish-AllFollow mode rule n user reason auto now store after e =
    let (v, receipt, found, _, _, stored) =
      publish-done mode rule n user reason auto now store after e in
    let kept = update n (add_receipt receipt) store in
    AllFollow-trans store kept after
      (kept-AllFollow n (add_receipt receipt) store v (λ x. refl) (λ x. refl) found)
      (AllFollow-trans kept (supersede_others n now kept) after
        (supersede_others-AllFollow n now kept)
        (set_status-AllFollow n published user now (supersede_others n now kept) after stored))

Call-AllFollow : (store after : List ScheduleVersion) → Call store after → AllFollow store after
unfolding generate
Call-AllFollow store _ (generating entries user now _) =
    create_version-AllFollow entries user now store
Call-AllFollow store after (approving n user reason now _ _ e) =
    approve-AllFollow n user reason now store after e
Call-AllFollow store after (rejecting n user reason now _ _ e) =
    reject-AllFollow n user reason now store after e
Call-AllFollow store after (publishing mode rule n user reason auto now _ _ e) =
    publish-AllFollow mode rule n user reason auto now store after e

-- Whatever calls of `generate`, `approve`, `reject` and `publish` succeed, and in any order, a
-- version of the store is still there afterwards, its status reached from the one before along
-- `SCHEDULE_TRANSITIONS`, and the status of a version that was not there is reached from a draft.
pub Calls-Follows :
    (store after : List ScheduleVersion) (k : ℕ)
    → Calls store after
    → Follows (find k store) (find k after)
Calls-Follows store _ k (no_call _) = Follows-refl (find k store)
Calls-Follows store after k (and_then _ between _ calls call) =
    Follows-trans (find k store) (find k between) (find k after)
      (Calls-Follows store between k calls) (Call-AllFollow between after call k)
