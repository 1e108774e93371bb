-- ===== src/Services/Schedule/Calls.antt =====
-- What the calls that succeed have done (backend/app/services/schedule_service.py).
use athena_order_priority.Prelude.{
  ℕ, ◌≡◌, refl, ap, sym, ◌∙◌, Bool, true, false, List, Option, some, Bool-cases, Option-cases, inl,
  inr, arith,
}
use athena_order_priority.Domain.Window.{Instant, Text}
use athena_order_priority.Domain.Keys.{Key}
use athena_order_priority.Domain.Status.{ScheduleStatus, approved, rejected, WritebackMode}
use athena_order_priority.Domain.Results.{ScheduleEntry}
use athena_order_priority.Services.Outcomes.{
  done, validation_error, conflict_error, ◌>>=◌, require, has_reason, after_bind, after_require,
}
use athena_order_priority.Services.Writeback.{WritebackReceipt, send}
use athena_order_priority.Services.Versions.{
  ScheduleVersion, allowed, same_status, find, get_version, update, stamp, change_status,
  set_status,
}
use athena_order_priority.Services.Schedule.{
  checked_version, supersede, approve, approve_checked, is_draft, is_approved, is_rejectable,
  reject, add_rejection, publish, publish_sent,
}

pub get_version-find :
    (n : ℕ) (store : List ScheduleVersion) (v : ScheduleVersion)
    → get_version n store ≡ done v
    → find n store ≡ some v
unfolding get_version
get_version-find n store v e = elim (Option-cases (find n store)) [
  | inl h ↦ absurd (ground (arith, rw h at e))
  | inr (w, h) ↦ let same : done w ≡ done v = rw h at e in let is : w ≡ v = cc in h ∙ ap some is
]

pub find-get_version :
    (n : ℕ) (store : List ScheduleVersion) (v : ScheduleVersion)
    → find n store ≡ some v
    → get_version n store ≡ done v
unfolding get_version
find-get_version n store v e = rw e refl

-- What `set_status` does when it succeeds.
pub data Changes (v : ScheduleVersion) (status : ScheduleStatus) (user : Option Key) (at : Instant)
    (store after : List ScheduleVersion) : Type 0 where
  is_there :
      same_status v.status status ≡ true → store ≡ after → Changes v status user at store after
  is_changed :
      allowed v.status status ≡ true
      → update v.version_number (stamp status user at) store ≡ after
      → Changes v status user at store after

change_status-Changes :
    (status : ScheduleStatus) (user : Option Key) (at : Instant)
    (store after : List ScheduleVersion) (v : ScheduleVersion)
    → change_status status user at store v ≡ done after
    → Changes v status user at store after
unfolding change_status
change_status-Changes status user at store after v e =
    elim (Bool-cases (same_status v.status status)) [
      | inl s ↦ let same : done store ≡ done after = rw s at e in is_there s cc
      | inr s ↦ elim (Bool-cases (allowed v.status status)) [
        | inl a ↦
            let same : done (update v.version_number (stamp status user at) store) ≡ done after =
              rw a at (rw s at e) in
            is_changed a cc
        | inr a ↦ absurd (ground (arith, e, s, a))
      ]
    ]

pub set_status-Changes :
    (n : ℕ) (status : ScheduleStatus) (user : Option Key) (at : Instant)
    (store after : List ScheduleVersion)
    → set_status n status user at store ≡ done after
    → (v : ScheduleVersion) × (find n store ≡ some v) × Changes v status user at store after
unfolding set_status
set_status-Changes n status user at store after e =
    let (v, found, changed) =
      after_bind (get_version n store) (change_status status user at store) after e in
    (
      v,
      get_version-find n store v found,
      change_status-Changes status user at store after v changed,
    )

pub set_status-done :
    (n : ℕ) (status : ScheduleStatus) (user : Option Key) (at : Instant)
    (store : List ScheduleVersion) (v : ScheduleVersion)
    → find n store ≡ some v
    → v.version_number ≡ n
    → same_status v.status status ≡ false
    → allowed v.status status ≡ true
    → set_status n status user at store ≡ done (update n (stamp status user at) store)
unfolding set_status change_status
set_status-done n status user at store v found number differs may =
    rw (find-get_version n store v found) (rw differs (rw may (rw number refl)))

pub checked_version-find :
    (may_go : ScheduleStatus → Bool) (n : ℕ) (reason : Text) (store : List ScheduleVersion)
    (v : ScheduleVersion)
    → checked_version may_go n reason store ≡ done v
    → (find n store ≡ some v) × (may_go v.status ≡ true)
unfolding checked_version
checked_version-find may_go n reason store v e =
    let (u, _, e1) =
      after_bind (require (has_reason reason) validation_error)
        (λ u. get_version n store >>= λ w. require (may_go w.status) conflict_error >>= λ u. done w)
        v e in
    let (w, found, e2) =
      after_bind (get_version n store)
        (λ w. require (may_go w.status) conflict_error >>= λ u. done w) v e1 in
    let (u2, may, e3) = after_bind (require (may_go w.status) conflict_error) (λ u. done w) v e2 in
    let is : w ≡ v = cc in
    (
      get_version-find n store w found ∙ ap some is,
      ap (λ x. may_go x.status) (sym is)
          ∙ after_require (may_go w.status) conflict_error u2 (λ h. ground (arith, h)) may,
    )

pub checked_version-done :
    (may_go : ScheduleStatus → Bool) (n : ℕ) (reason : Text) (store : List ScheduleVersion)
    (v : ScheduleVersion)
    → has_reason reason ≡ true
    → find n store ≡ some v
    → may_go v.status ≡ true
    → checked_version may_go n reason store ≡ done v
unfolding checked_version
checked_version-done may_go n reason store v h found may =
    rw h (rw (find-get_version n store v found) (rw may refl))

pub approve-done :
    (n : ℕ) (user : Option Key) (reason : Text) (now : Instant) (store after : List ScheduleVersion)
    → approve n user reason now store ≡ done after
    → (v : ScheduleVersion) × (between : List ScheduleVersion) × (find n store ≡ some v)
      × (is_draft v.status ≡ true)
      × (supersede approved n now store ≡ done between)
      × (set_status n approved user now between ≡ done after)
unfolding approve approve_checked
approve-done n user reason now store after e =
    let (v, checked, e1) =
      after_bind (checked_version is_draft n reason store) (λ v. approve_checked n user now store)
        after e in
    let (between, e2, e3) =
      after_bind (supersede approved n now store) (set_status n approved user now) after e1 in
    let (found, may) = checked_version-find is_draft n reason store v checked in
    (v, between, found, may, e2, e3)

pub reject-done :
    (n : ℕ) (user : Option Key) (reason : Text) (now : Instant) (store after : List ScheduleVersion)
    → reject n user reason now store ≡ done after
    → (v : ScheduleVersion) × (between : List ScheduleVersion) × (find n store ≡ some v)
      × (is_rejectable v.status ≡ true)
      × (set_status n rejected user now store ≡ done between)
      × (update n (add_rejection user reason) between ≡ after)
unfolding reject
reject-done n user reason now store after e =
    let (v, checked, e1) =
      after_bind (checked_version is_rejectable n reason store)
        (λ v. set_status n rejected user now store >>= λ changed.
          done (update n (add_rejection user reason) changed))
        after e in
    let (between, e2, e3) =
      after_bind (set_status n rejected user now store)
        (λ changed. done (update n (add_rejection user reason) changed)) after e1 in
    let (found, may) = checked_version-find is_rejectable n reason store v checked in
    let stored : update n (add_rejection user reason) between ≡ after = cc in
    (v, between, found, may, e2, stored)

pub publish-done :
    (mode : WritebackMode) (rule : List ScheduleEntry → Bool) (n : ℕ) (user : Option Key)
    (reason : Text) (auto : Bool) (now : Instant) (store after : List ScheduleVersion)
    → publish mode rule n user reason auto now store ≡ done after
    → (v : ScheduleVersion) × (receipt : WritebackReceipt) × (find n store ≡ some v)
      × (is_approved v.status ≡ true)
      × (send mode rule now v.entries user auto ≡ done receipt)
      × (publish_sent n user now store receipt ≡ done after)
unfolding publish
publish-done mode rule n user reason auto now store after e =
    let (v, checked, e1) =
      after_bind (checked_version is_approved n reason store)
        (λ v. send mode rule now v.entries user auto >>= publish_sent n user now store) after e in
    let (receipt, e2, e3) =
      after_bind (send mode rule now v.entries user auto) (publish_sent n user now store) after
        e1 in
    let (found, may) = checked_version-find is_approved n reason store v checked in
    (v, receipt, found, may, e2, e3)
