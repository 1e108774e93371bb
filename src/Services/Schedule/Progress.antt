-- ===== src/Services/Schedule/Progress.antt =====
-- The theorems about a draft that is approved and published
-- (backend/app/services/schedule_service.py).
use athena_order_priority.Prelude.{
  ℕ, ◌≤◌, ◌≡◌, refl, subst, ap, sym, ◌∙◌, Bool, true, List, [], ◌∷◌, Option, none, some, ◌==◌,
  filter, filter-All, All, length, sort_by, Bool-cases, inl, inr, arith,
}
use athena_order_priority.Domain.Window.{Instant, Text}
use athena_order_priority.Domain.Keys.{Key}
use athena_order_priority.Domain.Status.{
  ScheduleStatus, draft, approved, published, superseded, WritebackMode,
}
use athena_order_priority.Domain.Results.{ScheduleEntry}
use athena_order_priority.Services.Outcomes.{done, has_reason}
use athena_order_priority.Services.Writeback.{WritebackReceipt, send}
use athena_order_priority.Services.Versions.{
  ScheduleVersion, allowed, has_status, same_status, is_live, find, update, stamp, supersede_others,
  get_latest, get_current, list_versions,
}
use athena_order_priority.Services.Versions.Laws.{count, find-number}
use athena_order_priority.Services.Versions.Live.{count-live, filter-find, find-filter}
use athena_order_priority.Services.Schedule.{
  supersede, supersede_each, supersede_one, approve, approve_checked, is_draft, is_approved,
  publish, add_receipt,
}
use athena_order_priority.Services.Schedule.Calls.{set_status-done, checked_version-done}
use athena_order_priority.Services.Schedule.Approval.{
  IsValid, is_approved_lem, supersede-list, supersede-Cleared, approve-stamped,
}
use athena_order_priority.Services.Schedule.Invariant.{
  IsPublished, publish-IsPublished, publish_sent-stored,
}

get_latest-only :
    (status : ScheduleStatus) (store : List ScheduleVersion) (v : ScheduleVersion)
    → filter (has_status status) store ≡ v ∷ []
    → get_latest status store ≡ some v
unfolding get_latest list_versions sort_by
get_latest-only status store v e = rw e refl

IsPublished-current :
    (n : ℕ) (v : ScheduleVersion) (store : List ScheduleVersion)
    → IsPublished n v store
    → get_current store ≡ some v
unfolding get_current
IsPublished-current n v store is =
    let alone =
      filter-find (has_status published) n store v is.1 (ap (λ s. same_status s published) is.4)
        (omega (arith, is.3)) in
    rw (get_latest-only published store v alone) refl

-- When `publish` succeeds on a valid store, exactly one version is live afterwards: the published
-- one, which is the current plan and has the number that was asked for.
pub publish-current :
    (mode : WritebackMode) (rule : List ScheduleEntry → Bool) (n : ℕ) (user : Option Key)
    (reason : Text) (auto : Bool) (now : Instant) (store after : List ScheduleVersion)
    → IsValid store
    → publish mode rule n user reason auto now store ≡ done after
    → (v : ScheduleVersion) × (get_current after ≡ some v)
      × (v.version_number ≡ n)
      × (v.status ≡ published)
      × (count is_live after ≡ 1)
publish-current mode rule n user reason auto now store after valid e =
    let (v, is) = publish-IsPublished mode rule n user reason auto now store after valid e in
    (
      v,
      IsPublished-current n v after is,
      find-number n after v is.1,
      is.4,
      omega (arith, count-live after, is.2, is.3),
    )

supersede_one-done :
    (n : ℕ) (now : Instant) (store : List ScheduleVersion) (w : ScheduleVersion)
    → find w.version_number store ≡ some w
    → w.status ≡ approved
    → (between : List ScheduleVersion) × (supersede_one n now w store ≡ done between)
unfolding supersede_one
supersede_one-done n now store w there is = elim (Bool-cases (w.version_number == n)) [
  | inl e ↦ (store, rw e refl)
  | inr e ↦ (
    update w.version_number (stamp superseded none now) store,
    rw e (
        set_status-done w.version_number superseded none now store w there refl
          (ap (λ s. same_status s superseded) is) (ap (λ s. allowed s superseded) is)),
  )
]

supersede_each-done :
    (n : ℕ) (now : Instant) (store : List ScheduleVersion) (xs : List ScheduleVersion)
    → IsValid store
    → filter (has_status approved) store ≡ xs
    → length xs ≤ 1
    → (between : List ScheduleVersion) × (supersede_each n now xs store ≡ done between)
unfolding supersede_each
supersede_each-done n now store [] valid e h = (store, refl)
supersede_each-done n now store (w ∷ []) valid e h =
    let there = find-filter (has_status approved) store w valid.0 e in
    let holds : has_status approved w ≡ true = only store w e in
    let (between, one) = supersede_one-done n now store w there (is_approved_lem w.status holds) in
    (between, rw one refl)
  where
    only :
        (vs : List ScheduleVersion) (w : ScheduleVersion)
        → filter (has_status approved) vs ≡ w ∷ []
        → has_status approved w ≡ true
    only vs w e =
        (subst (All (λ x. has_status approved x ≡ true)) e (filter-All (has_status approved) vs)).0
supersede_each-done n now store (w ∷ x ∷ xs) valid e h = absurd (omega (arith, h))

-- A draft of a valid store can be approved with any reason that is accepted.
approve-succeeds :
    (n : ℕ) (user : Option Key) (reason : Text) (now : Instant) (store : List ScheduleVersion)
    (v : ScheduleVersion)
    → IsValid store
    → has_reason reason ≡ true
    → find n store ≡ some v
    → v.status ≡ draft
    → (after : List ScheduleVersion) × (approve n user reason now store ≡ done after)
unfolding approve approve_checked
approve-succeeds n user reason now store v valid reasoned found is =
    let may : is_draft v.status ≡ true = ap is_draft is in
    let xs = filter (has_status approved) store in
    let (between, each) = supersede_each-done n now store xs valid refl valid.1 in
    let cleared : supersede approved n now store ≡ done between =
      supersede-list n now store xs refl valid.1 ∙ each in
    let there = (supersede-Cleared n now store between v valid found may cleared).1 in
    let changed =
      set_status-done n approved user now between v there (find-number n between v there)
        (ap (λ s. same_status s approved) is) (ap (λ s. allowed s approved) is) in
    (
      update n (stamp approved user now) between,
      rw (checked_version-done is_draft n reason store v reasoned found may) (rw cleared changed),
    )

publish-succeeds :
    (mode : WritebackMode) (rule : List ScheduleEntry → Bool) (n : ℕ) (user : Option Key)
    (reason : Text) (auto : Bool) (now : Instant) (store : List ScheduleVersion)
    (v : ScheduleVersion) (receipt : WritebackReceipt)
    → has_reason reason ≡ true
    → find n store ≡ some v
    → v.status ≡ approved
    → send mode rule now v.entries user auto ≡ done receipt
    → (after : List ScheduleVersion) × (publish mode rule n user reason auto now store ≡ done after)
unfolding publish
publish-succeeds mode rule n user reason auto now store v receipt reasoned found is sent =
    let may : is_approved v.status ≡ true = ap is_approved is in
    (
      update n (stamp published user now)
          (supersede_others n now (update n (add_receipt receipt) store)),
      rw (checked_version-done is_approved n reason store v reasoned found may)
          (rw sent (publish_sent-stored n user now store receipt v found is)),
    )

-- Of a valid store every draft can become the current plan: with an accepted reason `approve`
-- succeeds, and when the writeback takes the entries of the draft, `publish` succeeds next, and then
-- the current plan is the version with that number, published.
pub draft-current :
    (mode : WritebackMode) (rule : List ScheduleEntry → Bool) (n : ℕ) (user : Option Key)
    (reason : Text) (auto : Bool) (now later : Instant) (store : List ScheduleVersion)
    (v : ScheduleVersion) (receipt : WritebackReceipt)
    → IsValid store
    → has_reason reason ≡ true
    → find n store ≡ some v
    → v.status ≡ draft
    → send mode rule later v.entries user auto ≡ done receipt
    → (between after : List ScheduleVersion) × (w : ScheduleVersion) × (approve n user reason now
          store
        ≡ done between)
      × (publish mode rule n user reason auto later between ≡ done after)
      × (get_current after ≡ some w)
      × (w.version_number ≡ n)
      × (w.status ≡ published)
draft-current mode rule n user reason auto now later store v receipt valid reasoned found is sent =
    let (between, first_call) =
      approve-succeeds n user reason now store v valid reasoned found is in
    let (x, found_x, there, valid_between) =
      approve-stamped n user reason now store between valid first_call in
    let both : some x ≡ some v = sym found_x ∙ found in
    let same : x ≡ v = cc in
    let sent_x : send mode rule later x.entries user auto ≡ done receipt =
      ap (λ y. send mode rule later y.entries user auto) same ∙ sent in
    let (after, second_call) =
      publish-succeeds mode rule n user reason auto later between (stamp approved user now x)
        receipt reasoned there refl sent_x in
    let (w, current, number, status, _) =
      publish-current mode rule n user reason auto later between after valid_between second_call in
    (between, after, w, first_call, second_call, current, number, status)
