-- ===== src/Services/Schedule/Approval.antt =====
-- The theorems about approving a version
-- (backend/app/services/schedule_service.py).
use athena_order_priority.Prelude.{
  ℕ, ◌≤◌, ◌≡◌, refl, subst, ap, sym, ◌∙◌, true, false, List, [], ◌∷◌, Option, none, some, ◌==◌,
  filter, filter-All, All, length, sort_by, Bool-cases, inl, inr, arith,
}
use athena_order_priority.Domain.Window.{Instant, Text}
use athena_order_priority.Domain.Keys.{Key}
use athena_order_priority.Domain.Status.{
  ScheduleStatus, draft, approved, published, superseded, rejected,
}
use athena_order_priority.Services.Outcomes.{done}
use athena_order_priority.Services.Versions.{
  ScheduleVersion, allowed, has_status, same_status, find, update, stamp, list_versions,
}
use athena_order_priority.Services.Versions.Laws.{
  IsDescending, count, bit, update-IsDescending, find-update, find-update_other, count-update,
  find-number,
}
use athena_order_priority.Services.Versions.Live.{find-filter}
use athena_order_priority.Services.Schedule.{
  supersede, supersede_each, supersede_one, approve, is_draft, is_approved,
}
use athena_order_priority.Services.Schedule.Calls.{set_status-done, approve-done}

-- The numbers fall, and at most one version is approved and at most one published.
abbrev pub IsValid : List ScheduleVersion → Type 0
IsValid store =
    IsDescending store
    × (count (has_status approved) store ≤ 1)
    × (count (has_status published) store ≤ 1)

pub is_draft_lem : (s : ScheduleStatus) → is_draft s ≡ true → s ≡ draft
is_draft_lem draft e = refl
is_draft_lem approved e = absurd (ground (arith, e))
is_draft_lem published e = absurd (ground (arith, e))
is_draft_lem superseded e = absurd (ground (arith, e))
is_draft_lem rejected e = absurd (ground (arith, e))

pub is_approved_lem : (s : ScheduleStatus) → is_approved s ≡ true → s ≡ approved
is_approved_lem draft e = absurd (ground (arith, e))
is_approved_lem approved e = refl
is_approved_lem published e = absurd (ground (arith, e))
is_approved_lem superseded e = absurd (ground (arith, e))
is_approved_lem rejected e = absurd (ground (arith, e))

-- What `supersede` leaves for the draft `v`.
abbrev Cleared : ℕ → ScheduleVersion → List ScheduleVersion → Type 0
Cleared n v between =
    IsDescending between
    × (find n between ≡ some v)
    × (count (has_status approved) between ≡ 0)
    × (count (has_status published) between ≤ 1)

superseded-Cleared :
    (n : ℕ) (now : Instant) (store : List ScheduleVersion) (v w : ScheduleVersion)
    → IsValid store
    → find n store ≡ some v
    → find w.version_number store ≡ some w
    → w.status ≡ approved
    → (n == w.version_number) ≡ false
    → Cleared n v (update w.version_number (stamp superseded none now) store)
superseded-Cleared n now store v w valid found there is other =
    let f = stamp superseded none now in
    let was : bit (has_status approved w) ≡ 1 = ap (λ s. bit (same_status s approved)) is in
    let free : bit (has_status published w) ≡ 0 = ap (λ s. bit (same_status s published)) is in
    (
      update-IsDescending w.version_number f (λ x. refl) store valid.0,
      find-update_other w.version_number f (λ x. refl) n store other ∙ found,
      omega (
        arith,
        was,
        valid.1,
        count-update (has_status approved) w.version_number f store w there,
      ),
      omega (
        arith,
        free,
        valid.2,
        count-update (has_status published) w.version_number f store w there,
      ),
    )

other_number :
    (n : ℕ) (store : List ScheduleVersion) (v w : ScheduleVersion)
    → find n store ≡ some v
    → is_draft v.status ≡ true
    → find w.version_number store ≡ some w
    → w.status ≡ approved
    → (w.version_number == n) ≡ false
other_number n store v w found may there is = elim (Bool-cases (w.version_number == n)) [
  | inl e ↦
      let eq : w.version_number ≡ n = ground (arith, e) in
      let both : some w ≡ some v = sym there ∙ ap (λ k. find k store) eq ∙ found in
      let same : w ≡ v = cc in
      let clash : is_draft approved ≡ true =
        ap is_draft (sym is) ∙ ap (λ x. is_draft x.status) same ∙ may in
      absurd (ground (arith, clash))
  | inr e ↦ e
]

pub supersede-list :
    (n : ℕ) (now : Instant) (store : List ScheduleVersion) (xs : List ScheduleVersion)
    → filter (has_status approved) store ≡ xs
    → length xs ≤ 1
    → supersede approved n now store ≡ supersede_each n now xs store
unfolding supersede list_versions sort_by
supersede-list n now store [] e h = rw e refl
supersede-list n now store (x ∷ []) e h = rw e refl
supersede-list n now store (x ∷ y ∷ ys) e h = absurd (omega (arith, h))

supersede_each-Cleared :
    (n : ℕ) (now : Instant) (store between : List ScheduleVersion) (v : ScheduleVersion)
    (xs : List ScheduleVersion)
    → IsValid store
    → find n store ≡ some v
    → is_draft v.status ≡ true
    → filter (has_status approved) store ≡ xs
    → length xs ≤ 1
    → supersede_each n now xs store ≡ done between
    → Cleared n v between
unfolding supersede_each supersede_one
supersede_each-Cleared n now store between v [] valid found may e h d =
    let is : store ≡ between = cc in subst (Cleared n v) is (valid.0, found, ap length e, valid.2)
supersede_each-Cleared n now store between v (w ∷ []) valid found may e h d =
    let holds : All (λ x. has_status approved x ≡ true) (w ∷ []) =
      subst (All (λ x. has_status approved x ≡ true)) e (filter-All (has_status approved) store) in
    let is = is_approved_lem w.status holds.0 in
    let there = find-filter (has_status approved) store w valid.0 e in
    let other = other_number n store v w found may there is in
    let changed =
      set_status-done w.version_number superseded none now store w there refl
        (ap (λ s. same_status s superseded) is) (ap (λ s. allowed s superseded) is) in
    let stored : done (update w.version_number (stamp superseded none now) store) ≡ done between =
      rw changed at (rw other at d) in
    let same : update w.version_number (stamp superseded none now) store ≡ between = cc in
    subst (Cleared n v) same
      (superseded-Cleared n now store v w valid found there is (ground (arith, other)))
supersede_each-Cleared n now store between v (w ∷ x ∷ xs) valid found may e h d =
    absurd (omega (arith, h))

pub supersede-Cleared :
    (n : ℕ) (now : Instant) (store between : List ScheduleVersion) (v : ScheduleVersion)
    → IsValid store
    → find n store ≡ some v
    → is_draft v.status ≡ true
    → supersede approved n now store ≡ done between
    → Cleared n v between
supersede-Cleared n now store between v valid found may d =
    let xs = filter (has_status approved) store in
    supersede_each-Cleared n now store between v xs valid found may refl valid.1
      (sym (supersede-list n now store xs refl valid.1) ∙ d)

-- What `approve` leaves.
pub approve-stamped :
    (n : ℕ) (user : Option Key) (reason : Text) (now : Instant) (store after : List ScheduleVersion)
    → IsValid store
    → approve n user reason now store ≡ done after
    → (v : ScheduleVersion) × (find n store ≡ some v)
      × (find n after ≡ some (stamp approved user now v))
      × IsValid after
approve-stamped n user reason now store after valid e =
    let (v, between, found, may, cleared, stamped) = approve-done n user reason now store after e in
    let (down, there, no_approved, one_published) =
      supersede-Cleared n now store between v valid found may cleared in
    let is = is_draft_lem v.status may in
    let f = stamp approved user now in
    let changed =
      set_status-done n approved user now between v there (find-number n between v there)
        (ap (λ s. same_status s approved) is) (ap (λ s. allowed s approved) is) in
    let stored : done (update n f between) ≡ done after = sym changed ∙ stamped in
    let same : update n f between ≡ after = cc in
    let free : bit (has_status published v) ≡ 0 = ap (λ s. bit (same_status s published)) is in
    let valid_after : IsValid (update n f between) = (
      update-IsDescending n f (λ x. refl) between down,
      omega (arith, no_approved, count-update (has_status approved) n f between v there),
      omega (arith, free, one_published, count-update (has_status published) n f between v there),
    ) in
    (
      v,
      found,
      subst (λ s. find n s ≡ some (f v)) same (find-update n f (λ x. refl) between v there),
      subst IsValid same valid_after,
    )
