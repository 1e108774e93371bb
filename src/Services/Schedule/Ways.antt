-- ===== src/Services/Schedule/Ways.antt =====
-- The ways of a version through its statuses (backend/app/services/schedule_service.py).
use athena_order_priority.Prelude.{
  ℕ, ◌≤◌, ◌≡◌, refl, subst, sym, true, not, ◌&&◌, List, Option, none, some, ◌==◌, Bool-cases,
  Option-cases, inl, inr, arith,
}
use athena_order_priority.Domain.Window.{Instant}
use athena_order_priority.Domain.Keys.{Key}
use athena_order_priority.Domain.Status.{
  ScheduleStatus, draft, approved, published, superseded, rejected,
}
use athena_order_priority.Domain.Results.{ScheduleEntry}
use athena_order_priority.Services.Versions.{
  ScheduleVersion, allowed, is_live, find, update, stamp, supersede_others, supersede_unless,
  next_version_number, new_version, create_version,
}
use athena_order_priority.Services.Versions.Laws.{find-update, find-update_other, find-above}
use athena_order_priority.Services.Versions.Live.{supersede_others-find, supersede_others-find-none}

-- A way along `SCHEDULE_TRANSITIONS`.
pub data Leads : ScheduleStatus → ScheduleStatus → Type 0 where
  stays : (s : ScheduleStatus) → Leads s s
  moves : (s t u : ScheduleStatus) → allowed s t ≡ true → Leads t u → Leads s u

-- What may become of the row of a number: none is removed, and a new one begins as a draft.
pub data Follows : Option ScheduleVersion → Option ScheduleVersion → Type 0 where
  absent : Follows none none
  drafted : (w : ScheduleVersion) → Leads draft w.status → Follows none (some w)
  goes_on : (v w : ScheduleVersion) → Leads v.status w.status → Follows (some v) (some w)

Leads-trans : (s t u : ScheduleStatus) → Leads s t → Leads t u → Leads s u
Leads-trans s _ u (stays _) h = h
Leads-trans s t u (moves _ r _ e g) h = moves s r u e (Leads-trans r t u g h)

pub Follows-refl : (o : Option ScheduleVersion) → Follows o o
Follows-refl none = absent
Follows-refl (some v) = goes_on v v (stays v.status)

pub Follows-trans : (a b c : Option ScheduleVersion) → Follows a b → Follows b c → Follows a c
Follows-trans _ _ _ absent h = h
Follows-trans _ _ _ (drafted v g) (goes_on _ w h) =
    drafted w (Leads-trans draft v.status w.status g h)
Follows-trans _ _ _ (goes_on u v g) (goes_on _ w h) =
    goes_on u w (Leads-trans u.status v.status w.status g h)

-- Every row of the store follows the row of its number.
abbrev pub AllFollow : List ScheduleVersion → List ScheduleVersion → Type 0
AllFollow store after = (k : ℕ) → Follows (find k store) (find k after)

pub AllFollow-trans : (a b c : List ScheduleVersion) → AllFollow a b → AllFollow b c → AllFollow a c
AllFollow-trans a b c g h k = Follows-trans (find k a) (find k b) (find k c) (g k) (h k)

pub stamp-number :
    (status : ScheduleStatus) (user : Option Key) (at : Instant) (v : ScheduleVersion)
    → (stamp status user at v).version_number ≡ v.version_number
stamp-number draft user at v = refl
stamp-number approved user at v = refl
stamp-number published user at v = refl
stamp-number superseded user at v = refl
stamp-number rejected user at v = refl

pub stamp-status :
    (status : ScheduleStatus) (user : Option Key) (at : Instant) (v : ScheduleVersion)
    → (stamp status user at v).status ≡ status
stamp-status draft user at v = refl
stamp-status approved user at v = refl
stamp-status published user at v = refl
stamp-status superseded user at v = refl
stamp-status rejected user at v = refl

pub update-AllFollow :
    (n : ℕ) (f : ScheduleVersion → ScheduleVersion) (store : List ScheduleVersion)
    (v : ScheduleVersion)
    → ((x : ScheduleVersion) → (f x).version_number ≡ x.version_number)
    → find n store ≡ some v
    → Leads v.status (f v).status
    → AllFollow store (update n f store)
update-AllFollow n f store v number found leads k = elim (Bool-cases (k == n)) [
  | inl e ↦
      let is : n ≡ k = ground (arith, e) in
      subst (λ j. Follows (find j store) (find j (update n f store))) is
        (rw found (rw (find-update n f number store v found) (goes_on v (f v) leads)))
  | inr e ↦ rw (find-update_other n f number k store e) (Follows-refl (find k store))
]

-- A change that keeps the number and the status of the row.
pub kept-AllFollow :
    (n : ℕ) (f : ScheduleVersion → ScheduleVersion) (store : List ScheduleVersion)
    (v : ScheduleVersion)
    → ((x : ScheduleVersion) → (f x).version_number ≡ x.version_number)
    → ((x : ScheduleVersion) → (f x).status ≡ x.status)
    → find n store ≡ some v
    → AllFollow store (update n f store)
kept-AllFollow n f store v number status found =
    update-AllFollow n f store v number found
      (subst (Leads v.status) (sym (status v)) (stays v.status))

is_live-superseded :
    (s : ScheduleStatus) (v : ScheduleVersion)
    → v.status ≡ s
    → is_live v ≡ true
    → allowed v.status superseded ≡ true
is_live-superseded draft v e h = absurd (ground (arith, rw e at h))
is_live-superseded approved v e h = rw e refl
is_live-superseded published v e h = rw e refl
is_live-superseded superseded v e h = absurd (ground (arith, rw e at h))
is_live-superseded rejected v e h = absurd (ground (arith, rw e at h))

supersede_unless-Leads :
    (keep : ℕ) (at : Instant) (v : ScheduleVersion)
    → Leads v.status (supersede_unless keep at v).status
supersede_unless-Leads keep at v = elim (Bool-cases (not (v.version_number == keep) && is_live v)) [
  | inl e ↦
      let live : is_live v ≡ true = ground (arith, e) in
      rw e (
        moves v.status superseded superseded (is_live-superseded v.status v refl live)
          (stays superseded))
  | inr e ↦ rw e (stays v.status)
]

pub supersede_others-AllFollow :
    (keep : ℕ) (at : Instant) (store : List ScheduleVersion)
    → AllFollow store (supersede_others keep at store)
supersede_others-AllFollow keep at store k = elim (Option-cases (find k store)) [
  | inl e ↦ rw e (rw (supersede_others-find-none keep at k store e) absent)
  | inr (v, e) ↦ rw e (
      rw (supersede_others-find keep at k store v e)
        (goes_on v (supersede_unless keep at v) (supersede_unless-Leads keep at v)))
]

pub create_version-AllFollow :
    (entries : List ScheduleEntry) (user : Option Key) (at : Instant) (store : List ScheduleVersion)
    → AllFollow store (create_version entries user at draft store)
unfolding create_version find
create_version-AllFollow entries user at store k =
    elim (Bool-cases (k == next_version_number store)) [
      | inl e ↦
          let above : next_version_number store ≤ k = ground (arith, e) in
          rw (find-above k store above) (
            rw e (
              drafted (new_version (next_version_number store) entries user at draft)
                (stays draft)))
      | inr e ↦ rw e (Follows-refl (find k store))
    ]
