-- ===== src/Services/Versions/Live.antt =====
-- The theorems about the versions of one status, and the live ones (backend/app/db/repositories/schedule.py).
use athena_order_priority.Prelude.{
  ℕ, ◌+◌, ◌≤◌, ◌<◌, ◌≡◌, refl, subst, ap, sym, ◌∙◌, Bool, true, false, not, ◌&&◌, List, [], ◌∷◌,
  none, some, ◌==◌, filter, length, All, All-filter, Bool-cases, inl, inr, arith,
}
use athena_order_priority.Domain.Window.{Instant}
use athena_order_priority.Domain.Status.{
  ScheduleStatus, draft, approved, published, superseded, rejected,
}
use athena_order_priority.Services.Versions.{
  ScheduleVersion, find, is_live, has_status, supersede_unless, supersede_others,
}
use athena_order_priority.Services.Versions.Laws.{IsDescending, count, bit, count-cons, find-count}

supersede_unless-number :
    (keep : ℕ) (at : Instant) (v : ScheduleVersion)
    → (supersede_unless keep at v).version_number ≡ v.version_number
supersede_unless-number keep at v =
    elim (Bool-cases (not (v.version_number == keep) && is_live v)) [
      | inl e ↦ rw e refl
      | inr e ↦ rw e refl
    ]

supersede_others-All :
    (keep : ℕ) (at : Instant) (m : ℕ) (store : List ScheduleVersion)
    → All (λ v. v.version_number < m) store
    → All (λ v. v.version_number < m) (supersede_others keep at store)
unfolding supersede_others
supersede_others-All keep at m [] h = tt
supersede_others-All keep at m (v ∷ vs) h =
    (omega (arith, supersede_unless-number keep at v, h.0), supersede_others-All keep at m vs h.1)

pub supersede_others-IsDescending :
    (keep : ℕ) (at : Instant) (store : List ScheduleVersion)
    → IsDescending store
    → IsDescending (supersede_others keep at store)
unfolding supersede_others
supersede_others-IsDescending keep at [] h = tt
supersede_others-IsDescending keep at (v ∷ vs) h = (
  subst (λ m. All (λ w. w.version_number < m) (supersede_others keep at vs))
      (sym (supersede_unless-number keep at v))
      (supersede_others-All keep at v.version_number vs h.0),
  supersede_others-IsDescending keep at vs h.1,
)

pub supersede_others-find :
    (keep : ℕ) (at : Instant) (k : ℕ) (store : List ScheduleVersion) (v : ScheduleVersion)
    → find k store ≡ some v
    → find k (supersede_others keep at store) ≡ some (supersede_unless keep at v)
unfolding find supersede_others
supersede_others-find keep at k [] v e = absurd (ground (arith, e))
supersede_others-find keep at k (w ∷ ws) v e = elim (Bool-cases (k == w.version_number)) [
  | inl t ↦
      let same : some w ≡ some v = rw t at e in
      let is : w ≡ v = cc in
      let there : (k == (supersede_unless keep at w).version_number) ≡ true =
        rw (supersede_unless-number keep at w) t in
      rw there (ap (λ x. some (supersede_unless keep at x)) is)
  | inr t ↦
      let there : (k == (supersede_unless keep at w).version_number) ≡ false =
        rw (supersede_unless-number keep at w) t in
      rw there (supersede_others-find keep at k ws v (rw t at e))
]

pub supersede_others-find-none :
    (keep : ℕ) (at : Instant) (k : ℕ) (store : List ScheduleVersion)
    → find k store ≡ none
    → find k (supersede_others keep at store) ≡ none
unfolding find supersede_others
supersede_others-find-none keep at k [] e = refl
supersede_others-find-none keep at k (w ∷ ws) e = elim (Bool-cases (k == w.version_number)) [
  | inl t ↦ let same : some w ≡ none = rw t at e in absurd (ground (arith, same))
  | inr t ↦
      let there : (k == (supersede_unless keep at w).version_number) ≡ false =
        rw (supersede_unless-number keep at w) t in
      rw there (supersede_others-find-none keep at k ws (rw t at e))
]

is_live-supersede_unless :
    (keep : ℕ) (at : Instant) (v : ScheduleVersion)
    → (v.version_number == keep) ≡ false
    → is_live (supersede_unless keep at v) ≡ false
is_live-supersede_unless keep at v e = elim (Bool-cases (is_live v)) [
  | inl t ↦ rw e (rw t refl)
  | inr t ↦ rw e (rw t t)
]

live_below :
    (keep : ℕ) (at : Instant) (store : List ScheduleVersion)
    → All (λ v. v.version_number < keep) store
    → count is_live (supersede_others keep at store) ≡ 0
unfolding supersede_others filter
live_below keep at [] h = refl
live_below keep at (v ∷ vs) h =
    let other : (v.version_number == keep) ≡ false = ground (arith, h.0) in
    let one : bit (is_live (supersede_unless keep at v)) ≡ 0 =
      ap bit (is_live-supersede_unless keep at v other) in
    omega (
      arith,
      count-cons is_live (supersede_unless keep at v) (supersede_others keep at vs),
      one,
      live_below keep at vs h.1,
    )

pub bit_bound : (b : Bool) → bit b ≤ 1
bit_bound true = omega arith
bit_bound false = omega arith

pub supersede_others-live :
    (keep : ℕ) (at : Instant) (store : List ScheduleVersion)
    → IsDescending store
    → count is_live (supersede_others keep at store) ≤ 1
unfolding supersede_others filter
supersede_others-live keep at [] h = omega arith
supersede_others-live keep at (v ∷ vs) h = elim (Bool-cases (v.version_number == keep)) [
  | inl t ↦
      let is : v.version_number ≡ keep = ground (arith, t) in
      let none_left : count is_live (supersede_others keep at vs) ≡ 0 =
        live_below keep at vs (subst (λ m. All (λ w. w.version_number < m) vs) is h.0) in
      omega (
        arith,
        none_left,
        bit_bound (is_live (supersede_unless keep at v)),
        count-cons is_live (supersede_unless keep at v) (supersede_others keep at vs),
      )
  | inr t ↦
      let one : bit (is_live (supersede_unless keep at v)) ≡ 0 =
        ap bit (is_live-supersede_unless keep at v t) in
      omega (
        arith,
        one,
        supersede_others-live keep at vs h.1,
        count-cons is_live (supersede_unless keep at v) (supersede_others keep at vs),
      )
]

live_bit :
    (v : ScheduleVersion)
    → bit (is_live v) ≡ bit (has_status approved v) + bit (has_status published v)
live_bit v = go v.status
  where
    go :
        (s : ScheduleStatus)
        → bit (is_live (record v { status = s }))
          ≡ bit (has_status approved (record v { status = s }))
            + bit (has_status published (record v { status = s }))
    go draft = refl
    go approved = refl
    go published = refl
    go superseded = refl
    go rejected = refl

pub count-live :
    (store : List ScheduleVersion)
    → count is_live store ≡ count (has_status approved) store + count (has_status published) store
unfolding filter
count-live [] = refl
count-live (v ∷ vs) = omega (
  arith,
  count-cons is_live v vs,
  count-cons (has_status approved) v vs,
  count-cons (has_status published) v vs,
  live_bit v,
  count-live vs,
)

-- A version that alone satisfies `p` is the one that the filter keeps.
pub filter-find :
    (p : ScheduleVersion → Bool) (n : ℕ) (store : List ScheduleVersion) (v : ScheduleVersion)
    → find n store ≡ some v
    → p v ≡ true
    → count p store ≤ 1
    → filter p store ≡ v ∷ []
unfolding find filter
filter-find p n [] v e h c = absurd (ground (arith, e))
filter-find p n (w ∷ ws) v e h c = elim (Bool-cases (n == w.version_number)) [
  | inl t ↦
      let same : some w ≡ some v = rw t at e in
      let is : w ≡ v = cc in
      let holds : p w ≡ true = ap p is ∙ h in
      let one : bit (p w) ≡ 1 = ap bit holds in
      let rest : length (filter p ws) ≡ 0 = omega (arith, count-cons p w ws, one, c) in
      rw holds (cc (is, nil (filter p ws) rest))
  | inr t ↦
      let later : find n ws ≡ some v = rw t at e in
      let some_later : 1 ≤ count p ws = find-count p n ws v later h in
      elim (Bool-cases (p w)) [
        | inl here ↦
            let one : bit (p w) ≡ 1 = ap bit here in
            absurd (omega (arith, count-cons p w ws, one, c, some_later))
        | inr gone ↦
            let zero : bit (p w) ≡ 0 = ap bit gone in
            rw gone (filter-find p n ws v later h (omega (arith, count-cons p w ws, zero, c)))
      ]
]
  where
    nil : (xs : List ScheduleVersion) → length xs ≡ 0 → xs ≡ []
    nil [] h = refl
    nil (x ∷ xs) h = absurd (omega (arith, h))

pub find-filter :
    (p : ScheduleVersion → Bool) (store : List ScheduleVersion) (v : ScheduleVersion)
    → IsDescending store
    → filter p store ≡ v ∷ []
    → find v.version_number store ≡ some v
unfolding find filter
find-filter p [] v h e = absurd (ground (arith, e))
find-filter p (w ∷ ws) v h e = elim (Bool-cases (p w)) [
  | inl t ↦
      let same : w ∷ filter p ws ≡ v ∷ [] = rw t at e in
      let is : w ≡ v = cc in
      let here : (v.version_number == w.version_number) ≡ true =
        ground (arith, ap (λ x. x.version_number) is) in
      rw here (ap (λ x. some x) is)
  | inr t ↦
      let later : filter p ws ≡ v ∷ [] = rw t at e in
      let older : All (λ x. x.version_number < w.version_number) (v ∷ []) =
        subst (All (λ x. x.version_number < w.version_number)) later
          (All-filter p (λ x. x.version_number < w.version_number) ws h.0) in
      let here : (v.version_number == w.version_number) ≡ false = ground (arith, older.0) in
      rw here (find-filter p ws v h.1 later)
]
