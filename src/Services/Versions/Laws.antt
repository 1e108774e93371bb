-- ===== src/Services/Versions/Laws.antt =====
-- The theorems about the stored versions (backend/app/db/repositories/schedule.py).
use athena_order_priority.Prelude.{
  ℕ, ◌+◌, ◌≤◌, ◌<◌, ◌≡◌, refl, subst, ap, sym, ◌∙◌, Bool, true, false, List, [], ◌∷◌, Option, none,
  some, ◌==◌, if◌then◌else◌, filter, length, All, All-weaken, Bool-cases, inl, inr, arith,
}
use athena_order_priority.Domain.Window.{Instant}
use athena_order_priority.Domain.Keys.{Key}
use athena_order_priority.Domain.Status.{ScheduleStatus}
use athena_order_priority.Domain.Results.{ScheduleEntry}
use athena_order_priority.Services.Versions.{
  ScheduleVersion, highest, next_version_number, create_version, find, update,
}

-- The versions are numbered downwards from the newest.
abbrev pub IsDescending : List ScheduleVersion → Type 0
IsDescending [] = Unit
IsDescending (v ∷ vs) = All (λ w. w.version_number < v.version_number) vs × IsDescending vs

abbrev pub count : (ScheduleVersion → Bool) → List ScheduleVersion → ℕ
count p store = length (filter p store)

abbrev pub bit : Bool → ℕ
bit true = 1
bit false = 0

pub count-cons :
    (p : ScheduleVersion → Bool) (v : ScheduleVersion) (vs : List ScheduleVersion)
    → count p (v ∷ vs) ≡ bit (p v) + count p vs
unfolding filter
count-cons p v vs = ground arith

highest-All :
    (store : List ScheduleVersion) → All (λ v. v.version_number < next_version_number store) store
unfolding next_version_number highest
highest-All [] = tt
highest-All (v ∷ vs) = (
  omega arith,
  All-weaken (λ w. w.version_number < next_version_number vs)
      (λ w. w.version_number < next_version_number (v ∷ vs)) vs (λ w h. omega (arith, h))
      (highest-All vs),
)

below-find :
    (m k : ℕ) (store : List ScheduleVersion)
    → m ≤ k
    → All (λ v. v.version_number < m) store
    → find k store ≡ none
unfolding find
below-find m k [] h below = refl
below-find m k (v ∷ vs) h below =
    let here : (k == v.version_number) ≡ false = ground (arith, h, below.0) in
    rw here (below-find m k vs h below.1)

pub find-above :
    (k : ℕ) (store : List ScheduleVersion) → next_version_number store ≤ k → find k store ≡ none
find-above k store h = below-find (next_version_number store) k store h (highest-All store)

pub create_version-IsDescending :
    (entries : List ScheduleEntry) (user : Option Key) (at : Instant) (status : ScheduleStatus)
    (store : List ScheduleVersion)
    → IsDescending store
    → IsDescending (create_version entries user at status store)
unfolding create_version
create_version-IsDescending entries user at status store h = (highest-All store, h)

module _ (n : ℕ) (f : ScheduleVersion → ScheduleVersion)
    (keeps : (v : ScheduleVersion) → (f v).version_number ≡ v.version_number) where
  update-All :
      (m : ℕ) (store : List ScheduleVersion)
      → All (λ v. v.version_number < m) store
      → All (λ v. v.version_number < m) (update n f store)
  unfolding update
  update-All m [] h = tt
  update-All m (v ∷ vs) h = elim (Bool-cases (n == v.version_number)) [
    | inl e ↦ rw e (omega (arith, keeps v, h.0), h.1)
    | inr e ↦ rw e (h.0, update-All m vs h.1)
  ]

  pub update-IsDescending :
      (store : List ScheduleVersion) → IsDescending store → IsDescending (update n f store)
  unfolding update
  update-IsDescending [] h = tt
  update-IsDescending (v ∷ vs) h = elim (Bool-cases (n == v.version_number)) [
    | inl e ↦ rw e (subst (λ m. All (λ w. w.version_number < m) vs) (sym (keeps v)) h.0, h.1)
    | inr e ↦ rw e (update-All v.version_number vs h.0, update-IsDescending vs h.1)
  ]

  pub find-update :
      (store : List ScheduleVersion) (v : ScheduleVersion)
      → find n store ≡ some v
      → find n (update n f store) ≡ some (f v)
  unfolding find update
  find-update [] v e = absurd (ground (arith, e))
  find-update (w ∷ ws) v e = elim (Bool-cases (n == w.version_number)) [
    | inl t ↦
        let same : some w ≡ some v = rw t at e in
        let is : w ≡ v = cc in
        let there : (n == (f w).version_number) ≡ true = rw (keeps w) t in
        rw t (rw there (ap (λ x. some (f x)) is))
    | inr t ↦ rw t (rw t (find-update ws v (rw t at e)))
  ]

  pub find-update_other :
      (k : ℕ) (store : List ScheduleVersion)
      → (k == n) ≡ false
      → find k (update n f store) ≡ find k store
  unfolding find update
  find-update_other k [] e = refl
  find-update_other k (w ∷ ws) e = elim (Bool-cases (n == w.version_number)) [
    | inl t ↦
        let there : (k == (f w).version_number) ≡ false = rw (keeps w) (ground (arith, e, t)) in
        let here : (k == w.version_number) ≡ false = ground (arith, e, t) in
        rw t (rw there (rw here refl))
    | inr t ↦
        rw t (ap (λ o. if k == w.version_number then some w else o) (find-update_other k ws e))
  ]

-- What changes in a count when one row is changed.
pub count-update :
    (p : ScheduleVersion → Bool) (n : ℕ) (f : ScheduleVersion → ScheduleVersion)
    (store : List ScheduleVersion) (v : ScheduleVersion)
    → find n store ≡ some v
    → count p (update n f store) + bit (p v) ≡ count p store + bit (p (f v))
unfolding find update
count-update p n f [] v e = absurd (ground (arith, e))
count-update p n f (w ∷ ws) v e = elim (Bool-cases (n == w.version_number)) [
  | inl t ↦
      let same : some w ≡ some v = rw t at e in
      let is : w ≡ v = cc in
      subst (λ x. count p (update n f (w ∷ ws)) + bit (p x) ≡ count p (w ∷ ws) + bit (p (f x))) is
        (rw t (omega (arith, count-cons p w ws, count-cons p (f w) ws)))
  | inr t ↦ rw t (
      omega (
        arith,
        count-cons p w ws,
        count-cons p w (update n f ws),
        count-update p n f ws v (rw t at e),
      ))
]

pub find-count :
    (p : ScheduleVersion → Bool) (n : ℕ) (store : List ScheduleVersion) (v : ScheduleVersion)
    → find n store ≡ some v
    → p v ≡ true
    → 1 ≤ count p store
unfolding find
find-count p n [] v e h = absurd (ground (arith, e))
find-count p n (w ∷ ws) v e h = elim (Bool-cases (n == w.version_number)) [
  | inl t ↦
      let same : some w ≡ some v = rw t at e in
      let is : w ≡ v = cc in
      let holds : p w ≡ true = ap p is ∙ h in
      let one : bit (p w) ≡ 1 = ap bit holds in omega (arith, count-cons p w ws, one)
  | inr t ↦ omega (arith, count-cons p w ws, find-count p n ws v (rw t at e) h)
]

pub find-number :
    (n : ℕ) (store : List ScheduleVersion) (v : ScheduleVersion)
    → find n store ≡ some v
    → v.version_number ≡ n
unfolding find
find-number n [] v e = absurd (ground (arith, e))
find-number n (w ∷ ws) v e = elim (Bool-cases (n == w.version_number)) [
  | inl t ↦
      let same : some w ≡ some v = rw t at e in
      let is : w ≡ v = cc in ap (λ x. x.version_number) (sym is) ∙ ground (arith, t)
  | inr t ↦ find-number n ws v (rw t at e)
]

-- A change that `p` does not see keeps the count.
pub count-update_same :
    (p : ScheduleVersion → Bool) (n : ℕ) (f : ScheduleVersion → ScheduleVersion)
    (store : List ScheduleVersion)
    → ((v : ScheduleVersion) → p (f v) ≡ p v)
    → count p (update n f store) ≡ count p store
unfolding update
count-update_same p n f [] h = refl
count-update_same p n f (w ∷ ws) h = elim (Bool-cases (n == w.version_number)) [
  | inl t ↦ rw t (omega (arith, count-cons p w ws, count-cons p (f w) ws, ap bit (h w)))
  | inr t ↦ rw t (
      omega
        (arith, count-cons p w ws, count-cons p w (update n f ws), count-update_same p n f ws h))
]
