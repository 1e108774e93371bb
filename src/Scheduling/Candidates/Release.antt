-- ===== src/Scheduling/Candidates/Release.antt =====
-- When the blockers of an order let it start (backend/app/engines/scheduling/candidates.py).
use athena_order_priority.Prelude.{
  ◌≤◌, ◌≡◌, refl, sym, subst, Bool, true, false, List, [], ◌∷◌, map, max, leb, Option, none, some,
  Option-cases, Bool-cases, ◌⊎◌, inl, inr, All, Has, arith,
}
use athena_order_priority.Domain.Window.{Instant}
use athena_order_priority.Constraints.Readiness.{Blocker}
use athena_order_priority.Scheduling.Candidates.{release_of, release_after}

-- The blocker has resolved by an instant.
abbrev resolved_by : Option Instant → Instant → Bool
resolved_by none t = false
resolved_by (some r) t = leb r t

-- When the blockers of an order let it start: at once without any; otherwise only if blocked orders
-- are scheduled, when the last of them resolves and not before `now`.
abbrev pub IsRelease : Bool → Instant → List Blocker → Instant → Type 0
IsRelease schedule_blocked now [] t = t ≡ now
IsRelease schedule_blocked now (b ∷ bs) t =
    (schedule_blocked ≡ true)
    × (now ≤ t)
    × All (λ x. resolved_by x.resolves_at t ≡ true) (b ∷ bs)
    × ((t ≡ now) ⊎ Has (some t) (map (λ x. x.resolves_at) (b ∷ bs)))

-- The blockers keep the order out: one of them does not resolve, or blocked orders are left out.
abbrev pub IsBlocked : Bool → List Blocker → Type 0
IsBlocked schedule_blocked [] = ⊥
IsBlocked schedule_blocked (b ∷ bs) =
    (schedule_blocked ≡ false) ⊎ Has none (map (λ x. x.resolves_at) (b ∷ bs))

All-resolved_later :
    (t u : Instant) (bs : List Blocker)
    → t ≤ u
    → All (λ x. resolved_by x.resolves_at t ≡ true) bs
    → All (λ x. resolved_by x.resolves_at u ≡ true) bs
All-resolved_later t u [] le h = tt
All-resolved_later t u (b ∷ bs) le h = (later b.resolves_at h.0, All-resolved_later t u bs le h.1)
  where
    later : (o : Option Instant) → resolved_by o t ≡ true → resolved_by o u ≡ true
    later none e = e
    later (some r) e = ground (arith, e, le)

abbrev Resolves : Instant → List Blocker → Option Instant → Type 0
Resolves now bs none = Has none (map (λ x. x.resolves_at) bs)
Resolves now bs (some t) =
    (now ≤ t)
    × All (λ x. resolved_by x.resolves_at t ≡ true) bs
    × ((t ≡ now) ⊎ Has (some t) (map (λ x. x.resolves_at) bs))

-- A blocker that resolves at `r` before the others, which resolve by `t`.
Resolves-cons :
    (now r t : Instant) (b : Blocker) (bs : List Blocker)
    → b.resolves_at ≡ some r
    → Resolves now bs (some t)
    → Resolves now (b ∷ bs) (some (max r t))
Resolves-cons now r t b bs e (le, all, at) = elim (Bool-cases (leb r t)) [
  | inl h ↦
      let is : t ≡ max r t = ground (arith, h) in
      subst (λ u. Resolves now (b ∷ bs) (some u)) is
        (le, (rw e h, all), elim at [ inl same ↦ inl same | inr has ↦ inr (inr has) ])
  | inr h ↦
      let is : r ≡ max r t = ground (arith, h) in
      let here : leb r r ≡ true = ground arith in
      subst (λ u. Resolves now (b ∷ bs) (some u)) is
        (
          ground (arith, h, le),
          (rw e here, All-resolved_later t r bs (ground (arith, h)) all),
          inr (inl e),
        )
]

release_after-Resolves :
    (now : Instant) (bs : List Blocker) → Resolves now bs (release_after now bs)
unfolding release_after
release_after-Resolves now [] = (omega arith, tt, inl refl)
release_after-Resolves now (b ∷ bs) = elim (Option-cases b.resolves_at) [
  | inl e ↦ rw e (inl refl)
  | inr (r, e) ↦ elim (Option-cases (release_after now bs)) [
    | inl g ↦
        let later : Resolves now bs none = rw g at (release_after-Resolves now bs) in
        let is : release_after now (b ∷ bs) ≡ none = rw e (rw g refl) in
        subst (Resolves now (b ∷ bs)) (sym is) (inr later)
    | inr (t, g) ↦
        let later : Resolves now bs (some t) = rw g at (release_after-Resolves now bs) in
        let is : release_after now (b ∷ bs) ≡ some (max r t) = rw e (rw g refl) in
        subst (Resolves now (b ∷ bs)) (sym is) (Resolves-cons now r t b bs e later)
  ]
]

pub release_of-none :
    (on : Bool) (now : Instant) (bs : List Blocker) → release_of on now bs ≡ none → IsBlocked on bs
unfolding release_of
release_of-none on now [] e = absurd (ground (arith, e))
release_of-none false now (b ∷ bs) e = inl refl
release_of-none true now (b ∷ bs) e =
    inr (subst (Resolves now (b ∷ bs)) e (release_after-Resolves now (b ∷ bs)))

pub release_of-some :
    (on : Bool) (now t : Instant) (bs : List Blocker)
    → release_of on now bs ≡ some t
    → IsRelease on now bs t
unfolding release_of
release_of-some on now t [] e = let is : now ≡ t = cc in sym is
release_of-some false now t (b ∷ bs) e = absurd (ground (arith, e))
release_of-some true now t (b ∷ bs) e =
    let found = subst (Resolves now (b ∷ bs)) e (release_after-Resolves now (b ∷ bs)) in
    (refl, found.0, found.1, found.2)
