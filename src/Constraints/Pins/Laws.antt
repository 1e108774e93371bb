-- ===== src/Constraints/Pins/Laws.antt =====
-- The theorems about the pinned machine (backend/app/engines/constraints/hard.py).
use athena_order_priority.Prelude.{
  ◌≡◌, refl, Bool, true, List, [], ◌∷◌, Option, none, some, ltb, leb, All, Bool-cases, ◌⊎◌, inl,
  inr, arith,
}
use athena_order_priority.Domain.Window.{Instant}
use athena_order_priority.Domain.Keys.{Key}
use athena_order_priority.Domain.Snapshot.{PlanningSnapshot}
use athena_order_priority.Constraints.Pins.{
  Pin, lock_pin, override_pin, later_pin, latest_pin, pinned_machine, unless_pinned,
  pinned_machine_for_order,
}

-- The decision is not later than the best one.
abbrev pub not_later : Option Pin → Pin → Bool
not_later none b = true
not_later (some c) b = leb c.0 b.0

-- One of the elements makes the decision.
abbrev pub Makes {ℓ} : {A : Type ℓ} → (A → Option Pin) → Pin → List A → Type 0
Makes pin b [] = ⊥
Makes pin b (x ∷ xs) = (pin x ≡ some b) ⊎ Makes pin b xs

-- What the loop finds, `best` being found before it.
abbrev Finds {ℓ} : {A : Type ℓ} → (A → Option Pin) → Option Pin → List A → Option Pin → Type 0
Finds pin best xs none = (best ≡ none) × All (λ x. pin x ≡ none) xs
Finds pin best xs (some b) =
    ((best ≡ some b) ⊎ Makes pin b xs)
    × (not_later best b ≡ true)
    × All (λ x. not_later (pin x) b ≡ true) xs

later_none : (best c : Option Pin) → later_pin best c ≡ none → (best ≡ none) × (c ≡ none)
later_none none none e = (refl, refl)
later_none (some b) none e = absurd (ground (arith, e))
later_none none (some c) e = absurd (ground (arith, e))
later_none (some b) (some c) e = elim (Bool-cases (ltb b.0 c.0)) [
  | inl t ↦ absurd (ground (arith, rw t at e))
  | inr t ↦ absurd (ground (arith, rw t at e))
]

later_source :
    (best c : Option Pin) (b : Pin) → later_pin best c ≡ some b → (best ≡ some b) ⊎ (c ≡ some b)
later_source best none b e = inl e
later_source none (some c) b e = inr e
later_source (some a) (some c) b e = elim (Bool-cases (ltb a.0 c.0)) [
  | inl t ↦ inr (rw t at e)
  | inr t ↦ inl (rw t at e)
]

later_bound :
    (best c : Option Pin) (b : Pin)
    → not_later (later_pin best c) b ≡ true
    → (not_later best b ≡ true) × (not_later c b ≡ true)
later_bound best none b e = (e, refl)
later_bound none (some c) b e = (refl, e)
later_bound (some a) (some c) b e = elim (Bool-cases (ltb a.0 c.0)) [
  | inl t ↦ let h : leb c.0 b.0 ≡ true = rw t at e in (ground (arith, h, t), h)
  | inr t ↦ let h : leb a.0 b.0 ≡ true = rw t at e in (h, ground (arith, h, t))
]

module _ {ℓ} {A : Type ℓ} (pin : A → Option Pin) where
  Finds-more :
      (best : Option Pin) (x : A) (xs : List A) (r : Option Pin)
      → Finds pin (later_pin best (pin x)) xs r
      → Finds pin best (x ∷ xs) r
  Finds-more best x xs none h = let parts = later_none best (pin x) h.0 in (parts.0, (parts.1, h.1))
  Finds-more best x xs (some b) h =
      let bounds = later_bound best (pin x) b h.1 in
      (
        elim h.0 [
          | inl e ↦ elim (later_source best (pin x) b e) [ inl g ↦ inl g | inr g ↦ inr (inl g) ]
          | inr g ↦ inr (inr g)
        ],
        bounds.0,
        (bounds.1, h.2),
      )

  latest_pin-Finds : (best : Option Pin) (xs : List A) → Finds pin best xs (latest_pin pin best xs)
  unfolding latest_pin
  latest_pin-Finds none [] = (refl, tt)
  latest_pin-Finds (some b) [] = (inl refl, ground arith, tt)
  latest_pin-Finds best (x ∷ xs) =
      Finds-more best x xs (latest_pin pin (later_pin best (pin x)) xs)
        (latest_pin-Finds (later_pin best (pin x)) xs)

made {ℓ} :
    {A : Type ℓ} (pin : A → Option Pin) (b : Pin) (xs : List A)
    → ((none ≡ some b) ⊎ Makes pin b xs)
    → Makes pin b xs
made pin b xs (inl e) = absurd (ground (arith, e))
made pin b xs (inr h) = h

-- The decision comes from the list, and none of the list is later.
abbrev pub IsLatest {ℓ} : {A : Type ℓ} → (A → Option Pin) → Pin → List A → Type 0
IsLatest pin b xs = Makes pin b xs × All (λ x. not_later (pin x) b ≡ true) xs

-- What may be said of a pinned machine, or of its absence.
abbrev pub IsPin : PlanningSnapshot → Key → Instant → Option Key → Type 0
IsPin s k at none =
    All (λ l. lock_pin k at l ≡ none) s.locks × All (λ o. override_pin k at o ≡ none) s.overrides
IsPin s k at (some m) =
    (b : Pin) × (b.1 ≡ m)
    × (IsLatest (lock_pin k at) b s.locks
        ⊎ (All (λ l. lock_pin k at l ≡ none) s.locks × IsLatest (override_pin k at) b s.overrides))

-- The machine pinned to an order is the one of a lock that pins it, no such lock being created later;
-- when no lock pins it, the one of such an override, no such override being created later; and
-- there is none exactly when neither a lock nor an override pins it.
pub pinned_machine_for_order-IsPin :
    (s : PlanningSnapshot) (k : Key) (at : Instant) → IsPin s k at (pinned_machine_for_order s k at)
unfolding pinned_machine_for_order
pinned_machine_for_order-IsPin s k at =
    go (latest_pin (lock_pin k at) none s.locks) (latest_pin (override_pin k at) none s.overrides)
      (latest_pin-Finds (lock_pin k at) none s.locks)
      (latest_pin-Finds (override_pin k at) none s.overrides)
  where
    go :
        (a b : Option Pin)
        → Finds (lock_pin k at) none s.locks a
        → Finds (override_pin k at) none s.overrides b
        → IsPin s k at (pinned_machine (unless_pinned a b))
    go none none h g = (h.1, g.1)
    go none (some b) h g = (b, refl, inr (h.1, (made (override_pin k at) b s.overrides g.0, g.2)))
    go (some a) b h g = (a, refl, inl (made (lock_pin k at) a s.locks h.0, h.2))
