-- ===== src/Priority/Overrides.antt =====
-- `override_adjustments` of backend/app/engines/priority/adjustments.py, and its laws.
use athena_order_priority.Prelude.{
  ℤ, pos, ◌+ℤ◌, ◌-ℤ◌, neg, abs, add_sub, add_assoc, add_zero, zero_add, ◌≡◌, refl, sym, ap, ◌∙◌,
  Bool, true, false, ◌||◌, List, [], ◌∷◌, ◌++◌, Option, none, some, leb, then_by, sort_by, any,
  any-sort_by, Bool-cases, inl, inr, if◌then◌else◌, arith,
}
use athena_order_priority.Domain.Status.{
  OverrideType, increase_priority, decrease_priority, set_priority, force_next, hold_order,
  release_hold, move_order, lock_machine_assignment,
}
use athena_order_priority.Domain.Overlays.{PriorityOverride}
use athena_order_priority.Priority.{PriorityAdjustment, override, total, score_max}

-- `(ensure_utc(o.created_at), o.override_id)`
abbrev pub created_before : PriorityOverride → PriorityOverride → Bool
created_before o p = then_by o.created_at p.created_at (leb o.override_id p.override_id)

-- The variables of the loop.
pub record Running : Type 0 where
  pub adjustments : List PriorityAdjustment
  pub score : ℤ
  pub forced : Option PriorityOverride

-- The variables before the loop.
abbrev pub unadjusted : ℤ → Running
unadjusted running = record { adjustments = []; score = running; forced = none }

-- `adjustments.append(...); score += delta`
unfoldable pub adjust : PriorityOverride → ℤ → Running → Running
unfolding ◌+ℤ◌
adjust o delta r = record {
  adjustments =
      r.adjustments
      ++ record { kind = override; points = delta; source_id = some o.override_id } ∷ [];
  score = r.score +ℤ delta;
  forced = r.forced;
}

-- The points that an override with a value adds to `score`.
unfoldable pub delta_of : OverrideType → ℤ → ℤ → Option ℤ
unfolding neg ◌-ℤ◌
delta_of increase_priority value score = some (abs value)
delta_of decrease_priority value score = some (neg (abs value))
delta_of set_priority value score = some (value -ℤ score)
delta_of _ value score = none

-- An override without a value, or of another kind, changes nothing.
unfoldable pub adjust_by : PriorityOverride → Option ℤ → Running → Running
unfolding adjust delta_of
adjust_by o none r = r
adjust_by o (some value) r = elim (delta_of o.override_type value r.score) [
  | none ↦ r
  | some delta ↦ adjust o delta r
]

abbrev pub is_force_next : PriorityOverride → Bool
is_force_next o = elim o.override_type [ force_next ↦ true | _ ↦ false ]

-- One round of the loop.
unfoldable pub apply_override : Running → PriorityOverride → Running
unfolding adjust_by
apply_override r o =
    if is_force_next o
    then record { adjustments = r.adjustments; score = r.score; forced = some o }
    else adjust_by o o.value r

unfoldable pub apply_overrides : Running → List PriorityOverride → Running
unfolding apply_override
apply_overrides r [] = r
apply_overrides r (o ∷ os) = apply_overrides (apply_override r o) os

-- After the loop: the score is pinned when an order is forced.
unfoldable pub force : Running → List PriorityAdjustment × Bool
unfolding adjust ◌-ℤ◌
force r = elim r.forced [
  | none ↦ (r.adjustments, false)
  | some o ↦ ((adjust o (pos score_max -ℤ r.score) r).adjustments, true)
]

-- The overrides given are those of the order.
unfoldable pub override_adjustments : List PriorityOverride → ℤ → List PriorityAdjustment × Bool
unfolding sort_by apply_overrides force
override_adjustments overrides running =
    force (apply_overrides (unadjusted running) (sort_by created_before overrides))

-- What an override makes of a score.
unfoldable pub rescored : ℤ → PriorityOverride → ℤ
unfolding delta_of ◌+ℤ◌
rescored score o = elim o.value [
  | none ↦ score
  | some value ↦ elim o.override_type [
    | increase_priority ↦ score +ℤ abs value
    | decrease_priority ↦ score +ℤ neg (abs value)
    | set_priority ↦ value
    | _ ↦ score
  ]
]

-- The score that the overrides leave, one after the other.
unfoldable pub replay : ℤ → List PriorityOverride → ℤ
unfolding rescored
replay score [] = score
replay score (o ∷ os) = replay (rescored score o) os

pub total-append : (xs ys : List PriorityAdjustment) → total (xs ++ ys) ≡ total xs +ℤ total ys
unfolding total
total-append [] ys = sym (zero_add (total ys))
total-append (x ∷ xs) ys =
    ap (λ n. x.points +ℤ n) (total-append xs ys) ∙ sym (add_assoc x.points (total xs) (total ys))

total_snoc :
    (running delta : ℤ) (xs : List PriorityAdjustment) (o : PriorityOverride)
    → running
        +ℤ total
            (xs ++ record { kind = override; points = delta; source_id = some o.override_id } ∷ [])
      ≡ running +ℤ total xs +ℤ delta
unfolding total
total_snoc running delta xs o =
    ap (λ n. running +ℤ n) (total-append xs _)
    ∙ ap (λ n. running +ℤ (total xs +ℤ n)) (add_zero delta)
    ∙ sym (add_assoc running (total xs) delta)

module _ (running : ℤ) where
  -- The adjustments so far account for the score.
  abbrev IsSettled : Running → Type 0
  IsSettled r = running +ℤ total r.adjustments ≡ r.score

  adjust-IsSettled :
      (o : PriorityOverride) (delta : ℤ) (r : Running) → IsSettled r → IsSettled (adjust o delta r)
  unfolding adjust
  adjust-IsSettled o delta r h = total_snoc running delta r.adjustments o ∙ ap (λ n. n +ℤ delta) h

  adjust_by-IsSettled :
      (o : PriorityOverride) (v : Option ℤ) (r : Running)
      → IsSettled r
      → IsSettled (adjust_by o v r)
  unfolding adjust_by delta_of
  adjust_by-IsSettled o none r h = h
  adjust_by-IsSettled o (some value) r h = go (delta_of o.override_type value r.score)
    where
      go : (d : Option ℤ) → IsSettled (elim d [ none ↦ r | some delta ↦ adjust o delta r ])
      go none = h
      go (some delta) = adjust-IsSettled o delta r h

  apply_override-IsSettled :
      (r : Running) (o : PriorityOverride) → IsSettled r → IsSettled (apply_override r o)
  unfolding apply_override
  apply_override-IsSettled r o h = elim (Bool-cases (is_force_next o)) [
    | inl e ↦ rw e h
    | inr e ↦ rw e (adjust_by-IsSettled o o.value r h)
  ]

  apply_overrides-IsSettled :
      (r : Running) (os : List PriorityOverride) → IsSettled r → IsSettled (apply_overrides r os)
  unfolding apply_overrides
  apply_overrides-IsSettled r [] h = h
  apply_overrides-IsSettled r (o ∷ os) h =
      apply_overrides-IsSettled (apply_override r o) os (apply_override-IsSettled r o h)

rescore : (o : PriorityOverride) (r : Running) → (apply_override r o).score ≡ rescored r.score o
unfolding apply_override adjust_by adjust delta_of rescored
rescore o r = go o.override_type o.value
  where
    go :
        (t : OverrideType) (v : Option ℤ)
        → (apply_override r (record o { override_type = t; value = v })).score
          ≡ rescored r.score (record o { override_type = t; value = v })
    go increase_priority none = refl
    go decrease_priority none = refl
    go set_priority none = refl
    go increase_priority (some v) = refl
    go decrease_priority (some v) = refl
    go set_priority (some v) = add_sub r.score v
    go force_next none = refl
    go hold_order none = refl
    go release_hold none = refl
    go move_order none = refl
    go lock_machine_assignment none = refl
    go force_next (some v) = refl
    go hold_order (some v) = refl
    go release_hold (some v) = refl
    go move_order (some v) = refl
    go lock_machine_assignment (some v) = refl

rescore_all :
    (os : List PriorityOverride) (r : Running) → (apply_overrides r os).score ≡ replay r.score os
unfolding apply_overrides replay
rescore_all [] r = refl
rescore_all (o ∷ os) r = rescore_all os (apply_override r o) ∙ ap (λ n. replay n os) (rescore o r)

abbrev is_some : Option PriorityOverride → Bool
is_some none = false
is_some (some o) = true

forced_by :
    (o : PriorityOverride) (r : Running)
    → is_some (apply_override r o).forced ≡ (is_force_next o || is_some r.forced)
unfolding apply_override adjust_by adjust
forced_by o r = elim (Bool-cases (is_force_next o)) [
  | inl e ↦ rw e refl
  | inr e ↦ rw e (go o.value)
]
  where
    go : (v : Option ℤ) → is_some (adjust_by o v r).forced ≡ is_some r.forced
    go none = refl
    go (some v) = on (delta_of o.override_type v r.score)
      where
        taken : Option ℤ → Running
        taken none = r
        taken (some delta) = adjust o delta r

        on : (d : Option ℤ) → is_some (taken d).forced ≡ is_some r.forced
        on none = refl
        on (some delta) = refl

forced_by_all :
    (os : List PriorityOverride) (r : Running)
    → is_some (apply_overrides r os).forced ≡ (any is_force_next os || is_some r.forced)
unfolding apply_overrides any
forced_by_all [] r = refl
forced_by_all (o ∷ os) r = ground (arith, forced_by_all os (apply_override r o), forced_by o r)

pin :
    (running : ℤ) (r : Running)
    → IsSettled running r
    → (running +ℤ total (force r).0 ≡ (if is_some r.forced then pos score_max else r.score))
      × ((force r).1 ≡ is_some r.forced)
unfolding force adjust
pin running r h = go r.forced
  where
    go :
        (f : Option PriorityOverride)
        → (running +ℤ total (force (record r { forced = f })).0
            ≡ (if is_some f then pos score_max else r.score))
          × ((force (record r { forced = f })).1 ≡ is_some f)
    go none = (h, refl)
    go (some o) = (
      total_snoc running (pos score_max -ℤ r.score) r.adjustments o
          ∙ ap (λ n. n +ℤ (pos score_max -ℤ r.score)) h
          ∙ add_sub r.score (pos score_max),
      refl,
    )

or_false : (b : Bool) → (b || false) ≡ b
or_false true = refl
or_false false = refl

-- The points add up to what the overrides, one after the other in the order of their creation, make
-- of the running score, or to the highest score when one of them forces the order; and the flag
-- says whether one does.
pub override_adjustments-replay :
    (overrides : List PriorityOverride) (running : ℤ)
    → (running +ℤ total (override_adjustments overrides running).0 ≡ (
        if any is_force_next overrides
        then pos score_max
        else replay running (sort_by created_before overrides)))
      × ((override_adjustments overrides running).1 ≡ any is_force_next overrides)
unfolding override_adjustments force total
override_adjustments-replay overrides running =
    let start = unadjusted running in
    let sorted = sort_by created_before overrides in
    let flag : is_some (apply_overrides start sorted).forced ≡ any is_force_next overrides =
      forced_by_all sorted start
      ∙ or_false (any is_force_next sorted)
      ∙ any-sort_by created_before is_force_next overrides in
    let settled = apply_overrides-IsSettled running start sorted (add_zero running) in
    rw⁻¹ flag (rw⁻¹ (rescore_all sorted start) (pin running (apply_overrides start sorted) settled))
