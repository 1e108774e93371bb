-- ===== src/Priority/Ranking/Ordering.antt =====
-- The order of the ranking (backend/app/engines/priority/ranking.py).
use athena_order_priority.Prelude.{
  ℤ, leq, leq_total, leq_trans, ◌≡◌, refl, Bool, true, false, List, Option, none, some, IsOrder,
  Bool-cases, inl, inr, arith,
}
use athena_order_priority.Domain.Window.{Instant}
use athena_order_priority.Domain.Keys.{Key}
use athena_order_priority.Domain.Orders.{Order}
use athena_order_priority.Priority.Ranking.{
  ranks_before, forced_before, score_before, due_before, due_of,
}

score_before_total :
    (a b : ℤ) (x y : Bool)
    → (x ≡ false → y ≡ true)
    → score_before a b x ≡ false
    → score_before b a y ≡ true
score_before_total a b x y back h = elim (Bool-cases (leq b a)) [
  | inr e ↦ let le = leq_total b a e in rw le (rw e refl)
  | inl e ↦ elim (Bool-cases (leq a b)) [
    | inr g ↦ absurd (ground (arith, rw e at (rw g at h)))
    | inl g ↦ rw g (rw e (back (rw e at (rw g at h))))
  ]
]

score_before-leq : (a b : ℤ) (x : Bool) → score_before a b x ≡ true → leq b a ≡ true
score_before-leq a b x h = elim (Bool-cases (leq b a)) [
  | inl e ↦ e
  | inr e ↦ absurd (ground (arith, rw e at h))
]

score_before-tie : (a b : ℤ) (x : Bool) → score_before a b x ≡ true → leq a b ≡ true → x ≡ true
score_before-tie a b x h e = let less = score_before-leq a b x h in rw e at (rw less at h)

score_before_trans :
    (a b c : ℤ) (x y z : Bool)
    → (x ≡ true → y ≡ true → z ≡ true)
    → score_before a b x ≡ true
    → score_before b c y ≡ true
    → score_before a c z ≡ true
score_before_trans a b c x y z step h g =
    let ba = score_before-leq a b x h in
    let cb = score_before-leq b c y g in
    let ca = leq_trans c b a cb ba in
    elim (Bool-cases (leq a c)) [
      | inr e ↦ rw ca (rw e refl)
      | inl e ↦
          let ab = leq_trans a c b e cb in
          let bc = leq_trans b a c ba e in
          rw ca (rw e (step (score_before-tie a b x h ab) (score_before-tie b c y g bc)))
    ]

due_before_total :
    (a b : Option Instant) (x y : Bool)
    → (x ≡ false → y ≡ true)
    → due_before a b x ≡ false
    → due_before b a y ≡ true
due_before_total none none x y back h = back h
due_before_total none (some b) x y back h = refl
due_before_total (some a) none x y back h = absurd (ground (arith, h))
due_before_total (some a) (some b) x y back h = ground (arith, back, h)

due_before_trans :
    (a b c : Option Instant) (x y z : Bool)
    → (x ≡ true → y ≡ true → z ≡ true)
    → due_before a b x ≡ true
    → due_before b c y ≡ true
    → due_before a c z ≡ true
due_before_trans none none none x y z step h g = step h g
due_before_trans none none (some c) x y z step h g = absurd (ground (arith, g))
due_before_trans none (some b) c x y z step h g = absurd (ground (arith, h))
due_before_trans (some a) none none x y z step h g = refl
due_before_trans (some a) (some b) none x y z step h g = refl
due_before_trans (some a) none (some c) x y z step h g = absurd (ground (arith, g))
due_before_trans (some a) (some b) (some c) x y z step h g = ground (arith, step, h, g)

forced_before_total :
    (a b x y : Bool)
    → (x ≡ false → y ≡ true)
    → forced_before a b x ≡ false
    → forced_before b a y ≡ true
forced_before_total true true x y back h = back h
forced_before_total true false x y back h = absurd (ground (arith, h))
forced_before_total false true x y back h = refl
forced_before_total false false x y back h = back h

forced_before_trans :
    (a b c x y z : Bool)
    → (x ≡ true → y ≡ true → z ≡ true)
    → forced_before a b x ≡ true
    → forced_before b c y ≡ true
    → forced_before a c z ≡ true
forced_before_trans true true true x y z step h g = step h g
forced_before_trans true true false x y z step h g = refl
forced_before_trans true false true x y z step h g = absurd (ground (arith, g))
forced_before_trans true false false x y z step h g = refl
forced_before_trans false true c x y z step h g = absurd (ground (arith, h))
forced_before_trans false false true x y z step h g = absurd (ground (arith, g))
forced_before_trans false false false x y z step h g = step h g

pub ranks_before-IsOrder : (orders : List (Key × Order)) → IsOrder (ranks_before orders)
unfolding ranks_before
ranks_before-IsOrder orders = record {
  total = λ r q. forced_before_total r.forced_next q.forced_next _ _ (
      score_before_total r.score q.score _ _
        (due_before_total (due_of orders r) (due_of orders q) _ _ (λ h. ground (arith, h))));
  trans = λ r q p. forced_before_trans r.forced_next q.forced_next p.forced_next _ _ _ (
      score_before_trans r.score q.score p.score _ _ _ (
        due_before_trans (due_of orders r) (due_of orders q) (due_of orders p) _ _ _
          (λ h g. ground (arith, h, g))));
}
