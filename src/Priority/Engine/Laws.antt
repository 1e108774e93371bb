-- ===== src/Priority/Engine/Laws.antt =====
-- The theorems about the score of an order (backend/app/engines/priority/engine.py).
use athena_order_priority.Prelude.{
  ℕ, ◌≤◌, ℤ, pos, negsuc, ◌+ℤ◌, leq, add_zero, add_assoc, ◌≡◌, refl, sym, ap, subst, ◌∙◌, Bool,
  true, false, List, [], ◌∷◌, ◌++◌, Option, none, some, any, inl, inr, Bool-cases, arith,
}
use athena_order_priority.Domain.Status.{ReadinessState}
use athena_order_priority.Domain.Orders.{Order}
use athena_order_priority.Priority.{PriorityAdjustment, total, score_max}
use athena_order_priority.Priority.Overrides.{
  override_adjustments, override_adjustments-replay, is_force_next, total-append,
}
use athena_order_priority.Priority.Engine.{
  Factor, AdjustmentInputs, clamp, base_score_of, adjustments_of, add_all, overrides_of, is_blocked,
  cap_score, evaluate,
}

add_all_total :
    (options : List (Option PriorityAdjustment)) (xs : List PriorityAdjustment) (base score : ℤ)
    → base +ℤ total xs ≡ score
    → base +ℤ total (add_all options xs score).0 ≡ (add_all options xs score).1
unfolding add_all total
add_all_total [] xs base score h = h
add_all_total (none ∷ rest) xs base score h = add_all_total rest xs base score h
add_all_total (some a ∷ rest) xs base score h =
    add_all_total rest (xs ++ a ∷ []) base (score +ℤ a.points) (
      ap (λ n. base +ℤ n) (total-append xs (a ∷ []))
      ∙ ap (λ n. base +ℤ (total xs +ℤ n)) (add_zero a.points)
      ∙ sym (add_assoc base (total xs) a.points)
      ∙ ap (λ n. n +ℤ a.points) h)

-- The score is the base score and the points of all adjustments listed, clamped to 0 .. 100 points
-- and, for a blocked order that is not forced, capped.
pub evaluate_score :
    (factors : List Factor) (order : Order) (i : AdjustmentInputs) (readiness : ReadinessState)
    → (evaluate factors order i readiness).score
      ≡ cap_score
          (is_blocked readiness)
          (evaluate factors order i readiness).forced_next
          i.profile.blocked_order_cap
          (pos (
            clamp score_max (
              (evaluate factors order i readiness).base_score
              +ℤ total (evaluate factors order i readiness).adjustments)))
unfolding evaluate total
evaluate_score factors order i readiness =
    let base = base_score_of factors in
    let sums = add_all (adjustments_of order i) [] base in
    let more = override_adjustments (overrides_of order.order_id i.overrides) sums.1 in
    let e : base +ℤ total (sums.0 ++ more.0) ≡ sums.1 +ℤ total more.0 =
      ap (λ n. base +ℤ n) (total-append sums.0 more.0)
      ∙ sym (add_assoc base (total sums.0) (total more.0))
      ∙ ap (λ n. n +ℤ total more.0)
          (add_all_total (adjustments_of order i) [] base base (add_zero base)) in
    rw e refl

clamp_top : (top : ℕ) → clamp top (pos top) ≡ top
unfolding clamp
clamp_top top = omega arith

cap_forced : (b : Bool) (cap : Option ℤ) (n : ℤ) → cap_score b true cap n ≡ n
unfolding cap_score
cap_forced b none n = refl
cap_forced true (some cap) n = refl
cap_forced false (some cap) n = refl

-- An order that a planner forces next has the highest score, blocked or not and whatever its other
-- overrides are.
pub evaluate_forced :
    (factors : List Factor) (order : Order) (i : AdjustmentInputs) (readiness : ReadinessState)
    → any is_force_next (overrides_of order.order_id i.overrides) ≡ true
    → ((evaluate factors order i readiness).score ≡ pos score_max)
      × ((evaluate factors order i readiness).forced_next ≡ true)
unfolding evaluate
evaluate_forced factors order i readiness h =
    let sums = add_all (adjustments_of order i) [] (base_score_of factors) in
    let os = overrides_of order.order_id i.overrides in
    let (points, forced) = override_adjustments-replay os sums.1 in
    let all : sums.1 +ℤ total (override_adjustments os sums.1).0 ≡ pos score_max = rw h at points in
    let flag : (override_adjustments os sums.1).1 ≡ true = forced ∙ h in
    rw flag (
      rw all (
        cap_forced (is_blocked readiness) i.profile.blocked_order_cap
              (pos (clamp score_max (pos score_max)))
            ∙ ap pos (clamp_top score_max),
        refl,
      ))

clamp-le : (top : ℕ) (n : ℤ) → clamp top n ≤ top
unfolding clamp
clamp-le top (pos n) = omega arith
clamp-le top (negsuc n) = omega arith

leq_trans : (a b c : ℤ) → leq a b ≡ true → leq b c ≡ true → leq a c ≡ true
leq_trans (pos a) (pos b) (pos c) h k = ground (arith, h, k)
leq_trans (pos a) (pos b) (negsuc c) h k = ground (arith, k)
leq_trans (pos a) (negsuc b) c h k = ground (arith, h)
leq_trans (negsuc a) b (pos c) h k = refl
leq_trans (negsuc a) (pos b) (negsuc c) h k = ground (arith, k)
leq_trans (negsuc a) (negsuc b) (negsuc c) h k = ground (arith, h, k)

leq_total : (a b : ℤ) → leq a b ≡ false → leq b a ≡ true
leq_total (pos a) (pos b) h = ground (arith, h)
leq_total (pos a) (negsuc b) h = refl
leq_total (negsuc a) (pos b) h = ground (arith, h)
leq_total (negsuc a) (negsuc b) h = ground (arith, h)

cap_score-le :
    (b f : Bool) (cap : Option ℤ) (n m : ℤ) → leq n m ≡ true → leq (cap_score b f cap n) m ≡ true
unfolding cap_score
cap_score-le b f none n m h = h
cap_score-le true true (some cap) n m h = h
cap_score-le false f (some cap) n m h = h
cap_score-le true false (some cap) n m h = elim (Bool-cases (leq n cap)) [
  | inl e ↦ rw e h
  | inr e ↦ rw e (leq_trans cap n m (leq_total n cap e) h)
]

-- No score is above 100 points.
evaluate-le_max :
    (factors : List Factor) (order : Order) (i : AdjustmentInputs) (readiness : ReadinessState)
    → leq (evaluate factors order i readiness).score (pos score_max) ≡ true
evaluate-le_max factors order i readiness =
    let r = evaluate factors order i readiness in
    let n = clamp score_max (r.base_score +ℤ total r.adjustments) in
    let few = clamp-le score_max (r.base_score +ℤ total r.adjustments) in
    let low : leq (pos n) (pos score_max) ≡ true = ground (arith, few) in
    subst (λ x. leq x (pos score_max) ≡ true) (sym (evaluate_score factors order i readiness))
      (cap_score-le (is_blocked readiness) r.forced_next i.profile.blocked_order_cap (pos n)
        (pos score_max) low)
