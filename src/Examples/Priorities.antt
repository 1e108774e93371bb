-- ===== src/Examples/Priorities.antt =====
-- The laws of the priority engine on concrete orders.
use athena_order_priority.Prelude.{
  ◌*◌, pos, ◌+ℤ◌, ◌≡◌, refl, true, false, List, [], ◌∷◌, ◌++◌, Perm, map, some, any, sort_by,
}
use athena_order_priority.Domain.Status.{ready, waiting_material}
use athena_order_priority.Priority.{total, score_max, point}
use athena_order_priority.Priority.Overrides.{
  override_adjustments, override_adjustments-replay, replay,
}
use athena_order_priority.Priority.Engine.{evaluate, cap_score, clamp, overrides_of}
use athena_order_priority.Priority.Engine.Laws.{evaluate_score, evaluate_forced}
use athena_order_priority.Priority.Ranking.{
  PriorityResult, Shares, rank_results, number_from, customer_of, max_slots_per_customer,
}
use athena_order_priority.Priority.Ranking.Fairness.{IsShared}
use athena_order_priority.Priority.Ranking.Blocks.{InOrder}
use athena_order_priority.Priority.Ranking.Laws.{
  face, numbers, rank_results-perm, rank_results-IsShared,
}
use athena_order_priority.Examples.Orders.{
  first_order, orders, share_rules, raised, fixed, inputs, factors, result,
}

override_adjustments-replay_example :
    (pos 50 +ℤ total (override_adjustments (raised ∷ fixed ∷ []) (pos 50)).0
      ≡ replay (pos 50) (fixed ∷ raised ∷ []))
    × ((override_adjustments (raised ∷ fixed ∷ []) (pos 50)).1 ≡ false)
unfolding any sort_by
override_adjustments-replay_example = override_adjustments-replay (raised ∷ fixed ∷ []) (pos 50)

evaluate_score_example :
    (evaluate factors first_order inputs ready).score
    ≡ cap_score false
        (evaluate factors first_order inputs ready).forced_next
        (some (pos (3 * point)))
        (pos (
          clamp score_max (
            (evaluate factors first_order inputs ready).base_score
            +ℤ total (evaluate factors first_order inputs ready).adjustments)))
evaluate_score_example = evaluate_score factors first_order inputs ready

evaluate_forced_example :
    ((evaluate factors first_order inputs waiting_material).score ≡ pos score_max)
    × ((evaluate factors first_order inputs waiting_material).forced_next ≡ true)
unfolding overrides_of any
evaluate_forced_example = evaluate_forced factors first_order inputs waiting_material refl

abbrev results : List PriorityResult
results = result 2 50 ∷ result 1 60 ∷ []

rank_results-perm_example :
    Perm (map face (rank_results results orders share_rules)) (map face results)
    × (map (λ r. r.rank) (rank_results results orders share_rules)
        ≡ numbers 1 (rank_results results orders share_rules))
rank_results-perm_example = rank_results-perm results orders share_rules

rank_results-IsShared_example :
    (s : Shares) × (rank_results results orders share_rules
      ≡ number_from 1 (s.kept ++ (s.demoted ++ s.rest)))
    × IsShared (customer_of orders) 2 (max_slots_per_customer share_rules) s
    × InOrder orders s
rank_results-IsShared_example = rank_results-IsShared results orders share_rules refl
