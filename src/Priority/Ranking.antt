-- ===== src/Priority/Ranking.antt =====
-- backend/app/engines/priority/ranking.py: the ranking and the share of the top slots. The share
-- `max_share` is in millionths.
pub mod Fairness
pub mod Blocks
pub mod Ordering
pub mod Laws
use athena_order_priority.Prelude.{
  ℕ, zero, suc, ◌+◌, ◌*◌, ◌/◌, max, ℤ, leq, Bool, true, false, not, ◌&&◌, ◌||◌, List, [], ◌∷◌, ◌++◌,
  Option, none, some, map, ltb, leb, ◌==◌, if◌then◌else◌, get, then_by, sort_by, length, any,
}
use athena_order_priority.Domain.Window.{Instant}
use athena_order_priority.Domain.Keys.{Key}
use athena_order_priority.Domain.Status.{ReadinessState}
use athena_order_priority.Domain.Orders.{Order, due_date}
use athena_order_priority.Priority.{PriorityAdjustment, fairness}
use athena_order_priority.Priority.Adjustments.{FairnessConfig}

-- `PriorityResult` of backend/app/domain/results.py, as far as ranking and scheduling read it.
pub record PriorityResult : Type 0 where
  pub order_id : Key
  pub score : ℤ
  pub base_score : ℤ
  pub adjustments : List PriorityAdjustment
  pub readiness : ReadinessState
  pub blocked : Bool
  pub forced_next : Bool
  pub rank : Option ℕ

-- The order of `(due is None, due, order_id)`.
abbrev pub due_before : Option Instant → Option Instant → Bool → Bool
due_before none none rest = rest
due_before none (some b) rest = false
due_before (some a) none rest = true
due_before (some a) (some b) rest = then_by a b rest

-- Scores in descending order, then `rest`.
abbrev pub score_before : ℤ → ℤ → Bool → Bool
score_before a b rest = if leq b a then if leq a b then rest else true else false

-- Forced orders first, then `rest`.
abbrev pub forced_before : Bool → Bool → Bool → Bool
forced_before true true rest = rest
forced_before true false rest = true
forced_before false true rest = false
forced_before false false rest = rest

module _ (orders : List (Key × Order)) where
  -- `snapshot.orders[r.order_id].due_date`, or none for an unknown order.
  abbrev due_of : PriorityResult → Option Instant
  due_of r = elim (get r.order_id orders) [ none ↦ none | some o ↦ due_date o ]

  -- The comparison of two `ranking_key`s.
  unfoldable pub ranks_before : PriorityResult → PriorityResult → Bool
  unfolding get due_date
  ranks_before r q =
      forced_before r.forced_next q.forced_next (
        score_before r.score q.score (due_before (due_of r) (due_of q) (leb r.order_id q.order_id)))

  -- The customer of a result's order; an unknown order counts for none of them.
  unfoldable pub customer_of : PriorityResult → Option Key
  unfolding get
  customer_of r = elim (get r.order_id orders) [ none ↦ none | some o ↦ some o.customer_id ]

unfoldable pub max_slots_per_customer : FairnessConfig → ℕ
max_slots_per_customer f = max 1 (f.top_n * f.max_share / 1_000_000)

abbrev pub same_customer : Option Key → Option Key → Bool
same_customer none none = true
same_customer none (some b) = false
same_customer (some a) none = false
same_customer (some a) (some b) = a == b

-- `counts[customer]`: how many of the kept results are the customer's.
unfoldable pub count_of : (PriorityResult → Option Key) → Option Key → List PriorityResult → ℕ
count_of customer c [] = 0
count_of customer c (r ∷ rest) =
    let more = count_of customer c rest in if same_customer c (customer r) then suc more else more

-- The note that a demoted result receives.
unfoldable pub demote : (PriorityResult → Option Key) → PriorityResult → PriorityResult
demote customer r = record {
  order_id = r.order_id;
  score = r.score;
  base_score = r.base_score;
  adjustments =
      r.adjustments ++ record { kind = fairness; points = ℤ.pos 0; source_id = customer r } ∷ [];
  readiness = r.readiness;
  blocked = r.blocked;
  forced_next = r.forced_next;
  rank = r.rank;
}

-- `kept`, `demoted` and `rest`.
pub record Shares : Type 0 where
  pub kept : List PriorityResult
  pub demoted : List PriorityResult
  pub rest : List PriorityResult

module _ (customer : PriorityResult → Option Key) (top_n limit : ℕ) where
  -- One round of the loop.
  unfoldable pub share_one : Shares → PriorityResult → Shares
  unfolding count_of demote
  share_one s r =
      if leb top_n (length s.kept)
      then record { kept = s.kept; demoted = s.demoted; rest = s.rest ++ r ∷ [] }
      else if r.forced_next || ltb (count_of customer (customer r) s.kept) limit
      then record { kept = s.kept ++ r ∷ []; demoted = s.demoted; rest = s.rest }
      else record { kept = s.kept; demoted = s.demoted ++ demote customer r ∷ []; rest = s.rest }

  unfoldable pub share_all : Shares → List PriorityResult → Shares
  unfolding share_one
  share_all s [] = s
  share_all s (r ∷ rs) = share_all (share_one s r) rs

-- `kept + demoted + rest`
unfoldable pub apply_top_n_share :
    List PriorityResult → List (Key × Order) → FairnessConfig → List PriorityResult
unfolding share_all customer_of max_slots_per_customer
apply_top_n_share ordered orders f =
    let s =
      share_all (customer_of orders) f.top_n (max_slots_per_customer f)
        (record { kept = []; demoted = []; rest = [] }) ordered in
    s.kept ++ (s.demoted ++ s.rest)

-- `result.rank = position`
unfoldable pub set_rank : ℕ → PriorityResult → PriorityResult
set_rank n r = record {
  order_id = r.order_id;
  score = r.score;
  base_score = r.base_score;
  adjustments = r.adjustments;
  readiness = r.readiness;
  blocked = r.blocked;
  forced_next = r.forced_next;
  rank = some n;
}

unfoldable pub number_from : ℕ → List PriorityResult → List PriorityResult
unfolding set_rank
number_from n [] = []
number_from n (r ∷ rs) = set_rank n r ∷ number_from (suc n) rs

-- The results in the order of their ranks, each with its rank.
unfoldable pub rank_results :
    List PriorityResult → List (Key × Order) → FairnessConfig → List PriorityResult
unfolding sort_by ranks_before apply_top_n_share number_from
rank_results results orders f =
    let ordered = sort_by (ranks_before orders) results in
    number_from 1 (
      if f.fairness_enabled && ltb 0 f.top_n && ltb 0 f.max_share && ltb f.max_share 1_000_000
      then apply_top_n_share ordered orders f
      else ordered)
