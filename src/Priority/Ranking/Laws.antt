-- ===== src/Priority/Ranking/Laws.antt =====
-- The theorems about the ranking (backend/app/engines/priority/ranking.py).
use mathlib.Core.List.Perm
use mathlib.Core.List.{append-nil, map-append, perm_append_singleton, perm_middle}
use athena_order_priority.Prelude.{
  ℕ, suc, ℤ, ◌≡◌, refl, sym, ap, ◌∙◌, Bool, true, ◌&&◌, ◌||◌, List, [], ◌∷◌, ◌++◌, Perm, Option,
  some, inl, inr, map, ltb, leb, length, Bool-cases, sort_by, sort_by-perm, sort_by-IsSortedBy,
  arith,
}
use athena_order_priority.Domain.Keys.{Key}
use athena_order_priority.Domain.Orders.{Order}
use athena_order_priority.Priority.Adjustments.{FairnessConfig}
use athena_order_priority.Priority.Ranking.{
  PriorityResult, Shares, count_of, demote, share_one, share_all, set_rank, number_from,
  apply_top_n_share, rank_results, ranks_before, customer_of, max_slots_per_customer,
}
use athena_order_priority.Priority.Ranking.Ordering.{ranks_before-IsOrder}
use athena_order_priority.Priority.Ranking.Blocks.{InOrder, share_all-InOrder}
use athena_order_priority.Priority.Ranking.Fairness.{
  IsShared, share_all-IsShared, customer_of-demote, unforced,
}

-- The order and the score of a result.
abbrev pub face : PriorityResult → Key × ℤ
face r = (r.order_id, r.score)

-- `n`, `n + 1`, ... as many as there are elements.
unfoldable pub numbers {ℓ} : {A : Type ℓ} → ℕ → List A → List (Option ℕ)
numbers n [] = []
numbers n (x ∷ xs) = some n ∷ numbers (suc n) xs

face-number_from : (n : ℕ) (rs : List PriorityResult) → map face (number_from n rs) ≡ map face rs
unfolding number_from set_rank
face-number_from n [] = refl
face-number_from n (r ∷ rs) = ap (λ ys. face r ∷ ys) (face-number_from (suc n) rs)

rank-number_from :
    (n : ℕ) (rs : List PriorityResult) → map (λ r. r.rank) (number_from n rs) ≡ numbers n rs
unfolding number_from set_rank numbers
rank-number_from n [] = refl
rank-number_from n (r ∷ rs) = ap (λ ys. some n ∷ ys) (rank-number_from (suc n) rs)

numbers-number_from :
    (m n : ℕ) (rs : List PriorityResult) → numbers m (number_from n rs) ≡ numbers m rs
unfolding number_from numbers
numbers-number_from m n [] = refl
numbers-number_from m n (r ∷ rs) = ap (λ ys. some m ∷ ys) (numbers-number_from (suc m) (suc n) rs)

-- A new element in each of three lists.
module _ {A : Type 0} (k d r : List A) (x : A) where
  perm_first : Perm ((k ++ x ∷ []) ++ (d ++ r)) (x ∷ (k ++ (d ++ r)))
  perm_first = Perm.append_right (d ++ r) (perm_append_singleton x k)

  perm_second : Perm (k ++ ((d ++ x ∷ []) ++ r)) (x ∷ (k ++ (d ++ r)))
  perm_second =
      Perm.trans (Perm.append_left k (Perm.append_right r (perm_append_singleton x d)))
        (perm_middle k (d ++ r))

  perm_third : Perm (k ++ (d ++ (r ++ x ∷ []))) (x ∷ (k ++ (d ++ r)))
  perm_third =
      Perm.trans
        (Perm.append_left k
          (Perm.trans (Perm.append_left d (perm_append_singleton x r)) (perm_middle d r)))
        (perm_middle k (d ++ r))

-- The faces of all results that a round leaves.
abbrev faces : Shares → List (Key × ℤ)
faces s = map face s.kept ++ (map face s.demoted ++ map face s.rest)

module _ (customer : PriorityResult → Option Key) (top_n limit : ℕ) where
  faces-share_one :
      (s : Shares) (r : PriorityResult)
      → Perm (faces (share_one customer top_n limit s r)) (face r ∷ faces s)
  unfolding share_one demote
  faces-share_one s r = elim (Bool-cases (leb top_n (length s.kept))) [
    | inl full ↦ rw full (
        rw (map-append face s.rest (r ∷ []))
          (perm_third (map face s.kept) (map face s.demoted) (map face s.rest) (face r)))
    | inr room ↦
        elim (Bool-cases (r.forced_next || ltb (count_of customer (customer r) s.kept) limit)) [
          | inl kept ↦ rw room (
              rw kept (
                rw (map-append face s.kept (r ∷ []))
                  (perm_first (map face s.kept) (map face s.demoted) (map face s.rest) (face r))))
          | inr over ↦ rw room (
              rw over (
                rw (map-append face s.demoted (demote customer r ∷ []))
                  (perm_second (map face s.kept) (map face s.demoted) (map face s.rest) (face r))))
        ]
  ]

  faces-share_all :
      (s : Shares) (rs : List PriorityResult)
      → Perm (faces (share_all customer top_n limit s rs)) (map face rs ++ faces s)
  unfolding share_all
  faces-share_all s [] = Perm.rfl
  faces-share_all s (r ∷ rs) =
      Perm.trans (faces-share_all (share_one customer top_n limit s r) rs) (
        Perm.trans (Perm.append_left (map face rs) (faces-share_one s r))
          (perm_middle (map face rs) (faces s)))

abbrev pub no_shares : Shares
no_shares = record { kept = []; demoted = []; rest = [] }

-- Whether the share of the top slots is applied.
abbrev pub shares_slots : FairnessConfig → Bool
shares_slots f =
    f.fairness_enabled && ltb 0 f.top_n && ltb 0 f.max_share && ltb f.max_share 1_000_000

module _ (results : List PriorityResult) (orders : List (Key × Order)) (f : FairnessConfig) where
  abbrev ordered : List PriorityResult
  ordered = sort_by (ranks_before orders) results

  faces-apply_top_n_share : Perm (map face (apply_top_n_share ordered orders f)) (map face ordered)
  unfolding apply_top_n_share
  faces-apply_top_n_share =
      let s = share_all (customer_of orders) f.top_n (max_slots_per_customer f) no_shares ordered in
      let all =
        faces-share_all (customer_of orders) f.top_n (max_slots_per_customer f) no_shares ordered in
      rw (map-append face s.kept (s.demoted ++ s.rest))
        (rw (map-append face s.demoted s.rest) (rw (append-nil (map face ordered)) at all))

  numbered :
      (rs : List PriorityResult)
      → Perm (map face rs) (map face ordered)
      → Perm (map face (number_from 1 rs)) (map face results)
        × (map (λ r. r.rank) (number_from 1 rs) ≡ numbers 1 (number_from 1 rs))
  numbered rs h = (
    rw (face-number_from 1 rs)
        (Perm.trans h (Perm.map face (sort_by-perm (ranks_before orders) results))),
    rank-number_from 1 rs ∙ sym (numbers-number_from 1 1 rs),
  )

  -- Whether the share of the top slots is applied or not, the results ranked are those given, each
  -- once and with its score, and their ranks are 1, 2, 3, ...
  pub rank_results-perm :
      Perm (map face (rank_results results orders f)) (map face results)
      × (map (λ r. r.rank) (rank_results results orders f)
          ≡ numbers 1 (rank_results results orders f))
  unfolding rank_results
  rank_results-perm = elim (Bool-cases (shares_slots f)) [
    | inl on ↦ rw on (numbered (apply_top_n_share ordered orders f) faces-apply_top_n_share)
    | inr off ↦ rw off (numbered ordered Perm.rfl)
  ]

  -- When the share of the top slots is applied, the ranking is a first block, the demoted results
  -- and the rest, each of the three in the order of `ranking_key`: the block has at most `top_n`
  -- results, of no customer more than `max_slots_per_customer` that are not forced; no demoted result
  -- is forced, and its customer has at least `max_slots_per_customer` results in the block; and unless
  -- the block is full, nothing stands behind the demoted results.
  pub rank_results-IsShared :
      shares_slots f ≡ true
      → (s : Shares) × (rank_results results orders f
          ≡ number_from 1 (s.kept ++ (s.demoted ++ s.rest)))
        × IsShared (customer_of orders) f.top_n (max_slots_per_customer f) s
        × InOrder orders s
  unfolding rank_results apply_top_n_share unforced
  rank_results-IsShared on = rw on (
    _,
    refl,
    share_all-IsShared (customer_of orders) f.top_n (max_slots_per_customer f)
        (customer_of-demote orders) no_shares ordered
        (record {
          fits = omega arith;
          bounded = λ c. omega arith;
          full_or_all = inr refl;
          not_forced = tt;
          over = tt;
        }),
    share_all-InOrder orders f.top_n (max_slots_per_customer f) no_shares ordered
        (sort_by-IsSortedBy (ranks_before orders) (ranks_before-IsOrder orders) results)
        (tt, tt, tt) (tt, tt, tt),
  )
