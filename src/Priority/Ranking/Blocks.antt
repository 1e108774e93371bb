-- ===== src/Priority/Ranking/Blocks.antt =====
-- The order within the three lists of the share pass (backend/app/engines/priority/ranking.py).
use athena_order_priority.Prelude.{
  ℕ, ◌≡◌, Bool, true, ◌||◌, List, [], ◌∷◌, ◌++◌, inl, inr, ltb, leb, length, All, All-append,
  Bool-cases, IsSortedBy,
}
use athena_order_priority.Domain.Keys.{Key}
use athena_order_priority.Domain.Orders.{Order}
use athena_order_priority.Priority.Ranking.{
  PriorityResult, Shares, count_of, demote, share_one, share_all, ranks_before, customer_of,
}

-- The order of the ranking, which demotion does not change.
module _ (orders : List (Key × Order)) where
  abbrev before : PriorityResult → PriorityResult → Bool
  before = ranks_before orders

  -- Every one of the first results ranks before every one of the others.
  abbrev Ahead : List PriorityResult → List PriorityResult → Type 0
  Ahead xs rs = All (λ x. All (λ r. before x r ≡ true) rs) xs

  -- Each of the three lists is in the order of the ranking.
  abbrev pub InOrder : Shares → Type 0
  InOrder s =
      IsSortedBy (ranks_before orders) s.kept
      × IsSortedBy (ranks_before orders) s.demoted
      × IsSortedBy (ranks_before orders) s.rest

  abbrev Precedes : Shares → List PriorityResult → Type 0
  Precedes s rs = Ahead s.kept rs × Ahead s.demoted rs × Ahead s.rest rs

  IsSortedBy-snoc :
      (xs : List PriorityResult) (r : PriorityResult) (rs : List PriorityResult)
      → IsSortedBy before xs
      → Ahead xs (r ∷ rs)
      → IsSortedBy before (xs ++ r ∷ [])
  IsSortedBy-snoc [] r rs h ahead = (tt, tt)
  IsSortedBy-snoc (x ∷ xs) r rs h ahead = (
    All-append (λ y. before x y ≡ true) xs (r ∷ []) h.0 (ahead.0.0, tt),
    IsSortedBy-snoc xs r rs h.1 ahead.1,
  )

  Ahead-tail :
      (xs : List PriorityResult) (r : PriorityResult) (rs : List PriorityResult)
      → Ahead xs (r ∷ rs)
      → Ahead xs rs
  Ahead-tail [] r rs h = tt
  Ahead-tail (x ∷ xs) r rs h = (h.0.1, Ahead-tail xs r rs h.1)

  Ahead-snoc :
      (xs : List PriorityResult) (r : PriorityResult) (rs : List PriorityResult)
      → Ahead xs (r ∷ rs)
      → All (λ y. before r y ≡ true) rs
      → Ahead (xs ++ r ∷ []) rs
  Ahead-snoc xs r rs h below =
      All-append (λ x. All (λ y. before x y ≡ true) rs) xs (r ∷ []) (Ahead-tail xs r rs h)
        (below, tt)

module _ (orders : List (Key × Order)) (top_n limit : ℕ) where
  abbrev share : Shares → PriorityResult → Shares
  share = share_one (customer_of orders) top_n limit

  share_one-InOrder :
      (s : Shares) (r : PriorityResult) (rs : List PriorityResult)
      → All (λ y. before orders r y ≡ true) rs
      → InOrder orders s
      → Precedes orders s (r ∷ rs)
      → InOrder orders (share s r) × Precedes orders (share s r) rs
  unfolding share_one demote ranks_before
  share_one-InOrder s r rs below h ahead =
      let kept = Ahead-tail orders s.kept r rs ahead.0 in
      let demoted = Ahead-tail orders s.demoted r rs ahead.1 in
      let rest = Ahead-tail orders s.rest r rs ahead.2 in
      elim (Bool-cases (leb top_n (length s.kept))) [
        | inl full ↦ rw full (
          (h.0, h.1, IsSortedBy-snoc orders s.rest r rs h.2 ahead.2),
          (kept, demoted, Ahead-snoc orders s.rest r rs ahead.2 below),
        )
        | inr room ↦
            elim (Bool-cases (
              r.forced_next
              || ltb (count_of (customer_of orders) (customer_of orders r) s.kept) limit)) [
                | inl keep ↦ rw room (
                    rw keep (
                      (IsSortedBy-snoc orders s.kept r rs h.0 ahead.0, h.1, h.2),
                      (Ahead-snoc orders s.kept r rs ahead.0 below, demoted, rest),
                    ))
                | inr over ↦ rw room (
                    rw over (
                      (
                        h.0,
                        IsSortedBy-snoc orders s.demoted (demote (customer_of orders) r) rs h.1
                            ahead.1,
                        h.2,
                      ),
                      (
                        kept,
                        Ahead-snoc orders s.demoted (demote (customer_of orders) r) rs ahead.1
                            below,
                        rest,
                      ),
                    ))
              ]
      ]

  pub share_all-InOrder :
      (s : Shares) (rs : List PriorityResult)
      → IsSortedBy (before orders) rs
      → InOrder orders s
      → Precedes orders s rs
      → InOrder orders (share_all (customer_of orders) top_n limit s rs)
  unfolding share_all
  share_all-InOrder s [] sorted h ahead = h
  share_all-InOrder s (r ∷ rs) sorted h ahead =
      let (now, later) = share_one-InOrder s r rs sorted.0 h ahead in
      share_all-InOrder (share s r) rs sorted.1 now later
