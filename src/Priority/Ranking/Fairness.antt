-- ===== src/Priority/Ranking/Fairness.antt =====
-- The three lists of the share pass (backend/app/engines/priority/ranking.py).
use athena_order_priority.Prelude.{
  ℕ, suc, ◌+◌, ◌≤◌, ◌<◌, ◌≡◌, refl, true, false, not, ◌&&◌, ◌||◌, List, [], ◌∷◌, ◌++◌, Option, none,
  some, ◌⊎◌, inl, inr, ltb, leb, if◌then◌else◌, length, length-append, All, All-append, Bool-cases,
  arith,
}
use athena_order_priority.Domain.Keys.{Key}
use athena_order_priority.Domain.Orders.{Order}
use athena_order_priority.Priority.Ranking.{
  PriorityResult, Shares, same_customer, count_of, demote, share_one, share_all, customer_of,
}

module _ (customer : PriorityResult → Option Key) (top_n limit : ℕ) where
  -- How many of the results that are not forced are the customer's.
  unfoldable pub unforced : Option Key → List PriorityResult → ℕ
  unforced c [] = 0
  unforced c (r ∷ rest) =
      let more = unforced c rest in
      if not r.forced_next && same_customer c (customer r) then suc more else more

  unforced-append :
      (c : Option Key) (xs : List PriorityResult) (r : PriorityResult)
      → unforced c (xs ++ r ∷ []) ≡ unforced c xs + unforced c (r ∷ [])
  unfolding unforced
  unforced-append c [] r = omega arith
  unforced-append c (x ∷ xs) r = ground (arith, unforced-append c xs r)

  unforced-le-count_of :
      (c : Option Key) (xs : List PriorityResult) → unforced c xs ≤ count_of customer c xs
  unfolding unforced count_of
  unforced-le-count_of c [] = omega arith
  unforced-le-count_of c (x ∷ xs) = ground (arith, unforced-le-count_of c xs)

  same_customer→≡ : (c d : Option Key) → same_customer c d ≡ true → c ≡ d
  same_customer→≡ none none h = refl
  same_customer→≡ none (some b) h = ground (arith, h)
  same_customer→≡ (some a) none h = ground (arith, h)
  same_customer→≡ (some a) (some b) h = ground (arith, h)

  -- The first block holds at most `top_n` results, of each customer at most `limit` that are not
  -- forced; the customer of a demoted result has at least `limit` in the block; and no result stands
  -- behind the demoted ones unless the block is full.
  pub record IsShared (s : Shares) : Type 0 where
    pub fits : length s.kept ≤ top_n
    pub bounded : (c : Option Key) → unforced c s.kept ≤ limit
    pub full_or_all : (top_n ≤ length s.kept) ⊎ (s.rest ≡ [])
    pub not_forced : All (λ r. r.forced_next ≡ false) s.demoted
    pub over : All (λ r. limit ≤ count_of customer (customer r) s.kept) s.demoted

  count_of-grows :
      (c : Option Key) (xs : List PriorityResult) (r : PriorityResult)
      → count_of customer c xs ≤ count_of customer c (xs ++ r ∷ [])
  unfolding count_of
  count_of-grows c [] r = omega arith
  count_of-grows c (x ∷ xs) r = ground (arith, count_of-grows c xs r)

  over_mono :
      (xs : List PriorityResult) (r : PriorityResult) (ds : List PriorityResult)
      → All (λ d. limit ≤ count_of customer (customer d) xs) ds
      → All (λ d. limit ≤ count_of customer (customer d) (xs ++ r ∷ [])) ds
  over_mono xs r [] h = tt
  over_mono xs r (d ∷ ds) h =
      (omega (arith, h.0, count_of-grows (customer d) xs r), over_mono xs r ds h.1)

  kept_bounded :
      (c : Option Key) (xs : List PriorityResult) (r : PriorityResult)
      → unforced c xs ≤ limit
      → (r.forced_next || ltb (count_of customer (customer r) xs) limit) ≡ true
      → unforced c (xs ++ r ∷ []) ≤ limit
  unfolding unforced
  kept_bounded c xs r h ok = elim (Bool-cases (not r.forced_next && same_customer c (customer r))) [
    | inl e ↦
        let is : c ≡ customer r = same_customer→≡ c (customer r) (ground (arith, e)) in
        let below : count_of customer c xs < limit = rw is (ground (arith, ok, e)) in
        let few = unforced-le-count_of c xs in
        rw (unforced-append c xs r) (rw e (omega (arith, below, few)))
    | inr e ↦ rw (unforced-append c xs r) (rw e (omega (arith, h)))
  ]

  share_one-IsShared :
      ((x : PriorityResult) → customer (demote customer x) ≡ customer x)
      → (s : Shares) (r : PriorityResult) → IsShared s
      → IsShared (share_one customer top_n limit s r)
  unfolding share_one demote
  share_one-IsShared same s r h = elim (Bool-cases (leb top_n (length s.kept))) [
    | inl full ↦ rw full (record {
      fits = h.fits;
      bounded = h.bounded;
      full_or_all = inl (ground (arith, full));
      not_forced = h.not_forced;
      over = h.over;
    })
    | inr room ↦
        elim (Bool-cases (r.forced_next || ltb (count_of customer (customer r) s.kept) limit)) [
          | inl kept ↦ rw room (
              rw kept (record {
                fits = rw (length-append s.kept (r ∷ [])) (ground (arith, room));
                bounded = λ c. kept_bounded c s.kept r (h.bounded c) kept;
                full_or_all = inr (elim h.full_or_all [
                  | inl full ↦ absurd (ground (arith, full, room))
                  | inr all ↦ all
                ]);
                not_forced = h.not_forced;
                over = over_mono s.kept r s.demoted h.over;
              }))
          | inr over ↦ rw room (
              rw over (record {
                fits = h.fits;
                bounded = h.bounded;
                full_or_all = h.full_or_all;
                not_forced =
                    All-append (λ x. x.forced_next ≡ false) s.demoted (demote customer r ∷ [])
                      h.not_forced (ground (arith, over), tt);
                over =
                    All-append (λ x. limit ≤ count_of customer (customer x) s.kept) s.demoted
                      (demote customer r ∷ []) h.over (rw (same r) (ground (arith, over)), tt);
              }))
        ]
  ]

  pub share_all-IsShared :
      ((x : PriorityResult) → customer (demote customer x) ≡ customer x)
      → (s : Shares) (rs : List PriorityResult) → IsShared s
      → IsShared (share_all customer top_n limit s rs)
  unfolding share_all
  share_all-IsShared same s [] h = h
  share_all-IsShared same s (r ∷ rs) h =
      share_all-IsShared same (share_one customer top_n limit s r) rs
        (share_one-IsShared same s r h)

pub customer_of-demote :
    (orders : List (Key × Order)) (r : PriorityResult)
    → customer_of orders (demote (customer_of orders) r) ≡ customer_of orders r
unfolding demote customer_of
customer_of-demote orders r = refl
