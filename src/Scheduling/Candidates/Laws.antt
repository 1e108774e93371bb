-- ===== src/Scheduling/Candidates/Laws.antt =====
-- The theorems about `select_candidates` (backend/app/engines/scheduling/candidates.py).
use athena_order_priority.Prelude.{
  ℕ, suc, ◌+◌, ◌≤◌, ◌≡◌, refl, ap, Bool, true, false, List, [], ◌∷◌, map, ltb, Option, none, some,
  Option-cases, Bool-cases, inl, inr, Dict, get, All, All-append, Has, length, length-append, take,
  drop, length-take, length-take-drop, All-take, All-of_Has, length-sort_by, ◌==◌, sort_by,
  All-sort_by, arith,
}
use athena_order_priority.Domain.Window.{Instant}
use athena_order_priority.Domain.Keys.{Key}
use athena_order_priority.Domain.Status.{is_schedulable}
use athena_order_priority.Domain.Orders.{Order}
use athena_order_priority.Domain.Snapshot.{PlanningSnapshot, open_orders}
use athena_order_priority.Priority.Ranking.{PriorityResult}
use athena_order_priority.Scheduling.Locks.{LockIndex}
use athena_order_priority.Scheduling.Sequences.{apply_sequence_locks}
use athena_order_priority.Scheduling.Sequences.Laws.{
  All-apply_sequence_locks, length-apply_sequence_locks,
}
use athena_order_priority.Scheduling.Candidates.{
  ReadinessAssessment, OrderCandidate, UnscheduledItem, ReasonCode, status_not_schedulable,
  no_priority, blocked_reason, run_limit, Choice, candidate, left_out, candidate_before, choose,
  split, select_candidates, release_of, blockers_of, beyond_limit, limit_run,
}
use athena_order_priority.Scheduling.Candidates.Release.{
  IsRelease, IsBlocked, release_of-none, release_of-some,
}

module _ (s : PlanningSnapshot) (priorities : Dict PriorityResult) (schedule_blocked : Bool)
    (assessments : Dict ReadinessAssessment) (now : Instant) where
  -- What holds of a candidate.
  abbrev pub IsCandidate : OrderCandidate → Type 0
  IsCandidate c =
      Has c.order (open_orders s)
      × (is_schedulable c.order.order_status ≡ true)
      × (get c.order.order_id priorities ≡ some c.priority)
      × IsRelease schedule_blocked now (blockers_of (get c.order.order_id assessments)) c.release

  -- Why an order is left out; the run limit is named only when the candidates reach it.
  abbrev pub IsLeftOut : Bool → Key → ReasonCode → Type 0
  IsLeftOut full k status_not_schedulable =
      (o : Order) × Has o (open_orders s)
      × (o.order_id ≡ k)
      × (is_schedulable o.order_status ≡ false)
  IsLeftOut full k no_priority = get k priorities ≡ none
  IsLeftOut full k blocked_reason = IsBlocked schedule_blocked (blockers_of (get k assessments))
  IsLeftOut full k run_limit = full ≡ true

  module _ (full : Bool) (locks : LockIndex) where
    abbrev IsChoice : Choice → Type 0
    IsChoice (candidate c) = IsCandidate c
    IsChoice (left_out u) = IsLeftOut full u.order_id u.reason_code

    choose-IsChoice :
        (o : Order)
        → Has o (open_orders s)
        → IsChoice (choose s priorities schedule_blocked assessments now locks o)
    unfolding choose
    choose-IsChoice o has = elim (Bool-cases (is_schedulable o.order_status)) [
      | inr e ↦ rw e (o, has, refl, e)
      | inl e ↦ elim (Option-cases (get o.order_id priorities)) [
        | inl f ↦ rw e (rw f f)
        | inr (p, f) ↦
            let bs = blockers_of (get o.order_id assessments) in
            elim (Option-cases (release_of schedule_blocked now bs)) [
              | inl g ↦ rw e (rw f (rw g (release_of-none schedule_blocked now bs g)))
              | inr (r, g) ↦
                  rw e (rw f (rw g (has, e, f, release_of-some schedule_blocked now r bs g)))
            ]
      ]
    ]

    -- What the loop gives of some of the open orders.
    abbrev IsSplit : List Order → List OrderCandidate × List UnscheduledItem → Type 0
    IsSplit os parts =
        All IsCandidate parts.0
        × All (λ u. IsLeftOut full u.order_id u.reason_code) parts.1
        × (length parts.0 + length parts.1 ≡ length os)

    split-IsSplit :
        (os : List Order)
        → All (λ o. Has o (open_orders s)) os
        → IsSplit os (split s priorities schedule_blocked assessments now locks os)
    unfolding split
    split-IsSplit [] h = (tt, tt, refl)
    split-IsSplit (o ∷ os) h =
        go (choose s priorities schedule_blocked assessments now locks o) (choose-IsChoice o h.0)
          (split-IsSplit os h.1)
      where
        rest : List OrderCandidate × List UnscheduledItem
        rest = split s priorities schedule_blocked assessments now locks os

        go :
            (c : Choice)
            → IsChoice c
            → IsSplit os rest
            → IsSplit
                (o ∷ os)
                (elim c [ candidate c ↦ (c ∷ rest.0, rest.1) | left_out u ↦ (rest.0, u ∷ rest.1) ])
        go (candidate c) p (a, b, n) = ((p, a), b, omega (arith, n))
        go (left_out u) p (a, b, n) = (a, (p, b), omega (arith, n))

-- The limit of the run is reached, and not exceeded.
abbrev pub reaches : Option ℕ → List OrderCandidate → Bool
reaches none cs = false
reaches (some n) cs = length cs == n

abbrev pub IsWithin : Option ℕ → List OrderCandidate → Type 0
IsWithin none cs = Unit
IsWithin (some n) cs = length cs ≤ n

module _ (P : OrderCandidate → Type 0) (L : Bool → Key → ReasonCode → Type 0) where
  -- What a selection is, from what holds of a candidate and of an item left out.
  abbrev pub Selects : Option ℕ → ℕ → List OrderCandidate × List UnscheduledItem → Type 0
  Selects max_orders n r =
      All P r.0
      × All (λ u. L (reaches max_orders r.0) u.order_id u.reason_code) r.1
      × IsWithin max_orders r.0
      × (length r.0 + length r.1 ≡ n)

module _ (P : OrderCandidate → Type 0) (L : Bool → Key → ReasonCode → Type 0)
    (limited : (k : Key) → L true k run_limit) where
  All-beyond :
      (cs : List OrderCandidate) → All (λ u. L true u.order_id u.reason_code) (map beyond_limit cs)
  All-beyond [] = tt
  All-beyond (c ∷ cs) = (limited c.order.order_id, All-beyond cs)

  length-beyond : (cs : List OrderCandidate) → length (map beyond_limit cs) ≡ length cs
  length-beyond [] = refl
  length-beyond (c ∷ cs) = ap suc (length-beyond cs)

  limit_run-Selects :
      (max_orders : Option ℕ) (n : ℕ) (cs : List OrderCandidate) (items : List UnscheduledItem)
      → All P cs
      → ((full : Bool) → All (λ u. L full u.order_id u.reason_code) items)
      → length cs + length items ≡ n
      → Selects P L max_orders n (limit_run max_orders cs items)
  unfolding limit_run
  limit_run-Selects none n cs items p l e = (p, l false, tt, e)
  limit_run-Selects (some m) n cs items p l e = elim (Bool-cases (ltb m (length cs))) [
    | inr h ↦ rw h (p, l (length cs == m), ground (arith, h), e)
    | inl h ↦
        let all : length (take m cs) ≡ m = length-take m cs (ground (arith, h)) in
        let full : (length (take m cs) == m) ≡ true = ground (arith, all) in
        let dropped = map beyond_limit (drop m cs) in
        rw h (
          All-take P m cs p,
          rw full (
              All-append (λ u. L true u.order_id u.reason_code) items dropped (l true)
                (All-beyond (drop m cs))),
          omega (arith, all),
          omega (
            arith,
            e,
            length-append items dropped,
            length-beyond (drop m cs),
            length-take-drop m cs,
          ),
        )
  ]

-- Of the open orders of the snapshot, `select_candidates` chooses at most `max_orders_per_run`. Every
-- candidate is an open order of a schedulable status with its priority result; without a real blocker
-- it is released at `now`, and otherwise only if blocked orders are scheduled and every real blocker
-- resolves: at the latest of `now` and their resolutions. Every item left out has the cause that its
-- reason code says: a status that is not schedulable, no priority result, real blockers (one of which
-- does not resolve, or blocked orders are not scheduled), or a limit that the candidates reach.
-- The candidates and the items left out are together as many as the open orders.
pub select_candidates-Selects :
    (s : PlanningSnapshot) (priorities : Dict PriorityResult) (schedule_blocked : Bool)
    (assessments : Dict ReadinessAssessment) (now : Instant) (locks : LockIndex)
    (max_orders : Option ℕ)
    → Selects
        (IsCandidate s priorities schedule_blocked assessments now)
        (IsLeftOut s priorities schedule_blocked assessments now)
        max_orders
        (length (open_orders s))
        (select_candidates s priorities schedule_blocked assessments now locks max_orders)
unfolding select_candidates
select_candidates-Selects s priorities schedule_blocked assessments now locks max_orders =
    let parts = split s priorities schedule_blocked assessments now locks (open_orders s) in
    let sorted = sort_by candidate_before parts.0 in
    let P = IsCandidate s priorities schedule_blocked assessments now in
    let L = IsLeftOut s priorities schedule_blocked assessments now in
    let all : (full : Bool)
        → IsSplit s priorities schedule_blocked assessments now full locks (open_orders s) parts =
      λ full.
        split-IsSplit s priorities schedule_blocked assessments now full locks (open_orders s)
          (All-of_Has (λ o. Has o (open_orders s)) (open_orders s) (λ o has. has)) in
    limit_run-Selects P L (λ k. refl) max_orders (length (open_orders s))
      (apply_sequence_locks (λ c. c.order.order_id) sorted locks) parts.1
      (All-apply_sequence_locks (λ c. c.order.order_id) P sorted locks
        (All-sort_by candidate_before P parts.0 (all true).0))
      (λ full. (all full).1)
      (omega (
        arith,
        length-apply_sequence_locks (λ (c : OrderCandidate). c.order.order_id) sorted locks,
        length-sort_by candidate_before parts.0,
        (all true).2,
      ))
