-- ===== src/Scheduling/Assignment/Ranks.antt =====
-- The numbering of the scored machines (backend/app/engines/scheduling/machine_assignment.py).
use mathlib.Core.List.{map-append}
use mathlib.Core.List.Perm
use athena_order_priority.Prelude.{
  ℕ, suc, ◌≡◌, refl, ap, sym, ◌∙◌, ℤ, leq, ◌+ℤ◌, ◌⊖◌, Bool, true, false, List, [], ◌∷◌, ◌++◌,
  Option, none, some, ◌==◌, map, Perm, All, sort_by, sort_by-perm, sort_by-IsSortedBy, All-sort_by,
  IsSortedBy,
}
use athena_order_priority.Domain.Window.{Instant}
use athena_order_priority.Domain.Keys.{Key}
use athena_order_priority.Domain.Machines.{Machine}
use athena_order_priority.Scheduling.Assignment.{
  MachineCandidate, Scored, Scores, scored_le, id_le, number_ranks, in_ranks,
}
use athena_order_priority.Scheduling.Assignment.Costs.{scored_le-leq, scored_le-IsOrder}

abbrev end_or : Option Instant → Instant → Instant
end_or none now = now
end_or (some t) now = t

-- `(end - now) + soft_cost` of a candidate.
abbrev pub cost_of : Instant → MachineCandidate → ℤ
cost_of now c = (end_or c.expected_end now ⊖ now) +ℤ c.soft_cost

abbrev pub costs_no_more : Instant → MachineCandidate → MachineCandidate → Bool
costs_no_more now a b = leq (cost_of now a) (cost_of now b)

abbrev pub has_end : Option Instant → Bool
has_end none = false
has_end (some t) = true

abbrev pub ids : List MachineCandidate → List Key
ids cs = map (λ c. c.machine_id) cs

abbrev pub scored_ids : List Scored → List Key
scored_ids xs = map (λ x. x.candidate.machine_id) xs

-- What the loop keeps of its results.
abbrev pub IsScored : Instant → Scored → Type 0
IsScored now x =
    (x.total_cost ≡ cost_of now x.candidate) × (has_end x.candidate.expected_end ≡ true)

abbrev pub IsScores : Instant → List Machine → Scores → Type 0
IsScores now ms r =
    Perm (scored_ids r.scored ++ ids r.rejected) (map (λ m. m.machine_id) ms)
    × All (IsScored now) r.scored
    × All (λ c. has_end c.expected_end ≡ false) r.rejected

-- The ranks count up from a number.
abbrev pub IsNumbered : ℕ → List MachineCandidate → Type 0
IsNumbered n [] = Unit
IsNumbered n (c ∷ cs) = (c.rank ≡ n) × IsNumbered (suc n) cs

-- The feasible machines by rank and cost, and then the rejected ones.
abbrev pub IsRanking : Instant → List Machine → List MachineCandidate → Type 0
IsRanking now eligible cs =
    (feasible rejected : List MachineCandidate) × (cs ≡ feasible ++ rejected)
    × Perm (map (λ c. c.machine_id) cs) (map (λ m. m.machine_id) eligible)
    × IsNumbered 1 feasible
    × IsSortedBy (costs_no_more now) feasible
    × All (λ c. has_end c.expected_end ≡ true) feasible
    × All (λ c. has_end c.expected_end ≡ false) rejected

number_ranks-ids : (n : ℕ) (xs : List Scored) → ids (number_ranks n xs) ≡ scored_ids xs
unfolding number_ranks
number_ranks-ids n [] = refl
number_ranks-ids n (x ∷ xs) = ap (λ ks. x.candidate.machine_id ∷ ks) (number_ranks-ids (suc n) xs)

number_ranks-IsNumbered : (n : ℕ) (xs : List Scored) → IsNumbered n (number_ranks n xs)
unfolding number_ranks
number_ranks-IsNumbered n [] = tt
number_ranks-IsNumbered n (x ∷ xs) = (refl, number_ranks-IsNumbered (suc n) xs)

module _ (now : Instant) where
  number_ranks-has_end :
      (n : ℕ) (xs : List Scored)
      → All (IsScored now) xs
      → All (λ c. has_end c.expected_end ≡ true) (number_ranks n xs)
  unfolding number_ranks
  number_ranks-has_end n [] h = tt
  number_ranks-has_end n (x ∷ xs) h = (h.0.1, number_ranks-has_end (suc n) xs h.1)

  number_ranks-below :
      (n : ℕ) (c : MachineCandidate) (x : Scored) (xs : List Scored)
      → cost_of now c ≡ x.total_cost
      → All (IsScored now) xs
      → All (λ y. scored_le x y ≡ true) xs
      → All (λ d. costs_no_more now c d ≡ true) (number_ranks n xs)
  unfolding number_ranks
  number_ranks-below n c x [] e h g = tt
  number_ranks-below n c x (y ∷ ys) e h g =
      let less = scored_le-leq x y g.0 in
      let there : leq (cost_of now c) y.total_cost ≡ true = ap (λ k. leq k y.total_cost) e ∙ less in
      (
        ap (λ k. leq (cost_of now c) k) (sym h.0.0) ∙ there,
        number_ranks-below (suc n) c x ys e h.1 g.1,
      )

  number_ranks-IsSortedBy :
      (n : ℕ) (xs : List Scored)
      → All (IsScored now) xs
      → IsSortedBy scored_le xs
      → IsSortedBy (costs_no_more now) (number_ranks n xs)
  unfolding number_ranks
  number_ranks-IsSortedBy n [] h g = tt
  number_ranks-IsSortedBy n (x ∷ xs) h g = (
    number_ranks-below (suc n) (record x.candidate { rank = n; recommended = n == 1 }) x xs
        (sym h.0.0) h.1 g.0,
    number_ranks-IsSortedBy (suc n) xs h.1 g.1,
  )

  pub in_ranks-IsRanking :
      (eligible : List Machine) (r : Scores)
      → IsScores now eligible r
      → IsRanking now eligible (in_ranks r)
  in_ranks-IsRanking eligible r h =
      let xs = sort_by scored_le r.scored in
      let scored = All-sort_by scored_le (IsScored now) r.scored h.1 in
      let feasible = number_ranks 1 xs in
      let rejected = sort_by id_le r.rejected in
      let same_ids : ids (feasible ++ rejected) ≡ scored_ids xs ++ ids rejected =
        map-append (λ c. c.machine_id) feasible rejected
        ∙ ap (λ ks. ks ++ ids rejected) (number_ranks-ids 1 xs) in
      let sorted : Perm (scored_ids xs ++ ids rejected) (scored_ids r.scored ++ ids r.rejected) =
        Perm.append
          (Perm.map (λ (x : Scored). x.candidate.machine_id) (sort_by-perm scored_le r.scored))
          (Perm.map (λ (c : MachineCandidate). c.machine_id) (sort_by-perm id_le r.rejected)) in
      (
        feasible,
        rejected,
        refl,
        rw same_ids (Perm.trans sorted h.0),
        number_ranks-IsNumbered 1 xs,
        number_ranks-IsSortedBy 1 xs scored
            (sort_by-IsSortedBy scored_le scored_le-IsOrder r.scored),
        number_ranks-has_end 1 xs scored,
        All-sort_by id_le (λ c. has_end c.expected_end ≡ false) r.rejected h.2,
      )
