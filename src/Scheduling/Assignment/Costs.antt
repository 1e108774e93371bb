-- ===== src/Scheduling/Assignment/Costs.antt =====
-- The order of the scored machines (backend/app/engines/scheduling/machine_assignment.py).
use athena_order_priority.Prelude.{
  ◌≡◌, refl, leq, Bool, true, false, leb, then_by, IsOrder, leq_total, leq_trans, Bool-cases, inl,
  inr, arith,
}
use athena_order_priority.Scheduling.Assignment.{Scored, scored_le}

-- What costs no more, by the cost alone.
pub scored_le-leq : (a b : Scored) → scored_le a b ≡ true → leq a.total_cost b.total_cost ≡ true
scored_le-leq a b h = elim (Bool-cases (leq a.total_cost b.total_cost)) [
  | inl e ↦ e
  | inr e ↦ absurd (ground (arith, rw e at h))
]

-- The ranks by preference and id, between equal costs.
abbrev tie_le : Scored → Scored → Bool
tie_le a b =
    then_by a.preferred_rank b.preferred_rank (leb a.candidate.machine_id b.candidate.machine_id)

scored_le-tie :
    (a b : Scored) → scored_le a b ≡ true → leq b.total_cost a.total_cost ≡ true → tie_le a b ≡ true
scored_le-tie a b h e = let less = scored_le-leq a b h in rw e at (rw less at h)

scored_le-less :
    (a b : Scored)
    → leq a.total_cost b.total_cost ≡ true
    → (leq b.total_cost a.total_cost ≡ true → tie_le a b ≡ true)
    → scored_le a b ≡ true
scored_le-less a b h tie = elim (Bool-cases (leq b.total_cost a.total_cost)) [
  | inl e ↦ rw h (rw e (tie e))
  | inr e ↦ rw h (rw e refl)
]

tie_le_trans : (a b c : Scored) → tie_le a b ≡ true → tie_le b c ≡ true → tie_le a c ≡ true
tie_le_trans a b c h g = ground (arith, h, g)

pub scored_le-IsOrder : IsOrder scored_le
scored_le-IsOrder = record { total = total; trans = trans }
  where
    total : (a b : Scored) → scored_le a b ≡ false → scored_le b a ≡ true
    total a b h = elim (Bool-cases (leq a.total_cost b.total_cost)) [
      | inr e ↦
          let back = leq_total a.total_cost b.total_cost e in
          scored_le-less b a back (λ g. absurd (ground (arith, e, g)))
      | inl e ↦ elim (Bool-cases (leq b.total_cost a.total_cost)) [
        | inl g ↦
            let open_tie : tie_le a b ≡ false = rw g at (rw e at h) in
            scored_le-less b a g (λ _. ground (arith, open_tie))
        | inr g ↦ absurd (ground (arith, rw g at (rw e at h)))
      ]
    ]

    trans : (a b c : Scored) → scored_le a b ≡ true → scored_le b c ≡ true → scored_le a c ≡ true
    trans a b c h g =
        let ab = scored_le-leq a b h in
        let bc = scored_le-leq b c g in
        scored_le-less a c (leq_trans a.total_cost b.total_cost c.total_cost ab bc) (λ ca.
          let ba = leq_trans b.total_cost c.total_cost a.total_cost bc ca in
          let cb = leq_trans c.total_cost a.total_cost b.total_cost ca ab in
          tie_le_trans a b c (scored_le-tie a b h ba) (scored_le-tie b c g cb))
