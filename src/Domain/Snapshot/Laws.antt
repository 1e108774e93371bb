-- ===== src/Domain/Snapshot/Laws.antt =====
-- The theorems about the queries by order (backend/app/domain/snapshot.py).
use athena_order_priority.Prelude.{
  ◌≡◌, refl, sym, ap, ◌∙◌, Bool, ◌&&◌, List, [], ◌∷◌, ◌++◌, ◌==◌, filter, Dict, get, get_list,
  append_at, get_list-append_at, Bool-cases, inl, inr,
}
use mathlib.Core.List.{append_assoc, append-nil}
use athena_order_priority.Domain.Window.{Instant}
use athena_order_priority.Domain.Keys.{Key}
use athena_order_priority.Domain.Overlays.{PriorityOverride, override_is_active_at}
use athena_order_priority.Domain.Snapshot.{PlanningSnapshot, add_overrides, active_overrides}

module _ (now : Instant) (k : Key) where
  -- The override is active and the order's.
  abbrev applies : PriorityOverride → Bool
  applies o = override_is_active_at o now && (k == o.order_id)

  get_list-add_overrides :
      (d : Dict (List PriorityOverride)) (os : List PriorityOverride)
      → get_list k (add_overrides now d os) ≡ get_list k d ++ filter applies os
  unfolding add_overrides filter
  get_list-add_overrides d [] = sym (append-nil (get_list k d))
  get_list-add_overrides d (o ∷ os) = elim (Bool-cases (override_is_active_at o now)) [
    | inr off ↦ rw off (get_list-add_overrides d os)
    | inl on ↦ rw on (
        get_list-add_overrides (append_at o.order_id o d) os
        ∙ ap (λ xs. xs ++ filter applies os) (get_list-append_at k o.order_id o d)
        ∙ elim (Bool-cases (k == o.order_id)) [
          | inl e ↦ rw e (append_assoc (get_list k d) (o ∷ []) (filter applies os))
          | inr e ↦ rw e refl
        ])
  ]

-- The overrides kept for an order are its active ones, in the order in which the snapshot has them.
get_list-active_overrides :
    (s : PlanningSnapshot) (now : Instant) (k : Key)
    → get_list k (active_overrides s now) ≡ filter (applies now k) s.overrides
unfolding active_overrides get_list get
get_list-active_overrides s now k = get_list-add_overrides now k [] s.overrides
