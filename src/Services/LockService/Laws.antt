-- ===== src/Services/LockService/Laws.antt =====
-- The theorems about the locks in force (backend/app/services/lock_service.py).
use athena_order_priority.Prelude.{
  ℕ, ◌≤◌, ◌≡◌, refl, subst, Bool, false, ◌&&◌, List, [], ◌∷◌, Option, none, some, ◌==◌, any, filter,
  All, All-weaken, Dict, Bool-cases, inl, inr, arith,
}
use athena_order_priority.Domain.Window.{Instant, Text, TimeWindow}
use athena_order_priority.Domain.Keys.{Key}
use athena_order_priority.Domain.Orders.{Order}
use athena_order_priority.Domain.Overlays.{ScheduleLock}
use athena_order_priority.Domain.Snapshot.{has_ended}
use athena_order_priority.Services.Outcomes.{done, after_bind}
use athena_order_priority.Services.LockService.{
  LockRequest, conflicts, in_force, list_active, check_conflicts, add_lock, checked_window,
  new_lock, create, check_unlock, release, released, unlock,
}

-- Two locks that are in force at the same time and conflict.
unfoldable pub clash : Instant → ScheduleLock → ScheduleLock → Bool
unfolding in_force conflicts
clash now new old = in_force now new && in_force now old && conflicts new old

-- No lock of the store clashes with an older one; the newest is the first.
abbrev pub IsConsistent : Instant → List ScheduleLock → Type 0
IsConsistent now [] = Unit
IsConsistent now (l ∷ ls) = All (λ o. clash now l o ≡ false) ls × IsConsistent now ls

no_clash :
    (now : Instant) (new : ScheduleLock) (store : List ScheduleLock)
    → any (conflicts new) (list_active now store) ≡ false
    → All (λ o. clash now new o ≡ false) store
unfolding any list_active filter clash
no_clash now new [] h = tt
no_clash now new (o ∷ os) h = elim (Bool-cases (in_force now o)) [
  | inl e ↦
      let parts : (conflicts new o ≡ false)
          × (any (conflicts new) (filter (in_force now) os) ≡ false) =
        ground (arith, rw e at h) in
      (ground (arith, e, parts.0), no_clash now new os parts.1)
  | inr e ↦ (ground (arith, e), no_clash now new os (rw e at h))
]

add_lock-IsConsistent :
    (now : Instant) (new : ScheduleLock) (store after : List ScheduleLock)
    → IsConsistent now store
    → add_lock now new store ≡ done after
    → IsConsistent now after
unfolding add_lock check_conflicts
add_lock-IsConsistent now new store after h e =
    elim (Bool-cases (any (conflicts new) (list_active now store))) [
      | inl t ↦ absurd (ground (arith, t, e))
      | inr f ↦
          let stored : done (new ∷ store) ≡ done after = rw f at e in
          let is : new ∷ store ≡ after = cc in
          subst (IsConsistent now) is (no_clash now new store f, h)
    ]

create-IsConsistent :
    (orders : Dict Order) (machines : List Key) (minutes : ℕ) (now : Instant) (r : LockRequest)
    (store after : List ScheduleLock)
    → IsConsistent now store
    → create orders machines minutes now r store ≡ done after
    → IsConsistent now after
unfolding create
create-IsConsistent orders machines minutes now r store after h e =
    let (window, _, e1) =
      after_bind (checked_window orders machines minutes now r)
        (λ window. add_lock now (new_lock r now window) store) after e in
    add_lock-IsConsistent now (new_lock r now window) store after h e1

has_ended_mono :
    (w : Option TimeWindow) (now t : Instant)
    → now ≤ t
    → has_ended w t ≡ false
    → has_ended w now ≡ false
has_ended_mono none now t h e = refl
has_ended_mono (some w) now t h e = ground (arith, h, e)

in_force_mono :
    (now t : Instant) (l : ScheduleLock) → now ≤ t → in_force now l ≡ false → in_force t l ≡ false
unfolding in_force
in_force_mono now t l h e = elim (Bool-cases (has_ended l.window t)) [
  | inl ended ↦ ground (arith, ended)
  | inr going ↦ ground (arith, going, e, has_ended_mono l.window now t h going)
]

clash_mono :
    (now t : Instant) (new old : ScheduleLock)
    → now ≤ t
    → clash now new old ≡ false
    → clash t new old ≡ false
unfolding clash
clash_mono now t new old h e =
    ground (arith, e, in_force_mono now t new h, in_force_mono now t old h)

-- Passing time ends locks, and begins none.
later-IsConsistent :
    (now t : Instant) (store : List ScheduleLock)
    → now ≤ t
    → IsConsistent now store
    → IsConsistent t store
later-IsConsistent now t [] h c = tt
later-IsConsistent now t (l ∷ ls) h c = (
  All-weaken (λ o. clash now l o ≡ false) (λ o. clash t l o ≡ false) ls
      (λ o. clash_mono now t l o h) c.0,
  later-IsConsistent now t ls h c.1,
)

clash-released : (now : Instant) (new old : ScheduleLock) → clash now new (released old) ≡ false
unfolding clash in_force
clash-released now new old = elim (Bool-cases (in_force now new)) [
  | inl e ↦ ground (arith, e)
  | inr e ↦ ground (arith, e)
]

release-All :
    (now : Instant) (new : ScheduleLock) (k : Key) (store : List ScheduleLock)
    → All (λ o. clash now new o ≡ false) store
    → All (λ o. clash now new o ≡ false) (release k store)
unfolding release
release-All now new k [] h = tt
release-All now new k (l ∷ ls) h = elim (Bool-cases (k == l.lock_id)) [
  | inl e ↦ rw e (clash-released now new l, h.1)
  | inr e ↦ rw e (h.0, release-All now new k ls h.1)
]

released-All :
    (now : Instant) (l : ScheduleLock) (store : List ScheduleLock)
    → All (λ o. clash now (released l) o ≡ false) store
unfolding clash in_force
released-All now l [] = tt
released-All now l (o ∷ os) = (refl, released-All now l os)

release-IsConsistent :
    (now : Instant) (k : Key) (store : List ScheduleLock)
    → IsConsistent now store
    → IsConsistent now (release k store)
unfolding release
release-IsConsistent now k [] h = tt
release-IsConsistent now k (l ∷ ls) h = elim (Bool-cases (k == l.lock_id)) [
  | inl e ↦ rw e (released-All now l ls, h.1)
  | inr e ↦ rw e (release-All now l k ls h.0, release-IsConsistent now k ls h.1)
]

unlock-release :
    (k : Key) (reason : Text) (store after : List ScheduleLock)
    → unlock k reason store ≡ done after
    → release k store ≡ after
unfolding unlock
unlock-release k reason store after e =
    let (u, _, e1) =
      after_bind (check_unlock k reason store) (λ u. done (release k store)) after e in
    cc

-- The stores that the calls of the service reach as time passes, from the empty one.
pub data Reachable : Instant → List ScheduleLock → Type 0 where
  at_first : (now : Instant) → Reachable now []
  passing :
      (now t : Instant) (store : List ScheduleLock)
      → now ≤ t
      → Reachable now store
      → Reachable t store
  creating :
      (orders : Dict Order) (machines : List Key) (minutes : ℕ) (now : Instant) (r : LockRequest)
      (store after : List ScheduleLock)
      → create orders machines minutes now r store ≡ done after
      → Reachable now store
      → Reachable now after
  unlocking :
      (now : Instant) (k : Key) (reason : Text) (store after : List ScheduleLock)
      → unlock k reason store ≡ done after
      → Reachable now store
      → Reachable now after

-- In a store that calls of `create` and `unlock` reach from the empty one as time passes, no two
-- locks in force conflict: no windows reserved on one machine overlap, no order has two order
-- locks, and no order is in two sequence locks.
pub Reachable-IsConsistent :
    (now : Instant) (store : List ScheduleLock) → Reachable now store → IsConsistent now store
Reachable-IsConsistent now store (at_first _) = tt
Reachable-IsConsistent t store (passing now _ _ h reached) =
    later-IsConsistent now t store h (Reachable-IsConsistent now store reached)
Reachable-IsConsistent now after (creating orders machines minutes _ r store _ e reached) =
    create-IsConsistent orders machines minutes now r store after
      (Reachable-IsConsistent now store reached) e
Reachable-IsConsistent now after (unlocking _ k reason store _ e reached) =
    subst (IsConsistent now) (unlock-release k reason store after e)
      (release-IsConsistent now k store (Reachable-IsConsistent now store reached))
