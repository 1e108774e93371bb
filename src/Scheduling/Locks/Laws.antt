-- ===== src/Scheduling/Locks/Laws.antt =====
-- The theorems about `build_lock_index` (backend/app/engines/scheduling/locks.py).
use athena_order_priority.Prelude.{
  ◌≡◌, refl, sym, ap, ◌∙◌, Bool, true, false, not, ◌&&◌, List, [], ◌∷◌, ◌++◌, Option, none, some,
  ltb, ◌==◌, if◌then◌else◌, any, sort_by, length, Dict, get, get_list, append_at, set_default,
  get_list-append_at, get-set_default, or_first, or_first-none, Bool-cases, inl, inr,
}
use mathlib.Core.List.{append_assoc, append-nil}
use athena_order_priority.Domain.Window.{Instant, TimeWindow}
use athena_order_priority.Domain.Keys.{Key, is_in}
use athena_order_priority.Domain.Status.{
  LockType, order_lock, machine_lock, sequence_lock, time_slot_lock,
}
use athena_order_priority.Domain.Overlays.{ScheduleLock}
use athena_order_priority.Domain.Snapshot.{PlanningSnapshot, has_ended}
use athena_order_priority.Scheduling.Locks.{
  LockKey, LockIndex, key_of, no_locks, lock_orders, listed, reserved_window, window_before,
  index_by, index_lock, index_locks, locks_by_creation, sort_windows, build_lock_index, reserve,
  add_sequence, lock_order, freeze,
}

module _ (k : Key) where
  -- Whether a lock of this type, window, machine and order puts the order `k` first.
  abbrev goes_by : LockType → Option TimeWindow → Option Key → Option Key → List Key → Bool
  goes_by sequence_lock w m o ids = ltb 1 (length ids) && is_in k ids
  goes_by order_lock w m o ids = is_in k (listed o)
  goes_by time_slot_lock (some w) none o ids = false
  goes_by machine_lock (some w) none o ids = false
  goes_by time_slot_lock w m o ids = is_in k (listed o)
  goes_by machine_lock w m o ids = is_in k (listed o)

  -- A lock that has not ended and puts the order first: a sequence lock of several orders that
  -- lists it, or another lock that names it, unless that reserves a window on no machine.
  unfoldable pub goes_first : Instant → ScheduleLock → Bool
  unfolding is_in
  goes_first now l =
      not (has_ended l.window now)
      && goes_by l.lock_type l.window l.machine_id l.order_id l.sequence_order_ids

  -- The key of the first lock that puts the order first.
  unfoldable pub first_key : Instant → List ScheduleLock → Option LockKey
  unfolding goes_first
  first_key now [] = none
  first_key now (l ∷ ls) =
      let later = first_key now ls in if goes_first now l then some (key_of l) else later

  or_first_assoc : (a b c : Option LockKey) → or_first (or_first a b) c ≡ or_first a (or_first b c)
  or_first_assoc none b c = refl
  or_first_assoc (some a) b c = refl

  get-lock_orders :
      (key : LockKey) (os : List Key) (d : Dict LockKey)
      → get k (lock_orders key os d) ≡ or_first (get k d) (if is_in k os then some key else none)
  unfolding lock_orders is_in any
  get-lock_orders key [] d = sym (or_first-none (get k d))
  get-lock_orders key (o ∷ os) d =
      get-lock_orders key os (set_default o key d)
      ∙ ap (λ a. or_first a (if any (λ j. k == j) os then some key else none))
          (get-set_default k o key d)
      ∙ or_first_assoc (get k d) _ _
      ∙ elim (Bool-cases (k == o)) [ inl e ↦ rw e refl | inr e ↦ rw e refl ]

  get-index_by :
      (t : LockType) (w : Option TimeWindow) (m o : Option Key) (l : ScheduleLock) (x : LockIndex)
      → get k (index_by t w m o l x).order_locked
        ≡ or_first
            (get k x.order_locked)
            (if goes_by t w m o l.sequence_order_ids then some (key_of l) else none)
  unfolding index_by add_sequence reserve lock_order freeze is_in any
  get-index_by sequence_lock w m o l x = elim (Bool-cases (ltb 1 (length l.sequence_order_ids))) [
    | inl e ↦ rw e (get-lock_orders (key_of l) l.sequence_order_ids x.order_locked)
    | inr e ↦ rw e (sym (or_first-none (get k x.order_locked)))
  ]
  get-index_by time_slot_lock (some w) (some m) o l x =
      get-lock_orders (key_of l) (listed o) x.order_locked
  get-index_by time_slot_lock (some w) none o l x = sym (or_first-none (get k x.order_locked))
  get-index_by machine_lock (some w) (some m) o l x =
      get-lock_orders (key_of l) (listed o) x.order_locked
  get-index_by machine_lock (some w) none o l x = sym (or_first-none (get k x.order_locked))
  get-index_by machine_lock none (some m) none l x = sym (or_first-none (get k x.order_locked))
  get-index_by machine_lock none none none l x = sym (or_first-none (get k x.order_locked))
  get-index_by machine_lock none m (some o) l x =
      get-lock_orders (key_of l) (listed (some o)) x.order_locked
  get-index_by time_slot_lock none m none l x = sym (or_first-none (get k x.order_locked))
  get-index_by time_slot_lock none m (some o) l x =
      get-lock_orders (key_of l) (listed (some o)) x.order_locked
  get-index_by order_lock w m none l x = sym (or_first-none (get k x.order_locked))
  get-index_by order_lock w m (some o) l x =
      get-lock_orders (key_of l) (listed (some o)) x.order_locked

  get-index_lock :
      (now : Instant) (x : LockIndex) (l : ScheduleLock)
      → get k (index_lock now x l).order_locked
        ≡ or_first (get k x.order_locked) (if goes_first now l then some (key_of l) else none)
  unfolding index_lock goes_first
  get-index_lock now x l = elim (Bool-cases (has_ended l.window now)) [
    | inl e ↦ rw e (sym (or_first-none (get k x.order_locked)))
    | inr e ↦ rw e (get-index_by l.lock_type l.window l.machine_id l.order_id l x)
  ]

  get-index_locks :
      (now : Instant) (x : LockIndex) (ls : List ScheduleLock)
      → get k (index_locks now x ls).order_locked
        ≡ or_first (get k x.order_locked) (first_key now ls)
  unfolding index_locks first_key
  get-index_locks now x [] = sym (or_first-none (get k x.order_locked))
  get-index_locks now x (l ∷ ls) =
      get-index_locks now (index_lock now x l) ls
      ∙ ap (λ a. or_first a (first_key now ls)) (get-index_lock now x l)
      ∙ or_first_assoc (get k x.order_locked) _ _
      ∙ elim (Bool-cases (goes_first now l)) [ inl e ↦ rw e refl | inr e ↦ rw e refl ]

-- The lock that the index keeps for an order is the first, in the order of creation, of the active
-- locks that put it first.
pub build_lock_index-first_key :
    (s : PlanningSnapshot) (now : Instant) (k : Key)
    → get k (build_lock_index s now).order_locked ≡ first_key k now (locks_by_creation s now)
unfolding build_lock_index get
build_lock_index-first_key s now k = get-index_locks k now no_locks (locks_by_creation s now)

module _ (k : Key) where
  -- Whether a lock of this type reserves windows.
  abbrev reserves : LockType → Bool
  reserves time_slot_lock = true
  reserves machine_lock = true
  reserves _ = false

  abbrev windows_by : LockType → Option TimeWindow → Option Key → ScheduleLock → List TimeWindow
  windows_by t none m l = []
  windows_by t (some w) none l = []
  windows_by t (some w) (some m) l = if reserves t && (k == m) then reserved_window l w ∷ [] else []

  -- The windows that the locks reserve on the machine `k`: those of the time slot and machine locks
  -- that name it and have not ended.
  unfoldable pub reserved_by : Instant → List ScheduleLock → List TimeWindow
  reserved_by now [] = []
  reserved_by now (l ∷ ls) =
      let later = reserved_by now ls in
      if has_ended l.window now
      then later
      else windows_by l.lock_type l.window l.machine_id l ++ later

  same : (x : LockIndex) → get_list k x.reserved ≡ get_list k x.reserved ++ []
  same x = sym (append-nil (get_list k x.reserved))

  one :
      (m : Key) (w : TimeWindow) (x : LockIndex)
      → get_list k (append_at m w x.reserved)
        ≡ get_list k x.reserved ++ (if k == m then w ∷ [] else [])
  one m w x =
      get_list-append_at k m w x.reserved
      ∙ elim (Bool-cases (k == m)) [ inl e ↦ rw e refl | inr e ↦ rw e (same x) ]

  get_list-index_by :
      (t : LockType) (w : Option TimeWindow) (m o : Option Key) (l : ScheduleLock) (x : LockIndex)
      → get_list k (index_by t w m o l x).reserved ≡ get_list k x.reserved ++ windows_by t w m l
  unfolding index_by add_sequence reserve lock_order freeze
  get_list-index_by sequence_lock none none o l x =
      elim (Bool-cases (ltb 1 (length l.sequence_order_ids))) [
        | inl e ↦ rw e (same x)
        | inr e ↦ rw e (same x)
      ]
  get_list-index_by sequence_lock none (some m) o l x =
      elim (Bool-cases (ltb 1 (length l.sequence_order_ids))) [
        | inl e ↦ rw e (same x)
        | inr e ↦ rw e (same x)
      ]
  get_list-index_by sequence_lock (some w) none o l x =
      elim (Bool-cases (ltb 1 (length l.sequence_order_ids))) [
        | inl e ↦ rw e (same x)
        | inr e ↦ rw e (same x)
      ]
  get_list-index_by sequence_lock (some w) (some m) o l x =
      elim (Bool-cases (ltb 1 (length l.sequence_order_ids))) [
        | inl e ↦ rw e (same x)
        | inr e ↦ rw e (same x)
      ]
  get_list-index_by order_lock none none none l x = same x
  get_list-index_by order_lock none none (some o) l x = same x
  get_list-index_by order_lock none (some m) none l x = same x
  get_list-index_by order_lock none (some m) (some o) l x = same x
  get_list-index_by order_lock (some w) none none l x = same x
  get_list-index_by order_lock (some w) none (some o) l x = same x
  get_list-index_by order_lock (some w) (some m) none l x = same x
  get_list-index_by order_lock (some w) (some m) (some o) l x = same x
  get_list-index_by time_slot_lock none none none l x = same x
  get_list-index_by time_slot_lock none none (some o) l x = same x
  get_list-index_by time_slot_lock none (some m) none l x = same x
  get_list-index_by time_slot_lock none (some m) (some o) l x = same x
  get_list-index_by time_slot_lock (some w) none o l x = same x
  get_list-index_by time_slot_lock (some w) (some m) o l x = one m (reserved_window l w) x
  get_list-index_by machine_lock none none none l x = same x
  get_list-index_by machine_lock none none (some o) l x = same x
  get_list-index_by machine_lock none (some m) none l x = same x
  get_list-index_by machine_lock none (some m) (some o) l x = same x
  get_list-index_by machine_lock (some w) none o l x = same x
  get_list-index_by machine_lock (some w) (some m) o l x = one m (reserved_window l w) x

  get_list-index_lock :
      (now : Instant) (x : LockIndex) (l : ScheduleLock)
      → get_list k (index_lock now x l).reserved
        ≡ get_list k x.reserved
          ++ (if has_ended l.window now then [] else windows_by l.lock_type l.window l.machine_id l)
  unfolding index_lock
  get_list-index_lock now x l = elim (Bool-cases (has_ended l.window now)) [
    | inl e ↦ rw e (same x)
    | inr e ↦ rw e (get_list-index_by l.lock_type l.window l.machine_id l.order_id l x)
  ]

  get_list-index_locks :
      (now : Instant) (x : LockIndex) (ls : List ScheduleLock)
      → get_list k (index_locks now x ls).reserved ≡ get_list k x.reserved ++ reserved_by now ls
  unfolding index_locks reserved_by
  get_list-index_locks now x [] = same x
  get_list-index_locks now x (l ∷ ls) =
      get_list-index_locks now (index_lock now x l) ls
      ∙ ap (λ a. a ++ reserved_by now ls) (get_list-index_lock now x l)
      ∙ append_assoc (get_list k x.reserved) _ _
      ∙ elim (Bool-cases (has_ended l.window now)) [ inl e ↦ rw e refl | inr e ↦ rw e refl ]

  get_list-sort_windows :
      (d : Dict (List TimeWindow))
      → get_list k (sort_windows d) ≡ sort_by window_before (get_list k d)
  unfolding sort_windows get get_list sort_by
  get_list-sort_windows [] = refl
  get_list-sort_windows (entry ∷ rest) = elim (Bool-cases (k == entry.0)) [
    | inl e ↦ rw e refl
    | inr e ↦ rw e (get_list-sort_windows rest)
  ]

-- The windows that the index reserves on a machine are those that the active locks reserve on it,
-- sorted by start and end.
pub build_lock_index-reserved_by :
    (s : PlanningSnapshot) (now : Instant) (k : Key)
    → get_list k (build_lock_index s now).reserved
      ≡ sort_by window_before (reserved_by k now (locks_by_creation s now))
unfolding build_lock_index get get_list
build_lock_index-reserved_by s now k =
    let x = index_locks now no_locks (locks_by_creation s now) in
    get_list-sort_windows k x.reserved
    ∙ ap (sort_by window_before) (get_list-index_locks k now no_locks (locks_by_creation s now))
