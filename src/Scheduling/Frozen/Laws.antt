-- ===== src/Scheduling/Frozen/Laws.antt =====
-- The theorems about the entries that a run keeps (backend/app/engines/scheduling/state.py).
use athena_order_priority.Prelude.{
  ℕ, ◌+◌, ◌≡◌, refl, ap, sym, ◌∙◌, Bool, true, false, ◌&&◌, List, [], ◌∷◌, ◌++◌, Option, none, some,
  ◌==◌, map, if◌then◌else◌, filter, Dict, get, put, get-put, sort_by, Bool-cases, inl, inr, arith,
}
use mathlib.Core.List.{append_assoc, append-nil}
use athena_order_priority.Domain.Window.{Instant}
use athena_order_priority.Domain.Keys.{Key, is_in}
use athena_order_priority.Domain.Results.{ScheduleEntry}
use athena_order_priority.Domain.Snapshot.{PlanningSnapshot}
use athena_order_priority.Scheduling.Batching.{MachineState}
use athena_order_priority.Scheduling.Locks.{LockIndex}
use athena_order_priority.Scheduling.Timeline.{MachineTimeline}
use athena_order_priority.Scheduling.Frozen.{
  FrozenResult, is_there, pinned_on, may_keep, entry_le, locked_entry, keep, keep_on, reproduce_one,
  reproduce_each, reproduce_frozen_entries,
}

-- The first entry of each operation that is not seen yet.
unfoldable pub first_of_each : List Key → List ScheduleEntry → List ScheduleEntry
unfolding is_in
first_of_each seen [] = []
first_of_each seen (e ∷ es) =
    let known = first_of_each seen es in
    let new = first_of_each (e.operation_id ∷ seen) es in
    if is_in e.operation_id seen then known else e ∷ new

-- The tests of an entry, on the machines that the run begins with.
unfoldable pub keeps :
    PlanningSnapshot → LockIndex → Instant → Instant → Dict MachineState → ScheduleEntry → Bool
unfolding may_keep get
keeps s locks now window_end states e =
    may_keep s locks now window_end e
    && is_there (get e.machine_id states)
    && pinned_on (get e.order_id locks.pinned) e.machine_id

module _ (s : PlanningSnapshot) (locks : LockIndex) (now window_end : Instant) where
  reproduce_one-seen :
      (r : FrozenResult) (e : ScheduleEntry)
      → is_in e.operation_id r.seen ≡ true
      → reproduce_one s locks now window_end r e ≡ r
  unfolding reproduce_one
  reproduce_one-seen r e h = rw h refl

  reproduce_one-dropped :
      (r : FrozenResult) (e : ScheduleEntry)
      → keeps s locks now window_end r.states e ≡ false
      → reproduce_one s locks now window_end r e ≡ r
  unfolding reproduce_one keeps
  reproduce_one-dropped r e h = elim (Bool-cases (is_in e.operation_id r.seen)) [
    | inl t ↦ rw t refl
    | inr t ↦ elim (Bool-cases (may_keep s locks now window_end e)) [
      | inl m ↦ rw t (
          rw m (
            go (get e.machine_id r.states) (pinned_on (get e.order_id locks.pinned) e.machine_id)
              (ground (arith, h, m))))
      | inr m ↦ rw t (rw m refl)
    ]
  ]
    where
      go :
          (o : Option MachineState) (pinned : Bool)
          → (is_there o && pinned) ≡ false
          → keep_on s o pinned e r ≡ r
      go none pinned e = refl
      go (some state) false e = refl
      go (some state) true e = absurd (ground (arith, e))

  reproduce_one-kept :
      (r : FrozenResult) (e : ScheduleEntry)
      → is_in e.operation_id r.seen ≡ false
      → keeps s locks now window_end r.states e ≡ true
      → (state : MachineState) × (reproduce_one s locks now window_end r e ≡ keep s state e r)
  unfolding reproduce_one keeps
  reproduce_one-kept r e t h =
      let m : may_keep s locks now window_end e ≡ true = ground (arith, h) in
      let rest : (is_there (get e.machine_id r.states)
            && pinned_on (get e.order_id locks.pinned) e.machine_id)
          ≡ true =
        ground (arith, h) in
      let (state, is) =
        go (get e.machine_id r.states) (pinned_on (get e.order_id locks.pinned) e.machine_id)
          rest in
      (state, rw t (rw m is))
    where
      go :
          (o : Option MachineState) (pinned : Bool)
          → (is_there o && pinned) ≡ true
          → (state : MachineState) × (keep_on s o pinned e r ≡ keep s state e r)
      go none pinned h = absurd (ground (arith, h))
      go (some state) false h = absurd (ground (arith, h))
      go (some state) true h = (state, refl)

  is_there-put :
      (k j : Key) (v : MachineState) (d : Dict MachineState)
      → is_there (get j d) ≡ true
      → is_there (get k (put j v d)) ≡ is_there (get k d)
  is_there-put k j v d h = ap is_there (get-put k j v d) ∙ elim (Bool-cases (k == j)) [
    | inl e ↦
        let same : k ≡ j = ground (arith, e) in rw e (sym (ap (λ i. is_there (get i d)) same ∙ h))
    | inr e ↦ rw e refl
  ]

  keep-machines :
      (r : FrozenResult) (e : ScheduleEntry) (state : MachineState) (k : Key)
      → is_there (get e.machine_id r.states) ≡ true
      → is_there (get k (keep s state e r).states) ≡ is_there (get k r.states)
  unfolding keep
  keep-machines r e state k h = is_there-put k e.machine_id _ r.states h

  filter-same :
      (p q : ScheduleEntry → Bool) (es : List ScheduleEntry)
      → ((e : ScheduleEntry) → p e ≡ q e)
      → filter p es ≡ filter q es
  unfolding filter
  filter-same p q [] h = refl
  filter-same p q (e ∷ es) h = elim (Bool-cases (q e)) [
    | inl t ↦
        let same : p e ≡ true = h e ∙ t in rw t (rw same (ap (λ xs. e ∷ xs) (filter-same p q es h)))
    | inr t ↦ let same : p e ≡ false = h e ∙ t in rw t (rw same (filter-same p q es h))
  ]

  keeps-machines :
      (r : FrozenResult) (e f : ScheduleEntry) (state : MachineState)
      → is_there (get e.machine_id r.states) ≡ true
      → keeps s locks now window_end (keep s state e r).states f
        ≡ keeps s locks now window_end r.states f
  unfolding keeps
  keeps-machines r e f state h =
      ap
        (λ b.
          may_keep s locks now window_end f
          && b
          && pinned_on (get f.order_id locks.pinned) f.machine_id)
        (keep-machines r e state f.machine_id h)

  -- What is kept of `es` after `r`.
  abbrev Kept : List ScheduleEntry → FrozenResult → Type 0
  Kept es r =
      (reproduce_each s locks now window_end r es).entries
      ≡ r.entries
        ++ map locked_entry
            (first_of_each r.seen (filter (keeps s locks now window_end r.states) es))

  keep-Kept :
      (e : ScheduleEntry) (es : List ScheduleEntry) (r : FrozenResult) (state : MachineState)
      → is_there (get e.machine_id r.states) ≡ true
      → Kept es (keep s state e r)
      → (reproduce_each s locks now window_end (keep s state e r) es).entries
        ≡ r.entries
          ++ locked_entry e
            ∷ map locked_entry (
                first_of_each
                  (e.operation_id ∷ r.seen)
                  (filter (keeps s locks now window_end r.states) es))
  unfolding keep
  keep-Kept e es r state known later =
      later
      ∙ ap
          (λ fs.
            (keep s state e r).entries
            ++ map locked_entry (first_of_each (keep s state e r).seen fs))
          (filter-same (keeps s locks now window_end (keep s state e r).states)
            (keeps s locks now window_end r.states) es (λ f. keeps-machines r e f state known))
      ∙ append_assoc r.entries (locked_entry e ∷ []) _

  kept-is_there :
      (r : FrozenResult) (e : ScheduleEntry)
      → keeps s locks now window_end r.states e ≡ true
      → is_there (get e.machine_id r.states) ≡ true
  unfolding keeps
  kept-is_there r e h = ground (arith, h)

  reproduce_each-entries :
      (es : List ScheduleEntry) (r : FrozenResult)
      → (reproduce_each s locks now window_end r es).entries
        ≡ r.entries
          ++ map locked_entry
              (first_of_each r.seen (filter (keeps s locks now window_end r.states) es))
  unfolding reproduce_each filter first_of_each
  reproduce_each-entries [] r = sym (append-nil r.entries)
  reproduce_each-entries (e ∷ es) r = elim (Bool-cases (keeps s locks now window_end r.states e)) [
    | inr h ↦ rw h (
        ap (λ x. (reproduce_each s locks now window_end x es).entries) (reproduce_one-dropped r e h)
        ∙ reproduce_each-entries es r)
    | inl h ↦ elim (Bool-cases (is_in e.operation_id r.seen)) [
      | inl t ↦ rw h (
          rw t (
            ap (λ x. (reproduce_each s locks now window_end x es).entries)
              (reproduce_one-seen r e t)
            ∙ reproduce_each-entries es r))
      | inr t ↦
          let (state, is) = reproduce_one-kept r e t h in
          rw h (
            rw t (
              ap (λ x. (reproduce_each s locks now window_end x es).entries) is
              ∙ keep-Kept e es r state (kept-is_there r e h)
                  (reproduce_each-entries es (keep s state e r))))
    ]
  ]

-- The entries that a run keeps of the previous schedule are, in the order of machine, setup start and
-- operation, the first entry of each operation among those that pass the tests: in the lock window,
-- of a locked order or on a locked machine, not ended, of an open order and a pending operation,
-- on a machine of the run, and not pinned to another one; each is kept as it was, and marked locked.
pub reproduce_frozen_entries-first_of_each :
    (previous : List ScheduleEntry) (s : PlanningSnapshot) (states : Dict MachineState)
    (timelines : Dict MachineTimeline) (locks : LockIndex) (now : Instant) (window : ℕ)
    → (reproduce_frozen_entries previous s states timelines locks now window).entries
      ≡ map locked_entry (
          first_of_each []
            (filter (keeps s locks now (now + window) states) (sort_by entry_le previous)))
unfolding reproduce_frozen_entries
reproduce_frozen_entries-first_of_each previous s states timelines locks now window =
    reproduce_each-entries s locks now (now + window) (sort_by entry_le previous)
      (record { entries = []; states = states; timelines = timelines; seen = [] })
