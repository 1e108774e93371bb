-- ===== src/Replanning/Stability.antt =====
-- `apply_stability` of backend/app/engines/replanning/stability.py up to the renumbering of the
-- restored entries. Two tests on the snapshot are arguments: whether an entry's work is still
-- relevant and whether its machine can run. Quality, reasons and messages are left out.
pub mod Laws
use athena_order_priority.Prelude.{
  ℕ, zero, suc, ◌+◌, Bool, true, false, not, ◌&&◌, ◌||◌, List, [], ◌∷◌, ◌++◌, Option, none, some,
  ltb, leb, ◌==◌, if◌then◌else◌, then_by, map, filter, length, is_nil, sort_by, Dict, get, put,
  set_default,
}
use athena_order_priority.Domain.Window.{Instant}
use athena_order_priority.Domain.Results.{ScheduleEntry}
use athena_order_priority.Domain.Keys.{Key}

pub data ChangeKind : Type 0 where
  moved : ChangeKind
  added : ChangeKind
  removed : ChangeKind
  frozen_violation : ChangeKind

pub record EntryChange : Type 0 where
  pub operation_id : Key
  pub order_id : Key
  pub kind : ChangeKind
  pub previous_machine_id : Option Key
  pub proposed_machine_id : Option Key
  pub previous_start : Option Instant
  pub proposed_start : Option Instant

pub record StabilityReport : Type 0 where
  pub frozen_entries : ℕ
  pub frozen_violations : ℕ
  pub restored_entries : ℕ
  pub moved_entries : ℕ
  pub added_entries : ℕ
  pub removed_entries : ℕ
  pub unchanged_entries : ℕ
  pub max_moves_exceeded : Bool
  pub changes : List EntryChange

abbrev pub empty_report : StabilityReport
empty_report = record {
  frozen_entries = 0;
  frozen_violations = 0;
  restored_entries = 0;
  moved_entries = 0;
  added_entries = 0;
  removed_entries = 0;
  unchanged_entries = 0;
  max_moves_exceeded = false;
  changes = [];
}

-- The change from an entry to none or to another.
abbrev pub change : ChangeKind → ScheduleEntry → Option ScheduleEntry → EntryChange
change kind old none = record {
  operation_id = old.operation_id;
  order_id = old.order_id;
  kind = kind;
  previous_machine_id = some old.machine_id;
  proposed_machine_id = none;
  previous_start = some old.setup_start;
  proposed_start = none;
}
change kind old (some new) = record {
  operation_id = old.operation_id;
  order_id = old.order_id;
  kind = kind;
  previous_machine_id = some old.machine_id;
  proposed_machine_id = some new.machine_id;
  previous_start = some old.setup_start;
  proposed_start = some new.setup_start;
}

abbrev pub addition : ScheduleEntry → EntryChange
addition new = record {
  operation_id = new.operation_id;
  order_id = new.order_id;
  kind = added;
  previous_machine_id = none;
  proposed_machine_id = some new.machine_id;
  previous_start = none;
  proposed_start = some new.setup_start;
}

-- Whether the machine changed or the start shifted by more than the tolerance.
unfoldable pub has_moved : ℕ → ScheduleEntry → ScheduleEntry → Bool
has_moved tolerance old new =
    not (new.machine_id == old.machine_id)
    || ltb (old.setup_start + tolerance) new.setup_start
    || ltb (new.setup_start + tolerance) old.setup_start

-- What the loop finds of one previous entry.
pub data Verdict : Type 0 where
  stays : Verdict
  goes : Verdict
  shifts : ScheduleEntry → Verdict
  violates : Option ScheduleEntry → Verdict

unfoldable pub judge : ℕ → Bool → ScheduleEntry → Option ScheduleEntry → Verdict
unfolding has_moved
judge tolerance frozen old none = if frozen then violates none else goes
judge tolerance frozen old (some new) =
    if has_moved tolerance old new
    then (if frozen then violates (some new) else shifts new)
    else stays

-- The counters and the changes after a verdict.
unfoldable pub count_verdict : ScheduleEntry → Verdict → StabilityReport → StabilityReport
count_verdict old stays r = record r { unchanged_entries = suc r.unchanged_entries }
count_verdict old goes r = record r {
  removed_entries = suc r.removed_entries;
  changes = r.changes ++ change removed old none ∷ [];
}
count_verdict old (shifts new) r = record r {
  moved_entries = suc r.moved_entries;
  changes = r.changes ++ change moved old (some new) ∷ [];
}
count_verdict old (violates new) r = record r {
  frozen_violations = suc r.frozen_violations;
  changes = r.changes ++ change frozen_violation old new ∷ [];
}

abbrev count_frozen : Bool → StabilityReport → StabilityReport
count_frozen true r = record r { frozen_entries = suc r.frozen_entries }
count_frozen false r = r

-- `replace(old, locked=True)`
abbrev pub lock_entry : ScheduleEntry → ScheduleEntry
lock_entry old = record old { locked = true }

-- A violated entry is put back, unless `restore` is off.
unfoldable pub restore_entry :
    Bool → ScheduleEntry → Verdict → Dict ScheduleEntry → Dict ScheduleEntry
unfolding put
restore_entry true old (violates new) restored = put old.operation_id (lock_entry old) restored
restore_entry true old _ restored = restored
restore_entry false old verdict restored = restored

-- `{e.operation_id: e for e in entries}`
unfoldable pub by_operation : List ScheduleEntry → Dict ScheduleEntry → Dict ScheduleEntry
unfolding put
by_operation [] d = d
by_operation (e ∷ es) d = by_operation es (put e.operation_id e d)

module _ (still_relevant machine_can_run : ScheduleEntry → Bool) (now window tolerance : ℕ) where
  -- The entries of the previous schedule that are not finished, the first of each operation.
  unfoldable pub pending_by_operation : List ScheduleEntry → Dict ScheduleEntry → Dict ScheduleEntry
  unfolding set_default
  pending_by_operation [] d = d
  pending_by_operation (e ∷ es) d =
      pending_by_operation es
        (if leb e.end now || not (still_relevant e) then d else set_default e.operation_id e d)

  unfoldable pub is_frozen : ScheduleEntry → Bool
  is_frozen old = ltb old.setup_start (now + window) && machine_can_run old

  -- One round of the loop over the previous entries.
  unfoldable pub reconcile_one :
      Bool
      → Dict ScheduleEntry
      → ScheduleEntry
      → StabilityReport × Dict ScheduleEntry
      → StabilityReport × Dict ScheduleEntry
  unfolding is_frozen judge count_verdict restore_entry get
  reconcile_one restore proposed old s =
      let verdict = judge tolerance (is_frozen old) old (get old.operation_id proposed) in
      (
        count_verdict old verdict (count_frozen (is_frozen old) s.0),
        restore_entry restore old verdict s.1,
      )

  unfoldable pub reconcile :
      Bool
      → Dict ScheduleEntry
      → Dict ScheduleEntry
      → StabilityReport × Dict ScheduleEntry
      → StabilityReport × Dict ScheduleEntry
  unfolding reconcile_one
  reconcile restore proposed [] s = s
  reconcile restore proposed (entry ∷ rest) s =
      reconcile restore proposed rest (reconcile_one restore proposed entry.1 s)

-- `sorted(d)`, with the values.
unfoldable pub by_key : Dict ScheduleEntry → Dict ScheduleEntry
unfolding sort_by
by_key d = sort_by (λ a b. leb a.0 b.0) d

abbrev pub is_new : Dict ScheduleEntry → ℕ × ScheduleEntry → Bool
is_new previous entry = elim (get entry.0 previous) [ none ↦ true | some old ↦ false ]

-- The loop over the operations that only the proposed schedule has.
unfoldable pub add_new : List (ℕ × ScheduleEntry) → StabilityReport → StabilityReport
add_new [] r = r
add_new (entry ∷ rest) r =
    add_new rest (record r {
      added_entries = suc r.added_entries;
      changes = r.changes ++ addition entry.1 ∷ [];
    })

-- `report.moved_entries > rules.max_moves_per_replan`
abbrev exceeds : Option ℕ → ℕ → Bool
exceeds none moves = false
exceeds (some most) moves = ltb most moves

unfoldable pub apply_stability :
    (ScheduleEntry → Bool)
    → (ScheduleEntry → Bool)
    → (now window tolerance : ℕ) → Bool
    → Option ℕ
    → List ScheduleEntry
    → List ScheduleEntry
    → StabilityReport × Dict ScheduleEntry
unfolding by_key pending_by_operation by_operation reconcile add_new filter
apply_stability relevant can_run now window tolerance restore max_moves previous proposed =
    let old = pending_by_operation relevant can_run now window tolerance previous [] in
    let new = by_operation proposed [] in
    let (r, restored) =
      reconcile relevant can_run now window tolerance restore new (by_key old) (empty_report, []) in
    let report = add_new (filter (is_new old) (by_key new)) r in
    (
      record report {
        max_moves_exceeded = exceeds max_moves report.moved_entries;
        restored_entries = length restored;
      },
      restored,
    )
