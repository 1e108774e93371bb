-- ===== src/Scheduling/Timeline.antt =====
-- `MachineTimeline` of backend/app/engines/scheduling/timeline.py: the busy slots of a machine and
-- the open gaps between them. A slot's operation and order are left out, and `add_entry` with them.
pub mod Laws
pub mod Gaps
use athena_order_priority.Prelude.{
  ℕ, zero, suc, ◌+◌, ◌-◌, Bool, true, false, ◌&&◌, ◌||◌, List, [], ◌∷◌, Option, none, some, map,
  max, ltb, leb, ◌==◌, if◌then◌else◌, bisect_right, drop,
}
use athena_order_priority.Domain.Window.{Instant}
use athena_order_priority.Domain.Keys.{Key, same, equal}
use athena_order_priority.Calendar.Machine.{MachineCalendar}
use athena_order_priority.Calendar.Work.{working_between}
use athena_order_priority.Scheduling.Batching.{MachineState}

-- `SetupEstimate.basis`; `same_material` stands for every other text.
pub data SetupBasis : Type 0 where
  changeover : SetupBasis
  unknown : SetupBasis
  same_family : SetupBasis
  same_material : SetupBasis

pub record BusySlot : Type 0 where
  pub setup_start : Instant
  pub end : Instant
  pub entry_id : Key
  pub setup_minutes : ℕ
  pub setup_basis : Option SetupBasis
  pub setup_family : Option Key
  pub material_id : Option Key
  pub mounted_tooling : List Key
  pub customer_id : Option Key
  pub part_family : Option Key
  pub locked : Bool

pub record Gap : Type 0 where
  pub start : Instant
  pub end : Instant
  pub work_minutes : ℕ
  pub predecessor : Option BusySlot
  pub successor : BusySlot

-- The setup that the machine has before its first slot.
pub record InitialSetup : Type 0 where
  pub setup_family : Option Key
  pub material_id : Option Key
  pub mounted_tooling : List Key

pub record MachineTimeline : Type 0 where
  pub machine_id : Key
  pub calendar : MachineCalendar
  pub floor : Instant
  pub tail_end : Instant
  pub slots : List BusySlot
  pub gaps : List Gap
  pub initial : InitialSetup

unfoldable pub new_timeline : Key → MachineCalendar → Instant → InitialSetup → MachineTimeline
new_timeline m c floor setup = record {
  machine_id = m;
  calendar = c;
  floor = floor;
  tail_end = floor;
  slots = [];
  gaps = [];
  initial = setup;
}

-- `_starts` and `_gap_ends`, which the source keeps beside the lists.
abbrev pub starts : List BusySlot → List ℕ
starts slots = map (λ s. s.setup_start) slots

abbrev pub gap_ends : List Gap → List ℕ
gap_ends gaps = map (λ g. g.end) gaps

-- `xs[n]`, and `xs[n - 1]` for the element before it.
unfoldable pub at {ℓ} : {A : Type ℓ} → ℕ → List A → Option A
at n [] = none
at zero (x ∷ xs) = some x
at (suc n) (x ∷ xs) = at n xs

unfoldable pub before {ℓ} : {A : Type ℓ} → ℕ → List A → Option A
unfolding at
before zero xs = none
before (suc n) xs = at n xs

-- `xs.insert(n, x)`
unfoldable pub insert_at {ℓ} : {A : Type ℓ} → ℕ → A → List A → List A
insert_at n x [] = x ∷ []
insert_at zero x (y ∷ ys) = x ∷ y ∷ ys
insert_at (suc n) x (y ∷ ys) = y ∷ insert_at n x ys

-- The last slot that starts at or before `t`.
unfoldable pub predecessor : MachineTimeline → Instant → Option BusySlot
unfolding before bisect_right
predecessor m t = before (bisect_right (starts m.slots) t) m.slots

-- The machine state that a job placed in the gap would follow.
unfoldable pub state_before : MachineTimeline → Gap → MachineState → MachineState
state_before m gap base = elim gap.predecessor [
  | none ↦ record {
    machine_id = m.machine_id;
    next_free = gap.start;
    current_setup_family = m.initial.setup_family;
    current_material_id = m.initial.material_id;
    mounted_tooling = m.initial.mounted_tooling;
    scheduled_minutes = base.scheduled_minutes;
    last_customer_id = none;
    last_part_family = none;
  }
  | some pred ↦ record {
    machine_id = m.machine_id;
    next_free = gap.start;
    current_setup_family = pred.setup_family;
    current_material_id = pred.material_id;
    mounted_tooling = pred.mounted_tooling;
    scheduled_minutes = base.scheduled_minutes;
    last_customer_id = pred.customer_id;
    last_part_family = pred.part_family;
  }
]

-- The open gaps that end after `t`.
unfoldable pub gaps_from : MachineTimeline → Instant → List Gap
unfolding drop bisect_right
gaps_from m t = drop (bisect_right (gap_ends m.gaps) t) m.gaps

-- `del xs[n]`
unfoldable pub remove_at {ℓ} : {A : Type ℓ} → ℕ → List A → List A
remove_at n [] = []
remove_at zero (x ∷ xs) = xs
remove_at (suc n) (x ∷ xs) = x ∷ remove_at n xs

-- The last gap that ends at or before `t` is removed when it ends at `t`.
unfoldable pub close_gap : Instant → List Gap → List Gap
unfolding bisect_right before remove_at
close_gap t gaps =
    let i = bisect_right (gap_ends gaps) t in
    elim (before i gaps) [
      | none ↦ gaps
      | some g ↦ if g.end == t then remove_at (i - 1) gaps else gaps
    ]

-- `_add_gap`
unfoldable pub add_gap :
    MachineCalendar → Instant → Instant → Option BusySlot → BusySlot → List Gap → List Gap
unfolding working_between insert_at bisect_right
add_gap c start end prev next gaps =
    let work = working_between c start end in
    if work == 0
    then gaps
    else insert_at (bisect_right (gap_ends gaps) end)
        (record {
          start = start;
          end = end;
          work_minutes = work;
          predecessor = prev;
          successor = next;
        })
        gaps

-- The gap in front of the new slot, when there is room for one.
unfoldable pub gap_before :
    MachineCalendar → Instant → Option BusySlot → BusySlot → List Gap → List Gap
unfolding add_gap
gap_before c left prev slot gaps =
    if ltb left slot.setup_start then add_gap c left slot.setup_start prev slot gaps else gaps

unfoldable pub gap_after : MachineCalendar → BusySlot → Option BusySlot → List Gap → List Gap
unfolding add_gap
gap_after c slot none gaps = gaps
gap_after c slot (some next) gaps =
    if ltb slot.end next.setup_start
    then add_gap c slot.end next.setup_start (some slot) next gaps
    else gaps

abbrev pub close_for : Option BusySlot → List Gap → List Gap
close_for none gaps = gaps
close_for (some next) gaps = close_gap next.setup_start gaps

abbrev pub left_of : Option BusySlot → Instant → Instant
left_of none floor = floor
left_of (some prev) floor = max prev.end floor

unfoldable pub insert : BusySlot → MachineTimeline → MachineTimeline
unfolding before at insert_at bisect_right close_gap gap_before gap_after
insert slot m =
    let i = bisect_right (starts m.slots) slot.setup_start in
    let prev = before i m.slots in
    let next = at i m.slots in
    record {
      machine_id = m.machine_id;
      calendar = m.calendar;
      floor = m.floor;
      tail_end = max slot.end m.tail_end;
      slots = insert_at i slot m.slots;
      gaps =
          gap_after m.calendar slot next
            (gap_before m.calendar (left_of prev m.floor) prev slot (close_for next m.gaps));
      initial = m.initial;
    }

abbrev family_of : Option BusySlot → Option Key
family_of none = none
family_of (some s) = s.setup_family

abbrev material_of : Option BusySlot → Option Key
material_of none = none
material_of (some s) = s.material_id

-- `successor_setup_holds`; the flag is whether the family factor is at most the material factor.
unfoldable pub successor_setup_holds : Gap → Option Key → Option Key → Bool → Bool
successor_setup_holds gap family material cheaper = elim gap.successor.setup_basis [
  | none ↦ equal family (family_of gap.predecessor) && equal material (material_of gap.predecessor)
  | some basis ↦ elim basis [
    | changeover ↦ true
    | unknown ↦ true
    | same_family ↦ same family gap.successor.setup_family
    | same_material ↦
        same material gap.successor.material_id || same family gap.successor.setup_family && cheaper
  ]
]
