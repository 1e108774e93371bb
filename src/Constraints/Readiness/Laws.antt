-- ===== src/Constraints/Readiness/Laws.antt =====
-- The theorems about readiness (backend/app/engines/constraints/readiness.py).
use athena_order_priority.Prelude.{
  ◌≡◌, refl, subst, sym, Has, ◌≤◌, ◌<◌, true, false, List, [], ◌∷◌, Option, none, some, ltb, leb,
  All, IsOrder, sort_by, All-sort_by, All-sorted, sort_by-IsSortedBy, IsSortedBy, Bool-cases, inl,
  inr, map, any, min, arith,
}
use athena_order_priority.Domain.Window.{Instant, TimeWindow, contains}
use athena_order_priority.Domain.Machines.{Machine, all_downtime}
use athena_order_priority.Domain.Orders.{Order, Operation}
use athena_order_priority.Domain.Snapshot.{PlanningSnapshot}
use athena_order_priority.Constraints.Hard.{HardConstraint}
use athena_order_priority.Constraints.Eligibility.{evaluate_eligibility, known_machines}
use athena_order_priority.Constraints.Readiness.{
  Blocker, from_available, skip_windows, starts_le, machine_available_at, earliest, machine_wait,
  machine_blocker,
}

starts_le-IsOrder : IsOrder starts_le
starts_le-IsOrder = record {
  total = λ v w h. ground (arith, h);
  trans = λ v w x h g. ground (arith, h, g);
}

skip_windows-le : (t : Instant) (ws : List TimeWindow) → t ≤ skip_windows t ws
unfolding skip_windows contains
skip_windows-le t [] = omega arith
skip_windows-le t (w ∷ ws) = elim (Bool-cases (contains w t)) [
  | inl e ↦ rw e (let later = skip_windows-le w.end ws in ground (arith, e, later))
  | inr e ↦ rw e (skip_windows-le t ws)
]

-- The instant reached is not after any later one clear of the windows.
skip_windows-least :
    (t u : Instant) (ws : List TimeWindow)
    → t ≤ u
    → All (λ w. contains w u ≡ false) ws
    → skip_windows t ws ≤ u
unfolding skip_windows contains
skip_windows-least t u [] h clear = h
skip_windows-least t u (w ∷ ws) h clear = elim (Bool-cases (contains w t)) [
  | inl e ↦ rw e (skip_windows-least w.end u ws (ground (arith, e, h, clear.0)) clear.1)
  | inr e ↦ rw e (skip_windows-least t u ws h clear.1)
]

-- No window that starts later is entered.
skip_windows-before :
    (t s : Instant) (ws : List TimeWindow)
    → t < s
    → All (λ w. leb s w.start ≡ true) ws
    → skip_windows t ws ≡ t
unfolding skip_windows contains
skip_windows-before t s [] h later = refl
skip_windows-before t s (w ∷ ws) h later =
    let outside : contains w t ≡ false = ground (arith, h, later.0) in
    rw outside (skip_windows-before t s ws h later.1)

skip_windows-clear :
    (t : Instant) (ws : List TimeWindow)
    → IsSortedBy starts_le ws
    → All (λ w. contains w (skip_windows t ws) ≡ false) ws
unfolding skip_windows contains
skip_windows-clear t [] sorted = tt
skip_windows-clear t (w ∷ ws) sorted = elim (Bool-cases (contains w t)) [
  | inl e ↦
      let past = skip_windows-le w.end ws in
      let step : skip_windows t (w ∷ ws) ≡ skip_windows w.end ws = rw e refl in
      subst (λ r. All (λ v. contains v r ≡ false) (w ∷ ws)) (sym step)
        (ground (arith, past), skip_windows-clear w.end ws sorted.1)
  | inr e ↦
      let step : skip_windows t (w ∷ ws) ≡ skip_windows t ws = rw e refl in
      subst (λ r. All (λ v. contains v r ≡ false) (w ∷ ws)) (sym step)
        (outside e, skip_windows-clear t ws sorted.1)
]
  where
    outside : contains w t ≡ false → contains w (skip_windows t ws) ≡ false
    outside e = elim (Bool-cases (ltb t w.start)) [
      | inl g ↦
          let same = skip_windows-before t w.start ws (ground (arith, g)) sorted.0 in rw same e
      | inr g ↦ let past = skip_windows-le t ws in ground (arith, past, e, g)
    ]

-- From the given instant and the machine's first one on, and outside its downtime.
abbrev pub IsFree : Machine → Instant → Instant → Type 0
IsFree m at t =
    (from_available m.available_from at ≤ t) × All (λ w. contains w t ≡ false) (all_downtime m)

abbrev pub IsFirst : Machine → Instant → Instant → Type 0
IsFirst m at t = IsFree m at t × ((u : Instant) → IsFree m at u → t ≤ u)

-- `machine_available_at` returns the first instant from `at` and the machine's `available_from` on
-- that no downtime window of the machine contains.
pub machine_available_at-IsFirst :
    (m : Machine) (at : Instant) → IsFirst m at (machine_available_at m at)
unfolding machine_available_at
machine_available_at-IsFirst m at =
    let t = from_available m.available_from at in
    let ws = sort_by starts_le (all_downtime m) in
    let clear =
      skip_windows-clear t ws (sort_by-IsSortedBy starts_le starts_le-IsOrder (all_downtime m)) in
    (
      (
        skip_windows-le t ws,
        All-sorted starts_le (λ w. contains w (skip_windows t ws) ≡ false) (all_downtime m) clear,
      ),
      λ u free.
          skip_windows-least t u ws free.0
            (All-sort_by starts_le (λ w. contains w u ≡ false) (all_downtime m) free.1),
    )

-- An instant not after `at` among those of some machines.
now-of_any :
    (f : Machine → Instant) (at : Instant) (ms : List Machine)
    → any (λ u. leb u at) (map f ms) ≡ true
    → (m : Machine) × Has m ms × (f m ≤ at)
unfolding any
now-of_any f at [] e = absurd (ground (arith, e))
now-of_any f at (m ∷ ms) e = elim (Bool-cases (leb (f m) at)) [
  | inl g ↦ (m, inl refl, ground (arith, g))
  | inr g ↦ let (n, has, le) = now-of_any f at ms (ground (arith, e, g)) in (n, inr has, le)
]

earliest-of :
    (f : Machine → Instant) (at : Instant) (m : Machine) (ms : List Machine)
    → any (λ u. leb u at) (f m ∷ map f ms) ≡ false
    → (n : Machine) × Has n (m ∷ ms) × (earliest (f m) (map f ms) ≡ f n) × (at < f n)
unfolding any earliest
earliest-of f at m [] e = (m, inl refl, refl, ground (arith, e))
earliest-of f at m (k ∷ ms) e =
    let (n, has, is, later) = earliest-of f at k ms (ground (arith, e)) in
    elim (Bool-cases (leb (f m) (earliest (f k) (map f ms)))) [
      | inl g ↦ (m, inl refl, ground (arith, g), ground (arith, e))
      | inr g ↦ (n, inr has, ground (arith, g, is), later)
    ]

earliest-le :
    (f : Machine → Instant) (m n : Machine) (ms : List Machine)
    → Has n (m ∷ ms)
    → earliest (f m) (map f ms) ≤ f n
unfolding earliest
earliest-le f m n [] (inl e) = subst (λ k. f m ≤ f k) e (omega arith)
earliest-le f m n [] (inr has) = absurd (has tt)
earliest-le f m n (k ∷ ms) (inl e) =
    subst (λ x. min (f m) (earliest (f k) (map f ms)) ≤ f x) e (omega arith)
earliest-le f m n (k ∷ ms) (inr has) = omega (arith, earliest-le f k n ms has)

-- The first instant at which one of the machines is free.
abbrev pub IsReturn : Instant → List Machine → Option Instant → Type 0
IsReturn at ms none = ms ≡ []
IsReturn at ms (some t) =
    (at < t)
    × ((m : Machine) × Has m ms × IsFree m at t)
    × ((m : Machine) (u : Instant) → Has m ms → IsFree m at u → t ≤ u)

abbrev pub IsWait : Instant → List Machine → Option Blocker → Type 0
IsWait at ms none = (m : Machine) × Has m ms × IsFree m at at
IsWait at ms (some b) = IsReturn at ms b.resolves_at

from_available-le : (o : Option Instant) (at : Instant) → at ≤ from_available o at
from_available-le none at = omega arith
from_available-le (some u) at = omega arith

machine_wait-IsWait :
    (at : Instant) (ms : List Machine)
    → IsWait at ms (machine_wait at (map (λ m. machine_available_at m at) ms))
unfolding machine_wait
machine_wait-IsWait at [] = refl
machine_wait-IsWait at (m ∷ ms) =
    let f : Machine → Instant = λ k. machine_available_at k at in
    elim (Bool-cases (any (λ u. leb u at) (f m ∷ map f ms))) [
      | inl e ↦
          let (n, has, le) = now-of_any f at (m ∷ ms) e in
          let (free, _) = machine_available_at-IsFirst n at in
          let here : f n ≡ at = omega (arith, le, free.0, from_available-le n.available_from at) in
          rw e (n, has, subst (IsFree n at) here free)
      | inr e ↦
          let (n, has, is, later) = earliest-of f at m ms e in
          let (free, _) = machine_available_at-IsFirst n at in
          rw e (
            omega (arith, is, later),
            (n, has, subst (IsFree n at) (sym is) free),
            λ k u there clear.
                let first = (machine_available_at-IsFirst k at).1 u clear in
                omega (arith, earliest-le f m k ms there, first),
          )
    ]

-- When `_machine_blocker` finds no blocker, an eligible machine of the snapshot is free at `at`; when
-- it finds one that resolves, that is after `at` and the first instant from `at` on at which one of
-- those machines is free; and when it finds one that does not resolve, there is no such machine.
pub machine_blocker-IsWait :
    (order : Order) (op : Operation) (s : PlanningSnapshot) (at : Instant)
    (hard : List HardConstraint)
    → IsWait at
        (known_machines s (evaluate_eligibility op s at hard (some order)).eligible)
        (machine_blocker order op s at hard)
unfolding machine_blocker
machine_blocker-IsWait order op s at hard =
    machine_wait-IsWait at
      (known_machines s (evaluate_eligibility op s at hard (some order)).eligible)
