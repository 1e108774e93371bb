-- ===== src/Scheduling/Placement/Laws.antt =====
-- The theorems about `place_on_calendar` and `place_span`
-- (backend/app/engines/scheduling/machine_assignment.py).
use athena_order_priority.Prelude.{
  ℕ, zero, suc, ◌+◌, ◌≡◌, refl, sym, ◌∙◌, subst, ◌≤◌, ◌<◌, true, false, List, [], ◌∷◌, none, some,
  inl, inr, ltb, All, length, Bool-cases, Option-cases, if◌then◌else◌, arith,
}
use athena_order_priority.Domain.Window.{Instant, TimeWindow}
use athena_order_priority.Calendar.Machine.{MachineCalendar, is_working}
use athena_order_priority.Calendar.Work.{found}
use athena_order_priority.Calendar.Work.Next.{Starts, next_working_time-Starts}
use athena_order_priority.Calendar.Work.Laws.{
  IsLively, add_work_total, add_work-add, Ends-of_found, next_working_time_total,
}
use athena_order_priority.Scheduling.Placement.{
  Placement, Span, meets, conflict, work_from, try_at, settle, place_loop, place_on_calendar,
  span_at, span_settle, span_loop, place_span,
}

-- How many windows end after `t`.
ahead : Instant → List TimeWindow → ℕ
ahead t [] = 0
ahead t (w ∷ ws) = (if ltb t w.end then 1 else 0) + ahead t ws

ahead-le-length : (t : Instant) (ws : List TimeWindow) → ahead t ws ≤ length ws
unfolding ahead
ahead-le-length t [] = omega arith
ahead-le-length t (w ∷ ws) = ground (arith, ahead-le-length t ws)

ahead-anti : (t u : Instant) (ws : List TimeWindow) → t ≤ u → ahead u ws ≤ ahead t ws
unfolding ahead
ahead-anti t u [] h = omega arith
ahead-anti t u (w ∷ ws) h = ground (arith, ahead-anti t u ws h)

-- Behind a window that is met, fewer windows are ahead.
ahead-conflict :
    (t s e : Instant) (ws : List TimeWindow) (w : TimeWindow)
    → t ≤ s
    → conflict s e ws ≡ some w
    → (suc (ahead w.end ws) ≤ ahead t ws) × (t < w.end)
unfolding conflict ahead
ahead-conflict t s e [] w h found_it = cc
ahead-conflict t s e (v ∷ vs) w h found_it = elim (Bool-cases (meets s e v)) [
  | inl met ↦
      let first : some v ≡ some w = rw met at found_it in
      let fewer = ahead-anti t v.end vs (ground arith) in ground (arith, first, fewer)
  | inr clear ↦
      let rest = ahead-conflict t s e vs w h (rw clear at found_it) in ground (arith, rest)
]

conflict-none :
    (s e : Instant) (ws : List TimeWindow)
    → conflict s e ws ≡ none
    → All (λ w. meets s e w ≡ false) ws
unfolding conflict
conflict-none s e [] h = tt
conflict-none s e (w ∷ ws) h = elim (Bool-cases (meets s e w)) [
  | inl met ↦ absurd (ground (arith, met))
  | inr clear ↦ (clear, conflict-none s e ws (ground (arith, clear)))
]

-- The two instants that `place_span` reports.
abbrev pub to_span : Placement → Span
to_span p = record { setup_start = p.setup_start; end = p.end }

-- `t` is not before the start of the work, and the work runs forward.
abbrev pub IsForward : MachineCalendar → Instant → Placement → Type 0
IsForward c t p =
    (t ≤ p.setup_start)
    × (is_working c p.setup_start ≡ true)
    × (p.setup_start ≤ p.start)
    × (p.start ≤ p.end)

-- What a placement from `t` has to be.
abbrev pub IsPlaced : MachineCalendar → List TimeWindow → Instant → Placement → Type 0
IsPlaced c reserved t p = IsForward c t p × All (λ w. meets p.setup_start p.end w ≡ false) reserved

module _ (c : MachineCalendar) (lively : IsLively c) where
  work_from_total : (t m : ℕ) → (u : Instant) × (work_from c t m ≡ found u) × (t ≤ u)
  unfolding work_from
  work_from_total t zero = (t, refl, omega arith)
  work_from_total t (suc m) =
      let (u, e) = add_work_total c t m lively in (u, e, omega (arith, (Ends-of_found c t m u e).0))

  work_from-add :
      (t a b u v : ℕ)
      → work_from c t a ≡ found u
      → work_from c u b ≡ found v
      → work_from c t (a + b) ≡ found v
  unfolding work_from
  work_from-add t zero b u v first second =
      let same : t ≡ u = ground (arith, first) in
      let sum : zero + b ≡ b = omega arith in rw (sum, same) second
  work_from-add t (suc a) zero u v first second =
      let same : u ≡ v = ground (arith, second) in
      let sum : suc a + zero ≡ suc a = omega arith in rw sum (rw same at first)
  work_from-add t (suc a) (suc b) u v first second =
      let sum : suc a + suc b ≡ suc (a + suc b) = omega arith in
      rw sum (rw sum at (add_work-add c t a b u v lively first second))

  try_at_total :
      (setup run : ℕ) (t : Instant)
      → (p : Placement) × (try_at c setup run t ≡ found p)
        × IsForward c t p
        × (span_at c (setup + run) t ≡ found (to_span p))
  unfolding try_at span_at
  try_at_total setup run t =
      let (s, es) = next_working_time_total c t lively in
      let (b, eb, hb) = work_from_total s setup in
      let (e, ee, he) = work_from_total b run in
      let first = subst (Starts c t) es (next_working_time-Starts c t) in
      (
        record { setup_start = s; start = b; end = e },
        rw es (rw eb (rw ee refl)),
        (first.0, first.1, hb, he),
        rw es (rw (work_from-add s setup run b e eb ee) refl),
      )

  module _ (setup run : ℕ) (reserved : List TimeWindow) where
    place_loop_total :
        (rounds : ℕ) (t : Instant)
        → ahead t reserved ≤ rounds
        → (p : Placement) × (place_loop c setup run reserved rounds t ≡ found p)
          × IsPlaced c reserved t p
          × (span_loop c (setup + run) reserved rounds t ≡ found (to_span p))
    unfolding place_loop span_loop
    place_loop_total zero t h =
        let (p, e, f, es) = try_at_total setup run t in
        elim (Option-cases (conflict p.setup_start p.end reserved)) [
          | inl clear ↦ (p, e, (f, conflict-none p.setup_start p.end reserved clear), es)
          | inr met ↦
              let behind = ahead-conflict t p.setup_start p.end reserved met.0 f.0 met.1 in
              absurd (omega (arith, behind))
        ]
    place_loop_total (suc rounds) t h =
        let (p, e, f, es) = try_at_total setup run t in
        elim (Option-cases (conflict p.setup_start p.end reserved)) [
          | inl clear ↦ (
            p,
            rw e (rw (clear, settle) refl),
            (f, conflict-none p.setup_start p.end reserved clear),
            rw es (rw (clear, span_settle) refl),
          )
          | inr met ↦
              let behind = ahead-conflict t p.setup_start p.end reserved met.0 f.0 met.1 in
              let (q, eq, g, eqs) = place_loop_total rounds (met.0).end (omega (arith, behind)) in
              (
                q,
                rw e (rw (met.1, settle) eq),
                ((omega (arith, g.0.0, behind), g.0.1, g.0.2, g.0.3), g.1),
                rw es (rw (met.1, span_settle) eqs),
              )
        ]

    -- On a lively calendar a placement is found. It starts its setup at a working instant not before
    -- `earliest`, runs forward, and meets none of the reserved windows.
    pub place_on_calendar-IsPlaced :
        (earliest : Instant)
        → (p : Placement) × (place_on_calendar c setup run reserved earliest ≡ found p)
          × IsPlaced c reserved earliest p
    unfolding place_on_calendar
    place_on_calendar-IsPlaced earliest =
        let (p, e, placed, es) =
          place_loop_total (length reserved) earliest (ahead-le-length earliest reserved) in
        (p, e, placed)

    -- The cheap form agrees: one walk over setup and run together finds the same start and end.
    pub place_span-place_on_calendar :
        (earliest : Instant) (p : Placement)
        → place_on_calendar c setup run reserved earliest ≡ found p
        → place_span c (setup + run) reserved earliest ≡ found (to_span p)
    unfolding place_on_calendar place_span
    place_span-place_on_calendar earliest p e =
        let (q, eq, placed, es) =
          place_loop_total (length reserved) earliest (ahead-le-length earliest reserved) in
        let same : found q ≡ found p = sym eq ∙ e in cc
