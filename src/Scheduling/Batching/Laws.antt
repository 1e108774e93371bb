-- ===== src/Scheduling/Batching/Laws.antt =====
-- The theorems about `pick_next` (backend/app/engines/scheduling/batching.py).
use athena_order_priority.Prelude.{
  ℕ, zero, suc, ◌+◌, ◌≡◌, refl, sym, ◌∙◌, ◌≤◌, Bool, true, false, ◌||◌, List, [], ◌∷◌, ◌++◌, Option,
  none, some, ◌⊎◌, inl, inr, ltb, All, All-append, length, is_nil, ltb-false→le, Bool-cases,
  Option-cases, arith,
}
use mathlib.Core.List.{append_assoc}
use athena_order_priority.Domain.Window.{Instant}
use athena_order_priority.Domain.Keys.{Key}
use athena_order_priority.Calendar.Machine.{MachineCalendar}
use athena_order_priority.Calendar.Work.{Found, found, add_work}
use athena_order_priority.Calendar.Work.Laws.{IsLively, add_work_total, next_working_time_total}
use athena_order_priority.Scheduling.Batching.{
  BatchCandidate, BatchDecision, BatchingConfig, MachineState, finish, late, check_job,
  due_dates_hold, unless_late, shared_dimensions, pull, try_pull, scan, pick_next,
}

-- A job that no other job may pass.
abbrev pub is_fixed : BatchCandidate → Bool
is_fixed c = c.forced_next || c.locked

-- A calendar, where there is one, does not run out of working time.
abbrev pub IsUsable : Option MachineCalendar → Type 0
IsUsable none = Unit
IsUsable (some c) = IsLively c

finish_total :
    (s : MachineState) (calendar : Option MachineCalendar) (m : ℕ)
    → IsUsable calendar
    → (u : Instant) × (finish s calendar m ≡ found u)
unfolding finish add_work
finish_total s none m h = (s.next_free + m, refl)
finish_total s (some c) zero h = next_working_time_total c s.next_free h
finish_total s (some c) (suc m) h = add_work_total c s.next_free m h

-- The work ends by the due date, where there is one.
abbrev pub EndsBy : Found Instant → Option Instant → Type 0
EndsBy r none = Unit
EndsBy r (some due) = (end : Instant) × (r ≡ found end) × (end ≤ due)

module _ (s : MachineState) (calendar : Option MachineCalendar) (extra : ℕ) where
  -- The job ends by its due date when `cumulative + extra` of work is done before it ends.
  abbrev pub MeetsDue : BatchCandidate → ℕ → Type 0
  MeetsDue job cumulative = EndsBy (finish s calendar (cumulative + extra)) job.due_date

  -- Each job meets its due date after the jobs before it, itself and the extra work.
  abbrev pub AreOnTime : List BatchCandidate → ℕ → Type 0
  AreOnTime [] cumulative = Unit
  AreOnTime (job ∷ jobs) cumulative =
      MeetsDue job (cumulative + job.duration) × AreOnTime jobs (cumulative + job.duration)

  check_job_lem :
      (job : BatchCandidate) (cumulative : ℕ)
      → IsUsable calendar
      → (v : Option Key) × (check_job s calendar extra job cumulative ≡ found v)
        × (v ≡ none → MeetsDue job cumulative)
  unfolding check_job late
  check_job_lem job cumulative h = elim (Option-cases job.due_date) [
    | inl e ↦ rw e (none, refl, λ v. tt)
    | inr (due, e) ↦
        let (end, ends) = finish_total s calendar (cumulative + extra) h in
        rw e (rw ends (late job.order_id due end, refl, λ v. (end, refl, in_time due end v)))
  ]
    where
      in_time : (due end : Instant) → late job.order_id due end ≡ none → end ≤ due
      in_time due end v = ground (arith, v)

  pub due_dates_hold_lem :
      (jobs : List BatchCandidate) (cumulative : ℕ)
      → IsUsable calendar
      → (v : Option Key) × (due_dates_hold s calendar extra jobs cumulative ≡ found v)
        × (v ≡ none → AreOnTime jobs cumulative)
  unfolding due_dates_hold
  due_dates_hold_lem [] cumulative h = (none, refl, λ v. tt)
  due_dates_hold_lem (job ∷ jobs) cumulative h =
      let (v, e, meets) = check_job_lem job (cumulative + job.duration) h in
      let (w, f, rest) = due_dates_hold_lem jobs (cumulative + job.duration) h in
      rw e (join v w _ f meets rest)
    where
      join :
          (v w : Option Key) (r : Found (Option Key))
          → r ≡ found w
          → (v ≡ none → MeetsDue job (cumulative + job.duration))
          → (w ≡ none → AreOnTime jobs (cumulative + job.duration))
          → (x : Option Key) × (unless_late (λ order. found (some order)) r v ≡ found x)
            × (x ≡ none → AreOnTime (job ∷ jobs) cumulative)
      join none w r f meets rest = (w, f, λ e. (meets refl, rest e))
      join (some order) w r f meets rest = (some order, refl, λ e. ground (arith, e))

-- Why `pick_next` may take `d.chosen`: it is the head, or it is a later job of the queue that
-- shares the machine's setup, is close to the head in score, delays it by no more than the limit,
-- passes no fixed job and makes no passed job late.
pub record IsPulled (head : BatchCandidate) (s : MachineState) (config : BatchingConfig)
    (calendar : Option MachineCalendar) (queue : List BatchCandidate) (d : BatchDecision)
    : Type 0 where
  pub passed : List BatchCandidate
  pub after : List BatchCandidate
  pub in_queue : queue ≡ passed ++ d.chosen ∷ after
  pub counted : d.bypassed ≡ length passed
  pub not_fixed : is_fixed d.chosen ≡ false
  pub none_fixed : All (λ c. is_fixed c ≡ false) passed
  pub close : head.score ≤ d.chosen.score + config.min_priority_gap
  pub short : d.chosen.duration ≤ config.max_delay
  pub shared : is_nil (shared_dimensions d.chosen s config) ≡ false
  pub on_time : AreOnTime s calendar d.chosen.duration passed 0

module _ (head : BatchCandidate) (s : MachineState) (config : BatchingConfig)
    (calendar : Option MachineCalendar) where
  abbrev pub IsAllowed : List BatchCandidate → BatchDecision → Type 0
  IsAllowed queue d =
      ((d.chosen ≡ head) × (d.pulled_forward ≡ false))
      ⊎ ((d.pulled_forward ≡ true) × IsPulled head s config calendar queue d)

  Picks : List BatchCandidate → Found BatchDecision → Type 0
  Picks queue r = (d : BatchDecision) × (r ≡ found d) × IsAllowed queue d

  -- The rules for `c`, which is not fixed and close in score.
  scan_try :
      (queue passed : List BatchCandidate) (c : BatchCandidate) (cs : List BatchCandidate)
      → IsUsable calendar
      → queue ≡ passed ++ c ∷ cs
      → All (λ x. is_fixed x ≡ false) passed
      → is_fixed c ≡ false
      → ltb (c.score + config.min_priority_gap) head.score ≡ false
      → (next : Found BatchDecision) → Picks queue next
      → Picks queue (try_pull s config calendar passed c next)
  unfolding Picks try_pull
  scan_try queue passed c cs h e free fixed close next picks =
      elim (Bool-cases (is_nil (shared_dimensions c s config))) [
        | inl t ↦ rw t picks
        | inr shared ↦ elim (Bool-cases (ltb config.max_delay c.duration)) [
          | inl t ↦ rw shared (rw t picks)
          | inr short ↦
              let (v, f, meets) = due_dates_hold_lem s calendar c.duration passed 0 h in
              rw shared (rw short (rw f (go v shared short meets)))
        ]
      ]
    where
      go :
          (v : Option Key)
          → is_nil (shared_dimensions c s config) ≡ false
          → ltb config.max_delay c.duration ≡ false
          → (v ≡ none → AreOnTime s calendar c.duration passed 0)
          → Picks queue (unless_late (λ order. next) (found (pull s config passed c)) v)
      go none shared short meets = (
        _,
        refl,
        inr (
          refl,
          record {
            passed = passed;
            after = cs;
            in_queue = e;
            counted = refl;
            not_fixed = fixed;
            none_fixed = free;
            close = ltb-false→le (c.score + config.min_priority_gap) head.score close;
            short = ltb-false→le config.max_delay c.duration short;
            shared = shared;
            on_time = meets refl;
          },
        ),
      )
      go (some order) shared short meets = picks

  scan_lem :
      (queue passed rest : List BatchCandidate)
      → IsUsable calendar
      → queue ≡ passed ++ rest
      → All (λ c. is_fixed c ≡ false) passed
      → Picks queue (scan head s config calendar passed rest)
  unfolding Picks scan
  scan_lem queue passed [] h e free = (_, refl, inl (refl, refl))
  scan_lem queue passed (c ∷ cs) h e free = elim (Bool-cases (is_fixed c)) [
    | inl t ↦ rw t (_, refl, inl (refl, refl))
    | inr fixed ↦ elim (Bool-cases (ltb (c.score + config.min_priority_gap) head.score)) [
      | inl t ↦ rw fixed (rw t (_, refl, inl (refl, refl)))
      | inr close ↦
          let next =
            scan_lem queue (passed ++ c ∷ []) cs h (e ∙ sym (append_assoc passed (c ∷ []) cs))
              (All-append (λ x. is_fixed x ≡ false) passed (c ∷ []) free (fixed, tt)) in
          rw fixed (rw close (scan_try queue passed c cs h e free fixed close _ next))
    ]
  ]

  pub pick_next_lem :
      (rest : List BatchCandidate)
      → IsUsable calendar
      → (d : BatchDecision) × (pick_next (head ∷ rest) s config calendar ≡ found (some d))
        × IsAllowed (head ∷ rest) d
  unfolding pick_next Picks
  pick_next_lem rest h = elim (Bool-cases config.enabled) [
    | inr off ↦ rw off (_, refl, inl (refl, refl))
    | inl on ↦ elim (Bool-cases (is_fixed head)) [
      | inl t ↦ simp (on) (rw t (_, refl, inl (refl, refl)))
      | inr free ↦ elim (Bool-cases (is_nil (shared_dimensions head s config))) [
        | inr t ↦ simp (on) (rw free (rw t (_, refl, inl (refl, refl))))
        | inl none_shared ↦
            let (d, e, ok) = scan_lem (head ∷ rest) (head ∷ []) rest h refl (free, tt) in
            simp (on) (rw free (rw none_shared (rw e (d, refl, ok))))
      ]
    ]
  ]
